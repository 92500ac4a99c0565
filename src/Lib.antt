-- ===== src/Lib.antt =====
-- A verification library for the trading engine: models of the parts of the Python packages under
-- src/ that decide what is traded, how large, and on which bars, and theorems about them.
--
-- The parts and how they interact. Ingestion turns quotes into bars (the resampler, on the buckets
-- of the timeframes) and completes from vendor history those that it joined late; every record
-- carries the scope that it belongs to. A strategy decides on closed bars unless the bar gate stops
-- it; what it decides, an intent, goes to the signal factory, which attaches the stop and the targets,
-- asks the sizing rule for the quantity, checks the payload, and keeps the book of open cycles. Live,
-- the runner puts the payload into an outbox and sends it to the broker, and once it is delivered its
-- effect is committed to the book. In a backtest the same payload goes to the fill simulator, which
-- walks the positions over the bars and tells the book what became of them. The bot pages through
-- what is stored.
--
-- Which file models which part:
--   Timeframes     src/qte_shared/timeframes.py: `normalize_timeframe`, `floor_to_bucket`, ...
--                  Instants are microseconds since 1970 in UTC. Labels: the spellings; Buckets: the
--                  arithmetic.
--   Models         src/qte_shared/models.py: `Tick`, `Candle`, `SignalAction`. Signals: the payload,
--                  its id as `BrokerSignal` spells it, and `validate_shape`;
--                  Positions: `OpenPosition` and `apply_close`.
--   Resampler      src/qte_ingestion/resampler.py: the class `Resampler` as a record, each method a
--                  function of the same name that returns the bars and the next state. `visit` is one
--                  turn of the loop in `add_tick`. Ledger, Invariant: the order of the closed
--                  buckets; Ticks, Flush, Events: what each operation keeps of it, and any sequence of
--                  them; Bars: the prices of a bar; Closing: what a timer closes.
--   Repair         src/qte_ingestion/repair.py: `repair` and `merge_partial_bar`; Merging: what they
--                  keep of the bar.
--   Execution      src/qte_backtest/execution.py: `CostModel`, `SimulatedPosition` and
--                  `FillSimulator`. Statistics: the figures of a position; Sizes, Walk, Stops and
--                  Excursions: what one bar does to it.
--   Backtest       src/qte_backtest/replay.py: `BacktestEngine`. Strategy: `_apply` and the loop over
--                  the bars; Running: `run`; Market: `sample_market`, `count_gaps`. Syncing, Applying,
--                  Told: the factory's book beside the open positions; Accounts, Counters, Shut,
--                  Ending, Runs: what a bar and a run do; Drawn: what a report draws.
--   StrategySettings  src/qte_shared/strategies/strategy_settings.py: `WeekendFlatPolicy`,
--                  `resolve_warmup`; Window: the weekly closure as an interval.
--   Costs          src/qte_backtest/costs.py: `resolve_costs`, `CostProfile`. Parsing: `_parse`;
--                  Paid, Parsed: the sign of a cost; Quoted: where it comes from.
--   HistoryCache   src/qte_shared/history_cache.py: `merge_frames`, `covers` and `fetch_history`;
--                  Merged: what a merge holds.
--   Sizing         src/qte_shared/strategies/sizing.py: `PositionSizer`; Settings: where it comes from;
--                  Limits, Configured: its ceilings.
--   SignalFactory  src/qte_shared/strategies/signal_factory.py: the book, `commit` and its kin.
--                  Intents: `SignalIntent` and `BracketPolicy.apply`; Preparing, Building: `build`;
--                  Accepted, Settling, Entries, Closes, Clamped, Untouched: what it lets through,
--                  refuses and leaves alone; Deliveries, Replay, Closing, Keyed: what `commit` does
--                  to the book; Filed, OwnIds: what every operation keeps of it.
--   Delivery       src/qte_strategy_engine/runner.py and db/repository.py beside it: the outbox.
--                  Emitting: `_emit`; Recovering: `_recover_pending_deliveries`; Steps: the runner
--                  as a state machine; Once, Finishing, Attempts, Emissions: the calls to the
--                  broker; Blocking: the pairs that are held back.
--   StateScope     src/qte_shared/state_scope.py: `StateScope` and the stamping of market data.
--   BarGate        src/qte_shared/bar_gate.py: `BarGate` and its stored form.
--   Pagination     src/qte_bot/pagination.py: `paginate` and the buttons between pages.
--   Floats         the interface to the numbers of Python, below.
--   Prelude        shared types, tests, lists, dictionaries, text and integers.
--   Tests          the definitions at concrete inputs, and an instance of each theorem.
--
-- How the code corresponds. A class is a record and a method a function from the state to the next
-- one; what a method returns besides comes in a pair. `None` is `none`; a `ValueError` is `none` or an
-- `err` that names it. A dictionary is an association list in the order of insertion, with `insert`
-- and `erase` as Python's assignment and `pop` place them. Loops are recursion on the list that they
-- run over, so none needs fuel; the walk over pages is bounded by the number of rows.
--
-- What is assumed. Floats are the finite floats of the machine: an interface, `Floats`, with the order
-- and a few laws of rounded arithmetic, none of which is associativity or distribution; `Decimals` is
-- the same for `decimal.Decimal` with its conversions. `Floats/Whole` fills both with whole numbers,
-- so the laws can hold together. Not-a-number and infinity, which the code rejects where they could
-- enter a size, are left out. Text is ASCII. The present moment and the ids drawn at random are
-- arguments.
--
-- What is not modelled: the services around these parts (ingestion, the rest of the runner, bot,
-- simulator, audit), which are asynchronous loops over Redis, NATS, Postgres and Telegram; the
-- loading of plugins; the reading of configuration, the costs of a backtest excepted; the metrics of a
-- report and its charts; log lines, tokens and free-form dictionaries.
pub mod Prelude
pub mod Floats
pub mod Timeframes
pub mod StrategySettings
pub mod Models
pub mod Resampler
pub mod Repair
pub mod Execution
pub mod Sizing
pub mod SignalFactory
pub mod Backtest
pub mod Delivery
pub mod Costs
pub mod HistoryCache
pub mod StateScope
pub mod BarGate
pub mod Pagination
pub mod Tests
