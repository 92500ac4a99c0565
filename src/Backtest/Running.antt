-- ===== src/Backtest/Running.antt =====
-- `BacktestEngine.__init__` and `run` of src/qte_backtest/replay.py, and `history_window` of
-- src/qte_shared/strategies/strategy_base.py. Of the result, the metrics and what is copied from the
-- settings are left out; `on_stop` changes nothing that is modelled.
use quant_trading_engine.Backtest.{BacktestEngine}
use quant_trading_engine.Backtest.Market.{MarketWindow, at_least, count_gaps, row_at, sample_market}
use quant_trading_engine.Backtest.Strategy.{Context, Draws, Row, Strategy, end_run, replay}
use quant_trading_engine.Execution.{CostModel}
use quant_trading_engine.Floats.{Decimals, Float, Floats}
use quant_trading_engine.Prelude.{
  List, Option, Result, Text, [], drop, err, if◌then◌else◌, length, ltb, none, ok, some, suc, take,
  upper, zero, ℕ, ◌*◌, ◌-◌, ◌∷◌,
}
use quant_trading_engine.SignalFactory.{SignalFactory}
use quant_trading_engine.StrategySettings.{
  SettingsError, WarmupParam, WeekendFlatPolicy, resolve_warmup,
}

module _ ⦃F : Floats⦄ ⦃D : Decimals⦄ where
  -- `max_history`, none where it is not declared: 0 is every bar.
  unfoldable pub history_window : ℕ → Option ℕ → Option ℕ
  history_window warmup none = some (at_least (warmup * 2) 400)
  history_window warmup (some zero) = none
  history_window warmup (some (suc n)) = some (suc n)

  unfoldable pub new_engine :
      Text → CostModel → Float → WeekendFlatPolicy → SignalFactory → BacktestEngine
  unfolding upper
  new_engine symbol costs default_quantity weekend_flat factory = record {
    symbol = upper symbol;
    costs = costs;
    default_quantity = default_quantity;
    weekend_flat = weekend_flat;
    factory = factory;
    positions = [];
    signals = [];
    opened = [];
    rejected = 0;
    rejected_closes = 0;
    blocked = 0;
  }

  pub data RunError : Type 0 where
    empty_history : RunError
    no_warmup : SettingsError → RunError
    too_short : RunError
    bad_timeframe : RunError

  -- What `run` returns: the engine's own lists and counts stand in `engine`.
  pub record BacktestResult : Type 0 where
    pub engine : BacktestEngine
    pub warmup : ℕ
    pub bars_run : ℕ
    pub data_start : ℕ
    pub data_end : ℕ
    pub data_gaps : ℕ
    pub market : MarketWindow

  unfoldable pub result_of :
      BacktestEngine
      → ℕ
      → Row
      → List Row
      → Option ℕ
      → Option MarketWindow
      → Result RunError BacktestResult
  result_of e warmup row rows none market = err bad_timeframe
  result_of e warmup row rows (some gaps) none = err bad_timeframe
  result_of e warmup row rows (some gaps) (some market) = ok (record {
    engine = e;
    warmup = warmup;
    bars_run = length (row ∷ rows);
    data_start = row.0;
    data_end = (row_at row rows (length rows)).0;
    data_gaps = gaps;
    market = market;
  })

  -- What the caller gives a run beside the strategy and the frame.
  pub record RunSettings : Type 0 where
    pub timeframe : Text
    pub declared_warmup : ℕ
    pub max_history : Option ℕ
    pub warmup_param : WarmupParam
    pub zone : ℕ → ℕ
    pub draws : Draws
    pub resample : ℕ → List Row → List Row

  module _ {ℓ} {State : Type ℓ} (strategy : Strategy State) (settings : RunSettings) where
    -- `run` from `on_start` to the last bar.
    unfoldable pub replayed : Option ℕ → ℕ → Row → List Row → BacktestEngine → BacktestEngine
    unfolding replay
    replayed window warmup row rows e =
        let frame = row ∷ rows in
        let start : Context = record {
          now = (row_at row rows (warmup - 1)).0;
          open_uxids = [];
          open_uxid = none;
        } in
        let seen = take (warmup - 1) frame in
        let left = drop (warmup - 1) frame in
        (replay strategy settings.zone settings.draws window seen left
          (strategy.on_start start, e)).1

    unfoldable pub run_bars : Option ℕ → ℕ → Row → List Row → BacktestEngine → BacktestEngine
    unfolding replayed end_run
    run_bars window warmup row rows e =
        end_run (row_at row rows (length rows)) (replayed window warmup row rows e)

    unfoldable pub run_from :
        Option ℕ
        → Row
        → List Row
        → BacktestEngine
        → Result SettingsError ℕ
        → Result RunError BacktestResult
    unfolding run_bars result_of count_gaps sample_market
    run_from window row rows e (err x) = err (no_warmup x)
    run_from window row rows e (ok wanted) =
        let warmup = at_least wanted 1 in
        if ltb (length (row ∷ rows)) warmup
        then err too_short
        else result_of (run_bars window warmup row rows e) warmup row rows
            (count_gaps (row ∷ rows) settings.timeframe)
            (sample_market settings.resample row rows warmup settings.timeframe none)

    unfoldable pub run_frame : BacktestEngine → List Row → Result RunError BacktestResult
    unfolding run_from history_window resolve_warmup
    run_frame e [] = err empty_history
    run_frame e (row ∷ rows) =
        let window = history_window settings.declared_warmup settings.max_history in
        run_from window row rows e
          (resolve_warmup settings.declared_warmup window settings.warmup_param)
