-- ===== src/Tests/BacktestTests.antt =====
-- src/qte_backtest/replay.py at concrete inputs.
use quant_trading_engine.Backtest.{BacktestEngine}
use quant_trading_engine.Backtest.Accounts.{accounted}
use quant_trading_engine.Backtest.Applying.{Tracks}
use quant_trading_engine.Backtest.Counters.{Counts, take_intents-counted}
use quant_trading_engine.Backtest.Drawn.{IsDrawn, drawable_series-IsFirstFit}
use quant_trading_engine.Backtest.Market.{drawable_series}
use quant_trading_engine.Backtest.Running.{RunSettings, new_engine}
use quant_trading_engine.Backtest.Shut.{turn-shut}
use quant_trading_engine.Backtest.Strategy.{
  Draws, Row, Strategy, context_at, replay, start_bar, take_intents, turn,
}
use quant_trading_engine.Backtest.Told.{IsHeld, replay-InSync, told_open}
use quant_trading_engine.Execution.{Bar, CostModel}
use quant_trading_engine.Floats.{fabs, fmin, is_zero}
use quant_trading_engine.Floats.Whole.{whole, whole_decimals}
use quant_trading_engine.Models.{is_entry, price}
use quant_trading_engine.Prelude.{
  All, Key-Text, Key-pair, Key-ℕ, List, [], codes, erase, insert, length, lookup, none, refl, some,
  suc, true, ℕ, ◌++◌, ◌+◌, ◌∷◌, ◌≡◌,
}
use quant_trading_engine.Prelude.Int.{pos}
use quant_trading_engine.StrategySettings.{WeekendFlatPolicy, covers, undeclared}
use quant_trading_engine.Tests.Fixtures.{empty_factory, long_intent}
use quant_trading_engine.Timeframes.{Key-Timeframe}

abbrev flat_costs : CostModel
flat_costs = record {
  spread = pos 0;
  slippage = pos 0;
  commission_per_unit = pos 0;
  contract_size = pos 1;
}

abbrev bar_to : ℕ → Bar
bar_to price = record { open_price = pos 100; high = pos 100; low = pos price; close = pos 100 }

-- A minute each; the third reaches a stop at 90.
abbrev rows : List Row
rows = (60000000, bar_to 95) ∷ (120000000, bar_to 94) ∷ (180000000, bar_to 89) ∷ []

-- Buys on each bar, and counts the bars.
abbrev buyer : Strategy ℕ
buyer = record { on_start = λ _. 0; on_candle_closed = λ _ _ n. (suc n, long_intent ∷ []) }

abbrev draws : Draws
draws = record { ids = λ n. codes "00000000000000" ++ (b'0' + n) ∷ b'0' ∷ []; moments = λ n. n }

abbrev same_zone : ℕ → ℕ
same_zone t = t

abbrev weekend : WeekendFlatPolicy
weekend = record {
  enabled = true;
  flat_from = some (record { weekday = 4; minute_of_day = 1290 });
  flat_until = some (record { weekday = 0; minute_of_day = 60 });
  extra_windows = [];
}

abbrev engine : BacktestEngine
unfolding new_engine
engine = new_engine (codes "xauusd") flat_costs (pos 1) weekend empty_factory

abbrev long_run : RunSettings
long_run = record {
  timeframe = codes "M1";
  declared_warmup = 2;
  max_history = none;
  warmup_param = undeclared;
  zone = same_zone;
  draws = draws;
  resample = λ _ rows. rows;
}

replay-InSync_example :
    Tracks
      (replay buyer same_zone draws none [] rows
        (0, new_engine (codes "xauusd") flat_costs (pos 1) weekend empty_factory)).1
replay-InSync_example =
    replay-InSync buyer same_zone draws none [] rows 0 (codes "xauusd") flat_costs (pos 1) weekend
      empty_factory refl

-- The stop of the first two positions is reached on the third bar, after which a third is opened.
three_positions : length (replay buyer same_zone draws none [] rows (0, engine)).1.positions ≡ 3
unfolding replay engine lookup is_zero fabs insert fmin erase
three_positions = refl

the_last_stays_open :
    (context_at 0 (replay buyer same_zone draws none [] rows (0, engine)).1).open_uxids
    ≡ codes "0000000000000020" ∷ []
unfolding context_at lookup replay engine is_zero fabs insert fmin erase
the_last_stays_open = refl

told_open_example :
    (let e =
        (replay buyer same_zone draws none [] rows
          (0, new_engine (codes "xauusd") flat_costs (pos 1) weekend empty_factory)).1 in
      All
        (IsHeld (start_bar (bar_to 89) 240000000 e))
        (context_at 240000000 (start_bar (bar_to 89) 240000000 e)).open_uxids)
told_open_example =
    told_open buyer same_zone draws none [] rows 0 (codes "xauusd") flat_costs (pos 1) weekend
      empty_factory 240000000 (bar_to 89) refl

take_intents-counted_example :
    (let e' = take_intents draws true (long_intent ∷ long_intent ∷ []) 7 (pos 100) engine in
      (accounted e' ≡ accounted engine + 2) × Counts true 2 0 engine e')
unfolding is_entry
take_intents-counted_example =
    take_intents-counted draws true (long_intent ∷ long_intent ∷ []) 7 (pos 100) engine

-- A Saturday, 1970-01-03.
turn-shut_example :
    length (turn buyer same_zone draws none [] (172800000000, bar_to 95) (0, engine)).1.positions
    ≡ length engine.positions
unfolding covers engine
turn-shut_example = turn-shut buyer same_zone draws none [] (172800000000, bar_to 95) 0 engine refl

-- The frame is too long for two rows, and so is every aggregation that does nothing.
abbrev as_it_is : ℕ → List Row → List Row
as_it_is s rows = rows

drawable_series-IsFirstFit_example : IsDrawn as_it_is rows (codes "H4") 2 (codes "D1", rows)
unfolding drawable_series
drawable_series-IsFirstFit_example =
    drawable_series-IsFirstFit as_it_is rows (codes "H4") 2 (codes "D1", rows) refl
