-- ===== src/Backtest/Runs.antt =====
-- `run` of src/qte_backtest/replay.py: when it returns, and with what.
use quant_trading_engine.Backtest.{BacktestEngine}
use quant_trading_engine.Backtest.Market.{MarketWindow, row_at}
use quant_trading_engine.Backtest.Running.{BacktestResult, RunSettings, run_bars}
use quant_trading_engine.Backtest.Strategy.{Row, Strategy}
use quant_trading_engine.Floats.{Decimals, Floats}
use quant_trading_engine.Prelude.{List, Option, length, ℕ, ◌∷◌}

module _ ⦃F : Floats⦄ ⦃D : Decimals⦄ where
  module _ {ℓ} {State : Type ℓ} (strategy : Strategy State) (settings : RunSettings) where
    abbrev result :
        Option ℕ → ℕ → Row → List Row → BacktestEngine → ℕ → MarketWindow → BacktestResult
    result window warmup row rows e n m = record {
      engine = run_bars strategy settings window warmup row rows e;
      warmup = warmup;
      bars_run = length (row ∷ rows);
      data_start = row.0;
      data_end = (row_at row rows (length rows)).0;
      data_gaps = n;
      market = m;
    }
