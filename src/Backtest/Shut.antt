-- ===== src/Backtest/Shut.antt =====
-- The weekend gate in the loop of src/qte_backtest/replay.py.
use quant_trading_engine.Backtest.{BacktestEngine, change_at, drop_closed, sync_cycle}
use quant_trading_engine.Backtest.Accounts.{
  apply_intent-no_entry, change_at-length, take_intents-shut,
}
use quant_trading_engine.Backtest.Strategy.{
  Draws, Row, Strategy, act, apply_intent, context_at, flat_intent, flatten, last_rows, start_bar,
  take_intent, take_intents, turn, walk_open,
}
use quant_trading_engine.Execution.{Bar, CostModel, SimulatedPosition, process_bar}
use quant_trading_engine.Floats.{Decimals, Float, Floats}
use quant_trading_engine.Prelude.{
  Dict, Key-Text, Key-ℕ, List, Option, Text, [], ap, false, length, map, refl, true, ℕ, ◌∙◌, ◌∷◌,
  ◌≡◌,
}
use quant_trading_engine.SignalFactory.{open_cycles}
use quant_trading_engine.SignalFactory.Intents.{SignalIntent}
use quant_trading_engine.StrategySettings.{covers}
use quant_trading_engine.Timeframes.{Key-Timeframe}

module _ ⦃F : Floats⦄ ⦃D : Decimals⦄ where
  walk_open-length :
      (c : CostModel) (bar : Bar) (t : ℕ) (opened : Dict Text ℕ) (ps : List SimulatedPosition)
      → length (walk_open c bar t opened ps) ≡ length ps
  unfolding walk_open
  walk_open-length c bar t [] ps = refl
  walk_open-length c bar t ((u, n) ∷ opened) ps =
      walk_open-length c bar t opened (change_at (process_bar c bar t) ps n)
      ∙ change_at-length (process_bar c bar t) ps n

  start_bar-length :
      (bar : Bar) (t : ℕ) (e : BacktestEngine)
      → length (start_bar bar t e).positions ≡ length e.positions
  unfolding start_bar sync_cycle drop_closed
  start_bar-length bar t e = walk_open-length e.costs bar t e.opened e.positions

  flats-length :
      (draws : Draws) (symbol : Text) (uxids : List Text) (t : ℕ) (close : Float)
      (e : BacktestEngine)
      → length (take_intents draws false (map (flat_intent symbol close) uxids) t close e).positions
        ≡ length e.positions
  unfolding take_intents take_intent flat_intent
  flats-length draws symbol [] t close e = refl
  flats-length draws symbol (u ∷ uxids) t close e =
      let i = flat_intent symbol close u in
      flats-length draws symbol uxids t close (apply_intent draws i t close e)
      ∙ apply_intent-no_entry draws i t close e refl

  act-shut :
      (draws : Draws) (intents : List SignalIntent) (row : Row) (e : BacktestEngine)
      → length (act draws true intents row e).positions ≡ length e.positions
  unfolding act flatten
  act-shut draws intents (t, bar) e =
      let e' = take_intents draws true intents t bar.close e in
      flats-length draws e'.symbol (open_cycles e'.symbol e'.factory) t bar.close e'
      ∙ take_intents-shut draws intents t bar.close e

  module _ {ℓ} {State : Type ℓ} (strategy : Strategy State) (zone : ℕ → ℕ) (draws : Draws) where
    -- On a bar that the declared window covers no position is opened, whatever the strategy returns.
    pub turn-shut :
        (window : Option ℕ) (seen : List Row) (row : Row) (s : State) (e : BacktestEngine)
        → covers e.weekend_flat (zone row.0) ≡ true
        → length (turn strategy zone draws window seen row (s, e)).1.positions ≡ length e.positions
    unfolding turn
    turn-shut window seen (t, bar) s e shut =
        let e' = start_bar bar t e in
        let (_, intents) = strategy.on_candle_closed (last_rows window seen) (context_at t e') s in
        let same : covers e'.weekend_flat (zone t) ≡ true = shut in
        ap (λ b. length (act draws b intents (t, bar) e').positions) same
        ∙ act-shut draws intents (t, bar) e'
        ∙ start_bar-length bar t e
