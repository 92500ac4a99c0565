-- ===== src/Backtest/Strategy.antt =====
-- `_apply`, the loop over the bars and the end of the run, of src/qte_backtest/replay.py. A strategy
-- is a parameter: the state that it keeps, and what it returns on a closed bar, once `as_intents`
-- has made a list of it.
use quant_trading_engine.Backtest.{
  BacktestEngine, change_at, drop_closed, fill_close, fill_entry, sync_cycle,
}
use quant_trading_engine.Execution.{
  Bar, CostModel, SimulatedPosition, close_at, exit_end_of_data, is_open, process_bar,
}
use quant_trading_engine.Floats.{Decimals, Float, Floats}
use quant_trading_engine.Models.{flat_close, is_entry, price}
use quant_trading_engine.Models.Signals.{BrokerSignal}
use quant_trading_engine.Prelude.{
  Bool, Dict, Key-Text, Key-ℕ, List, Option, Result, Text, [], codes, drop, err, false,
  if◌then◌else◌, length, map, none, ok, or_else, some, true, ℕ, ◌&&◌, ◌++◌, ◌+◌, ◌-◌, ◌∷◌,
}
use quant_trading_engine.SignalFactory.{open_cycles}
use quant_trading_engine.SignalFactory.Building.{build}
use quant_trading_engine.SignalFactory.Intents.{SignalIntent}
use quant_trading_engine.SignalFactory.Preparing.{BuildError}
use quant_trading_engine.StrategySettings.{covers}
use quant_trading_engine.Timeframes.{Key-Timeframe}

module _ ⦃F : Floats⦄ ⦃D : Decimals⦄ where
  -- What is drawn for each intent: the id of a cycle and the present moment.
  pub record Draws : Type 0 where
    pub ids : ℕ → Text
    pub moments : ℕ → ℕ

  -- How many intents went through `_apply`.
  abbrev pub applied : BacktestEngine → ℕ
  applied e = length e.signals + e.rejected + e.rejected_closes

  abbrev pub refuse : Bool → BacktestEngine → BacktestEngine
  refuse true e = record e { rejected = e.rejected + 1 }
  refuse false e = record e { rejected_closes = e.rejected_closes + 1 }

  unfoldable pub fill : Bool → BrokerSignal → Text → ℕ → Float → BacktestEngine → BacktestEngine
  unfolding fill_entry fill_close
  fill true signal reason bar_time close e = fill_entry signal bar_time close e
  fill false signal reason bar_time close e = fill_close signal reason bar_time close e

  unfoldable pub book_build :
      SignalIntent
      → ℕ
      → Float
      → BacktestEngine
      → Result BuildError (SignalIntent × BrokerSignal)
      → BacktestEngine
  unfolding fill drop_closed sync_cycle
  book_build i bar_time close e (err _) = refuse (is_entry i.action) e
  book_build i bar_time close e (ok (_, signal)) =
      let e' = record e { signals = e.signals ++ signal ∷ [] } in
      sync_cycle (drop_closed (fill (is_entry i.action) signal i.reason bar_time close e'))

  unfoldable pub apply_intent : Draws → SignalIntent → ℕ → Float → BacktestEngine → BacktestEngine
  unfolding book_build build
  apply_intent draws i bar_time close e =
      let n = applied e in
      let priced = record i { price = some (or_else i.price close) } in
      let (f, r) = build (draws.ids n) priced e.symbol bar_time true (draws.moments n) e.factory in
      book_build priced bar_time close (record e { factory = f }) r

  -- An entry that falls into the weekend window is counted and dropped.
  unfoldable pub take_intent :
      Draws → Bool → SignalIntent → ℕ → Float → BacktestEngine → BacktestEngine
  unfolding apply_intent is_entry
  take_intent draws shut i bar_time close e =
      if shut && is_entry i.action
      then record e { blocked = e.blocked + 1 }
      else apply_intent draws i bar_time close e

  unfoldable pub take_intents :
      Draws → Bool → List SignalIntent → ℕ → Float → BacktestEngine → BacktestEngine
  unfolding take_intent
  take_intents draws shut [] bar_time close e = e
  take_intents draws shut (i ∷ is) bar_time close e =
      take_intents draws shut is bar_time close (take_intent draws shut i bar_time close e)

  -- `_flatten_for_the_weekend`
  unfoldable pub flat_intent : Text → Float → Text → SignalIntent
  flat_intent symbol close uxid = record {
    action = flat_close;
    symbol = some symbol;
    price = some close;
    quantity = none;
    sl = none;
    tp1 = none;
    tp2 = none;
    risk_percent = none;
    tp1_percent = none;
    move_sl_to_be = none;
    use_equity_sizing = none;
    is_running = none;
    is_scale_position = none;
    scale_strategy = none;
    scaling = none;
    signal_uxid = some uxid;
    reason = codes "WEEKEND_FLAT";
  }

  unfoldable pub flatten : Draws → ℕ → Float → BacktestEngine → BacktestEngine
  unfolding take_intents flat_intent open_cycles
  flatten draws bar_time close e =
      take_intents draws false (map (flat_intent e.symbol close) (open_cycles e.symbol e.factory))
        bar_time close e

  -- The bar's range is applied to each open position.
  unfoldable pub walk_open :
      CostModel → Bar → ℕ → Dict Text ℕ → List SimulatedPosition → List SimulatedPosition
  unfolding process_bar
  walk_open costs bar t [] ps = ps
  walk_open costs bar t ((_, n) ∷ opened) ps =
      walk_open costs bar t opened (change_at (process_bar costs bar t) ps n)

  unfoldable pub start_bar : Bar → ℕ → BacktestEngine → BacktestEngine
  unfolding walk_open drop_closed sync_cycle
  start_bar bar t e =
      sync_cycle
        (drop_closed (record e { positions = walk_open e.costs bar t e.opened e.positions }))

  -- What a strategy is told: `now`, `open_uxids` and `open_uxid`.
  pub record Context : Type 0 where
    pub now : ℕ
    pub open_uxids : List Text
    pub open_uxid : Option Text

  abbrev pub Row : Type 0
  Row = ℕ × Bar

  pub record Strategy {ℓ} (State : Type ℓ) : Type ℓ where
    pub on_start : Context → State
    pub on_candle_closed : List Row → Context → State → State × List SignalIntent

  abbrev pub last_id : List Text → Option Text
  last_id [] = none
  last_id (u ∷ us) = some (or_else (last_id us) u)

  unfoldable pub context_at : ℕ → BacktestEngine → Context
  unfolding open_cycles
  context_at t e =
      let uxids = open_cycles e.symbol e.factory in
      record { now = t; open_uxids = uxids; open_uxid = last_id uxids }

  abbrev pub last_rows : Option ℕ → List Row → List Row
  last_rows none rows = rows
  last_rows (some n) rows = drop (length rows - n) rows

  -- The rest of a bar, after the strategy has decided: its intents, and the flat of a shut market.
  unfoldable pub act : Draws → Bool → List SignalIntent → Row → BacktestEngine → BacktestEngine
  unfolding take_intents flatten
  act draws shut intents (t, bar) e =
      let e' = take_intents draws shut intents t bar.close e in
      if shut then flatten draws t bar.close e' else e'

  module _ {ℓ} {State : Type ℓ} (strategy : Strategy State) (zone : ℕ → ℕ) (draws : Draws) where
    -- One turn of the loop: the state and the engine after it, given the rows up to this one.
    unfoldable pub turn :
        Option ℕ → List Row → Row → State × BacktestEngine → State × BacktestEngine
    unfolding start_bar context_at act covers
    turn window seen row (s, e) =
        let e' = start_bar row.1 row.0 e in
        let (s', intents) =
          strategy.on_candle_closed (last_rows window seen) (context_at row.0 e') s in
        (s', act draws (covers e.weekend_flat (zone row.0)) intents row e')

    -- The loop, over the rows after those that were seen.
    unfoldable pub replay :
        Option ℕ → List Row → List Row → State × BacktestEngine → State × BacktestEngine
    unfolding turn
    replay window seen [] se = se
    replay window seen (row ∷ rows) se =
        let seen' = seen ++ row ∷ [] in replay window seen' rows (turn window seen' row se)

  -- The positions that are still open at the last bar are closed at its close.
  unfoldable pub mark_out : CostModel → ℕ → Float → SimulatedPosition → SimulatedPosition
  unfolding close_at is_open
  mark_out costs t price p =
      if is_open p then close_at costs t price exit_end_of_data none none p else p

  unfoldable pub close_all :
      CostModel → ℕ → Float → Dict Text ℕ → List SimulatedPosition → List SimulatedPosition
  unfolding mark_out
  close_all costs t price [] ps = ps
  close_all costs t price ((_, n) ∷ opened) ps =
      close_all costs t price opened (change_at (mark_out costs t price) ps n)

  unfoldable pub end_run : Row → BacktestEngine → BacktestEngine
  unfolding close_all
  end_run (t, bar) e = record e { positions = close_all e.costs t bar.close e.opened e.positions }
