-- ===== src/Backtest.antt =====
-- `BacktestEngine` of src/qte_backtest/replay.py: the replay of one symbol's history. The positions
-- that a run has opened are a list, in which `_open` points by index, so what happens to an open
-- position happens to the one in the report. The ids that `new_uxid` draws and the moments that
-- `utcnow` returns are sequences, one of each to an intent. The wall clock of the market's zone is a
-- parameter; log lines and the figures of the report are left out.
pub mod Strategy
pub mod Syncing
pub mod Applying
pub mod Ending
pub mod Accounts
pub mod Counters
pub mod Running
pub mod Market
pub mod Drawn
pub mod Told
pub mod Shut
pub mod Runs
use quant_trading_engine.Execution.{
  CostModel, ExitReason, Order, SimulatedPosition, close_at, exit_flat, exit_r_sl, exit_sl,
  exit_tp1, exit_tp2, is_open, open_position,
}
use quant_trading_engine.Floats.{Decimals, Float, Floats, is_zero}
use quant_trading_engine.Models.{
  SignalAction, is_tp1, price, r_sl_close, side_of, sl_close, tp1_close, tp2_close,
}
use quant_trading_engine.Models.Positions.{OpenPosition}
use quant_trading_engine.Models.Signals.{BrokerSignal}
use quant_trading_engine.Prelude.{
  Dict, Key-Text, Key-pair, Key-ℕ, List, Option, Text, [], false, if◌then◌else◌, insert, is_some,
  length, lookup, none, or_else, some, suc, true, upper, zero, ℕ, ◌&&◌, ◌++◌, ◌∷◌,
}
use quant_trading_engine.SignalFactory.{Cycles, SignalFactory, cycles_of, forget_cycle, put_cycle}
use quant_trading_engine.SignalFactory.Preparing.{nonempty}
use quant_trading_engine.StrategySettings.{WeekendFlatPolicy}
use quant_trading_engine.Timeframes.{Key-Timeframe}

module _ ⦃F : Floats⦄ ⦃D : Decimals⦄ where
  open F use {of_ℕ}

  pub record BacktestEngine : Type 0 where
    pub symbol : Text
    pub costs : CostModel
    pub default_quantity : Float
    pub weekend_flat : WeekendFlatPolicy
    pub factory : SignalFactory
    pub positions : List SimulatedPosition
    pub signals : List BrokerSignal
    pub opened : Dict Text ℕ
    pub rejected : ℕ
    pub rejected_closes : ℕ
    pub blocked : ℕ

  abbrev pub position_at : List SimulatedPosition → ℕ → Option SimulatedPosition
  position_at [] n = none
  position_at (p ∷ ps) zero = some p
  position_at (p ∷ ps) (suc n) = position_at ps n

  abbrev pub change_at :
      (SimulatedPosition → SimulatedPosition) → List SimulatedPosition → ℕ → List SimulatedPosition
  change_at g [] n = []
  change_at g (p ∷ ps) zero = g p ∷ ps
  change_at g (p ∷ ps) (suc n) = p ∷ change_at g ps n

  abbrev pub if_open : Option SimulatedPosition → Option SimulatedPosition
  if_open none = none
  if_open (some p) = if is_open p then some p else none

  abbrev pub held_at : List SimulatedPosition → Option ℕ → Option SimulatedPosition
  held_at ps none = none
  held_at ps (some n) = if_open (position_at ps n)

  -- The open position of a cycle: `self._open.get(uxid)`, if it `is_open`.
  unfoldable pub filled : BacktestEngine → Text → Option SimulatedPosition
  unfolding is_open
  filled e uxid = held_at e.positions (lookup uxid e.opened)

  -- `_drop_closed`
  unfoldable pub open_only : List SimulatedPosition → Dict Text ℕ → Dict Text ℕ
  unfolding is_open
  open_only ps [] = []
  open_only ps ((uxid, n) ∷ opened) =
      let rest = open_only ps opened in
      if is_some (held_at ps (some n)) then (uxid, n) ∷ rest else rest

  unfoldable pub drop_closed : BacktestEngine → BacktestEngine
  unfolding open_only
  drop_closed e = record e { opened = open_only e.positions e.opened }

  -- `_sync_cycle`, of one cycle of the book: `positions_for` hands out the book's own objects, so
  -- what is set on one is set in the book, if it is still there.
  abbrev pub with_fill : SimulatedPosition → OpenPosition → OpenPosition
  with_fill q p = record p { remaining = some q.remaining; tp1_filled = q.tp1_filled }

  abbrev pub set_fill :
      Text → Text → SimulatedPosition → Option OpenPosition → SignalFactory → SignalFactory
  set_fill symbol uxid q none f = f
  set_fill symbol uxid q (some p) f = put_cycle symbol uxid (with_fill q p) f

  abbrev pub sync_with :
      Text → Text → OpenPosition → Option SimulatedPosition → SignalFactory → SignalFactory
  sync_with symbol uxid p none f = forget_cycle symbol (some p.signal_uxid) f
  sync_with symbol uxid p (some q) f =
      set_fill (upper symbol) uxid q (lookup uxid (cycles_of (upper symbol) f)) f

  unfoldable pub sync_all :
      Text → (Text → Option SimulatedPosition) → Cycles → SignalFactory → SignalFactory
  unfolding put_cycle forget_cycle cycles_of
  sync_all symbol fill [] f = f
  sync_all symbol fill ((uxid, p) ∷ cycles) f =
      sync_all symbol fill cycles (sync_with symbol uxid p (fill p.signal_uxid) f)

  unfoldable pub sync_cycle : BacktestEngine → BacktestEngine
  unfolding sync_all filled cycles_of
  sync_cycle e = record e {
    factory = sync_all e.symbol (filled e) (cycles_of (upper e.symbol) e.factory) e.factory;
  }

  -- `_EXIT_REASONS`
  abbrev pub exit_reason_of : SignalAction → ExitReason
  exit_reason_of tp1_close = exit_tp1
  exit_reason_of tp2_close = exit_tp2
  exit_reason_of sl_close = exit_sl
  exit_reason_of r_sl_close = exit_r_sl
  exit_reason_of _ = exit_flat

  -- `block.quantity or self.default_quantity`
  abbrev pub quantity_or : Option Float → Float → Float
  quantity_or none d = d
  quantity_or (some q) d = if is_zero q then d else q

  unfoldable pub order_of : BacktestEngine → BrokerSignal → ℕ → Float → Order
  order_of e signal bar_time close =
      let block = signal.position in
      record {
        symbol = e.symbol;
        direction = side_of block.action;
        bar_time = bar_time;
        price = or_else block.price close;
        quantity = quantity_or block.quantity e.default_quantity;
        sl = block.sl;
        tp1 = block.tp1;
        tp2 = block.tp2;
        tp1_percent = block.tp1_percent;
        move_sl_to_be = or_else block.move_sl_to_be false;
        signal_uxid = some signal.signal_uxid;
        risk_percent = block.risk_percent;
      }

  unfoldable pub fill_entry : BrokerSignal → ℕ → Float → BacktestEngine → BacktestEngine
  unfolding order_of open_position
  fill_entry signal bar_time close e = record e {
    positions = e.positions ++ open_position e.costs (order_of e signal bar_time close) ∷ [];
    opened = insert signal.signal_uxid (length e.positions) e.opened;
  }

  -- What a first target leaves: the stop at the entry, where that was asked for.
  abbrev pub after_tp1 : SimulatedPosition → SimulatedPosition
  after_tp1 p = record p {
    tp1_filled = true;
    sl = (if p.move_sl_to_be && is_open p then some p.entry_price else p.sl);
  }

  unfoldable pub close_position :
      BrokerSignal → Text → ℕ → Float → CostModel → SimulatedPosition → SimulatedPosition
  unfolding close_at is_open
  close_position signal reason bar_time close costs p =
      let block = signal.position in
      let p' =
        close_at costs bar_time (or_else block.price close) (exit_reason_of block.action)
          block.quantity (nonempty (some reason)) p in
      if is_tp1 block.action then after_tp1 p' else p'

  abbrev pub fill_close_at :
      BrokerSignal → Text → ℕ → Float → Option ℕ → BacktestEngine → BacktestEngine
  fill_close_at signal reason bar_time close none e = e
  fill_close_at signal reason bar_time close (some n) e =
      if is_some (held_at e.positions (some n))
      then record e {
        positions = change_at (close_position signal reason bar_time close e.costs) e.positions n;
      }
      else e

  unfoldable pub fill_close : BrokerSignal → Text → ℕ → Float → BacktestEngine → BacktestEngine
  unfolding close_position is_open
  fill_close signal reason bar_time close e =
      fill_close_at signal reason bar_time close (lookup signal.signal_uxid e.opened) e
