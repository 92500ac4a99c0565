-- ===== src/SignalFactory.antt =====
-- src/qte_shared/strategies/signal_factory.py: the open cycles of one strategy, by symbol and
-- `signal_uxid`, and what a delivered signal does to them. Symbols reach the book upper-cased.
-- A delivery id that is given is not empty. The moment that `utcnow` returns is an argument.
pub mod Deliveries
pub mod Replay
pub mod Closing
pub mod Intents
pub mod Preparing
pub mod Building
pub mod Accepted
pub mod Settling
pub mod Entries
pub mod Closes
pub mod Keyed
pub mod Filed
pub mod OwnIds
pub mod Clamped
pub mod Untouched
use quant_trading_engine.Floats.{Float, Floats}
use quant_trading_engine.Models.{is_entry, price}
use quant_trading_engine.Models.Positions.{OpenPosition, apply_close}
use quant_trading_engine.Models.Signals.{BrokerSignal}
use quant_trading_engine.Prelude.{
  Bool, Dict, Key-Text, Key-ℕ, List, Option, Text, [], erase, false, if◌then◌else◌, insert, is_some,
  lookup, map, none, or_else, some, upper, ℕ, ◌++◌, ◌==◌, ◌||◌, ◌∷◌,
}
use quant_trading_engine.Sizing.{PositionSizer}
use quant_trading_engine.Timeframes.{Key-Timeframe}

module _ ⦃F : Floats⦄ where
  open F use {of_ℕ}

  -- `BracketPolicy`
  pub record BracketPolicy : Type 0 where
    pub sl_pct : Float
    pub tp1_r : Float
    pub tp2_r : Float
    pub tp1_percent : Float
    pub move_sl_to_be : Bool
    pub risk_percent : Option Float

  abbrev pub Cycles : Type 0
  Cycles = Dict Text OpenPosition

  pub record SignalFactory : Type 0 where
    pub strategy_name : Text
    pub timeframe : Text
    pub bracket : BracketPolicy
    pub sizer : PositionSizer
    pub default_quantity : Option Float
    pub use_equity_sizing : Option Bool
    pub book : Dict Text Cycles
    pub pending_scale : Dict Text Float

  -- `self._book.get(symbol, {})`
  unfoldable pub cycles_of : Text → SignalFactory → Cycles
  cycles_of symbol f = or_else (lookup symbol f.book) []

  -- `open_cycles`, oldest first.
  unfoldable pub open_cycles : Text → SignalFactory → List Text
  unfolding cycles_of
  open_cycles symbol f = map (λ e. e.0) (cycles_of (upper symbol) f)

  abbrev pub last_value : Cycles → Option OpenPosition
  last_value [] = none
  last_value ((_, p) ∷ cycles) = some (or_else (last_value cycles) p)

  abbrev pub last_key : Cycles → Option Text
  last_key [] = none
  last_key ((uxid, _) ∷ cycles) = some (or_else (last_key cycles) uxid)

  -- `open_cycle`: the most recent one.
  unfoldable pub open_cycle : Text → SignalFactory → Option Text
  unfolding cycles_of
  open_cycle symbol f = last_key (cycles_of (upper symbol) f)

  -- The `open_position` of a factory: the named cycle, or the most recent.
  unfoldable pub find_position : Text → Option Text → SignalFactory → Option OpenPosition
  unfolding cycles_of
  find_position symbol (some uxid) f = lookup uxid (cycles_of (upper symbol) f)
  find_position symbol none f = last_value (cycles_of (upper symbol) f)

  unfoldable pub positions_for : Text → SignalFactory → List OpenPosition
  unfolding cycles_of
  positions_for symbol f = map (λ e. e.1) (cycles_of (upper symbol) f)

  -- `self._book.setdefault(key, {})[uxid] = position`
  unfoldable pub put_cycle : Text → Text → OpenPosition → SignalFactory → SignalFactory
  unfolding cycles_of
  put_cycle symbol uxid p f = record f {
    book = insert symbol (insert uxid p (cycles_of symbol f)) f.book;
  }

  -- `symbol or position.symbol`, where an empty text counts as missing.
  abbrev pub text_or : Text → Text → Text
  text_or [] d = d
  text_or (c ∷ s) d = c ∷ s

  unfoldable pub restore_position : OpenPosition → Option Text → SignalFactory → SignalFactory
  unfolding put_cycle
  restore_position p symbol f =
      let key = upper (text_or (or_else symbol []) p.symbol) in
      put_cycle key p.signal_uxid
        (record p { symbol = key; strategy = text_or p.strategy f.strategy_name }) f

  unfoldable pub restore_positions : Dict Text OpenPosition → SignalFactory → SignalFactory
  unfolding restore_position
  restore_positions [] f = f
  restore_positions ((symbol, p) ∷ positions) f =
      restore_positions positions (restore_position p (some symbol) f)

  -- The cycles of a symbol without one of them; a symbol with none left is dropped.
  abbrev pub drop_cycle : Text → Text → Cycles → SignalFactory → SignalFactory
  drop_cycle key uxid [] f = record f { book = erase key f.book }
  drop_cycle key uxid (e ∷ left) f = record f { book = insert key (e ∷ left) f.book }

  abbrev pub forget_one : Text → Text → Option Cycles → SignalFactory → SignalFactory
  forget_one key uxid none f = f
  forget_one key uxid (some cycles) f = drop_cycle key uxid (erase uxid cycles) f

  -- `forget_cycle`: one cycle, or all of the symbol's.
  unfoldable pub forget_cycle : Text → Option Text → SignalFactory → SignalFactory
  forget_cycle symbol none f = record f {
    book = erase (upper symbol) f.book;
    pending_scale = erase (upper symbol) f.pending_scale;
  }
  forget_cycle symbol (some uxid) f =
      let key = upper symbol in forget_one key uxid (lookup key f.book) f

  -- The cycle that a delivered entry opens.
  unfoldable pub entry_position : BrokerSignal → Float → Option Text → OpenPosition
  entry_position signal scale delivery_id =
      let block = signal.position in
      record {
        state_namespace = none;
        signal_uxid = signal.signal_uxid;
        strategy = signal.strategy;
        symbol = upper signal.symbol;
        action = block.action;
        opened_at = signal.timestamp;
        updated_at = signal.timestamp;
        price = block.price;
        quantity = block.quantity;
        remaining = block.quantity;
        sl = block.sl;
        tp1 = block.tp1;
        tp2 = block.tp2;
        risk_percent = block.risk_percent;
        tp1_percent = block.tp1_percent;
        move_sl_to_be = block.move_sl_to_be;
        use_equity_sizing = block.use_equity_sizing;
        is_scale_position = block.is_scale_position;
        scale_strategy = block.scale_strategy;
        scaling = block.scaling;
        scale = scale;
        tp1_filled = false;
        applied_delivery_ids = elim delivery_id [ none ↦ [] | some id ↦ id ∷ [] ];
      }

  -- `commit` of an entry. A replayed one finds its cycle open and changes nothing: the key of the
  -- book that `setdefault` would add is there already.
  unfoldable pub commit_entry : BrokerSignal → Option Text → SignalFactory → SignalFactory
  unfolding put_cycle entry_position
  commit_entry signal delivery_id f =
      let symbol = upper signal.symbol in
      if is_some (lookup signal.signal_uxid (cycles_of symbol f))
      then f
      else (let scale = or_else (lookup symbol f.pending_scale) (of_ℕ 1) in
          put_cycle symbol signal.signal_uxid (entry_position signal scale delivery_id)
            (record f { pending_scale = erase symbol f.pending_scale }))

  unfoldable pub contains : Text → List Text → Bool
  contains t [] = false
  contains t (u ∷ us) = u == t || contains t us

  -- `delivery_id and delivery_id in position.applied_delivery_ids`
  unfoldable pub is_applied : Option Text → OpenPosition → Bool
  unfolding contains
  is_applied none p = false
  is_applied (some id) p = contains id p.applied_delivery_ids

  abbrev pub note_delivery : Option Text → OpenPosition → OpenPosition
  note_delivery none p = p
  note_delivery (some id) p = record p { applied_delivery_ids = p.applied_delivery_ids ++ id ∷ [] }

  -- `commit` of a close, on the cycle that the book holds under its id.
  unfoldable pub close_cycle :
      Option OpenPosition → BrokerSignal → Option Text → ℕ → SignalFactory → SignalFactory
  unfolding is_applied forget_cycle put_cycle
  close_cycle none signal delivery_id now f = f
  close_cycle (some p) signal delivery_id now f =
      let symbol = upper signal.symbol in
      let (booked, is_over) = apply_close signal.position.action signal.position.quantity now p in
      if is_applied delivery_id p
      then f
      else if is_over
      then forget_cycle symbol (some signal.signal_uxid) f
      else put_cycle symbol signal.signal_uxid (note_delivery delivery_id booked) f

  unfoldable pub commit : BrokerSignal → Option Text → ℕ → SignalFactory → SignalFactory
  unfolding commit_entry close_cycle cycles_of is_entry
  commit signal delivery_id now f =
      if is_entry signal.position.action
      then commit_entry signal delivery_id f
      else (let symbol = upper signal.symbol in
          close_cycle (lookup signal.signal_uxid (cycles_of symbol f)) signal delivery_id now f)

  -- `pending_delivery_context`, `restore_pending_delivery_context` and
  -- `discard_pending_delivery_context`
  unfoldable pub pending_context : Text → SignalFactory → Float
  pending_context symbol f = or_else (lookup (upper symbol) f.pending_scale) (of_ℕ 1)

  unfoldable pub restore_pending_context : Text → Option Float → SignalFactory → SignalFactory
  restore_pending_context symbol none f = f
  restore_pending_context symbol (some scale) f = record f {
    pending_scale = insert (upper symbol) scale f.pending_scale;
  }

  unfoldable pub discard_pending_context : Text → SignalFactory → SignalFactory
  discard_pending_context symbol f = record f {
    pending_scale = erase (upper symbol) f.pending_scale;
  }
