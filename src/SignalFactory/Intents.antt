-- ===== src/SignalFactory/Intents.antt =====
-- What a strategy decided, the `SignalIntent` of src/qte_shared/strategies/strategy_base.py, and
-- what src/qte_shared/strategies/signal_factory.py fills in where it said nothing. The free-form
-- `indicators` and `inputs` are left out.
-- The first of two that is set.
use quant_trading_engine.Floats.{Float, Floats, fabs}
use quant_trading_engine.Models.{Direction, SignalAction, is_entry, is_terminal, side_of, signed}
use quant_trading_engine.Models.Positions.{OpenPosition}
use quant_trading_engine.Models.Signals.{PositionBlock, Scaling}
use quant_trading_engine.Prelude.{
  Bool, Option, Text, false, if◌then◌else◌, none, not, or_else, some, ◌&&◌,
}
use quant_trading_engine.SignalFactory.{BracketPolicy}

abbrev pub first_some {ℓ} : {A : Type ℓ} → Option A → Option A → Option A
first_some (some a) b = some a
first_some none b = b

module _ ⦃F : Floats⦄ where
  open F use {of_ℕ, epsilon, lt, add, sub, mul, div}

  pub record SignalIntent : Type 0 where
    pub action : SignalAction
    pub symbol : Option Text
    pub price : Option Float
    pub quantity : Option Float
    pub sl : Option Float
    pub tp1 : Option Float
    pub tp2 : Option Float
    pub risk_percent : Option Float
    pub tp1_percent : Option Float
    pub move_sl_to_be : Option Bool
    pub use_equity_sizing : Option Bool
    pub is_running : Option Bool
    pub is_scale_position : Option Bool
    pub scale_strategy : Option Text
    pub scaling : Option Scaling
    pub signal_uxid : Option Text
    pub reason : Text

  unfoldable pub to_position_block : SignalIntent → PositionBlock
  to_position_block i = record {
    action = i.action;
    price = i.price;
    quantity = i.quantity;
    sl = i.sl;
    tp1 = i.tp1;
    tp2 = i.tp2;
    risk_percent = i.risk_percent;
    tp1_percent = i.tp1_percent;
    move_sl_to_be = i.move_sl_to_be;
    use_equity_sizing = i.use_equity_sizing;
    is_running = i.is_running;
    is_scale_position = i.is_scale_position;
    scale_strategy = i.scale_strategy;
    scaling = i.scaling;
  }

  -- The level that `BracketPolicy.apply` puts in where none is set: `price + direction * risk * r`.
  abbrev pub target_at : Direction → Float → Float → Float → Option Float
  target_at d entry risk r =
      if lt (of_ℕ 0) risk then some (add entry (mul (signed d risk) r)) else none

  -- No nearer target is made up for a bracket with the second one alone.
  abbrev pub nearer_target : Option Float → Direction → Float → Float → Float → Option Float
  nearer_target (some tp2) d entry risk r = none
  nearer_target none d entry risk r = target_at d entry risk r

  unfoldable pub default_stop : BracketPolicy → Direction → Float → Float
  default_stop b d entry = mul entry (sub (of_ℕ 1) (div (signed d b.sl_pct) (of_ℕ 100)))

  -- `BracketPolicy.apply`, where the price is stated.
  unfoldable pub apply_at : BracketPolicy → Float → SignalIntent → SignalIntent
  unfolding default_stop
  apply_at b entry i =
      let d = side_of i.action in
      let stop = or_else i.sl (default_stop b d entry) in
      let risk = fabs (sub entry stop) in
      record i {
        sl = some stop;
        tp1 = first_some i.tp1 (nearer_target i.tp2 d entry risk b.tp1_r);
        tp2 = first_some i.tp2 (target_at d entry risk b.tp2_r);
        tp1_percent = some (or_else i.tp1_percent b.tp1_percent);
        move_sl_to_be = some (or_else i.move_sl_to_be b.move_sl_to_be);
        risk_percent = first_some i.risk_percent b.risk_percent;
      }

  unfoldable pub apply : BracketPolicy → SignalIntent → SignalIntent
  unfolding apply_at is_entry
  apply b i =
      if not (is_entry i.action)
      then i
      else elim i.price [ none ↦ i | some entry ↦ apply_at b entry i ]

  -- `_still_running`, of the sized close.
  unfoldable pub still_running : SignalAction → Option Float → Option Float → Option Bool
  unfolding is_terminal
  still_running action (some remaining) (some quantity) =
      some (not (is_terminal action) && lt epsilon (sub remaining (fabs quantity)))
  still_running action remaining quantity = if is_terminal action then some false else none

  -- `_carry_entry_context`
  unfoldable pub carry_entry_context : OpenPosition → SignalIntent → SignalIntent
  unfolding still_running
  carry_entry_context p i = record i {
    risk_percent = first_some p.risk_percent i.risk_percent;
    tp1_percent = first_some i.tp1_percent p.tp1_percent;
    move_sl_to_be = first_some i.move_sl_to_be p.move_sl_to_be;
    use_equity_sizing = first_some i.use_equity_sizing p.use_equity_sizing;
    is_scale_position = first_some i.is_scale_position p.is_scale_position;
    scale_strategy = first_some i.scale_strategy p.scale_strategy;
    scaling = first_some i.scaling p.scaling;
    is_running = first_some i.is_running (still_running i.action p.remaining i.quantity);
  }
