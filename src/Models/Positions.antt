-- ===== src/Models/Positions.antt =====
-- `OpenPosition` of src/qte_shared/models.py: one trade cycle, and how a close is booked on it.
-- The moment that `utcnow` returns is an argument.
use quant_trading_engine.Floats.{Float, Floats, fabs, fmax, fmin}
use quant_trading_engine.Models.{SignalAction, is_terminal, is_tp1}
use quant_trading_engine.Models.Signals.{Scaling}
use quant_trading_engine.Prelude.{Bool, List, Option, Text, false, none, not, some, ℕ, ◌||◌}

module _ ⦃F : Floats⦄ where
  open F use {of_ℕ, epsilon, lt, sub, mul, div}

  pub record OpenPosition : Type 0 where
    pub state_namespace : Option Text
    pub signal_uxid : Text
    pub strategy : Text
    pub symbol : Text
    pub action : SignalAction
    pub opened_at : ℕ
    pub updated_at : ℕ
    pub price : Option Float
    pub quantity : Option Float
    pub remaining : Option Float
    pub sl : Option Float
    pub tp1 : Option Float
    pub tp2 : Option Float
    pub risk_percent : Option Float
    pub tp1_percent : Option Float
    pub move_sl_to_be : Option Bool
    pub use_equity_sizing : Option Bool
    pub is_scale_position : Option Bool
    pub scale_strategy : Option Text
    pub scaling : Option Scaling
    pub scale : Float
    pub tp1_filled : Bool
    pub applied_delivery_ids : List Text

  -- `OpenPosition.is_flat`
  unfoldable pub is_flat : Option Float → Bool
  is_flat none = false
  is_flat (some remaining) = not (lt epsilon remaining)

  unfoldable pub remaining_or : Option Float → Option Float → Float
  remaining_or (some remaining) fallback = remaining
  remaining_or none (some quantity) = quantity
  remaining_or none none = of_ℕ 0

  -- `OpenPosition.share`, of the entry size and what remains.
  unfoldable pub share : Option Float → Option Float → Option Float → Option Float
  unfolding remaining_or
  share (some quantity) remaining (some percent) =
      some (fmin (div (mul quantity percent) (of_ℕ 100)) (remaining_or remaining (some quantity)))
  share _ remaining _ = none

  -- What a close leaves: `max(0.0, remaining - abs(quantity))` where both are known.
  unfoldable pub left_after : Option Float → Option Float → Option Float
  left_after (some remaining) (some quantity) = some (fmax (of_ℕ 0) (sub remaining (fabs quantity)))
  left_after remaining _ = remaining

  -- `OpenPosition.apply_close`: the position after it, and whether the cycle is over.
  unfoldable pub apply_close : SignalAction → Option Float → ℕ → OpenPosition → OpenPosition × Bool
  unfolding left_after is_flat is_terminal
  apply_close action quantity now p =
      let remaining = left_after p.remaining quantity in
      (
        record p {
          remaining = remaining;
          tp1_filled = is_tp1 action || p.tp1_filled;
          updated_at = now;
        },
        is_terminal action || is_flat remaining,
      )
