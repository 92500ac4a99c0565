-- ===== src/Models/Signals.antt =====
-- The payload that goes to the broker: `PositionBlock` and `BrokerSignal` of
-- src/qte_shared/models.py, with the checks made before one is published. The free-form
-- `indicators` and `inputs` dictionaries, which nothing here reads, and `token` are left out.

-- What a `ValueError` of `validate_shape` says.
use quant_trading_engine.Floats.{Float, Floats}
use quant_trading_engine.Models.{Direction, SignalAction, is_entry, price, side_of, signed}
use quant_trading_engine.Prelude.{
  Bool, Option, Text, [], false, if◌then◌else◌, leb, length, nat_eq, none, not, some, strip, true,
  upper, ℕ, ◌&&◌, ◌||◌, ◌∷◌,
}

pub data ShapeError : Type 0 where
  missing_size bad_quantity wrong_side_stop wrong_side_target : ShapeError

-- `UXID_LENGTH`, `UXID_PATTERN` and `is_valid_uxid`
abbrev pub uxid_length : ℕ
uxid_length = 16

abbrev is_uxid_char : ℕ → Bool
is_uxid_char c = (leb b'0' c && leb c b'9') || (leb b'A' c && leb c b'Z')

unfoldable pub all_uxid_chars : Text → Bool
all_uxid_chars [] = true
all_uxid_chars (c ∷ s) = is_uxid_char c && all_uxid_chars s

unfoldable pub is_valid_uxid : Text → Bool
unfolding all_uxid_chars
is_valid_uxid s = nat_eq (length s) uxid_length && all_uxid_chars s

-- `_fill_or_validate_uxid` on an id, with the one that `new_uxid` would return; `none` is an
-- exception.
unfoldable pub uxid_or : Text → Text → Option Text
unfolding is_valid_uxid
uxid_or fresh [] = some fresh
uxid_or fresh (c ∷ s) =
    let normalised = upper (c ∷ s) in if is_valid_uxid normalised then some normalised else none

unfoldable pub fill_or_validate_uxid : Text → Text → Option Text
unfolding uxid_or strip
fill_or_validate_uxid fresh value = uxid_or fresh (strip value)

module _ ⦃F : Floats⦄ where
  open F use {of_ℕ, lt, sub}

  pub record Scaling : Type 0 where
    pub tp : Option Float
    pub sl : Option Float
    pub quantity : Option Float

  pub record PositionBlock : Type 0 where
    pub action : SignalAction
    pub price : Option Float
    pub quantity : Option Float
    pub sl : Option Float
    pub tp1 : Option Float
    pub tp2 : Option Float
    pub risk_percent : Option Float
    pub tp1_percent : Option Float
    pub move_sl_to_be : Option Bool
    pub use_equity_sizing : Option Bool
    pub is_running : Option Bool
    pub is_scale_position : Option Bool
    pub scale_strategy : Option Text
    pub scaling : Option Scaling

  pub record BrokerSignal : Type 0 where
    pub strategy : Text
    pub symbol : Text
    pub timeframe : Text
    pub timestamp : ℕ
    pub signal_uxid : Text
    pub position : PositionBlock

  -- `(position.sl - price) * direction > 0`
  unfoldable pub stop_is_wrong : Direction → Float → Option Float → Bool
  stop_is_wrong d price none = false
  stop_is_wrong d price (some stop) = lt (of_ℕ 0) (signed d (sub stop price))

  -- `(level - price) * direction < 0`
  unfoldable pub target_is_wrong : Direction → Float → Option Float → Bool
  target_is_wrong d price none = false
  target_is_wrong d price (some level) = lt (signed d (sub level price)) (of_ℕ 0)

  -- `_validate_bracket`, where the price is stated.
  unfoldable pub validate_bracket : PositionBlock → Float → Option ShapeError
  unfolding stop_is_wrong target_is_wrong
  validate_bracket b price =
      let d = side_of b.action in
      if stop_is_wrong d price b.sl
      then some wrong_side_stop
      else if target_is_wrong d price b.tp1
      then some wrong_side_target
      else if target_is_wrong d price b.tp2
      then some wrong_side_target
      else none

  unfoldable pub validate_entry : Option Float → Option Float → PositionBlock → Option ShapeError
  unfolding validate_bracket
  validate_entry (some price) (some quantity) b =
      if not (lt (of_ℕ 0) quantity) then some bad_quantity else validate_bracket b price
  validate_entry _ _ b = some missing_size

  -- `validate_shape`: the error that it raises, if any.
  unfoldable pub validate_shape : PositionBlock → Option ShapeError
  unfolding is_entry validate_entry
  validate_shape b = if is_entry b.action then validate_entry b.price b.quantity b else none
