-- ===== src/Sizing.antt =====
-- src/qte_shared/strategies/sizing.py: how big an entry is. Floats here are finite, so the tests of
-- `isfinite` pass and are left out; so are the tests of Python types. What raises `ValueError`
-- in the source returns `err`.
pub mod Settings
pub mod Limits
pub mod Configured
use quant_trading_engine.Floats.{Decimals, Float, Floats, fmin, is_zero}
use quant_trading_engine.Models.{price}
use quant_trading_engine.Prelude.{
  Bool, Option, Result, err, false, if◌then◌else◌, ltb, none, not, ok, or_else, some, ℕ, ◌||◌,
}

pub data SizingError : Type 0 where
  bad_setting bad_request no_budget no_stop_distance bad_quantity_request below_step bad_ceiling :
      SizingError

module _ ⦃F : Floats⦄ where
  open F use {of_ℕ, lt, mul, div}

  -- `PositionSizer`
  pub record PositionSizer : Type 0 where
    pub capital : Float
    pub risk_percent : Float
    pub contract_size : Float
    pub max_quantity : Option Float
    pub precision : ℕ
    pub max_risk_percent : Option Float
    pub dynamic_risk : Bool

  abbrev pub is_negative : Option Float → Bool
  is_negative none = false
  is_negative (some x) = lt x (of_ℕ 0)

  abbrev pub is_not_positive : Option Float → Bool
  is_not_positive none = false
  is_not_positive (some x) = not (lt (of_ℕ 0) x)

  -- `__post_init__`
  unfoldable pub check_sizer : PositionSizer → Result SizingError PositionSizer
  check_sizer s =
      if lt s.capital (of_ℕ 0)
        || lt s.risk_percent (of_ℕ 0)
        || not (lt (of_ℕ 0) s.contract_size)
        || is_negative s.max_quantity
        || is_not_positive s.max_risk_percent
        || ltb 12 s.precision
      then err bad_setting
      else ok s

  unfoldable pub budget_for : PositionSizer → Float → Float
  budget_for s percent = div (mul s.capital percent) (of_ℕ 100)

  -- The risk that an intent asks for, on a pair of either kind.
  unfoldable pub wanted_risk : PositionSizer → Option Float → Result SizingError Float
  wanted_risk s none = ok s.risk_percent
  wanted_risk s (some requested) =
      if s.dynamic_risk
      then (if not (lt (of_ℕ 0) requested) then err bad_request else ok requested)
      else ok s.risk_percent

  unfoldable pub capped_risk : Option Float → Float → Float
  capped_risk none wanted = wanted
  capped_risk (some ceiling) wanted = if lt ceiling wanted then ceiling else wanted

  unfoldable pub risk_for : PositionSizer → Option Float → Result SizingError Float
  unfolding wanted_risk capped_risk
  risk_for s requested = elim (wanted_risk s requested) [
    | err e ↦ err e
    | ok wanted ↦ ok (capped_risk s.max_risk_percent wanted)
  ]

  -- `resolve_risk_ceiling`, on the pair's `max_risk_percent` once it has been read as a float.
  unfoldable pub resolve_risk_ceiling :
      Option Float → Float → Bool → Option Float → Result SizingError (Option Float)
  resolve_risk_ceiling stated base_risk dynamic_risk account_ceiling =
      if not dynamic_risk
      then ok account_ceiling
      else (let pair_ceiling = or_else stated base_risk in
          if lt pair_ceiling base_risk
          then err bad_ceiling
          else ok (
              some (elim account_ceiling [
                | none ↦ pair_ceiling
                | some account ↦ fmin pair_ceiling account
              ])))

module _ ⦃F : Floats⦄ ⦃D : Decimals⦄ where
  open F use {of_ℕ, lt, mul}
  open D use {
    Decimal, of_float, to_float, zero_dec, hundred, dec_lt, dec_sub, dec_abs, dec_mul, dec_div,
    quantize, round_to,
  }

  -- `min(bounded, ceiling)` where a ceiling is set; 0 means none.
  unfoldable pub bounded_by : Option Float → Decimal → Decimal
  bounded_by none quantity = quantity
  bounded_by (some ceiling) quantity =
      if is_zero ceiling
      then quantity
      else if dec_lt (of_float ceiling) quantity
      then of_float ceiling
      else quantity

  unfoldable pub limit_quantity : PositionSizer → Decimal → Result SizingError Float
  unfolding bounded_by
  limit_quantity s quantity =
      let rounded = quantize s.precision (bounded_by s.max_quantity quantity) in
      if not (dec_lt zero_dec quantity)
      then err bad_quantity_request
      else if not (dec_lt zero_dec rounded)
      then err below_step
      else ok (to_float rounded)

  -- The rule: budget over stop distance over contract size.
  unfoldable pub risk_quantity : PositionSizer → Float → Float → Float → Result SizingError Float
  unfolding limit_quantity
  risk_quantity s price stop entry_risk =
      let stop_distance = dec_abs (dec_sub (of_float price) (of_float stop)) in
      let risk_budget = dec_div (dec_mul (of_float s.capital) (of_float entry_risk)) hundred in
      if not (dec_lt zero_dec stop_distance)
      then err no_stop_distance
      else limit_quantity s (dec_div risk_budget (dec_mul stop_distance (of_float s.contract_size)))

  abbrev sized_at :
      PositionSizer → Float → Option Float → Option Float → Result SizingError (Option Float)
  unfolding risk_quantity
  sized_at s entry_risk (some price) (some stop) = elim (risk_quantity s price stop entry_risk) [
    | err e ↦ err e
    | ok quantity ↦ ok (some quantity)
  ]
  sized_at s entry_risk _ _ = ok none

  -- `size`: `ok none` where the price or the stop is missing.
  unfoldable pub size :
      PositionSizer → Option Float → Option Float → Option Float → Result SizingError (Option Float)
  unfolding risk_quantity budget_for
  size s price stop percent =
      let entry_risk = or_else percent s.risk_percent in
      if not (lt (of_ℕ 0) (budget_for s entry_risk))
      then err no_budget
      else sized_at s entry_risk price stop

  -- `rescale` of a stated quantity.
  unfoldable pub rescale : PositionSizer → Float → Float → Float
  rescale s quantity factor = round_to s.precision (mul quantity factor)
