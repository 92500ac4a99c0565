-- ===== src/Sizing/Settings.antt =====
-- `PositionSizer.from_settings` of src/qte_shared/strategies/sizing.py: the sizer of a pair, from the
-- account's settings and the pair's parameters. How Python's `float` reads a text is a parameter;
-- a text that it reads as infinite or as no number is left out. A value that is neither a switch, a
-- number nor a text is as unreadable as a text can be.
use quant_trading_engine.Floats.{Float, Floats, is_zero}
use quant_trading_engine.Prelude.{
  Bool, Option, Result, Text, [], err, false, if◌then◌else◌, none, not, ok, or_else, some, true, ℕ,
  ◌∷◌,
}
use quant_trading_engine.Sizing.{
  PositionSizer, SizingError, bad_ceiling, bad_setting, check_sizer, resolve_risk_ceiling,
}

module _ ⦃F : Floats⦄ where
  open F use {of_ℕ, lt}

  -- A value of a parameters table; `missing` is `None` or no entry.
  pub data Setting : Type 0 where
    missing : Setting
    switch : Bool → Setting
    number : Float → Setting
    text : Text → Setting

  -- The parameters that are read here.
  pub record PairParams : Type 0 where
    pub risk_percent : Setting
    pub dynamic_risk : Setting
    pub max_risk_percent : Setting
    pub use_equity_sizing : Setting

  pub record Account : Type 0 where
    pub capital : Float
    pub risk_percent : Float
    pub contract_size : Float
    pub max_quantity : Option Float
    pub quantity_precision : ℕ
    pub max_risk_percent : Option Float

  -- `_as_float`
  unfoldable pub as_float : (Text → Option Float) → Setting → Option Float
  as_float read (number x) = some x
  as_float read (text t) = read t
  as_float read _ = none

  -- `x or None` on a number.
  unfoldable pub nonzero : Option Float → Option Float
  nonzero none = none
  nonzero (some x) = if is_zero x then none else some x

  unfoldable pub resolve_dynamic_risk : Setting → Result SizingError Bool
  resolve_dynamic_risk missing = ok false
  resolve_dynamic_risk (switch b) = ok b
  resolve_dynamic_risk _ = err bad_setting

  -- `bool(value)`
  unfoldable pub resolve_use_equity_sizing : Setting → Option Bool
  resolve_use_equity_sizing missing = none
  resolve_use_equity_sizing (switch b) = some b
  resolve_use_equity_sizing (number x) = some (not (is_zero x))
  resolve_use_equity_sizing (text []) = some false
  resolve_use_equity_sizing (text (_ ∷ _)) = some true

  -- The pair's `max_risk_percent`: one that is stated for a dynamic pair has to read as a number.
  unfoldable pub ceiling_of :
      (Text → Option Float)
      → Setting
      → Float
      → Bool
      → Option Float
      → Result SizingError (Option Float)
  unfolding as_float resolve_risk_ceiling
  ceiling_of read missing base_risk dynamic_risk account_ceiling =
      resolve_risk_ceiling none base_risk dynamic_risk account_ceiling
  ceiling_of read stated base_risk dynamic_risk account_ceiling = elim (as_float read stated) [
    | some x ↦ resolve_risk_ceiling (some x) base_risk dynamic_risk account_ceiling
    | none ↦
        if dynamic_risk
        then err bad_ceiling
        else resolve_risk_ceiling none base_risk dynamic_risk account_ceiling
  ]

  unfoldable pub first_risk : (Text → Option Float) → Option Float → PairParams → Account → Float
  unfolding as_float
  first_risk read (some stated) params account = stated
  first_risk read none params account =
      or_else (as_float read params.risk_percent) account.risk_percent

  unfoldable pub sizer_of :
      Account → Float → Bool → Result SizingError (Option Float) → Result SizingError PositionSizer
  unfolding check_sizer nonzero
  sizer_of account risk dynamic_risk (err e) = err e
  sizer_of account risk dynamic_risk (ok ceiling) = check_sizer (record {
    capital = account.capital;
    risk_percent = risk;
    contract_size = account.contract_size;
    max_quantity = nonzero account.max_quantity;
    precision = account.quantity_precision;
    max_risk_percent = ceiling;
    dynamic_risk = dynamic_risk;
  })

  unfoldable pub sizer_for :
      (Text → Option Float)
      → Float
      → PairParams
      → Account
      → Result SizingError Bool
      → Result SizingError PositionSizer
  unfolding sizer_of ceiling_of nonzero
  sizer_for read risk params account (err e) = err e
  sizer_for read risk params account (ok dynamic_risk) =
      sizer_of account risk dynamic_risk (
        ceiling_of read params.max_risk_percent risk dynamic_risk
          (nonzero account.max_risk_percent))

  unfoldable pub from_settings :
      (Text → Option Float) → Option Float → PairParams → Account → Result SizingError PositionSizer
  unfolding sizer_for first_risk resolve_dynamic_risk
  from_settings read risk_percent params account =
      sizer_for read (first_risk read risk_percent params account) params account
        (resolve_dynamic_risk params.dynamic_risk)
