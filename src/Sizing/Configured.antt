-- ===== src/Sizing/Configured.antt =====
-- The risk that the sizers of `PositionSizer.from_settings` in
-- src/qte_shared/strategies/sizing.py grant.
use quant_trading_engine.Floats.{Float, Floats, Le, Le-refl, Le-trans, fmin, fmin_right}
use quant_trading_engine.Prelude.{
  Bool, Bool-cases, Option, Result, Text, ap, arith, err, false, if◌then◌else◌, inl, inr, none, ok,
  or_else, refl, some, sym, true, ◌∙◌, ◌≡◌,
}
use quant_trading_engine.Sizing.{
  PositionSizer, SizingError, bad_ceiling, check_sizer, resolve_risk_ceiling, risk_for,
}
use quant_trading_engine.Sizing.Limits.{AtMost, risk_for_bounds}
use quant_trading_engine.Sizing.Settings.{
  Account, PairParams, Setting, as_float, ceiling_of, first_risk, from_settings, missing, nonzero,
  number, resolve_dynamic_risk, sizer_for, sizer_of, switch, text,
}

module _ ⦃F : Floats⦄ where
  open F use {of_ℕ, lt}

  -- The sizer's ceiling is set and no higher than the account's, where the account has one.
  Caps : Option Float → Option Float → Type 0
  Caps none ceiling = Unit
  Caps (some account) none = ⊥
  Caps (some account) (some ceiling) = Le ceiling account

  resolve_risk_ceiling-Caps :
      (stated : Option Float) (base : Float) (dynamic : Bool) (account ceiling : Option Float)
      → resolve_risk_ceiling stated base dynamic account ≡ ok ceiling
      → Caps account ceiling
  unfolding resolve_risk_ceiling Caps
  resolve_risk_ceiling-Caps stated base dynamic none ceiling h = tt
  resolve_risk_ceiling-Caps stated base false (some a) ceiling h =
      let same : some a ≡ ceiling = cc h in rw (← same) (Le-refl a)
  resolve_risk_ceiling-Caps stated base true (some a) ceiling h =
      let pair = or_else stated base in
      elim (Bool-cases (lt pair base)) [
        | inl below ↦ absurd (cc (rw below at h))
        | inr above ↦
            let same : some (fmin pair a) ≡ ceiling = cc (rw above at h) in
            rw (← same) (fmin_right pair a)
      ]

  ceiling_of-Caps :
      (read : Text → Option Float) (stated : Setting) (base : Float) (dynamic : Bool)
      (account ceiling : Option Float)
      → ceiling_of read stated base dynamic account ≡ ok ceiling
      → Caps account ceiling
  unfolding ceiling_of as_float
  ceiling_of-Caps read missing base dynamic account ceiling h =
      resolve_risk_ceiling-Caps none base dynamic account ceiling h
  ceiling_of-Caps read (switch b) base true account ceiling h = absurd (cc h)
  ceiling_of-Caps read (switch b) base false account ceiling h =
      resolve_risk_ceiling-Caps none base false account ceiling h
  ceiling_of-Caps read (number x) base dynamic account ceiling h =
      resolve_risk_ceiling-Caps (some x) base dynamic account ceiling h
  ceiling_of-Caps read (text t) base dynamic account ceiling h = go (read t) h
    where
      go :
          (x : Option Float)
          → (elim x [
            | some y ↦ resolve_risk_ceiling (some y) base dynamic account
            | none ↦
                if dynamic then err bad_ceiling else resolve_risk_ceiling none base dynamic account
          ])
            ≡ ok ceiling
          → Caps account ceiling
      go (some y) k = resolve_risk_ceiling-Caps (some y) base dynamic account ceiling k
      go none k = elim (Bool-cases dynamic) [
        | inl is_dynamic ↦ absurd (cc (rw is_dynamic at k))
        | inr static ↦
            let unset = resolve_risk_ceiling none base dynamic account in
            let step : (if dynamic then err bad_ceiling else unset) ≡ unset = rw static refl in
            resolve_risk_ceiling-Caps none base dynamic account ceiling (sym step ∙ k)
      ]

  check_sizer-same : (x s : PositionSizer) → check_sizer x ≡ ok s → x ≡ s
  unfolding check_sizer
  check_sizer-same x s h = ground arith

  sizer_of-ceiling :
      (account : Account) (risk : Float) (dynamic : Bool) (r : Result SizingError (Option Float))
      (s : PositionSizer)
      → sizer_of account risk dynamic r ≡ ok s
      → r ≡ ok s.max_risk_percent
  unfolding sizer_of
  sizer_of-ceiling account risk dynamic (err e) s h = absurd (cc h)
  sizer_of-ceiling account risk dynamic (ok ceiling) s h =
      ap (λ x. ok x.max_risk_percent)
        (check_sizer-same
          (record {
            capital = account.capital;
            risk_percent = risk;
            contract_size = account.contract_size;
            max_quantity = nonzero account.max_quantity;
            precision = account.quantity_precision;
            max_risk_percent = ceiling;
            dynamic_risk = dynamic;
          })
          s h)

  sizer_for-Caps :
      (read : Text → Option Float) (risk : Float) (params : PairParams) (account : Account)
      (r : Result SizingError Bool) (s : PositionSizer)
      → sizer_for read risk params account r ≡ ok s
      → Caps (nonzero account.max_risk_percent) s.max_risk_percent
  unfolding sizer_for
  sizer_for-Caps read risk params account (err e) s h = absurd (cc h)
  sizer_for-Caps read risk params account (ok dynamic) s h =
      let ceiling =
        ceiling_of read params.max_risk_percent risk dynamic (nonzero account.max_risk_percent) in
      ceiling_of-Caps read params.max_risk_percent risk dynamic (nonzero account.max_risk_percent)
        s.max_risk_percent (sizer_of-ceiling account risk dynamic ceiling s h)

  AtMost-Caps :
      (account ceiling : Option Float) (risk : Float)
      → Caps account ceiling
      → AtMost ceiling risk
      → AtMost account risk
  unfolding Caps
  AtMost-Caps none ceiling risk h k = tt
  AtMost-Caps (some a) none risk h k = absurd h
  AtMost-Caps (some a) (some c) risk h k = Le-trans risk c a k h

  -- Whatever a pair's parameters state and whatever its strategy asks for, a sizer that the settings
  -- yield grants no risk above the account's ceiling, where the account sets one other than 0.
  pub configured_risk_bounds :
      (read : Text → Option Float) (stated : Option Float) (params : PairParams) (account : Account)
      (s : PositionSizer) (requested : Option Float) (risk : Float)
      → from_settings read stated params account ≡ ok s
      → risk_for s requested ≡ ok risk
      → AtMost (nonzero account.max_risk_percent) risk
  unfolding from_settings
  configured_risk_bounds read stated params account s requested risk h granted =
      let base = first_risk read stated params account in
      let dynamic = resolve_dynamic_risk params.dynamic_risk in
      AtMost-Caps (nonzero account.max_risk_percent) s.max_risk_percent risk
        (sizer_for-Caps read base params account dynamic s h)
        (risk_for_bounds s requested risk granted).0
