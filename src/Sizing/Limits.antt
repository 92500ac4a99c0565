-- ===== src/Sizing/Limits.antt =====
-- The ceilings of src/qte_shared/strategies/sizing.py, and the sizes that it refuses.
use quant_trading_engine.Floats.{Decimals, Float, Floats, Le, Le-refl, is_zero}
use quant_trading_engine.Prelude.{
  Bool-cases, Option, Result, arith, err, false, if◌then◌else◌, inl, inr, ltb, none, ok, or_else,
  refl, some, true, ℕ, ◌≡◌, ◌⊎◌,
}
use quant_trading_engine.SignalFactory.Preparing.{limited}
use quant_trading_engine.Sizing.{
  PositionSizer, SizingError, bad_request, bounded_by, capped_risk, limit_quantity, risk_for,
  risk_quantity, size, wanted_risk,
}

module _ ⦃F : Floats⦄ where
  open F use {of_ℕ, lt}

  -- What the pair would risk with no ceiling: the request on a dynamic pair that states one, and
  -- the pair's own risk on any other.
  abbrev pub uncapped : PositionSizer → Option Float → Float
  uncapped s none = s.risk_percent
  uncapped s (some requested) = if s.dynamic_risk then requested else s.risk_percent

  abbrev pub AtMost : Option Float → Float → Type 0
  AtMost none x = Unit
  AtMost (some ceiling) x = Le x ceiling

  -- The ceiling on the quantity; 0 means none.
  abbrev pub quantity_ceiling : Option Float → Option Float
  quantity_ceiling none = none
  quantity_ceiling (some c) = if is_zero c then none else some c

  capped_risk_bounds :
      (ceiling : Option Float) (wanted : Float)
      → AtMost ceiling (capped_risk ceiling wanted)
        × Le (capped_risk ceiling wanted) wanted
        × ((capped_risk ceiling wanted ≡ wanted) ⊎ (ceiling ≡ some (capped_risk ceiling wanted)))
  unfolding capped_risk
  capped_risk_bounds none wanted = (tt, Le-refl wanted, inl refl)
  capped_risk_bounds (some c) wanted =
      ground (arith, Le-refl wanted, Le-refl c, F.lt_asymm c wanted)

  wanted_risk-uncapped :
      (s : PositionSizer) (requested : Option Float) (wanted : Float)
      → wanted_risk s requested ≡ ok wanted
      → wanted ≡ uncapped s requested
  unfolding wanted_risk
  wanted_risk-uncapped s none wanted h = ground arith
  wanted_risk-uncapped s (some x) wanted h = ground arith

  -- A granted risk is at most the ceiling and at most what the pair would risk without one, and it
  -- is one of the two.
  pub risk_for_bounds :
      (s : PositionSizer) (requested : Option Float) (risk : Float)
      → risk_for s requested ≡ ok risk
      → AtMost s.max_risk_percent risk
        × Le risk (uncapped s requested)
        × ((risk ≡ uncapped s requested) ⊎ (s.max_risk_percent ≡ some risk))
  unfolding risk_for
  risk_for_bounds s requested risk h = go (wanted_risk s requested) refl h
    where
      go :
          (w : Result SizingError Float)
          → wanted_risk s requested ≡ w
          → (elim w [ err e ↦ err e | ok wanted ↦ ok (capped_risk s.max_risk_percent wanted) ])
            ≡ ok risk
          → AtMost s.max_risk_percent risk
            × Le risk (uncapped s requested)
            × ((risk ≡ uncapped s requested) ⊎ (s.max_risk_percent ≡ some risk))
      go (err e) w k = cc k
      go (ok wanted) w k =
          let granted : capped_risk s.max_risk_percent wanted ≡ risk = cc k in
          rw (← granted, ← wanted_risk-uncapped s requested wanted w)
            (capped_risk_bounds s.max_risk_percent wanted)

  -- A static pair ignores what its strategy asks for, and a dynamic one refuses a request that is
  -- not positive, whatever the ceiling.
  pub risk_for_switch :
      (s : PositionSizer) (requested : Float)
      → Le requested (of_ℕ 0)
      → risk_for s (some requested) ≡ (if s.dynamic_risk then err bad_request else risk_for s none)
  unfolding risk_for wanted_risk
  risk_for_switch s requested h = ground arith

module _ ⦃F : Floats⦄ ⦃D : Decimals⦄ where
  open F use {of_ℕ, lt}
  open D use {Decimal, of_float, to_float, zero_dec, dec_lt, quantize}

  bounded_by_le : (c : Option Float) (q : Decimal) → dec_lt q (bounded_by c q) ≡ false
  unfolding bounded_by
  bounded_by_le none q = D.dec_le_refl q
  bounded_by_le (some c) q = ground (arith, D.dec_le_refl q, D.dec_lt_asymm (of_float c) q)

  bounded_by-AtMost :
      (c : Option Float) (d r : Decimal)
      → dec_lt (bounded_by c d) r ≡ false
      → AtMost (quantity_ceiling c) (to_float r)
  unfolding bounded_by
  bounded_by-AtMost none d r h = tt
  bounded_by-AtMost (some c) d r h = elim (Bool-cases (is_zero c)) [
    | inl unlimited ↦ rw unlimited tt
    | inr limited ↦
        let below : dec_lt (of_float c) r ≡ false =
          ground (arith, D.dec_le_refl (of_float c), D.dec_le_trans r d (of_float c)) in
        rw limited (rw (D.float_roundtrip c) at (D.to_float_mono r (of_float c) below))
  ]

  quantize_below :
      (n : ℕ) (d : Decimal)
      → dec_lt zero_dec (quantize n d) ≡ true
      → dec_lt d (quantize n d) ≡ false
  quantize_below n d h = elim (Bool-cases (dec_lt zero_dec d)) [
    | inl positive ↦ D.quantize_le n d positive
    | inr nonpos ↦ cc (D.quantize_nonpos n d nonpos)
  ]

  pub limit_quantity_ceiling :
      (s : PositionSizer) (asked : Decimal) (q : Float)
      → limit_quantity s asked ≡ ok q
      → AtMost (quantity_ceiling s.max_quantity) q
  unfolding limit_quantity
  limit_quantity_ceiling s asked q h =
      let bounded = bounded_by s.max_quantity asked in
      let rounded = quantize s.precision bounded in
      let positive : dec_lt zero_dec rounded ≡ true = ground arith in
      let result : to_float rounded ≡ q = ground arith in
      rw (← result) (
        bounded_by-AtMost s.max_quantity asked rounded
          (quantize_below s.precision bounded positive))

  pub size_ceiling :
      (s : PositionSizer) (price stop percent : Option Float) (q : Float)
      → size s price stop percent ≡ ok (some q)
      → AtMost (quantity_ceiling s.max_quantity) q
  unfolding size risk_quantity
  size_ceiling s none stop percent q h = ground arith
  size_ceiling s (some p) none percent q h = ground arith
  size_ceiling s (some p) (some t) percent q h =
      let distance = D.dec_abs (D.dec_sub (of_float p) (of_float t)) in
      let risk = or_else percent s.risk_percent in
      let budget = D.dec_div (D.dec_mul (of_float s.capital) (of_float risk)) D.hundred in
      let asked = D.dec_div budget (D.dec_mul distance (of_float s.contract_size)) in
      let granted : limit_quantity s asked ≡ ok q = ground arith in
      limit_quantity_ceiling s asked q granted

  -- On a pair with at most twelve decimal places, an accepted quantity is positive, is no more than was asked for, and is no more than the
  -- account's ceiling: the rounding goes down.
  pub limit_quantity_bounds :
      (s : PositionSizer) (asked : Decimal) (q : Float)
      → ltb 12 s.precision ≡ false
      → limit_quantity s asked ≡ ok q
      → (lt (of_ℕ 0) q ≡ true) × Le q (to_float asked) × AtMost (quantity_ceiling s.max_quantity) q
  unfolding limit_quantity
  limit_quantity_bounds s asked q places h =
      let bounded = bounded_by s.max_quantity asked in
      let rounded = quantize s.precision bounded in
      let positive : dec_lt zero_dec rounded ≡ true = ground arith in
      let result : to_float rounded ≡ q = ground arith in
      let below = quantize_below s.precision bounded positive in
      rw (← result) (
        D.to_float_pos s.precision bounded places positive,
        D.to_float_mono rounded asked
            (D.dec_le_trans rounded bounded asked below (bounded_by_le s.max_quantity asked)),
        bounded_by-AtMost s.max_quantity asked rounded below,
      )

  -- `size` answers "no size" exactly where the price or the stop is missing: a trade that it
  -- rejects is an error, and never falls back to a default quantity.
  pub size_missing :
      (s : PositionSizer) (price stop percent : Option Float)
      → size s price stop percent ≡ ok none
      → (price ≡ none) ⊎ (stop ≡ none)
  unfolding size
  size_missing s none stop percent h = inl refl
  size_missing s (some p) none percent h = inr refl
  size_missing s (some p) (some t) percent h = ground arith
