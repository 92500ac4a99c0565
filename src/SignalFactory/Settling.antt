-- ===== src/SignalFactory/Settling.antt =====
-- What `_prepare_entry` and `_size_entry` of src/qte_shared/strategies/signal_factory.py settle on
-- an entry: its risk, its stop and its size.
use quant_trading_engine.Floats.{Decimals, Float, Floats}
use quant_trading_engine.Models.{is_entry, price, side_of}
use quant_trading_engine.Prelude.{
  Bool-cases, Option, Option-cases, Result, Text, arith, err, false, inl, inr, none, ok, or_else,
  refl, some, subst, sym, true, ◌∙◌, ◌≡◌,
}
use quant_trading_engine.SignalFactory.{BracketPolicy, SignalFactory, cycles_of}
use quant_trading_engine.SignalFactory.Building.{prepare}
use quant_trading_engine.SignalFactory.Intents.{
  SignalIntent, apply, apply_at, default_stop, first_some,
}
use quant_trading_engine.SignalFactory.Preparing.{
  Prepared, at_risk, is_open_cycle, limited, nonempty, note_scale, prepare_entry, settled,
  size_entry, sized_or_limited,
}
use quant_trading_engine.Sizing.{
  PositionSizer, SizingError, is_not_positive, limit_quantity, risk_for, size,
}
use quant_trading_engine.Sizing.Limits.{
  AtMost, limit_quantity_ceiling, quantity_ceiling, risk_for_bounds, size_ceiling,
}

module _ ⦃F : Floats⦄ ⦃D : Decimals⦄ where
  open F use {of_ℕ, lt}

  abbrev nothing : Result SizingError (Option Float × Option Float)
  nothing = ok (none, none)

  limited_nothing : (q : Float) (scale : Option Float) → nothing ≡ ok (some q, scale) → ⊥
  limited_nothing q scale h = cc h

  limited_ceiling :
      (s : PositionSizer) (proposed wanted : Option Float) (q : Float) (scale : Option Float)
      → limited s proposed wanted ≡ ok (some q, scale)
      → AtMost (quantity_ceiling s.max_quantity) q
  unfolding limited
  limited_ceiling s proposed none q scale h = absurd (limited_nothing q scale h)
  limited_ceiling s proposed (some x) q scale h =
      let granted : limit_quantity s (D.of_float x) ≡ ok q = ground arith in
      limit_quantity_ceiling s (D.of_float x) q granted

  sized_or_limited_ceiling :
      (s : PositionSizer) (default proposed price stop percent : Option Float)
      (r : Result SizingError (Option Float)) (q : Float) (scale : Option Float)
      → size s price stop percent ≡ r
      → sized_or_limited s default proposed r ≡ ok (some q, scale)
      → AtMost (quantity_ceiling s.max_quantity) q
  unfolding sized_or_limited
  sized_or_limited_ceiling s default proposed price stop percent (err e) q scale found h =
      ground arith
  sized_or_limited_ceiling s default proposed price stop percent (ok none) q scale found h =
      limited_ceiling s proposed (first_some proposed default) q scale h
  sized_or_limited_ceiling s default proposed price stop percent (ok (some x)) q scale found h =
      let same : x ≡ q = ground arith in size_ceiling s price stop percent q (rw (← same) found)

  size_entry_ceiling :
      (f : SignalFactory) (i : SignalIntent) (q : Float) (scale : Option Float)
      → size_entry f i ≡ ok (some q, scale)
      → lt (of_ℕ 0) q ≡ true
      → AtMost (quantity_ceiling f.sizer.max_quantity) q
  unfolding size_entry
  size_entry_ceiling f i q scale h positive = elim (Bool-cases (is_not_positive i.quantity)) [
    | inl declined ↦
        let kept : i.quantity ≡ some q = ground arith in
        let asked : is_not_positive i.quantity ≡ false = rw kept (rw positive refl) in
        cc (asked, declined)
    | inr asked ↦
        sized_or_limited_ceiling f.sizer f.default_quantity i.quantity i.price i.sl i.risk_percent
          (size f.sizer i.price i.sl i.risk_percent) q scale refl (rw asked at h)
  ]

  -- What `_prepare_entry` makes of an intent, up to its size.
  record Settled (f : SignalFactory) (i : SignalIntent) (p : Prepared) : Type 0 where
    same_book : p.factory.book ≡ f.book
    same_action : p.intent.action ≡ i.action
    same_price : p.intent.price ≡ i.price
    same_stop : p.intent.sl ≡ i.sl
    same_risk : p.intent.risk_percent ≡ i.risk_percent
    within :
        (q : Float)
        → p.intent.quantity ≡ some q
        → lt (of_ℕ 0) q ≡ true
        → AtMost (quantity_ceiling f.sizer.max_quantity) q

  note_scale-book :
      (symbol : Text) (scale : Option Float) (f : SignalFactory)
      → (note_scale symbol scale f).book ≡ f.book
  note_scale-book symbol none f = refl
  note_scale-book symbol (some x) f = refl

  settled-Settled :
      (fresh symbol : Text) (f : SignalFactory) (i : SignalIntent) (p : Prepared)
      (r : Result SizingError (Option Float × Option Float))
      → size_entry f i ≡ r
      → settled fresh symbol f i r ≡ ok p
      → Settled f i p
  settled-Settled fresh symbol f i p (err e) found h = ground arith
  settled-Settled fresh symbol f i p (ok (quantity, scale)) found h =
      let p' : Prepared = record {
        intent = record i { quantity = quantity };
        uxid = or_else (nonempty i.signal_uxid) fresh;
        factory = note_scale symbol scale f;
      } in
      let same : p' ≡ p = cc h in
      subst (Settled f i) same (record {
        same_book = note_scale-book symbol scale f;
        same_action = refl;
        same_price = refl;
        same_stop = refl;
        same_risk = refl;
        within = λ q e positive. size_entry_ceiling f i q scale (rw (← e) found) positive;
      })

  -- What `_prepare_entry` makes of an intent.
  pub record IsPrepared (f : SignalFactory) (i : SignalIntent) (p : Prepared) : Type 0 where
    pub risk : Float
    pub same_book : p.factory.book ≡ f.book
    pub same_action : p.intent.action ≡ i.action
    pub risk_is : p.intent.risk_percent ≡ some risk
    pub bounded : AtMost f.sizer.max_risk_percent risk
    pub has_stop :
        (x : Float) → p.intent.price ≡ some x → (stop : Float) × (p.intent.sl ≡ some stop)
    pub within :
        (q : Float)
        → p.intent.quantity ≡ some q
        → lt (of_ℕ 0) q ≡ true
        → AtMost (quantity_ceiling f.sizer.max_quantity) q

  apply_action : (b : BracketPolicy) (i : SignalIntent) → (apply b i).action ≡ i.action
  unfolding apply apply_at
  apply_action b i = ground arith

  apply-has_stop :
      (b : BracketPolicy) (i : SignalIntent) (x : Float)
      → is_entry i.action ≡ true
      → (apply b i).price ≡ some x
      → (stop : Float) × ((apply b i).sl ≡ some stop)
  unfolding apply apply_at
  apply-has_stop b i x entry h = elim (Option-cases i.price) [
    | inl missing ↦ absurd (cc (missing, rw (entry, missing) at h))
    | inr (e, priced) ↦
        (or_else i.sl (default_stop b (side_of i.action) e), rw (entry, priced) refl)
  ]

  at_risk-IsPrepared :
      (fresh symbol : Text) (f : SignalFactory) (i : SignalIntent) (p : Prepared)
      (r : Result SizingError Float)
      → is_entry i.action ≡ true
      → risk_for f.sizer (apply f.bracket i).risk_percent ≡ r
      → at_risk fresh symbol f (apply f.bracket i) r ≡ ok p
      → IsPrepared f i p
  unfolding at_risk
  at_risk-IsPrepared fresh symbol f i p (err e) entry found h = ground arith
  at_risk-IsPrepared fresh symbol f i p (ok risk) entry found h =
      let requested = (apply f.bracket i).risk_percent in
      let i' = record (apply f.bracket i) { risk_percent = some risk } in
      let done = settled-Settled fresh symbol f i' p (size_entry f i') refl h in
      record {
        risk = risk;
        same_book = done.same_book;
        same_action = done.same_action ∙ apply_action f.bracket i;
        risk_is = done.same_risk;
        bounded = (risk_for_bounds f.sizer requested risk found).0;
        has_stop = λ x priced.
            rw done.same_stop (apply-has_stop f.bracket i x entry (sym done.same_price ∙ priced));
        within = done.within;
      }

  prepare_entry-IsPrepared :
      (fresh symbol : Text) (f : SignalFactory) (i : SignalIntent) (p : Prepared)
      → is_entry i.action ≡ true
      → prepare_entry fresh i symbol f ≡ ok p
      → IsPrepared f i p
  unfolding prepare_entry
  prepare_entry-IsPrepared fresh symbol f i p entry h =
      let asked = risk_for f.sizer (apply f.bracket i).risk_percent in
      elim (Bool-cases (is_open_cycle i.signal_uxid (cycles_of symbol f))) [
        | inl again ↦ absurd (cc (rw again at h))
        | inr new ↦ at_risk-IsPrepared fresh symbol f i p asked entry refl (rw new at h)
      ]

  pub prepare-IsPrepared :
      (fresh symbol : Text) (f : SignalFactory) (i : SignalIntent) (p : Prepared)
      → is_entry i.action ≡ true
      → prepare fresh i symbol f ≡ ok p
      → IsPrepared f i p
  unfolding prepare
  prepare-IsPrepared fresh symbol f i p entry h =
      let same : prepare fresh i symbol f ≡ prepare_entry fresh i symbol f = rw entry refl in
      prepare_entry-IsPrepared fresh symbol f i p entry (sym same ∙ h)
