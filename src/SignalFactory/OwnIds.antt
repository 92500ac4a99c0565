-- ===== src/SignalFactory/OwnIds.antt =====
-- `SignalFactory.build` of src/qte_shared/strategies/signal_factory.py and the ids of the book.
use quant_trading_engine.Floats.{Decimals, Floats}
use quant_trading_engine.Models.Positions.{OpenPosition}
use quant_trading_engine.Models.Signals.{
  BrokerSignal, ShapeError, fill_or_validate_uxid, validate_shape,
}
use quant_trading_engine.Prelude.{
  Bool, Bool-cases, Key-Text, Key-pair, Key-ℕ, Option, Result, Text, [], arith, eq_iff, erase, err,
  false, inl, inr, insert, lookup, lookup-erase, lookup-insert, none, ok, refl, some, sym, true,
  upper, ℕ, ◌==◌, ◌∙◌, ◌∷◌, ◌≡◌,
}
use quant_trading_engine.SignalFactory.{Cycles, SignalFactory, cycles_of}
use quant_trading_engine.SignalFactory.Building.{
  build, checked, is_foreign, payload, prepare, published, spelled, with_uxid,
}
use quant_trading_engine.SignalFactory.Filed.{Everywhere, IsKept, commit-Everywhere}
use quant_trading_engine.SignalFactory.Intents.{SignalIntent}
use quant_trading_engine.SignalFactory.Preparing.{BuildError, Prepared}
use quant_trading_engine.SignalFactory.Untouched.{prepare-book}
use quant_trading_engine.Timeframes.{Key-Timeframe, to_broker_timeframe}

module _ ⦃F : Floats⦄ where
  -- Each cycle stands under its own id, and no id stands twice.
  abbrev pub OwnIds : Cycles → Type 0
  OwnIds [] = Unit
  OwnIds ((u, p) ∷ d) = (p.signal_uxid ≡ u) × (lookup u d ≡ none) × OwnIds d

  insert-OwnIds :
      (u : Text) (p : OpenPosition) (d : Cycles)
      → p.signal_uxid ≡ u
      → OwnIds d
      → OwnIds (insert u p d)
  unfolding insert lookup
  insert-OwnIds u p [] own h = (own, refl, tt)
  insert-OwnIds u p ((v, q) ∷ d) own (o, fresh, h) = elim (Bool-cases (v == u)) [
    | inl same ↦ rw same (own ∙ sym ((eq_iff v u).0 same), fresh, h)
    | inr other ↦ rw other (
      o,
      lookup-insert v u p d ∙ ground (arith, eq_iff v u, eq_iff u v),
      insert-OwnIds u p d own h,
    )
  ]

  erase-OwnIds : (u : Text) (d : Cycles) → OwnIds d → OwnIds (erase u d)
  unfolding erase
  erase-OwnIds u [] h = tt
  erase-OwnIds u ((v, q) ∷ d) (o, fresh, h) = elim (Bool-cases (v == u)) [
    | inl same ↦ rw same (erase-OwnIds u d h)
    | inr other ↦ rw other (o, lookup-erase v u d ∙ ground (arith, fresh), erase-OwnIds u d h)
  ]

  pub lookup-OwnIds :
      (u : Text) (p : OpenPosition) (d : Cycles)
      → OwnIds d
      → lookup u d ≡ some p
      → p.signal_uxid ≡ u
  unfolding lookup
  lookup-OwnIds u p [] h found = absurd (cc found)
  lookup-OwnIds u p ((v, q) ∷ d) (o, fresh, h) found = elim (Bool-cases (v == u)) [
    | inl same ↦
        let held : some q ≡ some p = rw same at found in
        let it : q ≡ p = cc held in rw (← it) (o ∙ (eq_iff v u).0 same)
    | inr other ↦ lookup-OwnIds u p d h (rw other at found)
  ]

  pub OwnIds-IsKept : IsKept OwnIds
  OwnIds-IsKept = record { nil = tt; put = insert-OwnIds; drop = erase-OwnIds; own = lookup-OwnIds }

module _ ⦃F : Floats⦄ ⦃D : Decimals⦄ (P : Cycles → Type 0) (kept : IsKept P) where
  checked-Everywhere :
      (commits : Bool) (now : ℕ) (p : Prepared) (signal : BrokerSignal) (v : Option ShapeError)
      → Everywhere P p.factory
      → Everywhere P (checked commits now p signal v).0
  unfolding checked
  checked-Everywhere commits now p signal (some e) all = all
  checked-Everywhere true now p signal none all =
      commit-Everywhere P kept signal none now p.factory all
  checked-Everywhere false now p signal none all = all

  with_uxid-Everywhere :
      (symbol timeframe : Text) (moment : ℕ) (commits : Bool) (now : ℕ) (p : Prepared)
      (uxid : Option Text)
      → Everywhere P p.factory
      → Everywhere P (with_uxid symbol timeframe moment commits now p uxid).0
  unfolding with_uxid
  with_uxid-Everywhere symbol timeframe moment commits now p none all = all
  with_uxid-Everywhere symbol timeframe moment commits now p (some uxid) all =
      let signal = payload symbol timeframe moment uxid p in
      checked-Everywhere commits now p signal (validate_shape signal.position) all

  spelled-Everywhere :
      (fresh symbol : Text) (moment : ℕ) (commits : Bool) (now : ℕ) (p : Prepared) (t : Option Text)
      → Everywhere P p.factory
      → Everywhere P (spelled fresh symbol moment commits now p t).0
  unfolding spelled
  spelled-Everywhere fresh symbol moment commits now p none all = all
  spelled-Everywhere fresh symbol moment commits now p (some t) all =
      with_uxid-Everywhere symbol t moment commits now p (fill_or_validate_uxid fresh p.uxid) all

  same_book-Everywhere : (f g : SignalFactory) → g.book ≡ f.book → Everywhere P f → Everywhere P g
  unfolding cycles_of
  same_book-Everywhere f g same all s = rw same (all s)

  published-Everywhere :
      (fresh symbol : Text) (moment : ℕ) (commits : Bool) (now : ℕ) (f : SignalFactory)
      (r : Result BuildError Prepared)
      → ((p : Prepared) → r ≡ ok p → p.factory.book ≡ f.book)
      → Everywhere P f
      → Everywhere P (published fresh symbol moment commits now f r).0
  unfolding published
  published-Everywhere fresh symbol moment commits now f (err e) same all = all
  published-Everywhere fresh symbol moment commits now f (ok p) same all =
      spelled-Everywhere fresh symbol moment commits now p (to_broker_timeframe p.factory.timeframe)
        (same_book-Everywhere f p.factory (same p refl) all)

  -- A build, whatever it returns, keeps of each symbol's cycles what every commit keeps.
  pub build-Everywhere :
      (fresh : Text) (i : SignalIntent) (symbol : Text) (moment : ℕ) (commits : Bool) (now : ℕ)
      (f : SignalFactory)
      → Everywhere P f
      → Everywhere P (build fresh i symbol moment commits now f).0
  unfolding build
  build-Everywhere fresh i symbol moment commits now f all =
      let key = upper symbol in
      elim (Bool-cases (is_foreign i.symbol key)) [
        | inl foreign ↦ rw foreign all
        | inr home ↦ rw home (
            published-Everywhere fresh key moment commits now f (prepare fresh i key f)
              (prepare-book fresh key i f) all)
      ]
