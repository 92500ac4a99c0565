-- ===== src/SignalFactory/Untouched.antt =====
-- `SignalFactory.build` of src/qte_shared/strategies/signal_factory.py and the book of open cycles,
-- where nothing is committed.
use quant_trading_engine.Floats.{Decimals, Floats}
use quant_trading_engine.Models.{is_entry}
use quant_trading_engine.Models.Positions.{OpenPosition}
use quant_trading_engine.Models.Signals.{
  BrokerSignal, ShapeError, fill_or_validate_uxid, validate_shape,
}
use quant_trading_engine.Prelude.{
  Bool, Bool-cases, Option, Result, Text, ap, err, false, inl, inr, none, ok, refl, some, sym,
  upper, ℕ, ◌∙◌, ◌≡◌, ◌⊎◌,
}
use quant_trading_engine.SignalFactory.{SignalFactory, cycles_of}
use quant_trading_engine.SignalFactory.Building.{
  Built, build, checked, is_foreign, payload, prepare, published, spelled, with_uxid,
}
use quant_trading_engine.SignalFactory.Closes.{closing-IsFor}
use quant_trading_engine.SignalFactory.Intents.{SignalIntent, first_some}
use quant_trading_engine.SignalFactory.Preparing.{
  BuildError, Prepared, close_target, closing, nonempty, prepare_close, uxid_of,
}
use quant_trading_engine.SignalFactory.Settling.{prepare-IsPrepared}
use quant_trading_engine.Timeframes.{to_broker_timeframe}

module _ ⦃F : Floats⦄ ⦃D : Decimals⦄ where
  prepare_close-factory :
      (i : SignalIntent) (symbol : Text) (f : SignalFactory) (p : Prepared)
      → prepare_close i symbol f ≡ ok p
      → p.factory ≡ f
  unfolding prepare_close
  prepare_close-factory i symbol f p h = go (close_target i.signal_uxid (cycles_of symbol f)) h
    where
      go :
          (r : Result BuildError (Option OpenPosition))
          → (elim r [
            | err e ↦ err e
            | ok held ↦ closing i f held (first_some (nonempty i.signal_uxid) (uxid_of held))
          ])
            ≡ ok p
          → p.factory ≡ f
      go (err e) k = absurd (cc k)
      go (ok held) k =
          (closing-IsFor i f held (first_some (nonempty i.signal_uxid) (uxid_of held)) p k).2

  pub prepare-book :
      (fresh symbol : Text) (i : SignalIntent) (f : SignalFactory) (p : Prepared)
      → prepare fresh i symbol f ≡ ok p
      → p.factory.book ≡ f.book
  prepare-book fresh symbol i f p h = elim (Bool-cases (is_entry i.action)) [
    | inl entry ↦ (prepare-IsPrepared fresh symbol f i p entry h).same_book
    | inr close ↦
        let same : prepare fresh i symbol f ≡ prepare_close i symbol f =
          (unfold prepare in rw close refl) in
        ap (λ x. x.book) (prepare_close-factory i symbol f p (sym same ∙ h))
  ]

  -- Nothing is to be committed: the build was told not to, or it was refused.
  abbrev pub IsUncommitted : Bool → Built → Type 0
  IsUncommitted commits built = (commits ≡ false) ⊎ ((e : BuildError) × (built.1 ≡ err e))

  checked-book :
      (commits : Bool) (now : ℕ) (p : Prepared) (signal : BrokerSignal) (v : Option ShapeError)
      → IsUncommitted commits (checked commits now p signal v)
      → (checked commits now p signal v).0.book ≡ p.factory.book
  unfolding checked
  checked-book commits now p signal (some e) h = refl
  checked-book commits now p signal none (inl kept) = rw kept refl
  checked-book commits now p signal none (inr (e, h)) = absurd (cc h)

  with_uxid-book :
      (symbol timeframe : Text) (moment : ℕ) (commits : Bool) (now : ℕ) (p : Prepared)
      (uxid : Option Text)
      → IsUncommitted commits (with_uxid symbol timeframe moment commits now p uxid)
      → (with_uxid symbol timeframe moment commits now p uxid).0.book ≡ p.factory.book
  unfolding with_uxid
  with_uxid-book symbol timeframe moment commits now p none h = refl
  with_uxid-book symbol timeframe moment commits now p (some uxid) h =
      let signal = payload symbol timeframe moment uxid p in
      checked-book commits now p signal (validate_shape signal.position) h

  spelled-book :
      (fresh symbol : Text) (moment : ℕ) (commits : Bool) (now : ℕ) (p : Prepared) (t : Option Text)
      → IsUncommitted commits (spelled fresh symbol moment commits now p t)
      → (spelled fresh symbol moment commits now p t).0.book ≡ p.factory.book
  unfolding spelled
  spelled-book fresh symbol moment commits now p none h = refl
  spelled-book fresh symbol moment commits now p (some t) h =
      with_uxid-book symbol t moment commits now p (fill_or_validate_uxid fresh p.uxid) h

  published-book :
      (fresh symbol : Text) (moment : ℕ) (commits : Bool) (now : ℕ) (f : SignalFactory)
      (r : Result BuildError Prepared)
      → ((p : Prepared) → r ≡ ok p → p.factory.book ≡ f.book)
      → IsUncommitted commits (published fresh symbol moment commits now f r)
      → (published fresh symbol moment commits now f r).0.book ≡ f.book
  unfolding published
  published-book fresh symbol moment commits now f (err e) same h = refl
  published-book fresh symbol moment commits now f (ok p) same h =
      spelled-book fresh symbol moment commits now p (to_broker_timeframe p.factory.timeframe) h
      ∙ same p refl

  -- A build that is refused, at whatever step, or that is told not to commit leaves the book of
  -- open cycles as it was: a position is recorded only when its signal has been accepted.
  pub build_keeps_book :
      (fresh : Text) (i : SignalIntent) (symbol : Text) (moment : ℕ) (commits : Bool) (now : ℕ)
      (f : SignalFactory)
      → IsUncommitted commits (build fresh i symbol moment commits now f)
      → (build fresh i symbol moment commits now f).0.book ≡ f.book
  unfolding build
  build_keeps_book fresh i symbol moment commits now f h =
      let key = upper symbol in
      elim (Bool-cases (is_foreign i.symbol key)) [
        | inl foreign ↦ rw foreign refl
        | inr home ↦ rw home (
            published-book fresh key moment commits now f (prepare fresh i key f)
              (prepare-book fresh key i f) (rw home at h))
      ]
