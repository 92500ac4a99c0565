-- ===== src/SignalFactory/Accepted.antt =====
-- What it takes for `SignalFactory.build` of src/qte_shared/strategies/signal_factory.py to return
-- a payload: the steps behind the ones that did not raise.
use quant_trading_engine.Floats.{Decimals, Floats}
use quant_trading_engine.Models.Signals.{
  BrokerSignal, ShapeError, fill_or_validate_uxid, validate_shape,
}
use quant_trading_engine.Prelude.{
  Bool, Bool-cases, Option, Result, Text, arith, err, inl, inr, none, ok, refl, some, subst, sym,
  upper, ℕ, ◌≡◌,
}
use quant_trading_engine.SignalFactory.{SignalFactory}
use quant_trading_engine.SignalFactory.Building.{
  build, checked, completed, is_foreign, payload, prepare, published, spelled, with_uxid,
}
use quant_trading_engine.SignalFactory.Intents.{SignalIntent}
use quant_trading_engine.SignalFactory.Preparing.{BuildError, Prepared}
use quant_trading_engine.Timeframes.{to_broker_timeframe}

module _ ⦃F : Floats⦄ ⦃D : Decimals⦄ where
  pub record IsAccepted (symbol : Text) (moment : ℕ) (r : Result BuildError Prepared)
      (i : SignalIntent) (s : BrokerSignal) : Type 0 where
    pub prepared : Prepared
    pub timeframe : Text
    pub uxid : Text
    pub prepared_is : r ≡ ok prepared
    pub intent_is : i ≡ completed prepared
    pub signal_is : s ≡ payload symbol timeframe moment uxid prepared
    pub shaped : validate_shape s.position ≡ none

  checked-IsAccepted :
      (symbol timeframe uxid : Text) (moment : ℕ) (commits : Bool) (now : ℕ) (p : Prepared)
      (v : Option ShapeError) (i : SignalIntent) (s : BrokerSignal)
      → validate_shape (payload symbol timeframe moment uxid p).position ≡ v
      → (checked commits now p (payload symbol timeframe moment uxid p) v).1 ≡ ok (i, s)
      → IsAccepted symbol moment (ok p) i s
  unfolding checked
  checked-IsAccepted symbol timeframe uxid moment commits now p (some e) i s found h = ground arith
  checked-IsAccepted symbol timeframe uxid moment commits now p none i s found h =
      let signal = payload symbol timeframe moment uxid p in
      let built : completed p ≡ i = cc h in
      let sent : signal ≡ s = cc h in
      record {
        prepared = p;
        timeframe = timeframe;
        uxid = uxid;
        prepared_is = refl;
        intent_is = sym built;
        signal_is = sym sent;
        shaped = subst (λ t. validate_shape t.position ≡ none) sent found;
      }

  with_uxid-IsAccepted :
      (symbol timeframe : Text) (moment : ℕ) (commits : Bool) (now : ℕ) (p : Prepared)
      (uxid : Option Text) (i : SignalIntent) (s : BrokerSignal)
      → (with_uxid symbol timeframe moment commits now p uxid).1 ≡ ok (i, s)
      → IsAccepted symbol moment (ok p) i s
  unfolding with_uxid
  with_uxid-IsAccepted symbol timeframe moment commits now p none i s h = ground arith
  with_uxid-IsAccepted symbol timeframe moment commits now p (some uxid) i s h =
      checked-IsAccepted symbol timeframe uxid moment commits now p
        (validate_shape (payload symbol timeframe moment uxid p).position) i s refl h

  spelled-IsAccepted :
      (fresh symbol : Text) (moment : ℕ) (commits : Bool) (now : ℕ) (p : Prepared)
      (timeframe : Option Text) (i : SignalIntent) (s : BrokerSignal)
      → (spelled fresh symbol moment commits now p timeframe).1 ≡ ok (i, s)
      → IsAccepted symbol moment (ok p) i s
  unfolding spelled
  spelled-IsAccepted fresh symbol moment commits now p none i s h = ground arith
  spelled-IsAccepted fresh symbol moment commits now p (some t) i s h =
      with_uxid-IsAccepted symbol t moment commits now p (fill_or_validate_uxid fresh p.uxid) i s h

  published-IsAccepted :
      (fresh symbol : Text) (moment : ℕ) (commits : Bool) (now : ℕ) (f : SignalFactory)
      (r : Result BuildError Prepared) (i : SignalIntent) (s : BrokerSignal)
      → (published fresh symbol moment commits now f r).1 ≡ ok (i, s)
      → IsAccepted symbol moment r i s
  unfolding published
  published-IsAccepted fresh symbol moment commits now f (err e) i s h = ground arith
  published-IsAccepted fresh symbol moment commits now f (ok p) i s h =
      spelled-IsAccepted fresh symbol moment commits now p (to_broker_timeframe p.factory.timeframe)
        i s h

  pub build-IsAccepted :
      (fresh : Text) (i : SignalIntent) (symbol : Text) (moment : ℕ) (commits : Bool) (now : ℕ)
      (f : SignalFactory) (i' : SignalIntent) (s : BrokerSignal)
      → (build fresh i symbol moment commits now f).1 ≡ ok (i', s)
      → IsAccepted (upper symbol) moment (prepare fresh i (upper symbol) f) i' s
  unfolding build
  build-IsAccepted fresh i symbol moment commits now f i' s h =
      elim (Bool-cases (is_foreign i.symbol (upper symbol))) [
        | inl foreign ↦ absurd (cc (rw foreign at h))
        | inr home ↦
            published-IsAccepted fresh (upper symbol) moment commits now f
              (prepare fresh i (upper symbol) f) i' s (rw home at h)
      ]
