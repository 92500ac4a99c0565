-- ===== src/Resampler/Invariant.antt =====
-- The invariant of the state of src/qte_ingestion/resampler.py: one builder to a timeframe, and each open bucket lies past
-- the last one that was closed.
use quant_trading_engine.Floats.{Floats}
use quant_trading_engine.Models.{Candle}
use quant_trading_engine.Prelude.{
  Key-Text, Key-ℕ, List, Option-cases, UniqueKeys, [], arith, eq_iff, erase-UniqueKeys, inl, inr,
  insert-UniqueKeys, lookup, lookup-erase, lookup-insert, some, ℕ, ◌++◌, ◌<◌, ◌∷◌, ◌≡◌,
}
use quant_trading_engine.Resampler.{Builder, Resampler, close_out, retire, set_builder}
use quant_trading_engine.Resampler.Ledger.{publish, publish-append}
use quant_trading_engine.Timeframes.{Key-Timeframe, Timeframe}

module _ ⦃F : Floats⦄ where
  pub record IsOrdered (r : Resampler) : Type 0 where
    pub unique : UniqueKeys r.builders
    pub named : (tf : Timeframe) (b : Builder) → lookup tf r.builders ≡ some b → b.timeframe ≡ tf
    pub ahead :
        (tf : Timeframe) (b : Builder) (last : ℕ)
        → lookup tf r.builders ≡ some b
        → lookup tf r.last_closed ≡ some last
        → last < b.open_time

  -- A step that began at `r` published its bars as the ledger allows, and kept the invariant.
  pub record Publishes (r : Resampler) (bars : List Candle) (r' : Resampler) : Type 0 where
    pub ordered : IsOrdered r'
    pub ledger : publish bars r.last_closed ≡ some r'.last_closed

  -- Opening or changing a builder past the last closed bucket.
  pub set_builder-IsOrdered :
      (tf : Timeframe) (b : Builder) (r : Resampler)
      → IsOrdered r
      → b.timeframe ≡ tf
      → ((last : ℕ) → lookup tf r.last_closed ≡ some last → last < b.open_time)
      → IsOrdered (set_builder tf b r)
  unfolding set_builder
  set_builder-IsOrdered tf b r v name past = record {
    unique = insert-UniqueKeys tf b r.builders v.unique;
    named = λ j w e. ground (arith, lookup-insert j tf b r.builders, v.named j w, eq_iff tf j);
    ahead = λ j w last e l.
        ground (arith, lookup-insert j tf b r.builders, v.ahead j w last, past last, eq_iff tf j);
  }

  -- Closing a bar publishes it, and leaves the other timeframes ordered.
  pub retire-ledger :
      (tf : Timeframe) (b : Builder) (r : Resampler)
      → b.timeframe ≡ tf
      → ((last : ℕ) → lookup tf r.last_closed ≡ some last → last < b.open_time)
      → publish ((retire tf b r).0 ∷ []) r.last_closed ≡ some (retire tf b r).1.last_closed
  unfolding retire publish
  retire-ledger tf b r name past = elim (Option-cases (lookup tf r.last_closed)) [
    | inl new ↦ ground arith
    | inr (last, old) ↦ ground (arith, past last)
  ]

  -- A retired builder is replaced by one of a later bucket.
  pub retire-set_builder-IsOrdered :
      (tf : Timeframe) (b next : Builder) (r : Resampler)
      → IsOrdered r
      → next.timeframe ≡ tf
      → b.open_time < next.open_time
      → IsOrdered (set_builder tf next (retire tf b r).1)
  unfolding set_builder retire
  retire-set_builder-IsOrdered tf b next r v name later = record {
    unique = insert-UniqueKeys tf next r.builders v.unique;
    named = λ j w e. ground (arith, lookup-insert j tf next r.builders, v.named j w, eq_iff tf j);
    ahead = λ j w last e l. ground (
      arith,
      lookup-insert j tf next r.builders,
      lookup-insert j tf b.open_time r.last_closed,
      v.ahead j w last,
      eq_iff tf j,
    );
  }

  -- A retired builder is deleted.
  pub retire-erase-IsOrdered :
      (tf : Timeframe) (b : Builder) (r : Resampler) → IsOrdered r → IsOrdered (close_out tf b r)
  unfolding retire
  retire-erase-IsOrdered tf b r v = record {
    unique = erase-UniqueKeys tf r.builders v.unique;
    named = λ j w e. ground (arith, lookup-erase j tf r.builders, v.named j w, eq_iff tf j);
    ahead = λ j w last e l. ground (
      arith,
      lookup-erase j tf r.builders,
      lookup-insert j tf b.open_time r.last_closed,
      v.ahead j w last,
      eq_iff tf j,
    );
  }

  -- Two steps in a row.
  pub Publishes-append :
      (bars more : List Candle) (r r' r'' : Resampler)
      → Publishes r bars r'
      → Publishes r' more r''
      → Publishes r (bars ++ more) r''
  Publishes-append bars more r r' r'' a b = record {
    ordered = b.ordered;
    ledger =
        publish-append bars more r.last_closed r'.last_closed r''.last_closed a.ledger b.ledger;
  }
