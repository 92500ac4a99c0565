-- ===== src/Resampler/Flush.antt =====
-- `flush` of src/qte_ingestion/resampler.py against the ledger of published bars.
use quant_trading_engine.Floats.{Floats}
use quant_trading_engine.Prelude.{
  Bool-cases, Dict, Key-Text, Key-ℕ, UniqueKeys, [], arith, eq_iff, inl, inr, leb, lookup,
  lookup-erase, lookup-head, refl, some, ℕ, ◌∷◌, ◌≡◌,
}
use quant_trading_engine.Resampler.{
  Builder, Resampler, bucket_end, close_out, flush, flush_entries, retire,
}
use quant_trading_engine.Resampler.Invariant.{
  IsOrdered, Publishes, Publishes-append, retire-erase-IsOrdered, retire-ledger,
}
use quant_trading_engine.Resampler.Ledger.{publish}
use quant_trading_engine.Timeframes.{Key-Timeframe, Timeframe}

module _ ⦃F : Floats⦄ where
  -- The entries that `flush` has still to look at are those of the state, as they were.
  abbrev pub Agrees : Dict Timeframe Builder → Resampler → Type 0
  Agrees entries r =
      (tf : Timeframe) (b : Builder) → lookup tf entries ≡ some b → lookup tf r.builders ≡ some b

  pub Agrees-tail :
      (tf : Timeframe) (b : Builder) (entries : Dict Timeframe Builder) (r : Resampler)
      → UniqueKeys ((tf, b) ∷ entries)
      → Agrees ((tf, b) ∷ entries) r
      → Agrees entries r
  unfolding lookup
  Agrees-tail tf b entries r u agree j w e = ground (arith, agree j w, eq_iff tf j)

  pub Agrees-erase :
      (tf : Timeframe) (b : Builder) (entries : Dict Timeframe Builder) (r : Resampler)
      → UniqueKeys ((tf, b) ∷ entries)
      → Agrees ((tf, b) ∷ entries) r
      → Agrees entries (close_out tf b r)
  unfolding retire
  Agrees-erase tf b entries r u agree j w e =
      ground
        (arith, Agrees-tail tf b entries r u agree j w, lookup-erase j tf r.builders, eq_iff tf j)

  flush_entries-Publishes :
      (now : ℕ) (entries : Dict Timeframe Builder) (r : Resampler)
      → UniqueKeys entries
      → Agrees entries r
      → IsOrdered r
      → Publishes r (flush_entries now entries r).0 (flush_entries now entries r).1
  unfolding flush_entries publish
  flush_entries-Publishes now [] r u agree h = record { ordered = h; ledger = refl }
  flush_entries-Publishes now ((tf, b) ∷ entries) r u agree h =
      let found : lookup tf r.builders ≡ some b = agree tf b (lookup-head tf b entries) in
      elim (Bool-cases (leb (bucket_end tf b) now)) [
        | inl over ↦ rw over (
            let r' = close_out tf b r in
            let (bars, last) = flush_entries now entries r' in
            let first : Publishes r ((retire tf b r).0 ∷ []) r' = record {
              ordered = retire-erase-IsOrdered tf b r h;
              ledger =
                  retire-ledger tf b r (h.named tf b found) (λ last e. h.ahead tf b last found e);
            } in
            Publishes-append ((retire tf b r).0 ∷ []) bars r r' last first (
              flush_entries-Publishes now entries r' u.1 (Agrees-erase tf b entries r u agree)
                (retire-erase-IsOrdered tf b r h)))
        | inr running ↦
            rw running
              (flush_entries-Publishes now entries r u.1 (Agrees-tail tf b entries r u agree) h)
      ]

  -- The flush timer.
  pub flush-Publishes :
      (now : ℕ) (r : Resampler) → IsOrdered r → Publishes r (flush now r).0 (flush now r).1
  unfolding flush
  flush-Publishes now r h = flush_entries-Publishes now r.builders r h.unique (λ tf b e. e) h
