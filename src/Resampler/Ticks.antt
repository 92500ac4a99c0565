-- ===== src/Resampler/Ticks.antt =====
-- `add_tick` of src/qte_ingestion/resampler.py against the ledger of published bars.
use quant_trading_engine.Floats.{Float, Floats}
use quant_trading_engine.Prelude.{
  Bool-cases, Dict, Key-Text, Key-ℕ, List, Option-cases, [], arith, false, inl, inr, lookup, ltb,
  refl, some, ℕ, ◌<◌, ◌∷◌, ◌≡◌,
}
use quant_trading_engine.Resampler.{
  Builder, Resampler, is_spent, open_builder, retire, set_builder, update, visit, visit_all,
}
use quant_trading_engine.Resampler.Invariant.{
  IsOrdered, Publishes, Publishes-append, retire-ledger, retire-set_builder-IsOrdered,
  set_builder-IsOrdered,
}
use quant_trading_engine.Resampler.Ledger.{publish}
use quant_trading_engine.Timeframes.{Key-Timeframe, Timeframe, floor_to_bucket}

module _ ⦃F : Floats⦄ where
  pub is_spent-false :
      (tf : Timeframe) (bucket last : ℕ) (closes : Dict Timeframe ℕ)
      → is_spent tf bucket closes ≡ false
      → lookup tf closes ≡ some last
      → last < bucket
  unfolding is_spent
  is_spent-false tf bucket last closes h e = ground arith

  -- The branches of `visit`: a new bar, a tick in the open bar, and a tick in a later bucket.
  opens-Publishes :
      (p v : Float) (bucket : ℕ) (tf : Timeframe) (r : Resampler)
      → IsOrdered r
      → is_spent tf bucket r.last_closed ≡ false
      → Publishes r [] (set_builder tf (update (open_builder r tf bucket p) p v) r)
  unfolding set_builder publish open_builder update
  opens-Publishes p v bucket tf r h fresh = record {
    ordered =
        set_builder-IsOrdered tf (update (open_builder r tf bucket p) p v) r h refl
          (λ last e. is_spent-false tf bucket last r.last_closed fresh e);
    ledger = refl;
  }

  extends-Publishes :
      (p v : Float) (tf : Timeframe) (b : Builder) (r : Resampler)
      → IsOrdered r
      → lookup tf r.builders ≡ some b
      → Publishes r [] (set_builder tf (update b p v) r)
  unfolding set_builder publish update
  extends-Publishes p v tf b r h found = record {
    ordered =
        set_builder-IsOrdered tf (update b p v) r h (h.named tf b found)
          (λ last e. h.ahead tf b last found e);
    ledger = refl;
  }

  replaces-Publishes :
      (p v : Float) (bucket : ℕ) (tf : Timeframe) (b : Builder) (r : Resampler)
      → IsOrdered r
      → lookup tf r.builders ≡ some b
      → b.open_time < bucket
      → let (bar, r') = retire tf b r in
        Publishes r (bar ∷ []) (set_builder tf (update (open_builder r' tf bucket p) p v) r')
  unfolding open_builder update
  replaces-Publishes p v bucket tf b r h found later =
      let r' = (retire tf b r).1 in
      record {
        ordered =
            retire-set_builder-IsOrdered tf b (update (open_builder r' tf bucket p) p v) r h refl
              later;
        ledger =
            unfold set_builder in
            retire-ledger tf b r (h.named tf b found) (λ last e. h.ahead tf b last found e);
      }

  -- One tick in one timeframe.
  pub visit-Publishes :
      (p v : Float) (ts : ℕ) (tf : Timeframe) (r : Resampler)
      → IsOrdered r
      → Publishes r (visit p v ts tf r).0 (visit p v ts tf r).1
  unfolding visit publish
  visit-Publishes p v ts tf r h =
      let bucket = floor_to_bucket ts tf in
      elim (Bool-cases (is_spent tf bucket r.last_closed)) [
        | inl spent ↦ rw spent (record { ordered = h; ledger = refl })
        | inr fresh ↦ rw fresh (elim (Option-cases (lookup tf r.builders)) [
          | inl missing ↦ rw missing (opens-Publishes p v bucket tf r h fresh)
          | inr (b, found) ↦ rw found (elim (Bool-cases (ltb b.open_time bucket)) [
            | inl later ↦ rw later (replaces-Publishes p v bucket tf b r h found (ground arith))
            | inr early ↦ rw early (elim (Bool-cases (ltb bucket b.open_time)) [
              | inl late ↦ rw late (record { ordered = h; ledger = refl })
              | inr now ↦ rw now (extends-Publishes p v tf b r h found)
            ])
          ])
        ])
      ]

  pub visit_all-Publishes :
      (p v : Float) (ts : ℕ) (tfs : List Timeframe) (r : Resampler)
      → IsOrdered r
      → Publishes r (visit_all p v ts tfs r).0 (visit_all p v ts tfs r).1
  unfolding visit_all publish
  visit_all-Publishes p v ts [] r h = record { ordered = h; ledger = refl }
  visit_all-Publishes p v ts (tf ∷ tfs) r h =
      let (bars, r') = visit p v ts tf r in
      let (more, r'') = visit_all p v ts tfs r' in
      let first = visit-Publishes p v ts tf r h in
      Publishes-append bars more r r' r'' first (visit_all-Publishes p v ts tfs r' first.ordered)
