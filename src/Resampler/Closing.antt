-- ===== src/Resampler/Closing.antt =====
-- What `flush` of src/qte_ingestion/resampler.py does to each timeframe's bar, and `take_partial`.
use quant_trading_engine.Floats.{Floats}
use quant_trading_engine.Models.{Candle}
use quant_trading_engine.Prelude.{
  Bool-cases, Dict, Key-Text, Key-pair, Key-ℕ, List, Option, Option-cases, UniqueKeys, [], ap,
  arith, eq_iff, eq_self, false, if◌then◌else◌, inl, inr, leb, lookup, lookup-erase,
  lookup-erase_self, lookup-head, none, refl, some, true, ℕ, ◌*◌, ◌+◌, ◌==◌, ◌∙◌, ◌∷◌, ◌≡◌,
}
use quant_trading_engine.Resampler.{
  Builder, Resampler, add_marker, bucket_end, close_out, flush, flush_entries, has_marker,
  remove_marker, retire, snapshot, take_partial,
}
use quant_trading_engine.Resampler.Flush.{Agrees, Agrees-erase, Agrees-tail}
use quant_trading_engine.Resampler.Invariant.{IsOrdered}
use quant_trading_engine.Timeframes.{Key-Timeframe, Timeframe, second, seconds}

module _ ⦃F : Floats⦄ where
  -- The bar of a timeframe after the timer: gone if its bucket has ended, else as it was.
  abbrev pub still_open : ℕ → Timeframe → Option Builder → Option Builder
  still_open now tf none = none
  still_open now tf (some b) = if leb (b.open_time + seconds tf * second) now then none else some b

  -- The bars whose bucket has ended, as closed candles, in the order of the entries.
  abbrev pub ended : ℕ → Dict Timeframe Builder → List Candle
  ended now [] = []
  ended now ((tf, b) ∷ entries) =
      let rest = ended now entries in
      if leb (b.open_time + seconds tf * second) now then snapshot b true ∷ rest else rest

  flush_entries-bars :
      (now : ℕ) (entries : Dict Timeframe Builder) (r : Resampler)
      → (flush_entries now entries r).0 ≡ ended now entries
  unfolding flush_entries retire bucket_end seconds
  flush_entries-bars now [] r = refl
  flush_entries-bars now ((tf, b) ∷ entries) r = elim (Bool-cases (leb (bucket_end tf b) now)) [
    | inl over ↦
        rw over (ap (λ (l : List Candle). snapshot b true ∷ l) (flush_entries-bars now entries _))
    | inr running ↦ rw running (flush_entries-bars now entries r)
  ]

  -- A timeframe that no entry names keeps its bar.
  flush_entries-other :
      (now : ℕ) (entries : Dict Timeframe Builder) (r : Resampler) (tf : Timeframe)
      → lookup tf entries ≡ none
      → lookup tf (flush_entries now entries r).1.builders ≡ lookup tf r.builders
  unfolding flush_entries retire lookup bucket_end seconds
  flush_entries-other now [] r tf unseen = refl
  flush_entries-other now ((j, b) ∷ entries) r tf unseen =
      elim (Bool-cases (leb (bucket_end j b) now)) [
        | inl over ↦ ground (
          arith,
          flush_entries-other now entries (close_out j b r) tf,
          lookup-erase tf j r.builders,
        )
        | inr running ↦ rw running (flush_entries-other now entries r tf (ground arith))
      ]

  flush_entries-head :
      (now : ℕ) (j : Timeframe) (c : Builder) (entries : Dict Timeframe Builder) (r : Resampler)
      → lookup j entries ≡ none
      → lookup j r.builders ≡ some c
      → lookup j (flush_entries now ((j, c) ∷ entries) r).1.builders ≡ still_open now j (some c)
  unfolding flush_entries retire bucket_end seconds
  flush_entries-head now j c entries r unseen found = ground (
    arith,
    flush_entries-other now entries (close_out j c r) j unseen,
    flush_entries-other now entries r j unseen,
    lookup-erase_self j r.builders,
  )

  flush_entries-builders :
      (now : ℕ) (entries : Dict Timeframe Builder) (r : Resampler) (tf : Timeframe)
      → UniqueKeys entries
      → Agrees entries r
      → (b : Builder) → lookup tf entries ≡ some b
      → lookup tf (flush_entries now entries r).1.builders ≡ still_open now tf (some b)
  unfolding flush_entries lookup bucket_end seconds
  flush_entries-builders now [] r tf u agree b found = ground arith
  flush_entries-builders now ((j, c) ∷ entries) r tf u agree b found = elim (Bool-cases (j == tf)) [
    | inl same ↦
        let e : j ≡ tf = (eq_iff j tf).0 same in
        let held : c ≡ b = ground arith in
        rw (← held, ← e)
          (flush_entries-head now j c entries r u.0 (agree j c (lookup-head j c entries)))
    | inr other ↦
        let found' : lookup tf entries ≡ some b = ground arith in
        elim (Bool-cases (leb (bucket_end j c) now)) [
          | inl over ↦ rw over (
              flush_entries-builders now entries (close_out j c r) tf u.1
                (Agrees-erase j c entries r u agree) b found')
          | inr running ↦ rw running (
              flush_entries-builders now entries r tf u.1 (Agrees-tail j c entries r u agree) b
                found')
        ]
  ]

  -- Of a resampler that holds each timeframe's bar once, under that timeframe, and opened later than
  -- the last bar of it that has closed, the timer closes exactly the bars that opened at least the timeframe's length before it, each as
  -- a closed candle, in the order of the builders, and takes their builders away; every other open
  -- bar stays as it was.
  pub flush_closes :
      (now : ℕ) (r : Resampler)
      → IsOrdered r
      → ((flush now r).0 ≡ ended now r.builders)
        × ((tf : Timeframe)
            → lookup tf (flush now r).1.builders ≡ still_open now tf (lookup tf r.builders))
  unfolding flush
  flush_closes now r h = (
    flush_entries-bars now r.builders r,
    λ tf. elim (Option-cases (lookup tf r.builders)) [
      | inl unseen ↦ rw unseen (flush_entries-other now r.builders r tf unseen ∙ unseen)
      | inr (b, found) ↦
          rw found (flush_entries-builders now r.builders r tf h.unique (λ j c e. e) b found)
    ],
  )

  has_marker-add :
      (tf : Timeframe) (t : ℕ) (ms : List (Timeframe × ℕ))
      → has_marker tf t (add_marker tf t ms) ≡ true
  unfolding add_marker
  has_marker-add tf t ms = ground (arith, eq_self tf)

  has_marker-remove :
      (tf : Timeframe) (t : ℕ) (ms : List (Timeframe × ℕ))
      → has_marker tf t (remove_marker tf t ms) ≡ false
  unfolding has_marker remove_marker
  has_marker-remove tf t [] = refl
  has_marker-remove tf t (m ∷ ms) = ground (arith, has_marker-remove tf t ms)

  -- A bar that has just closed is reported as partial exactly if ticks of its bucket are missing
  -- from it, provided that no marker of an earlier close names that bucket.
  pub take_partial-retire :
      (tf : Timeframe) (b : Builder) (r : Resampler)
      → b.timeframe ≡ tf
      → has_marker tf b.open_time r.partial_closes ≡ false
      → (take_partial (retire tf b r).0 (retire tf b r).1).0 ≡ b.is_partial
  unfolding take_partial retire
  take_partial-retire tf b r name fresh =
      ground (arith, has_marker-add tf b.open_time r.partial_closes)

  -- A partial bar is reported once: asked again about the same bar the answer is no.
  pub take_partial_once :
      (c : Candle) (r : Resampler) → (take_partial c (take_partial c r).1).0 ≡ false
  unfolding take_partial
  take_partial_once c r = ground (arith, has_marker-remove c.timeframe c.open_time r.partial_closes)
