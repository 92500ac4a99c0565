-- ===== src/Resampler/Ledger.antt =====
-- The specification of what a resampler may publish: a ledger that holds, for each timeframe, the
-- open time of the last bucket that went out, and takes a bar only if it lies past that.
use quant_trading_engine.Floats.{Floats}
use quant_trading_engine.Models.{Candle}
use quant_trading_engine.Prelude.{
  All, Bool-cases, Dict, Key-Text, Key-ℕ, List, Option, [], arith, eq_iff, if◌then◌else◌, inl, inr,
  insert, lookup, lookup-insert, lookup-insert_self, ltb, none, some, ℕ, ◌++◌, ◌<◌, ◌==◌, ◌∙◌, ◌∷◌,
  ◌≡◌, ◌≤◌,
}
use quant_trading_engine.Timeframes.{Key-Timeframe, Timeframe}

module _ ⦃F : Floats⦄ where
  unfoldable pub publish : List Candle → Dict Timeframe ℕ → Option (Dict Timeframe ℕ)
  publish [] closes = some closes
  publish (c ∷ cs) closes =
      let accepted = publish cs (insert c.timeframe c.open_time closes) in
      elim (lookup c.timeframe closes) [
        | none ↦ accepted
        | some last ↦ if ltb last c.open_time then accepted else none
      ]

  -- Each bar is later than every earlier bar of its timeframe.
  abbrev pub Later : Candle → Candle → Type 0
  Later c d = d.timeframe ≡ c.timeframe → c.open_time < d.open_time

  abbrev pub Increasing : List Candle → Type 0
  Increasing [] = Unit
  Increasing (c ∷ cs) = All (Later c) cs × Increasing cs

  pub publish-append :
      (cs ds : List Candle) (k l m : Dict Timeframe ℕ)
      → publish cs k ≡ some l
      → publish ds l ≡ some m
      → publish (cs ++ ds) k ≡ some m
  unfolding publish
  publish-append [] ds k l m h g = ground (arith, h)
  publish-append (c ∷ cs) ds k l m h g =
      ground (arith, publish-append cs ds (insert c.timeframe c.open_time k) l m)

  publish-cons :
      (c : Candle) (cs : List Candle) (k l : Dict Timeframe ℕ)
      → publish (c ∷ cs) k ≡ some l
      → (publish cs (insert c.timeframe c.open_time k) ≡ some l)
        × ((last : ℕ) → lookup c.timeframe k ≡ some last → last < c.open_time)
  unfolding publish
  publish-cons c cs k l h = (ground arith, λ last e. ground arith)

  -- What the ledger accepts lies past its mark.
  publish-past :
      (cs : List Candle) (k l : Dict Timeframe ℕ) (tf : Timeframe) (t last : ℕ)
      → publish cs k ≡ some l
      → lookup tf k ≡ some last
      → t ≤ last
      → All (λ d. d.timeframe ≡ tf → t < d.open_time) cs
  publish-past [] k l tf t last h e le = tt
  publish-past (c ∷ cs) k l tf t last h e le =
      let (rest, past) = publish-cons c cs k l h in
      let k' = insert c.timeframe c.open_time k in
      let updated = lookup-insert tf c.timeframe c.open_time k in
      elim (Bool-cases (c.timeframe == tf)) [
        | inl same ↦
            let same_tf : c.timeframe ≡ tf = (eq_iff c.timeframe tf).0 same in
            let later : last < c.open_time = past last (rw same_tf e) in
            (
              λ _. omega arith,
              publish-past cs k' l tf t c.open_time rest (updated ∙ rw same) (omega arith),
            )
        | inr other ↦ (
          λ same_tf. cc ((eq_iff c.timeframe tf).1 same_tf),
          publish-past cs k' l tf t last rest (updated ∙ rw other e) le,
        )
      ]

  pub publish-Increasing :
      (cs : List Candle) (k l : Dict Timeframe ℕ) → publish cs k ≡ some l → Increasing cs
  publish-Increasing [] k l h = tt
  publish-Increasing (c ∷ cs) k l h =
      let (rest, _) = publish-cons c cs k l h in
      let k' = insert c.timeframe c.open_time k in
      (
        publish-past cs k' l c.timeframe c.open_time c.open_time rest
            (lookup-insert_self c.timeframe c.open_time k) (omega arith),
        publish-Increasing cs k' l rest,
      )
