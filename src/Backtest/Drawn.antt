-- ===== src/Backtest/Drawn.antt =====
-- `_drawable_series` of src/qte_backtest/replay.py: what a report draws.
use quant_trading_engine.Backtest.Market.{coarser, drawable_series, first_fit, on_ladder}
use quant_trading_engine.Backtest.Strategy.{Row}
use quant_trading_engine.Floats.{Decimals, Floats}
use quant_trading_engine.Prelude.{
  All, Bool-cases, List, Option, Text, [], ap, arith, inl, inr, leb, length, ltb, none, refl, some,
  subst, sym, ℕ, ◌<◌, ◌∷◌, ◌≡◌, ◌≤◌, ◌⊎◌,
}
use quant_trading_engine.Timeframes.{
  Timeframe, all_timeframes, d1, label, seconds, timeframe_seconds,
}

module _ ⦃F : Floats⦄ ⦃D : Decimals⦄ where
  abbrev pub TooLong : (ℕ → List Row → List Row) → ℕ → List Row → Timeframe → Type 0
  TooLong resample max_rows frame tf = max_rows < length (resample (seconds tf) frame)

  -- A timeframe is passed over: it is not coarser than the frame, or its aggregation is too long.
  abbrev pub PassedOver : (ℕ → List Row → List Row) → ℕ → List Row → ℕ → Timeframe → Type 0
  PassedOver resample max_rows frame s tf = (seconds tf ≤ s) ⊎ TooLong resample max_rows frame tf

  -- What a walk over a ladder comes to: the aggregation at a coarser timeframe that is short enough,
  -- where each finer one is passed over; or the last label, where each one is.
  abbrev pub IsFirstFit :
      (ℕ → List Row → List Row) → ℕ → List Row → ℕ → List Timeframe → Text × List Row → Type 0
  IsFirstFit resample max_rows frame s tfs (base, drawn) =
      ((tf : Timeframe) × (base ≡ label tf)
        × (s < seconds tf)
        × (drawn ≡ resample (seconds tf) frame)
        × (length drawn ≤ max_rows)
        × All (λ g. (seconds tf ≤ seconds g) ⊎ PassedOver resample max_rows frame s g) tfs)
      ⊎ ((base ≡ label d1) × All (PassedOver resample max_rows frame s) tfs)

  -- Finest first.
  abbrev IsLadder : List Timeframe → Type 0
  IsLadder [] = Unit
  IsLadder (tf ∷ tfs) = All (λ g. seconds tf ≤ seconds g) tfs × IsLadder tfs

  all_timeframes-IsLadder : IsLadder all_timeframes
  unfolding seconds
  all_timeframes-IsLadder = omega arith

  one_more :
      (resample : ℕ → List Row → List Row) (max_rows : ℕ) (frame : List Row) (s : ℕ)
      (tf : Timeframe) (tfs : List Timeframe) (out : Text × List Row)
      → PassedOver resample max_rows frame s tf
      → IsFirstFit resample max_rows frame s tfs out
      → IsFirstFit resample max_rows frame s (tf ∷ tfs) out
  one_more resample max_rows frame s tf tfs out over (inl (t, base, past, drawn, fits, finer)) =
      inl (t, base, past, drawn, fits, (inr over, finer))
  one_more resample max_rows frame s tf tfs out over (inr (base, all)) = inr (base, (over, all))

  rest_coarser :
      (resample : ℕ → List Row → List Row) (max_rows : ℕ) (frame : List Row) (s : ℕ)
      (tf : Timeframe) (tfs : List Timeframe)
      → All (λ g. seconds tf ≤ seconds g) tfs
      → All (λ g. (seconds tf ≤ seconds g) ⊎ PassedOver resample max_rows frame s g) tfs
  rest_coarser resample max_rows frame s tf [] above = tt
  rest_coarser resample max_rows frame s tf (g ∷ tfs) (le, above) =
      (inl le, rest_coarser resample max_rows frame s tf tfs above)

  first_fit-IsFirstFit :
      (resample : ℕ → List Row → List Row) (max_rows : ℕ) (frame : List Row) (s : ℕ)
      (last : Option (List Row)) (tfs : List Timeframe) (out : Text × List Row)
      → IsLadder tfs
      → first_fit resample max_rows frame last (coarser s tfs) ≡ some out
      → IsFirstFit resample max_rows frame s tfs out
  unfolding first_fit
  first_fit-IsFirstFit resample max_rows frame s none [] out ladder found = absurd (cc found)
  first_fit-IsFirstFit resample max_rows frame s (some drawn) [] out ladder found =
      let it : (label d1, drawn) ≡ out = cc found in inr (ap (λ x. x.0) (sym it), tt)
  first_fit-IsFirstFit resample max_rows frame s last (tf ∷ tfs) out (above, ladder) found =
      let drawn = resample (seconds tf) frame in
      let walk = λ (l : Option (List Row)).
        first_fit-IsFirstFit resample max_rows frame s l tfs out ladder in
      elim (Bool-cases (ltb s (seconds tf))) [
        | inr no_coarser ↦
            one_more resample max_rows frame s tf tfs out (inl (ground (arith, no_coarser)))
              (walk last (rw no_coarser at found))
        | inl past ↦ elim (Bool-cases (leb (length drawn) max_rows)) [
          | inl fits ↦
              let it : some (label tf, drawn) ≡ some out = rw (past, fits) at found in
              let same : (label tf, drawn) ≡ out = cc it in
              subst (IsFirstFit resample max_rows frame s (tf ∷ tfs)) same (
                inl (
                  tf,
                  refl,
                  ground (arith, past),
                  refl,
                  ground (arith, fits),
                  (inl (omega arith), rest_coarser resample max_rows frame s tf tfs above),
                ))
          | inr over ↦
              one_more resample max_rows frame s tf tfs out (inr (ground (arith, over)))
                (walk (some drawn) (rw (past, over) at found))
        ]
      ]

  -- What is drawn: the frame, if it is short enough, or what the walk over the timeframes comes to.
  abbrev pub IsDrawn : (ℕ → List Row → List Row) → List Row → Text → ℕ → Text × List Row → Type 0
  IsDrawn resample frame timeframe max_rows out =
      ((out ≡ (timeframe, frame)) × (length frame ≤ max_rows))
      ⊎ ((max_rows < length frame)
          × ((s : ℕ) × (timeframe_seconds timeframe ≡ some s)
              × IsFirstFit resample max_rows frame s all_timeframes out))

  -- What a report draws is the frame itself where it is short enough, and only there; else the
  -- frame's calendar aggregation at the finest of the timeframes coarser than its own at which that
  -- is short enough. Where it is too long at each of them, the label is D1.
  pub drawable_series-IsFirstFit :
      (resample : ℕ → List Row → List Row) (frame : List Row) (timeframe : Text) (max_rows : ℕ)
      (out : Text × List Row)
      → drawable_series resample frame timeframe (some max_rows) ≡ some out
      → IsDrawn resample frame timeframe max_rows out
  unfolding drawable_series
  drawable_series-IsFirstFit resample frame timeframe max_rows out found =
      elim (Bool-cases (leb (length frame) max_rows)) [
        | inl fits ↦
            let it : some (timeframe, frame) ≡ some out = rw fits at found in
            inl (cc it, ground (arith, fits))
        | inr over ↦
            inr (ground (arith, over), on (timeframe_seconds timeframe) refl (rw over at found))
      ]
    where
      on :
          (s : Option ℕ)
          → timeframe_seconds timeframe ≡ s
          → on_ladder resample max_rows frame s ≡ some out
          → (n : ℕ) × (timeframe_seconds timeframe ≡ some n)
            × IsFirstFit resample max_rows frame n all_timeframes out
      on none at found' = absurd (cc found')
      on (some s) at found' = (
        s,
        at,
        first_fit-IsFirstFit resample max_rows frame s none all_timeframes out
            all_timeframes-IsLadder found',
      )
