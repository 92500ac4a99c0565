-- ===== src/Resampler/Events.antt =====
-- A resampler's whole life: ticks, timer calls, a restore after a restart, and `mark_joined`, in
-- any order.
use quant_trading_engine.Floats.{Floats}
use quant_trading_engine.Models.{Candle, Tick, price}
use quant_trading_engine.Prelude.{
  Bool-cases, Key-Text, Key-ℕ, List, Option, Option-cases, Text, [], arith, inl, inr, lookup, none,
  refl, some, ℕ, ◌++◌, ◌∷◌, ◌≡◌,
}
use quant_trading_engine.Resampler.{
  Resampler, add_tick, contains_timeframe, flush, is_spent, mark_joined, new_resampler, restore,
  restored_builder,
}
use quant_trading_engine.Resampler.Flush.{flush-Publishes}
use quant_trading_engine.Resampler.Invariant.{
  IsOrdered, Publishes, Publishes-append, set_builder-IsOrdered,
}
use quant_trading_engine.Resampler.Ledger.{Increasing, publish, publish-Increasing}
use quant_trading_engine.Resampler.Ticks.{is_spent-false, visit_all-Publishes}
use quant_trading_engine.Timeframes.{Key-Timeframe}

module _ ⦃F : Floats⦄ where
  pub data Event : Type 0 where
    tick_event : Tick → Event
    timer_event : ℕ → Event
    restore_event : Candle → Event
    joined_event : ℕ → Event

  abbrev after_tick : Resampler → Option (List Candle × Resampler) → List Candle × Resampler
  after_tick r none = ([], r)
  after_tick r (some (bars, r')) = (bars, r')

  -- A tick without a price raises and leaves the resampler as it was.
  unfoldable pub step : Event → Resampler → List Candle × Resampler
  step (tick_event t) r = after_tick r (add_tick t r)
  step (timer_event now) r = flush now r
  step (restore_event c) r = ([], restore c r)
  step (joined_event moment) r = ([], mark_joined moment r)

  unfoldable pub run : List Event → Resampler → List Candle × Resampler
  unfolding step
  run [] r = ([], r)
  run (e ∷ es) r = let (bars, r') = step e r in let (more, r'') = run es r' in (bars ++ more, r'')

  restore-Publishes : (c : Candle) (r : Resampler) → IsOrdered r → Publishes r [] (restore c r)
  unfolding restore publish restored_builder
  restore-Publishes c r h = elim (Bool-cases (contains_timeframe c.timeframe r.timeframes)) [
    | inr unknown ↦ rw unknown (record { ordered = h; ledger = refl })
    | inl known ↦ rw known (elim (Bool-cases (is_spent c.timeframe c.open_time r.last_closed)) [
      | inl spent ↦ rw spent (record { ordered = h; ledger = refl })
      | inr fresh ↦ rw fresh (record {
        ordered =
            set_builder-IsOrdered c.timeframe (restored_builder r.symbol c) r h refl
              (λ last e. is_spent-false c.timeframe c.open_time last r.last_closed fresh e);
        ledger = refl;
      })
    ])
  ]

  add_tick-Publishes :
      (t : Tick) (r : Resampler)
      → IsOrdered r
      → Publishes r (after_tick r (add_tick t r)).0 (after_tick r (add_tick t r)).1
  unfolding add_tick publish
  add_tick-Publishes t r h = elim (Option-cases (price t)) [
    | inl missing ↦ rw (missing, after_tick) (record { ordered = h; ledger = refl })
    | inr (p, found) ↦ rw (found, after_tick) (visit_all-Publishes p t.volume t.ts r.timeframes r h)
  ]

  -- Whatever happens, a step publishes what the ledger takes and keeps the state ordered.
  pub step-Publishes :
      (e : Event) (r : Resampler) → IsOrdered r → Publishes r (step e r).0 (step e r).1
  unfolding step publish
  step-Publishes (tick_event t) r h = add_tick-Publishes t r h
  step-Publishes (timer_event now) r h = flush-Publishes now r h
  step-Publishes (restore_event c) r h = restore-Publishes c r h
  step-Publishes (joined_event moment) r h =
      unfold mark_joined in
      record {
        ordered = record { unique = h.unique; named = h.named; ahead = h.ahead };
        ledger = refl;
      }

  pub run-Publishes :
      (es : List Event) (r : Resampler) → IsOrdered r → Publishes r (run es r).0 (run es r).1
  unfolding run publish
  run-Publishes [] r h = record { ordered = h; ledger = refl }
  run-Publishes (e ∷ es) r h =
      let (bars, r') = step e r in
      let (more, r'') = run es r' in
      let first = step-Publishes e r h in
      Publishes-append bars more r r' r'' first (run-Publishes es r' first.ordered)

  new_resampler_empty :
      (symbol : Text) (values : List Text) (r : Resampler)
      → new_resampler symbol values ≡ some r
      → (r.builders ≡ []) × (r.last_closed ≡ [])
  unfolding new_resampler
  new_resampler_empty symbol values r h = ground arith

  new_resampler-IsOrdered :
      (symbol : Text) (values : List Text) (r : Resampler)
      → new_resampler symbol values ≡ some r
      → IsOrdered r
  unfolding lookup
  new_resampler-IsOrdered symbol values r h =
      let (empty, _) = new_resampler_empty symbol values r h in
      record {
        unique = rw empty tt;
        named = λ tf b e. cc (rw empty at e);
        ahead = λ tf b last e _. cc (rw empty at e);
      }

  -- From a fresh resampler, whatever ticks, timer calls and restores follow, the bars published
  -- for each timeframe have strictly increasing open times: no bucket goes out twice, and none
  -- goes out behind one already sent.
  pub run-Increasing :
      (symbol : Text) (values : List Text) (r : Resampler) (es : List Event)
      → new_resampler symbol values ≡ some r
      → Increasing (run es r).0
  run-Increasing symbol values r es h =
      let done = run-Publishes es r (new_resampler-IsOrdered symbol values r h) in
      publish-Increasing (run es r).0 r.last_closed (run es r).1.last_closed done.ledger
