-- ===== src/Delivery/Emissions.antt =====
-- Every run of src/qte_strategy_engine/runner.py with the default retry horizon, 0, and the calls
-- to the broker.
use quant_trading_engine.Delivery.{
  DeliveryResult, OutboxRow, Runner, change_slot, finish_delivery, mem, remove, send_staged_signal,
}
use quant_trading_engine.Delivery.Attempts.{
  IsAttempt-SentOnce, OnceAt, Quiet-SentOnce, SentOnce, recover_pending-SentOnce, times,
  unsent_absent,
}
use quant_trading_engine.Delivery.Emitting.{
  Emission, Staging, account_is_full, deliver, emit, emit_intent, emit_on, finish_emission,
  outbox_row, publish, stage, staged, staged_unreported, unstaged,
}
use quant_trading_engine.Delivery.Finishing.{change_slot-Quiet, finish_delivery-Quiet}
use quant_trading_engine.Delivery.Once.{send_staged_signal-IsAttempt}
use quant_trading_engine.Delivery.Recovering.{mark_uncertain}
use quant_trading_engine.Delivery.Steps.{
  Reaches, Step, emits, here, later, recovers, restart, restarts,
}
use quant_trading_engine.Floats.{Decimals, Floats}
use quant_trading_engine.Models.{is_entry}
use quant_trading_engine.Models.Signals.{BrokerSignal}
use quant_trading_engine.Prelude.{
  Bool, Bool-cases, Key-Text, Key-pair, Key-ℕ, Option, Result, Text, [], ap, eq_iff, err, false,
  if-both, if◌then◌else◌, inl, inr, insert, lookup, lookup-insert, none, not, ok, refl, some, subst,
  sym, true, ℕ, ◌&&◌, ◌+◌, ◌-◌, ◌==◌, ◌||◌, ◌∙◌, ◌∷◌, ◌≡◌,
}
use quant_trading_engine.Resampler.Events.{step}
use quant_trading_engine.SignalFactory.{SignalFactory, discard_pending_context, pending_context}
use quant_trading_engine.SignalFactory.Building.{build}
use quant_trading_engine.SignalFactory.Intents.{SignalIntent, first_some}
use quant_trading_engine.SignalFactory.Preparing.{BuildError}
use quant_trading_engine.Timeframes.{Key-Timeframe}

module _ ⦃F : Floats⦄ ⦃D : Decimals⦄ where
  insert-SentOnce :
      (r : Runner) (id : Text) (row : OutboxRow)
      → lookup id r.outbox ≡ none
      → SentOnce r
      → SentOnce (record r { outbox = insert id row r.outbox })
  insert-SentOnce r id row gone once j = elim (Bool-cases (id == j)) [
    | inl same ↦
        let it = (eq_iff id j).0 same in
        let absent : lookup j r.outbox ≡ none = subst (λ k. lookup k r.outbox ≡ none) it gone in
        inl (unsent_absent r j once absent)
    | inr other ↦
        let untouched : lookup j (insert id row r.outbox) ≡ lookup j r.outbox =
          rw (lookup-insert j id row r.outbox, other) refl in
        subst (OnceAt (times j r.calls)) (sym untouched) (once j)
  ]

  stage-SentOnce :
      (s : Staging) (id : Text) (row : OutboxRow) (r : Runner)
      → lookup id r.outbox ≡ none
      → SentOnce r
      → SentOnce (stage s id row r).0
  stage-SentOnce staged id row r gone once = insert-SentOnce r id row gone once
  stage-SentOnce unstaged id row r gone once = once
  stage-SentOnce staged_unreported id row r gone once = insert-SentOnce r id row gone once

  stage-calls :
      (s : Staging) (id : Text) (row : OutboxRow) (r : Runner)
      → (stage s id row r).0.calls ≡ r.calls
  stage-calls staged id row r = refl
  stage-calls unstaged id row r = refl
  stage-calls staged_unreported id row r = refl

  finish_emission-SentOnce :
      (e : Emission) (signal : BrokerSignal) (out : Runner × Option DeliveryResult)
      → SentOnce out.0
      → SentOnce (finish_emission e signal out)
  finish_emission-SentOnce e signal (r, none) once = once
  finish_emission-SentOnce e signal (r, some result) once =
      let made = finish_delivery e.answers e.pair signal e.delivery_id result r in
      let once' =
        Quiet-SentOnce r made.0
          (finish_delivery-Quiet e.answers e.pair signal e.delivery_id result r) once in
      if-both SentOnce made.1
        (record made.0 { uncertain_pairs = remove e.pair made.0.uncertain_pairs }) made.0
        (λ done. once') (λ undone. once')

  deliver-SentOnce :
      (e : Emission) (signal : BrokerSignal) (for_shadow : Bool) (out : Runner × Bool)
      → times e.delivery_id out.0.calls ≡ 0
      → SentOnce out.0
      → SentOnce (deliver e signal for_shadow out)
  unfolding deliver
  deliver-SentOnce e signal for_shadow (r, false) never once =
      let g = discard_pending_context e.pair.1 in
      let r' = record (mark_uncertain e.pair r) {
        unconfirmed_staging = e.pair ∷ remove e.pair r.unconfirmed_staging;
      } in
      Quiet-SentOnce r' (change_slot g e.pair r') (change_slot-Quiet g e.pair r') once
  deliver-SentOnce e signal for_shadow (r, true) never once =
      let r' = mark_uncertain e.pair r in
      let tried = send_staged_signal e.answers e.delivery_id for_shadow r' in
      finish_emission-SentOnce e signal tried (
        IsAttempt-SentOnce e.delivery_id for_shadow r' tried.0
          (send_staged_signal-IsAttempt e.answers e.delivery_id for_shadow r') (λ is_live. never)
          once)

  publish-SentOnce :
      (e : Emission) (f : SignalFactory) (built : Result BuildError (SignalIntent × BrokerSignal))
      (r : Runner)
      → lookup e.delivery_id r.outbox ≡ none
      → SentOnce r
      → SentOnce (publish e f built r)
  unfolding publish
  publish-SentOnce e f (err x) r gone once = once
  publish-SentOnce e f (ok (i, signal)) r gone once =
      let for_shadow = r.is_paper || e.answers.shadow_on in
      let row = outbox_row e signal (pending_context e.pair.1 f) for_shadow r in
      let never = unsent_absent r e.delivery_id once gone in
      deliver-SentOnce e signal for_shadow (stage e.staging e.delivery_id row r)
        (ap (times e.delivery_id) (stage-calls e.staging e.delivery_id row r) ∙ never)
        (stage-SentOnce e.staging e.delivery_id row r gone once)

  emit_on-SentOnce :
      (e : Emission) (slot : Option SignalFactory) (r : Runner)
      → lookup e.delivery_id r.outbox ≡ none
      → SentOnce r
      → SentOnce (emit_on e slot r)
  emit_on-SentOnce e none r gone once = once
  emit_on-SentOnce e (some f) r gone once =
      let intent' = record e.intent { price = first_some e.intent.price e.fallback_price } in
      let out = build e.fresh_uxid intent' e.pair.1 e.moment false e.answers.now f in
      publish-SentOnce e out.0 out.1 (record r { slots = insert e.pair out.0 r.slots }) gone once

  emit_intent-SentOnce :
      (e : Emission) (r : Runner)
      → lookup e.delivery_id r.outbox ≡ none
      → SentOnce r
      → SentOnce (emit_intent e r)
  unfolding emit_intent
  emit_intent-SentOnce e r gone once =
      if-both SentOnce
        (not e.answers.owned_at_start
          || (not r.is_paper && e.answers.shadow_on)
          || mem e.pair r.uncertain_pairs)
        r (emit_on e (lookup e.pair r.slots) r) (λ held. once)
        (λ free. emit_on-SentOnce e (lookup e.pair r.slots) r gone once)

  emit-SentOnce :
      (ceiling : ℕ) (e : Emission) (r : Runner)
      → lookup e.delivery_id r.outbox ≡ none
      → SentOnce r
      → SentOnce (emit ceiling e r)
  unfolding emit
  emit-SentOnce ceiling e r gone once =
      let full = not e.answers.owned_at_start || account_is_full ceiling r in
      let r' = emit_intent e (record r { entries_in_flight = r.entries_in_flight + 1 }) in
      let r'' = record r' { entries_in_flight = r'.entries_in_flight - 1 } in
      if-both SentOnce (not (is_entry e.intent.action)) (emit_intent e r) (if full then r else r'')
        (λ close. emit_intent-SentOnce e r gone once)
        (λ entry.
          if-both SentOnce full r r'' (λ refused. once)
            (λ room.
              emit_intent-SentOnce e (record r { entries_in_flight = r.entries_in_flight + 1 }) gone
                once))

  Step-SentOnce : (ceiling : ℕ) (r s : Runner) → Step 0 ceiling r s → SentOnce r → SentOnce s
  Step-SentOnce ceiling r s (emits e gone) once = emit-SentOnce ceiling e r gone once
  Step-SentOnce ceiling r s (recovers owned read_all rows) once =
      recover_pending-SentOnce owned read_all rows r once
  Step-SentOnce ceiling r s (restarts slots blocked) once = unfold restart in once

  -- With the default retry horizon, from a runner that has sent nothing, and with an id drawn for
  -- each delivery that no row has: whatever it emits, however often it recovers or is restarted, and
  -- whatever writes or answers are lost on the way, no delivery goes to the broker more than once,
  -- and one that has gone is not stored as `prepared`.
  pub sent_once :
      (ceiling : ℕ) (start r : Runner) → start.calls ≡ [] → Reaches 0 ceiling start r → SentOnce r
  sent_once ceiling start r none_sent here = λ id. inl (ap (times id) none_sent)
  sent_once ceiling start r none_sent (later reached step) =
      Step-SentOnce ceiling _ r step (sent_once ceiling start _ none_sent reached)
