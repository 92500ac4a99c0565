-- ===== src/Delivery/Finishing.antt =====
-- `_finish_delivery` of src/qte_strategy_engine/runner.py: what it leaves in the outbox and calls.
use quant_trading_engine.Delivery.{
  Answers, DeliveryResult, Outcome, Pair, RowStatus, Runner, book_accepted, change_slot, final_of,
  finalize, finish_at, finish_delivery, has_failed, is_known, is_unknown, keep_result,
  mark_delivery, pending_of, resolved, row_sent_pending, row_shadow_pending, set_slot, was_sent,
  was_shadowed,
}
use quant_trading_engine.Delivery.Once.{Quiet, Quiet-trans, mark_delivery-Quiet, same-Quiet}
use quant_trading_engine.Delivery.Recovering.{is_prepared}
use quant_trading_engine.Floats.{Floats}
use quant_trading_engine.Models.Signals.{BrokerSignal}
use quant_trading_engine.Prelude.{
  Bool, Key-Text, Key-pair, Key-ℕ, Option, Text, erase, false, if-both, insert, lookup, none, not,
  refl, some, true, ◌||◌, ◌≡◌,
}
use quant_trading_engine.SignalFactory.{SignalFactory, commit, discard_pending_context}
use quant_trading_engine.Timeframes.{Key-Timeframe}

module _ ⦃F : Floats⦄ where
  set_slot-Quiet :
      (g : SignalFactory → SignalFactory) (pair : Pair) (slot : Option SignalFactory) (r : Runner)
      → Quiet r (set_slot g pair slot r)
  set_slot-Quiet g pair none r = same-Quiet r r refl refl refl
  set_slot-Quiet g pair (some f) r =
      same-Quiet r (record r { slots = insert pair (g f) r.slots }) refl refl refl

  pub change_slot-Quiet :
      (g : SignalFactory → SignalFactory) (pair : Pair) (r : Runner)
      → Quiet r (change_slot g pair r)
  change_slot-Quiet g pair r = set_slot-Quiet g pair (lookup pair r.slots) r

  keep_result-Quiet :
      (id : Text) (result : DeliveryResult) (r : Runner) → Quiet r (keep_result id result r)
  unfolding keep_result
  keep_result-Quiet id result r =
      if-both (Quiet r) (is_known result.status)
        (record r { pending_results = insert id result r.pending_results }) r
        (λ known.
          same-Quiet r (record r { pending_results = insert id result r.pending_results }) refl refl
            refl)
        (λ ambiguous. same-Quiet r r refl refl refl)

  resolved-Quiet :
      (pair : Pair) (id : Text) (status : Outcome) (r : Runner) (made : Runner × Bool)
      → Quiet r made.0
      → Quiet r (resolved pair id status made).0
  unfolding resolved
  resolved-Quiet pair id status r (r', done) quiet =
      let r'' = record r' { pending_results = erase id r'.pending_results } in
      let cleared = change_slot (discard_pending_context pair.1) pair r'' in
      if-both (λ (out : Runner × Bool). Quiet r out.0) (not done || not (is_known status))
        (r', false) (cleared, true) (λ unfinished. quiet)
        (λ finished. Quiet-trans r r' cleared quiet (
          Quiet-trans r' r'' cleared (same-Quiet r' r'' refl refl refl)
            (change_slot-Quiet (discard_pending_context pair.1) pair r'')))

  final_of-past : (status : Outcome) → is_prepared (final_of status) ≡ false
  final_of-past was_sent = refl
  final_of-past was_shadowed = refl
  final_of-past has_failed = refl
  final_of-past is_unknown = refl

  finalize-Quiet :
      (a : Answers) (pair : Pair) (id : Text) (status : Outcome) (r : Runner)
      → Quiet r (finalize a pair id status r).0
  unfolding finalize
  finalize-Quiet a pair id status r =
      resolved-Quiet pair id status r (mark_delivery a.marked_final id (final_of status) r)
        (mark_delivery-Quiet a.marked_final id (final_of status) r (final_of-past status))

  book_accepted-Quiet :
      (a : Answers) (pair : Pair) (signal : BrokerSignal) (id : Text) (status : Outcome)
      (r : Runner) (made : Runner × Bool)
      → Quiet r made.0
      → Quiet r (book_accepted a pair signal id status made).0
  unfolding book_accepted
  book_accepted-Quiet a pair signal id status r (r', false) quiet = quiet
  book_accepted-Quiet a pair signal id status r (r', true) quiet =
      let booked = change_slot (commit signal (some id) a.now) pair r' in
      let so_far =
        Quiet-trans r r' booked quiet (change_slot-Quiet (commit signal (some id) a.now) pair r') in
      if-both (λ (out : Runner × Bool). Quiet r out.0) (not a.tracked) (booked, false)
        (finalize a pair id status booked) (λ lost. so_far)
        (λ tracked.
          Quiet-trans r booked (finalize a pair id status booked).0 so_far
            (finalize-Quiet a pair id status booked))

  pending_of-past :
      (status : Outcome) (s : RowStatus) → pending_of status ≡ some s → is_prepared s ≡ false
  pending_of-past was_sent s h = (let it : row_sent_pending ≡ s = cc h in rw (← it) refl)
  pending_of-past was_shadowed s h = (let it : row_shadow_pending ≡ s = cc h in rw (← it) refl)
  pending_of-past has_failed s h = absurd (cc h)
  pending_of-past is_unknown s h = absurd (cc h)

  finish_at-Quiet :
      (a : Answers) (pair : Pair) (signal : BrokerSignal) (id : Text) (status : Outcome)
      (accepted : Option RowStatus) (r : Runner)
      → ((s : RowStatus) → accepted ≡ some s → is_prepared s ≡ false)
      → Quiet r (finish_at a pair signal id status accepted r).0
  finish_at-Quiet a pair signal id status none r past = finalize-Quiet a pair id status r
  finish_at-Quiet a pair signal id status (some s) r past =
      book_accepted-Quiet a pair signal id status r (mark_delivery a.marked_pending id s r)
        (mark_delivery-Quiet a.marked_pending id s r (past s refl))

  pub finish_delivery-Quiet :
      (a : Answers) (pair : Pair) (signal : BrokerSignal) (id : Text) (result : DeliveryResult)
      (r : Runner)
      → Quiet r (finish_delivery a pair signal id result r).0
  unfolding finish_delivery
  finish_delivery-Quiet a pair signal id result r =
      let kept = keep_result id result r in
      Quiet-trans r kept
        (finish_at a pair signal id result.status (pending_of result.status) kept).0
        (keep_result-Quiet id result r)
        (finish_at-Quiet a pair signal id result.status (pending_of result.status) kept
          (pending_of-past result.status))
