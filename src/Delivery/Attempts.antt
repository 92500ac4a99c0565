-- ===== src/Delivery/Attempts.antt =====
-- The calls to the broker in `_recover_pending_deliveries` and `_emit` of
-- src/qte_strategy_engine/runner.py, where no ambiguous delivery is sent again.
use quant_trading_engine.Delivery.{
  Answers, DeliveryResult, OutboxRow, Pair, RowStatus, Runner, change_slot, finish_delivery,
  get_delivery, mem, of_namespace, send_staged_signal, set_slot,
}
use quant_trading_engine.Delivery.Finishing.{change_slot-Quiet, finish_delivery-Quiet}
use quant_trading_engine.Delivery.Once.{
  Crossed, IsAttempt, IsPast, Quiet, send_staged_signal-IsAttempt,
}
use quant_trading_engine.Delivery.Recovering.{
  Scan, Scanned, finished, in_horizon, is_crossed, is_final, is_foreign_row, is_prepared,
  known_outcome, mark_uncertain, may_send, note_row, outcome_of, recover_delivery, recover_pending,
  recover_row, recover_unfinished, retried, scan_row, scan_rows,
}
use quant_trading_engine.Floats.{Floats}
use quant_trading_engine.Prelude.{
  Bool, Bool-cases, Key-Text, Key-pair, Key-ℕ, List, Option, Text, [], ap, arith, eq_iff, false,
  if-both, if◌then◌else◌, inl, inr, is_some, lookup, none, not, refl, some, subst, sym, true, upper,
  ℕ, ◌&&◌, ◌++◌, ◌+◌, ◌==◌, ◌||◌, ◌∙◌, ◌∷◌, ◌≡◌, ◌⊎◌,
}
use quant_trading_engine.SignalFactory.{SignalFactory, restore_pending_context}
use quant_trading_engine.Timeframes.{Key-Timeframe}

module _ ⦃F : Floats⦄ where
  -- How often the broker was called for a delivery.
  abbrev pub times : Text → List Text → ℕ
  times id [] = 0
  times id (call ∷ calls) = (if call == id then 1 else 0) + times id calls

  times-append :
      (id k : Text) (calls : List Text)
      → times id (calls ++ k ∷ []) ≡ times id calls + (if k == id then 1 else 0)
  times-append id k [] = omega arith
  times-append id k (call ∷ calls) = omega (arith, times-append id k calls)

  abbrev pub OnceAt : ℕ → Option OutboxRow → Type 0
  OnceAt n row = (n ≡ 0) ⊎ ((n ≡ 1) × IsPast row)

  -- Each delivery was sent at most once, and one that was sent is not stored as `prepared`.
  abbrev pub SentOnce : Runner → Type 0
  SentOnce r = (id : Text) → OnceAt (times id r.calls) (lookup id r.outbox)

  pub Quiet-SentOnce : (r r' : Runner) → Quiet r r' → SentOnce r → SentOnce r'
  Quiet-SentOnce r r' quiet once id =
      let same = ap (times id) quiet.same_calls in
      elim (once id) [
        | inl never ↦ inl (same ∙ never)
        | inr (one, past) ↦ inr (same ∙ one, quiet.past id past)
      ]

  unsent_prepared :
      (r : Runner) (id : Text) (row : OutboxRow)
      → SentOnce r
      → lookup id r.outbox ≡ some row
      → is_prepared row.row_status ≡ true
      → times id r.calls ≡ 0
  unsent_prepared r id row once found fresh = elim (once id) [
    | inl never ↦ never
    | inr (one, past) ↦
        let past' : is_prepared row.row_status ≡ false = subst IsPast found past in
        absurd (cc (fresh, past'))
  ]

  pub unsent_absent :
      (r : Runner) (id : Text) → SentOnce r → lookup id r.outbox ≡ none → times id r.calls ≡ 0
  unsent_absent r id once gone = elim (once id) [
    | inl never ↦ never
    | inr (one, past) ↦ absurd (subst IsPast gone past)
  ]

  Crossed-SentOnce :
      (r r' : Runner) (k : Text) → Crossed k r r' → times k r.calls ≡ 0 → SentOnce r → SentOnce r'
  Crossed-SentOnce r r' k sent never once id =
      let count = ap (times id) sent.one_call ∙ times-append id k r.calls in
      elim (Bool-cases (k == id)) [
        | inl same ↦
            let it = (eq_iff k id).0 same in
            let before : times id r.calls ≡ 0 = subst (λ j. times j r.calls ≡ 0) it never in
            inr (
              count ∙ ground (arith, same, before),
              subst (λ j. IsPast (lookup j r'.outbox)) it sent.past,
            )
        | inr other ↦
            let same_count : times id r'.calls ≡ times id r.calls = count ∙ ground (arith, other) in
            elim (once id) [
              | inl none_yet ↦ inl (same_count ∙ none_yet)
              | inr (one, past) ↦ inr (same_count ∙ one, sent.kept id past)
            ]
      ]

  pub IsAttempt-SentOnce :
      (id : Text) (for_shadow : Bool) (r r' : Runner)
      → IsAttempt id for_shadow r r'
      → (for_shadow ≡ false → times id r.calls ≡ 0)
      → SentOnce r
      → SentOnce r'
  IsAttempt-SentOnce id for_shadow r r' (inl quiet) never once = Quiet-SentOnce r r' quiet once
  IsAttempt-SentOnce id for_shadow r r' (inr (is_live, sent)) never once =
      Crossed-SentOnce r r' id sent (never is_live) once

  only_prepared :
      (a : Answers) (row : OutboxRow) (r : Runner)
      → may_send a 0 row r ≡ true
      → row.is_shadow ≡ false
      → is_prepared row.row_status ≡ true
  unfolding may_send in_horizon
  only_prepared a row r may is_live = ground arith

  pub retried-same :
      (s : RowStatus) (out : Runner × Option DeliveryResult) → (retried s out).0 ≡ out.0
  retried-same s (r, none) = refl
  retried-same s (r, some result) = refl

  outcome_of-SentOnce :
      (a : Answers) (id : Text) (row : OutboxRow) (known : Option DeliveryResult) (r : Runner)
      → lookup id r.outbox ≡ some row
      → SentOnce r
      → SentOnce (outcome_of a 0 id row known r).0
  unfolding outcome_of
  outcome_of-SentOnce a id row (some result) r found once = once
  outcome_of-SentOnce a id row none r found once =
      let tried = send_staged_signal a id row.is_shadow r in
      if-both (λ (out : Runner × Option DeliveryResult). SentOnce out.0) (may_send a 0 row r)
        (retried row.row_status tried) (r, none)
        (λ may. subst SentOnce (sym (retried-same row.row_status tried)) (
          IsAttempt-SentOnce id row.is_shadow r tried.0
            (send_staged_signal-IsAttempt a id row.is_shadow r)
            (λ is_live. unsent_prepared r id row once found (only_prepared a row r may is_live))
            once))
        (λ may_not. once)

  finished-SentOnce :
      (a : Answers) (pair : Pair) (id : Text) (row : OutboxRow)
      (out : Runner × Option DeliveryResult)
      → SentOnce out.0
      → SentOnce (finished a pair id row out).0
  finished-SentOnce a pair id row (r, none) once = once
  finished-SentOnce a pair id row (r, some result) once =
      Quiet-SentOnce r (finish_delivery a pair row.signal id result r).0
        (finish_delivery-Quiet a pair row.signal id result r) once

  set_slot-outbox :
      (g : SignalFactory → SignalFactory) (pair : Pair) (slot : Option SignalFactory) (r : Runner)
      → (set_slot g pair slot r).outbox ≡ r.outbox
  set_slot-outbox g pair none r = refl
  set_slot-outbox g pair (some f) r = refl

  recover_unfinished-SentOnce :
      (a : Answers) (pair : Pair) (id : Text) (row : OutboxRow) (r : Runner)
      → lookup id r.outbox ≡ some row
      → SentOnce r
      → SentOnce (recover_unfinished a 0 pair id row r).0
  unfolding recover_unfinished
  recover_unfinished-SentOnce a pair id row r found once =
      let g = restore_pending_context pair.1 row.scale in
      let r' = change_slot g pair r in
      let once' = Quiet-SentOnce r r' (change_slot-Quiet g pair r) once in
      let found' = ap (lookup id) (set_slot-outbox g pair (lookup pair r.slots) r) ∙ found in
      let known = known_outcome id row r' in
      finished-SentOnce a pair id row (outcome_of a 0 id row known r')
        (outcome_of-SentOnce a id row known r' found' once')

  recover_row-SentOnce :
      (a : Answers) (pair : Pair) (id : Text) (row : Option OutboxRow) (r : Runner)
      → ((it : OutboxRow) → row ≡ some it → lookup id r.outbox ≡ some it)
      → SentOnce r
      → SentOnce (recover_row a 0 pair id row r).0
  unfolding recover_row
  recover_row-SentOnce a pair id none r found once = once
  recover_row-SentOnce a pair id (some row) r found once =
      let P = λ (out : Runner × Bool). SentOnce out.0 in
      let tried = recover_unfinished a 0 pair id row r in
      let known = is_final row.row_status && not (is_some (lookup id r.pending_results)) in
      let foreign_pair = not ((row.signal.strategy, upper row.signal.symbol) == pair) in
      if-both P (is_foreign_row row r || is_crossed row.row_status r.is_paper) (r, false)
        (if known then (r, true) else if foreign_pair then (r, false) else tried) (λ refused. once)
        (λ ours.
          if-both P known (r, true) (if foreign_pair then (r, false) else tried) (λ done. once)
            (λ undone.
              if-both P foreign_pair (r, false) tried (λ foreign. once)
                (λ mine. recover_unfinished-SentOnce a pair id row r (found row refl) once)))

  of_namespace-some :
      (namespace : Text) (row : Option OutboxRow) (it : OutboxRow)
      → of_namespace namespace row ≡ some it
      → row ≡ some it
  of_namespace-some namespace none it found = absurd (cc found)
  of_namespace-some namespace (some row) it found = ground (arith, found)

  recover_delivery-SentOnce :
      (a : Answers) (pair : Pair) (id : Text) (r : Runner)
      → SentOnce r
      → SentOnce (recover_delivery a 0 pair id r).0
  unfolding recover_delivery get_delivery
  recover_delivery-SentOnce a pair id r once =
      let row = of_namespace r.namespace (lookup id r.outbox) in
      if-both (λ (out : Runner × Bool). SentOnce out.0) (not a.owned_at_start) (r, false)
        (recover_row a 0 pair id row r) (λ lost. once)
        (λ owned.
          recover_row-SentOnce a pair id row r
            (λ it. of_namespace-some r.namespace (lookup id r.outbox) it) once)

  note_row-runner :
      (pair : Pair) (s : Scan) (out : Runner × Bool) → (note_row pair s out).runner ≡ out.0
  note_row-runner pair s (r, true) = refl
  note_row-runner pair s (r, false) = refl

  scan_row-SentOnce :
      (row : Scanned) (s : Scan) → SentOnce s.runner → SentOnce (scan_row 0 row s).runner
  unfolding scan_row
  scan_row-SentOnce row s once =
      let r = mark_uncertain row.pair s.runner in
      let tried = recover_delivery row.answers 0 row.pair row.id r in
      if-both (λ (s' : Scan). SentOnce s'.runner)
        (not (is_some (lookup row.pair r.slots)) || mem row.pair s.blocked)
        (record s { runner = r; blocked = row.pair ∷ s.blocked }) (note_row row.pair s tried)
        (λ passed. once)
        (λ taken.
          subst SentOnce (sym (note_row-runner row.pair s tried))
            (recover_delivery-SentOnce row.answers row.pair row.id r once))

  scan_rows-SentOnce :
      (rows : List Scanned) (s : Scan) → SentOnce s.runner → SentOnce (scan_rows 0 rows s).runner
  unfolding scan_rows
  scan_rows-SentOnce [] s once = once
  scan_rows-SentOnce (row ∷ rows) s once =
      scan_rows-SentOnce rows (scan_row 0 row s) (scan_row-SentOnce row s once)

  pub recover_pending-SentOnce :
      (owned read_all : Bool) (rows : List Scanned) (r : Runner)
      → SentOnce r
      → SentOnce (recover_pending owned read_all 0 rows r)
  unfolding recover_pending
  recover_pending-SentOnce false read_all rows r once = once
  recover_pending-SentOnce true false rows r once =
      scan_rows-SentOnce rows (record { runner = r; blocked = []; resolved_pairs = [] }) once
  recover_pending-SentOnce true true rows r once =
      scan_rows-SentOnce rows (record { runner = r; blocked = []; resolved_pairs = [] }) once
