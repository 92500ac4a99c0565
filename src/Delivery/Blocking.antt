-- ===== src/Delivery/Blocking.antt =====
-- `_recover_pending_deliveries` of src/qte_strategy_engine/runner.py and the pairs that it leaves
-- blocked.
use quant_trading_engine.Delivery.{
  Answers, DeliveryResult, OutboxRow, Pair, Runner, change_slot, get_delivery, mem, remove,
  send_staged_signal,
}
use quant_trading_engine.Delivery.Attempts.{retried-same}
use quant_trading_engine.Delivery.Emitting.{Emission, account_is_full, emit, emit_intent, emit_on}
use quant_trading_engine.Delivery.Finishing.{change_slot-Quiet, finish_delivery-Quiet}
use quant_trading_engine.Delivery.Once.{IsAttempt, send_staged_signal-IsAttempt}
use quant_trading_engine.Delivery.Recovering.{
  Scan, Scanned, finished, is_crossed, is_final, is_foreign_row, known_outcome, mark_uncertain,
  may_send, note_row, outcome_of, recover_delivery, recover_pending, recover_row,
  recover_unfinished, retried, scan_row, scan_rows, unblock,
}
use quant_trading_engine.Floats.{Decimals, Floats}
use quant_trading_engine.Models.{is_entry}
use quant_trading_engine.Prelude.{
  Bool, Bool-cases, Key-Text, Key-pair, Key-ℕ, List, Option, Text, [], ap, arith, eq_iff, eq_self,
  false, if-both, if◌then◌else◌, inl, inr, is_some, lookup, none, not, refl, some, sym, true, upper,
  ℕ, ◌&&◌, ◌++◌, ◌+◌, ◌-◌, ◌==◌, ◌||◌, ◌∙◌, ◌∷◌, ◌≡◌,
}
use quant_trading_engine.SignalFactory.{restore_pending_context}
use quant_trading_engine.Timeframes.{Key-Timeframe}

module _ ⦃F : Floats⦄ where
  abbrev SamePairs : Runner → Runner → Type 0
  SamePairs r r' = r'.uncertain_pairs ≡ r.uncertain_pairs

  IsAttempt-pairs :
      (id : Text) (for_shadow : Bool) (r r' : Runner)
      → IsAttempt id for_shadow r r'
      → SamePairs r r'
  IsAttempt-pairs id for_shadow r r' (inl quiet) = quiet.same_pairs
  IsAttempt-pairs id for_shadow r r' (inr (is_live, sent)) = sent.pairs

  outcome_of-pairs :
      (a : Answers) (horizon : ℕ) (id : Text) (row : OutboxRow) (known : Option DeliveryResult)
      (r : Runner)
      → SamePairs r (outcome_of a horizon id row known r).0
  unfolding outcome_of
  outcome_of-pairs a horizon id row (some result) r = refl
  outcome_of-pairs a horizon id row none r =
      let tried = send_staged_signal a id row.is_shadow r in
      if-both (λ (out : Runner × Option DeliveryResult). SamePairs r out.0)
        (may_send a horizon row r) (retried row.row_status tried) (r, none)
        (λ may.
          ap (λ r'. r'.uncertain_pairs) (retried-same row.row_status tried)
          ∙ IsAttempt-pairs id row.is_shadow r tried.0
              (send_staged_signal-IsAttempt a id row.is_shadow r))
        (λ may_not. refl)

  finished-pairs :
      (a : Answers) (pair : Pair) (id : Text) (row : OutboxRow)
      (out : Runner × Option DeliveryResult)
      → SamePairs out.0 (finished a pair id row out).0
  finished-pairs a pair id row (r, none) = refl
  finished-pairs a pair id row (r, some result) =
      (finish_delivery-Quiet a pair row.signal id result r).same_pairs

  recover_unfinished-pairs :
      (a : Answers) (horizon : ℕ) (pair : Pair) (id : Text) (row : OutboxRow) (r : Runner)
      → SamePairs r (recover_unfinished a horizon pair id row r).0
  unfolding recover_unfinished
  recover_unfinished-pairs a horizon pair id row r =
      let g = restore_pending_context pair.1 row.scale in
      let r' = change_slot g pair r in
      let known = known_outcome id row r' in
      finished-pairs a pair id row (outcome_of a horizon id row known r')
      ∙ outcome_of-pairs a horizon id row known r'
      ∙ (change_slot-Quiet g pair r).same_pairs

  recover_row-pairs :
      (a : Answers) (horizon : ℕ) (pair : Pair) (id : Text) (row : Option OutboxRow) (r : Runner)
      → SamePairs r (recover_row a horizon pair id row r).0
  unfolding recover_row
  recover_row-pairs a horizon pair id none r = refl
  recover_row-pairs a horizon pair id (some row) r =
      let P = λ (out : Runner × Bool). SamePairs r out.0 in
      let tried = recover_unfinished a horizon pair id row r in
      let known = is_final row.row_status && not (is_some (lookup id r.pending_results)) in
      let foreign_pair = not ((row.signal.strategy, upper row.signal.symbol) == pair) in
      if-both P (is_foreign_row row r || is_crossed row.row_status r.is_paper) (r, false)
        (if known then (r, true) else if foreign_pair then (r, false) else tried) (λ refused. refl)
        (λ ours.
          if-both P known (r, true) (if foreign_pair then (r, false) else tried) (λ done. refl)
            (λ undone.
              if-both P foreign_pair (r, false) tried (λ foreign. refl)
                (λ mine. recover_unfinished-pairs a horizon pair id row r)))

  recover_delivery-pairs :
      (a : Answers) (horizon : ℕ) (pair : Pair) (id : Text) (r : Runner)
      → SamePairs r (recover_delivery a horizon pair id r).0
  unfolding recover_delivery
  recover_delivery-pairs a horizon pair id r =
      if-both (λ (out : Runner × Bool). SamePairs r out.0) (not a.owned_at_start) (r, false)
        (recover_row a horizon pair id (get_delivery id r) r) (λ lost. refl)
        (λ owned. recover_row-pairs a horizon pair id (get_delivery id r) r)

  mem-remove :
      (p q : Pair) (pairs : List Pair) → mem p (remove q pairs) ≡ (not (q == p) && mem p pairs)
  mem-remove p q [] = ground arith
  mem-remove p q (x ∷ pairs) =
      ground (arith, eq_iff x q, eq_iff q p, eq_iff x p, mem-remove p q pairs)

  -- Every pair that the scan has blocked is uncertain.
  abbrev BlockedUncertain : Scan → Type 0
  BlockedUncertain s = (p : Pair) → mem p s.blocked ≡ true → mem p s.runner.uncertain_pairs ≡ true

  marked-BlockedUncertain :
      (pair : Pair) (s : Scan)
      → BlockedUncertain s
      → (p : Pair) → mem p (pair ∷ s.blocked) ≡ true
      → mem p (mark_uncertain pair s.runner).uncertain_pairs ≡ true
  marked-BlockedUncertain pair s held p is_blocked =
      ground (arith, is_blocked, held p, mem-remove p pair s.runner.uncertain_pairs)

  note_row-BlockedUncertain :
      (pair : Pair) (s : Scan) (out : Runner × Bool)
      → SamePairs (mark_uncertain pair s.runner) out.0
      → BlockedUncertain s
      → BlockedUncertain (note_row pair s out)
  note_row-BlockedUncertain pair s (r, true) same held p is_blocked =
      ap (mem p) same ∙ marked-BlockedUncertain pair s held p (ground (arith, is_blocked))
  note_row-BlockedUncertain pair s (r, false) same held p is_blocked =
      ap (mem p) same ∙ marked-BlockedUncertain pair s held p is_blocked

  scan_row-BlockedUncertain :
      (horizon : ℕ) (row : Scanned) (s : Scan)
      → BlockedUncertain s
      → BlockedUncertain (scan_row horizon row s)
  unfolding scan_row
  scan_row-BlockedUncertain horizon row s held =
      let r = mark_uncertain row.pair s.runner in
      let tried = recover_delivery row.answers horizon row.pair row.id r in
      if-both BlockedUncertain (not (is_some (lookup row.pair r.slots)) || mem row.pair s.blocked)
        (record s { runner = r; blocked = row.pair ∷ s.blocked }) (note_row row.pair s tried)
        (λ passed. marked-BlockedUncertain row.pair s held)
        (λ taken.
          note_row-BlockedUncertain row.pair s tried
            (recover_delivery-pairs row.answers horizon row.pair row.id r) held)

  scan_rows-BlockedUncertain :
      (horizon : ℕ) (rows : List Scanned) (s : Scan)
      → BlockedUncertain s
      → BlockedUncertain (scan_rows horizon rows s)
  unfolding scan_rows
  scan_rows-BlockedUncertain horizon [] s held = held
  scan_rows-BlockedUncertain horizon (row ∷ rows) s held =
      scan_rows-BlockedUncertain horizon rows (scan_row horizon row s)
        (scan_row-BlockedUncertain horizon row s held)

  unblock-blocked :
      (p : Pair) (uncertain cleared blocked : List Pair)
      → mem p blocked ≡ true
      → mem p uncertain ≡ true
      → mem p (unblock uncertain cleared blocked) ≡ true
  unfolding unblock
  unblock-blocked p [] cleared blocked is_blocked held = absurd (cc held)
  unblock-blocked p (q ∷ uncertain) cleared blocked is_blocked held = elim (Bool-cases (q == p)) [
    | inl same ↦
        let it = (eq_iff q p).0 same in
        let q_blocked : mem q blocked ≡ true = rw it is_blocked in
        rw (q_blocked) (ground (arith, same))
    | inr other ↦
        ground (arith, other, held, unblock-blocked p uncertain cleared blocked is_blocked)
  ]

  abbrev pub first_scan : Runner → Scan
  first_scan r = record { runner = r; blocked = []; resolved_pairs = [] }

  recover_pending-blocked :
      (read_all : Bool) (horizon : ℕ) (rows : List Scanned) (r : Runner) (p : Pair)
      → mem p (scan_rows horizon rows (first_scan r)).blocked ≡ true
      → mem p (recover_pending true read_all horizon rows r).uncertain_pairs ≡ true
  unfolding recover_pending
  recover_pending-blocked read_all horizon rows r p is_blocked =
      let s = scan_rows horizon rows (first_scan r) in
      let held =
        scan_rows-BlockedUncertain horizon rows (first_scan r) (λ q none. absurd (cc none)) p
          is_blocked in
      elim (Bool-cases read_all) [
        | inl all ↦ rw all (
            unblock-blocked p s.runner.uncertain_pairs
              (s.resolved_pairs ++ s.runner.unconfirmed_staging) s.blocked is_blocked held)
        | inr cut ↦ rw cut held
      ]

  note_row-unresolved :
      (pair : Pair) (s : Scan) (out : Runner × Bool)
      → out.1 ≡ false
      → mem pair (note_row pair s out).blocked ≡ true
  note_row-unresolved pair s (r, true) unresolved = absurd (cc unresolved)
  note_row-unresolved pair s (r, false) unresolved = ground (arith, eq_self pair)

  note_row-keeps :
      (pair p : Pair) (s : Scan) (out : Runner × Bool)
      → mem p s.blocked ≡ true
      → mem p (note_row pair s out).blocked ≡ true
  note_row-keeps pair p s (r, true) held = held
  note_row-keeps pair p s (r, false) held = ground (arith, held)

  -- The recovery of a row comes to nothing, at the state that the scan has reached.
  abbrev pub IsUnresolved : ℕ → Scanned → Scan → Type 0
  IsUnresolved horizon row s =
      (recover_delivery row.answers horizon row.pair row.id (mark_uncertain row.pair s.runner)).1
      ≡ false

  scan_row-unresolved :
      (horizon : ℕ) (row : Scanned) (s : Scan)
      → IsUnresolved horizon row s
      → mem row.pair (scan_row horizon row s).blocked ≡ true
  unfolding scan_row
  scan_row-unresolved horizon row s unresolved =
      let r = mark_uncertain row.pair s.runner in
      let tried = recover_delivery row.answers horizon row.pair row.id r in
      if-both (λ (s' : Scan). mem row.pair s'.blocked ≡ true)
        (not (is_some (lookup row.pair r.slots)) || mem row.pair s.blocked)
        (record s { runner = r; blocked = row.pair ∷ s.blocked }) (note_row row.pair s tried)
        (λ passed. ground (arith, eq_self row.pair))
        (λ taken. note_row-unresolved row.pair s tried unresolved)

  scan_rows-keeps :
      (horizon : ℕ) (p : Pair) (rows : List Scanned) (s : Scan)
      → mem p s.blocked ≡ true
      → mem p (scan_rows horizon rows s).blocked ≡ true
  unfolding scan_rows scan_row
  scan_rows-keeps horizon p [] s held = held
  scan_rows-keeps horizon p (row ∷ rows) s held =
      let r = mark_uncertain row.pair s.runner in
      let tried = recover_delivery row.answers horizon row.pair row.id r in
      scan_rows-keeps horizon p rows (scan_row horizon row s) (
        if-both (λ (s' : Scan). mem p s'.blocked ≡ true)
          (not (is_some (lookup row.pair r.slots)) || mem row.pair s.blocked)
          (record s { runner = r; blocked = row.pair ∷ s.blocked }) (note_row row.pair s tried)
          (λ passed. ground (arith, held)) (λ taken. note_row-keeps row.pair p s tried held))

  -- An unresolved row blocks its pair for the whole scan, whatever rows stand around it.
  scan_rows-unresolved :
      (horizon : ℕ) (before : List Scanned) (row : Scanned) (after : List Scanned) (s : Scan)
      → IsUnresolved horizon row (scan_rows horizon before s)
      → mem row.pair (scan_rows horizon (before ++ row ∷ after) s).blocked ≡ true
  unfolding scan_rows
  scan_rows-unresolved horizon [] row after s unresolved =
      scan_rows-keeps horizon row.pair after (scan_row horizon row s)
        (scan_row-unresolved horizon row s unresolved)
  scan_rows-unresolved horizon (first ∷ before) row after s unresolved =
      scan_rows-unresolved horizon before row after (scan_row horizon first s) unresolved

module _ ⦃F : Floats⦄ ⦃D : Decimals⦄ where
  abbrev SameOutbox : Runner → Runner → Type 0
  SameOutbox r r' = (r'.calls ≡ r.calls) × (r'.outbox ≡ r.outbox)

  emit_intent-uncertain :
      (e : Emission) (r : Runner)
      → mem e.pair r.uncertain_pairs ≡ true
      → SameOutbox r (emit_intent e r)
  unfolding emit_intent
  emit_intent-uncertain e r uncertain =
      if-both (SameOutbox r)
        (not e.answers.owned_at_start
          || (not r.is_paper && e.answers.shadow_on)
          || mem e.pair r.uncertain_pairs)
        r (emit_on e (lookup e.pair r.slots) r) (λ held. (refl, refl))
        (λ free. absurd (ground (arith, free, uncertain)))

  -- After a scan in which one row of a pair is not resolved, whatever the rows before and after it
  -- come to, and whether or not a later page could be read, an intent of that pair, an entry or a
  -- close, is neither staged nor sent.
  pub unresolved_blocks :
      (read_all : Bool) (horizon ceiling : ℕ) (before : List Scanned) (row : Scanned)
      (after : List Scanned) (r : Runner) (e : Emission)
      → row.pair ≡ e.pair
      → IsUnresolved horizon row (scan_rows horizon before (first_scan r))
      → SameOutbox
          (recover_pending true read_all horizon (before ++ row ∷ after) r)
          (emit ceiling e (recover_pending true read_all horizon (before ++ row ∷ after) r))
  unfolding emit
  unresolved_blocks read_all horizon ceiling before row after r e same_pair unresolved =
      let rows = before ++ row ∷ after in
      let r' = recover_pending true read_all horizon rows r in
      let uncertain : mem e.pair r'.uncertain_pairs ≡ true =
        ap (λ p. mem p r'.uncertain_pairs) (sym same_pair)
        ∙ recover_pending-blocked read_all horizon rows r row.pair
            (scan_rows-unresolved horizon before row after (first_scan r) unresolved) in
      let full = not e.answers.owned_at_start || account_is_full ceiling r' in
      let in_flight = record r' { entries_in_flight = r'.entries_in_flight + 1 } in
      let tried = emit_intent e in_flight in
      let tried' = record tried { entries_in_flight = tried.entries_in_flight - 1 } in
      if-both (SameOutbox r') (not (is_entry e.intent.action)) (emit_intent e r')
        (if full then r' else tried') (λ close. emit_intent-uncertain e r' uncertain)
        (λ entry.
          if-both (SameOutbox r') full r' tried' (λ refused. (refl, refl))
            (λ room. emit_intent-uncertain e in_flight uncertain))
