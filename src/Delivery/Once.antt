-- ===== src/Delivery/Once.antt =====
-- The calls to the broker in src/qte_strategy_engine/runner.py, over any sequence of emissions,
-- recoveries and restarts.
use quant_trading_engine.Delivery.{
  Answers, DeliveryResult, Mark, OutboxRow, RowStatus, Runner, cross, differs, get_delivery,
  mark_delivery, marked, row_unknown, send_staged_signal, unmarked, unreported, was_shadowed,
  write_status,
}
use quant_trading_engine.Delivery.Recovering.{is_prepared}
use quant_trading_engine.Floats.{Floats}
use quant_trading_engine.Prelude.{
  Bool, Bool-cases, Dict, Key-Text, Key-pair, Key-ℕ, Option, Text, [], ap, false, if-both,
  if◌then◌else◌, inl, inr, insert, is_some, lookup, lookup-insert, lookup-insert_self, none, not,
  refl, some, subst, sym, true, ◌++◌, ◌==◌, ◌||◌, ◌∙◌, ◌∷◌, ◌≡◌, ◌⊎◌,
}
use quant_trading_engine.Timeframes.{Key-Timeframe}

module _ ⦃F : Floats⦄ where
  abbrev pub IsPast : Option OutboxRow → Type 0
  IsPast none = ⊥
  IsPast (some row) = is_prepared row.row_status ≡ false

  -- No call to the broker, and no row that was once past `prepared` comes back to it.
  pub record Quiet (r r' : Runner) : Type 0 where
    pub same_calls : r'.calls ≡ r.calls
    pub same_pairs : r'.uncertain_pairs ≡ r.uncertain_pairs
    pub past : (id : Text) → IsPast (lookup id r.outbox) → IsPast (lookup id r'.outbox)

  pub same-Quiet :
      (r r' : Runner)
      → r'.calls ≡ r.calls
      → r'.uncertain_pairs ≡ r.uncertain_pairs
      → r'.outbox ≡ r.outbox
      → Quiet r r'
  same-Quiet r r' calls pairs outbox = record {
    same_calls = calls;
    same_pairs = pairs;
    past = λ id h. subst (λ o. IsPast (lookup id o)) (sym outbox) h;
  }

  pub Quiet-trans : (a b c : Runner) → Quiet a b → Quiet b c → Quiet a c
  Quiet-trans a b c h k = record {
    same_calls = k.same_calls ∙ h.same_calls;
    same_pairs = k.same_pairs ∙ h.same_pairs;
    past = λ id p. k.past id (h.past id p);
  }

  insert-IsPast :
      (id j : Text) (row : OutboxRow) (d : Dict Text OutboxRow)
      → is_prepared row.row_status ≡ false
      → IsPast (lookup j d)
      → IsPast (lookup j (insert id row d))
  insert-IsPast id j row d past h =
      rw (lookup-insert j id row d)
        (elim (Bool-cases (id == j)) [ inl same ↦ rw same past | inr other ↦ rw other h ])

  write_status-Quiet :
      (id : Text) (s : RowStatus) (row : Option OutboxRow) (r : Runner)
      → is_prepared s ≡ false
      → Quiet r (write_status id s row r)
  write_status-Quiet id s none r past = same-Quiet r r refl refl refl
  write_status-Quiet id s (some row) r past = record {
    same_calls = refl;
    same_pairs = refl;
    past = λ j h. insert-IsPast id j (record row { row_status = s }) r.outbox past h;
  }

  pub mark_delivery-Quiet :
      (m : Mark) (id : Text) (s : RowStatus) (r : Runner)
      → is_prepared s ≡ false
      → Quiet r (mark_delivery m id s r).0
  unfolding mark_delivery
  mark_delivery-Quiet marked id s r past = write_status-Quiet id s (get_delivery id r) r past
  mark_delivery-Quiet unmarked id s r past = same-Quiet r r refl refl refl
  mark_delivery-Quiet unreported id s r past = write_status-Quiet id s (get_delivery id r) r past

  write_status-IsPast :
      (id : Text) (s : RowStatus) (row : Option OutboxRow) (r : Runner)
      → is_prepared s ≡ false
      → is_some row ≡ true
      → IsPast (lookup id (write_status id s row r).outbox)
  write_status-IsPast id s none r past found = absurd (cc found)
  write_status-IsPast id s (some row) r past found =
      rw (lookup-insert_self id (record row { row_status = s }) r.outbox) past

  pub mark_delivery-IsPast :
      (m : Mark) (id : Text) (s : RowStatus) (r : Runner)
      → is_prepared s ≡ false
      → (mark_delivery m id s r).1 ≡ true
      → IsPast (lookup id (mark_delivery m id s r).0.outbox)
  unfolding mark_delivery
  mark_delivery-IsPast marked id s r past done =
      write_status-IsPast id s (get_delivery id r) r past done
  mark_delivery-IsPast unmarked id s r past done = absurd (cc done)
  mark_delivery-IsPast unreported id s r past done = absurd (cc done)

  -- One call for the id, whose row is past `prepared`.
  pub record Crossed (id : Text) (r r' : Runner) : Type 0 where
    pub one_call : r'.calls ≡ r.calls ++ id ∷ []
    pub pairs : r'.uncertain_pairs ≡ r.uncertain_pairs
    pub kept : (j : Text) → IsPast (lookup j r.outbox) → IsPast (lookup j r'.outbox)
    pub past : IsPast (lookup id r'.outbox)

  cross-Crossed :
      (a : Answers) (id : Text) (r : Runner) (made : Runner × Bool)
      → Quiet r made.0
      → (made.1 ≡ true → IsPast (lookup id made.0.outbox))
      → Quiet r (cross a id made).0 ⊎ Crossed id r (cross a id made).0
  unfolding cross
  cross-Crossed a id r (r', false) quiet past = inl quiet
  cross-Crossed a id r (r', true) quiet past =
      elim (Bool-cases (not a.owned_at_send || a.shadow_at_send)) [
        | inl stopped ↦ rw stopped (inl quiet)
        | inr let_through ↦ rw let_through (
            inr (record {
              one_call = ap (λ calls. calls ++ id ∷ []) quiet.same_calls;
              pairs = quiet.same_pairs;
              kept = quiet.past;
              past = past refl;
            }))
      ]

  -- What one attempt may come to: nothing sent, or one call, for a live delivery.
  abbrev pub IsAttempt : Text → Bool → Runner → Runner → Type 0
  IsAttempt id for_shadow r r' = Quiet r r' ⊎ ((for_shadow ≡ false) × Crossed id r r')

  pub send_staged_signal-IsAttempt :
      (a : Answers) (id : Text) (for_shadow : Bool) (r : Runner)
      → IsAttempt id for_shadow r (send_staged_signal a id for_shadow r).0
  unfolding send_staged_signal
  send_staged_signal-IsAttempt a id for_shadow r =
      let P = λ (out : Runner × Option DeliveryResult). IsAttempt id for_shadow r out.0 in
      let quiet : Quiet r r = same-Quiet r r refl refl refl in
      let marked_row = mark_delivery a.marked_unknown id row_unknown r in
      let crossed = cross a id marked_row in
      let shadowed : Runner × Option DeliveryResult =
        (r, some (record { status = was_shadowed; transport = r.transport })) in
      if-both P (not a.owned || differs for_shadow r.is_paper) (r, none)
        (if for_shadow then shadowed else if a.shadow_on then (r, none) else crossed)
        (λ refused. inl quiet)
        (λ mine.
          if-both P for_shadow shadowed (if a.shadow_on then (r, none) else crossed)
            (λ paper. inl quiet)
            (λ live.
              if-both P a.shadow_on (r, none) crossed (λ paused. inl quiet)
                (λ unpaused.
                  elim (cross-Crossed a id r marked_row
                    (mark_delivery-Quiet a.marked_unknown id row_unknown r refl)
                    (mark_delivery-IsPast a.marked_unknown id row_unknown r refl)) [
                      | inl none_sent ↦ inl none_sent
                      | inr sent ↦ inr (live, sent)
                    ])))
