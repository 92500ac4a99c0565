-- ===== src/Delivery.antt =====
-- The outbox of src/qte_strategy_engine/runner.py (`_send_staged_signal`, `_finish_delivery`) over
-- `mark_delivery` of src/qte_strategy_engine/db/repository.py. What the database, the broker, Redis
-- and the ownership lease answer to one attempt is a value, `Answers`; a call that raises answers as
-- one that fails, for the callers treat the two alike. The ids of the calls to the broker are a
-- list, in their order.
pub mod Recovering
pub mod Emitting
pub mod Once
pub mod Blocking
pub mod Finishing
pub mod Attempts
pub mod Steps
pub mod Emissions
use quant_trading_engine.Floats.{Float, Floats}
use quant_trading_engine.Models.Signals.{BrokerSignal}
use quant_trading_engine.Prelude.{
  Bool, Dict, Key-Text, Key-pair, Key-ℕ, List, Option, Text, [], erase, false, if◌then◌else◌,
  insert, is_some, lookup, none, not, some, true, ℕ, ◌++◌, ◌==◌, ◌||◌, ◌∷◌,
}
use quant_trading_engine.SignalFactory.{SignalFactory, commit, discard_pending_context}
use quant_trading_engine.Timeframes.{Key-Timeframe}

module _ ⦃F : Floats⦄ where
  -- `delivery_status` of a row of the outbox.
  pub data RowStatus : Type 0 where
    row_prepared row_pending row_unknown row_sent_pending row_shadow_pending : RowStatus
    row_sent row_shadow row_failed : RowStatus

  -- `DeliveryResult.status`
  pub data Outcome : Type 0 where
    was_sent was_shadowed has_failed is_unknown : Outcome

  pub record DeliveryResult : Type 0 where
    pub status : Outcome
    pub transport : Text

  -- A strategy and a symbol: `StrategySlot.key`.
  abbrev pub Pair : Type 0
  Pair = Text × Text

  pub record OutboxRow : Type 0 where
    pub pair : Pair
    pub namespace : Text
    pub transport : Text
    pub is_shadow : Bool
    pub row_status : RowStatus
    pub created_at : ℕ
    pub signal : BrokerSignal
    pub scale : Option Float

  pub record Runner : Type 0 where
    pub namespace : Text
    pub is_paper : Bool
    pub transport : Text
    pub slots : Dict Pair SignalFactory
    pub uncertain_pairs : List Pair
    pub unconfirmed_staging : List Pair
    pub pending_results : Dict Text DeliveryResult
    pub outbox : Dict Text OutboxRow
    pub entries_in_flight : ℕ
    pub calls : List Text

  -- What a write to the outbox answers: done, not done, or done with its answer lost.
  pub data Mark : Type 0 where
    marked unmarked unreported : Mark

  pub record Answers : Type 0 where
    pub owned_at_start : Bool
    pub owned : Bool
    pub owned_at_send : Bool
    pub shadow_on : Bool
    pub shadow_at_send : Bool
    pub marked_unknown : Mark
    pub marked_pending : Mark
    pub marked_final : Mark
    pub tracked : Bool
    pub broker : Option Outcome
    pub now : ℕ

  abbrev pub mem : Pair → List Pair → Bool
  mem p [] = false
  mem p (q ∷ qs) = q == p || mem p qs

  abbrev pub remove : Pair → List Pair → List Pair
  remove p [] = []
  remove p (q ∷ qs) = let rest = remove p qs in if q == p then rest else q ∷ rest

  -- `WHERE id = .. AND namespace = ..`
  abbrev pub of_namespace : Text → Option OutboxRow → Option OutboxRow
  of_namespace namespace none = none
  of_namespace namespace (some row) = if row.namespace == namespace then some row else none

  -- `get_delivery`
  unfoldable pub get_delivery : Text → Runner → Option OutboxRow
  get_delivery id r = of_namespace r.namespace (lookup id r.outbox)

  abbrev pub write_status : Text → RowStatus → Option OutboxRow → Runner → Runner
  write_status id s none r = r
  write_status id s (some row) r = record r {
    outbox = insert id (record row { row_status = s }) r.outbox;
  }

  -- `mark_delivery`
  unfoldable pub mark_delivery : Mark → Text → RowStatus → Runner → Runner × Bool
  unfolding get_delivery
  mark_delivery marked id s r =
      (write_status id s (get_delivery id r) r, is_some (get_delivery id r))
  mark_delivery unmarked id s r = (r, false)
  mark_delivery unreported id s r = (write_status id s (get_delivery id r) r, false)

  abbrev pub differs : Bool → Bool → Bool
  differs a b = if a then not b else b

  -- What the broker's answer counts as, where a raise leaves it unknown.
  abbrev pub answered : Option Outcome → Outcome
  answered none = is_unknown
  answered (some status) = status

  -- The part of `_send_staged_signal` after the mark.
  unfoldable pub cross : Answers → Text → Runner × Bool → Runner × Option DeliveryResult
  cross a id (r, false) = (r, none)
  cross a id (r, true) = if not a.owned_at_send || a.shadow_at_send then (r, none) else (
    record r { calls = r.calls ++ id ∷ [] },
    some (record { status = answered a.broker; transport = r.transport }),
  )

  -- `_send_staged_signal`: none is `None` or a raise.
  unfoldable pub send_staged_signal :
      Answers → Text → Bool → Runner → Runner × Option DeliveryResult
  unfolding cross mark_delivery
  send_staged_signal a id for_shadow r =
      if not a.owned || differs for_shadow r.is_paper
      then (r, none)
      else if for_shadow
      then (r, some (record { status = was_shadowed; transport = r.transport }))
      else if a.shadow_on
      then (r, none)
      else cross a id (mark_delivery a.marked_unknown id row_unknown r)

  -- `f"{outcome.status}_pending"`, of an accepted outcome.
  abbrev pub pending_of : Outcome → Option RowStatus
  pending_of was_sent = some row_sent_pending
  pending_of was_shadowed = some row_shadow_pending
  pending_of _ = none

  abbrev pub final_of : Outcome → RowStatus
  final_of was_sent = row_sent
  final_of was_shadowed = row_shadow
  final_of has_failed = row_failed
  final_of is_unknown = row_unknown

  abbrev pub is_known : Outcome → Bool
  is_known is_unknown = false
  is_known _ = true

  abbrev pub set_slot :
      (SignalFactory → SignalFactory) → Pair → Option SignalFactory → Runner → Runner
  set_slot g pair none r = r
  set_slot g pair (some f) r = record r { slots = insert pair (g f) r.slots }

  abbrev pub change_slot : (SignalFactory → SignalFactory) → Pair → Runner → Runner
  change_slot g pair r = set_slot g pair (lookup pair r.slots) r

  unfoldable pub keep_result : Text → DeliveryResult → Runner → Runner
  keep_result id result r =
      if is_known result.status
      then record r { pending_results = insert id result r.pending_results }
      else r

  unfoldable pub resolved : Pair → Text → Outcome → Runner × Bool → Runner × Bool
  unfolding discard_pending_context
  resolved pair id status (r, done) = if not done || not (is_known status) then (r, false) else (
    change_slot (discard_pending_context pair.1) pair
        (record r { pending_results = erase id r.pending_results }),
    true,
  )

  -- The final checkpoint of `_finish_delivery`.
  unfoldable pub finalize : Answers → Pair → Text → Outcome → Runner → Runner × Bool
  unfolding mark_delivery resolved
  finalize a pair id status r =
      resolved pair id status (mark_delivery a.marked_final id (final_of status) r)

  -- The commit of an accepted delivery, once it is marked as pending.
  unfoldable pub book_accepted :
      Answers → Pair → BrokerSignal → Text → Outcome → Runner × Bool → Runner × Bool
  unfolding finalize commit
  book_accepted a pair signal id status (r, false) = (r, false)
  book_accepted a pair signal id status (r, true) =
      let r' = change_slot (commit signal (some id) a.now) pair r in
      if not a.tracked then (r', false) else finalize a pair id status r'

  abbrev pub finish_at :
      Answers → Pair → BrokerSignal → Text → Outcome → Option RowStatus → Runner → Runner × Bool
  finish_at a pair signal id status none r = finalize a pair id status r
  finish_at a pair signal id status (some accepted) r =
      book_accepted a pair signal id status (mark_delivery a.marked_pending id accepted r)

  -- `_finish_delivery`
  unfoldable pub finish_delivery :
      Answers → Pair → BrokerSignal → Text → DeliveryResult → Runner → Runner × Bool
  unfolding keep_result book_accepted finalize mark_delivery
  finish_delivery a pair signal id result r =
      finish_at a pair signal id result.status (pending_of result.status) (keep_result id result r)
