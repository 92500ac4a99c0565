-- ===== src/Delivery/Recovering.antt =====
-- `_recover_delivery` and `_recover_pending_deliveries` of src/qte_strategy_engine/runner.py. The
-- rows that the pages of the scan list are a list, each with what the world answers while it is
-- recovered.
use quant_trading_engine.Delivery.{
  Answers, DeliveryResult, OutboxRow, Outcome, Pair, RowStatus, Runner, change_slot, differs,
  finish_delivery, get_delivery, has_failed, is_unknown, mem, remove, row_failed, row_pending,
  row_prepared, row_sent, row_sent_pending, row_shadow, row_shadow_pending, row_unknown,
  send_staged_signal, was_sent, was_shadowed,
}
use quant_trading_engine.Floats.{Floats}
use quant_trading_engine.Prelude.{
  Bool, Key-Text, Key-pair, Key-ℕ, List, Option, Text, [], false, if◌then◌else◌, is_some, leb,
  lookup, ltb, none, not, some, true, upper, ℕ, ◌&&◌, ◌*◌, ◌++◌, ◌-◌, ◌==◌, ◌||◌, ◌∷◌,
}
use quant_trading_engine.SignalFactory.{restore_pending_context}
use quant_trading_engine.Timeframes.{Key-Timeframe, second}

module _ ⦃F : Floats⦄ where
  -- A row of another namespace or another execution mode is refused.
  unfoldable pub is_foreign_row : OutboxRow → Runner → Bool
  is_foreign_row row r = not (row.namespace == r.namespace) || differs row.is_shadow r.is_paper

  -- A paper delivery cannot become a live position, nor a broker's a paper one.
  abbrev pub is_crossed : RowStatus → Bool → Bool
  is_crossed row_shadow is_paper = not is_paper
  is_crossed row_shadow_pending is_paper = not is_paper
  is_crossed row_sent is_paper = is_paper
  is_crossed row_sent_pending is_paper = is_paper
  is_crossed _ is_paper = false

  -- `sent`, `shadow` and `failed`
  abbrev pub is_final : RowStatus → Bool
  is_final row_sent = true
  is_final row_shadow = true
  is_final row_failed = true
  is_final _ = false

  abbrev pub is_prepared : RowStatus → Bool
  is_prepared row_prepared = true
  is_prepared _ = false

  abbrev pub is_ambiguous : RowStatus → Bool
  is_ambiguous row_pending = true
  is_ambiguous row_unknown = true
  is_ambiguous _ = false

  -- A result that is still in memory, or what a pending checkpoint says.
  abbrev pub checkpoint : RowStatus → Text → Option DeliveryResult
  checkpoint row_sent_pending transport = some (record { status = was_sent; transport = transport })
  checkpoint row_shadow_pending transport =
      some (record { status = was_shadowed; transport = transport })
  checkpoint _ transport = none

  unfoldable pub known_outcome : Text → OutboxRow → Runner → Option DeliveryResult
  known_outcome id row r = elim (lookup id r.pending_results) [
    | some result ↦ some result
    | none ↦ checkpoint row.row_status row.transport
  ]

  -- `0 <= elapsed < retry_horizon`, for a horizon in seconds.
  unfoldable pub in_horizon : ℕ → ℕ → ℕ → Bool
  in_horizon horizon created now =
      ltb 0 horizon && leb created now && ltb (now - created) (horizon * second)

  unfoldable pub may_send : Answers → ℕ → OutboxRow → Runner → Bool
  unfolding in_horizon
  may_send a horizon row r =
      row.transport == r.transport
      && (row.is_shadow || is_prepared row.row_status || in_horizon horizon row.created_at a.now)

  -- A refused retry does not disprove that an ambiguous attempt was accepted.
  abbrev pub sent_outcome : RowStatus → Outcome → Outcome
  sent_outcome s has_failed = if is_ambiguous s then is_unknown else has_failed
  sent_outcome s status = status

  abbrev pub retried : RowStatus → Runner × Option DeliveryResult → Runner × Option DeliveryResult
  retried s (r, none) = (r, none)
  retried s (r, some result) = (r, some (record result { status = sent_outcome s result.status }))

  -- What is known of the delivery, or a new attempt.
  unfoldable pub outcome_of :
      Answers
      → ℕ
      → Text
      → OutboxRow
      → Option DeliveryResult
      → Runner
      → Runner × Option DeliveryResult
  unfolding may_send send_staged_signal
  outcome_of a horizon id row (some result) r = (r, some result)
  outcome_of a horizon id row none r =
      if may_send a horizon row r
      then retried row.row_status (send_staged_signal a id row.is_shadow r)
      else (r, none)

  abbrev pub finished :
      Answers → Pair → Text → OutboxRow → Runner × Option DeliveryResult → Runner × Bool
  finished a pair id row (r, none) = (r, false)
  finished a pair id row (r, some result) = finish_delivery a pair row.signal id result r

  -- The rest of `_recover_delivery`, once the row is known to be unfinished and of the pair.
  unfoldable pub recover_unfinished : Answers → ℕ → Pair → Text → OutboxRow → Runner → Runner × Bool
  unfolding outcome_of known_outcome finish_delivery restore_pending_context
  recover_unfinished a horizon pair id row r =
      let r' = change_slot (restore_pending_context pair.1 row.scale) pair r in
      finished a pair id row (outcome_of a horizon id row (known_outcome id row r') r')

  unfoldable pub recover_row : Answers → ℕ → Pair → Text → Option OutboxRow → Runner → Runner × Bool
  unfolding recover_unfinished is_foreign_row upper
  recover_row a horizon pair id none r = (r, false)
  recover_row a horizon pair id (some row) r =
      if is_foreign_row row r || is_crossed row.row_status r.is_paper
      then (r, false)
      else if is_final row.row_status && not (is_some (lookup id r.pending_results))
      then (r, true)
      else if not ((row.signal.strategy, upper row.signal.symbol) == pair)
      then (r, false)
      else recover_unfinished a horizon pair id row r

  -- `_recover_delivery`: true where the delivery is resolved, false where it is not or on a raise.
  unfoldable pub recover_delivery : Answers → ℕ → Pair → Text → Runner → Runner × Bool
  unfolding recover_row get_delivery
  recover_delivery a horizon pair id r =
      if not a.owned_at_start
      then (r, false)
      else recover_row a horizon pair id (get_delivery id r) r

  pub record Scanned : Type 0 where
    pub id : Text
    pub pair : Pair
    pub answers : Answers

  -- The scan so far: the pairs that are blocked and those that have a resolved row.
  pub record Scan : Type 0 where
    pub runner : Runner
    pub blocked : List Pair
    pub resolved_pairs : List Pair

  abbrev pub note_row : Pair → Scan → Runner × Bool → Scan
  note_row pair s (r, true) = record s { runner = r; resolved_pairs = pair ∷ s.resolved_pairs }
  note_row pair s (r, false) = record s { runner = r; blocked = pair ∷ s.blocked }

  abbrev pub mark_uncertain : Pair → Runner → Runner
  mark_uncertain pair r = record r { uncertain_pairs = pair ∷ remove pair r.uncertain_pairs }

  unfoldable pub scan_row : ℕ → Scanned → Scan → Scan
  unfolding recover_delivery
  scan_row horizon row s =
      let r = mark_uncertain row.pair s.runner in
      if not (is_some (lookup row.pair r.slots)) || mem row.pair s.blocked
      then record s { runner = r; blocked = row.pair ∷ s.blocked }
      else note_row row.pair s (recover_delivery row.answers horizon row.pair row.id r)

  unfoldable pub scan_rows : ℕ → List Scanned → Scan → Scan
  unfolding scan_row
  scan_rows horizon [] s = s
  scan_rows horizon (row ∷ rows) s = scan_rows horizon rows (scan_row horizon row s)

  -- `difference_update((resolved | unconfirmed) - blocked)`
  unfoldable pub unblock : List Pair → List Pair → List Pair → List Pair
  unblock [] cleared blocked = []
  unblock (pair ∷ pairs) cleared blocked =
      let rest = unblock pairs cleared blocked in
      if mem pair cleared && not (mem pair blocked) then rest else pair ∷ rest

  -- `_recover_pending_deliveries`: whether the first checks let it begin, whether every page was
  -- read, and the rows of the pages that were. A read that raises leaves every pair marked so far
  -- uncertain.
  unfoldable pub recover_pending : Bool → Bool → ℕ → List Scanned → Runner → Runner
  unfolding scan_rows unblock
  recover_pending owned read_all horizon rows r =
      let s = scan_rows horizon rows (record { runner = r; blocked = []; resolved_pairs = [] }) in
      let r' = s.runner in
      if not owned then r else if not read_all then r' else record r' {
        uncertain_pairs =
            unblock r'.uncertain_pairs (s.resolved_pairs ++ r'.unconfirmed_staging) s.blocked;
        unconfirmed_staging = [];
      }
