-- ===== src/Delivery/Emitting.antt =====
-- `_emit`, `_account_is_full` and `_emit_intent` of src/qte_strategy_engine/runner.py, over
-- `stage_signal` of src/qte_strategy_engine/db/repository.py. What is announced on the bus afterwards
-- is left out.
use quant_trading_engine.Delivery.{
  Answers, DeliveryResult, OutboxRow, Pair, Runner, change_slot, finish_delivery, mem, remove,
  row_prepared, send_staged_signal,
}
use quant_trading_engine.Delivery.Recovering.{mark_uncertain}
use quant_trading_engine.Floats.{Decimals, Float, Floats}
use quant_trading_engine.Models.{is_entry}
use quant_trading_engine.Models.Signals.{BrokerSignal}
use quant_trading_engine.Prelude.{
  Bool, Dict, Key-Text, Key-pair, Key-ℕ, Option, Result, Text, [], err, false, if◌then◌else◌,
  insert, length, lookup, ltb, none, not, ok, some, true, upper, ℕ, ◌&&◌, ◌+◌, ◌-◌, ◌||◌, ◌∷◌,
}
use quant_trading_engine.SignalFactory.{
  SignalFactory, discard_pending_context, open_cycles, pending_context,
}
use quant_trading_engine.SignalFactory.Building.{build}
use quant_trading_engine.SignalFactory.Intents.{SignalIntent, first_some}
use quant_trading_engine.SignalFactory.Preparing.{BuildError}
use quant_trading_engine.Timeframes.{Key-Timeframe}

module _ ⦃F : Floats⦄ ⦃D : Decimals⦄ where
  -- What the insert of the row answers: its id, or none, where it may have committed all the same.
  pub data Staging : Type 0 where
    staged unstaged staged_unreported : Staging

  -- One intent of a slot, with the ids that would be drawn and what the world answers.
  pub record Emission : Type 0 where
    pub pair : Pair
    pub intent : SignalIntent
    pub fallback_price : Option Float
    pub moment : ℕ
    pub fresh_uxid : Text
    pub delivery_id : Text
    pub staging : Staging
    pub answers : Answers

  -- `stage_signal`
  unfoldable pub outbox_row : Emission → BrokerSignal → Float → Bool → Runner → OutboxRow
  outbox_row e signal scale for_shadow r = record {
    pair = (signal.strategy, upper signal.symbol);
    namespace = r.namespace;
    transport = r.transport;
    is_shadow = for_shadow;
    row_status = row_prepared;
    created_at = e.answers.now;
    signal = signal;
    scale = some scale;
  }

  abbrev pub stage : Staging → Text → OutboxRow → Runner → Runner × Bool
  stage staged id row r = (record r { outbox = insert id row r.outbox }, true)
  stage unstaged id row r = (r, false)
  stage staged_unreported id row r = (record r { outbox = insert id row r.outbox }, false)

  abbrev pub finish_emission : Emission → BrokerSignal → Runner × Option DeliveryResult → Runner
  finish_emission e signal (r, none) = r
  finish_emission e signal (r, some result) =
      let (r', done) = finish_delivery e.answers e.pair signal e.delivery_id result r in
      if done then record r' { uncertain_pairs = remove e.pair r'.uncertain_pairs } else r'

  -- The part of `_emit_intent` after `stage_signal`.
  unfoldable pub deliver : Emission → BrokerSignal → Bool → Runner × Bool → Runner
  unfolding finish_delivery send_staged_signal discard_pending_context
  deliver e signal for_shadow (r, false) =
      change_slot (discard_pending_context e.pair.1) e.pair (record (mark_uncertain e.pair r) {
        unconfirmed_staging = e.pair ∷ remove e.pair r.unconfirmed_staging;
      })
  deliver e signal for_shadow (r, true) =
      finish_emission e signal
        (send_staged_signal e.answers e.delivery_id for_shadow (mark_uncertain e.pair r))

  -- The part of `_emit_intent` after `build`.
  unfoldable pub publish :
      Emission → SignalFactory → Result BuildError (SignalIntent × BrokerSignal) → Runner → Runner
  unfolding deliver outbox_row pending_context
  publish e f (err _) r = r
  publish e f (ok (_, signal)) r =
      let for_shadow = r.is_paper || e.answers.shadow_on in
      let row = outbox_row e signal (pending_context e.pair.1 f) for_shadow r in
      deliver e signal for_shadow (stage e.staging e.delivery_id row r)

  abbrev pub emit_on : Emission → Option SignalFactory → Runner → Runner
  emit_on e none r = r
  emit_on e (some f) r =
      let intent' = record e.intent { price = first_some e.intent.price e.fallback_price } in
      let (f', built) = build e.fresh_uxid intent' e.pair.1 e.moment false e.answers.now f in
      publish e f' built (record r { slots = insert e.pair f' r.slots })

  -- `_emit_intent`
  unfoldable pub emit_intent : Emission → Runner → Runner
  unfolding publish build
  emit_intent e r =
      if not e.answers.owned_at_start
        || (not r.is_paper && e.answers.shadow_on)
        || mem e.pair r.uncertain_pairs
      then r
      else emit_on e (lookup e.pair r.slots) r

  abbrev pub open_count : Dict Pair SignalFactory → ℕ
  open_count [] = 0
  open_count ((pair, f) ∷ slots) = length (open_cycles pair.1 f) + open_count slots

  -- `_account_is_full`: a ceiling of 0 is none.
  unfoldable pub account_is_full : ℕ → Runner → Bool
  unfolding open_cycles
  account_is_full ceiling r =
      ltb 0 ceiling && not (ltb (open_count r.slots + r.entries_in_flight) ceiling)

  -- `_emit`
  unfoldable pub emit : ℕ → Emission → Runner → Runner
  unfolding emit_intent account_is_full is_entry
  emit ceiling e r =
      if not (is_entry e.intent.action)
      then emit_intent e r
      else if not e.answers.owned_at_start || account_is_full ceiling r
      then r
      else (let r' = emit_intent e (record r { entries_in_flight = r.entries_in_flight + 1 }) in
          record r' { entries_in_flight = r'.entries_in_flight - 1 })
