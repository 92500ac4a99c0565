-- ===== src/Tests/DeliveryTests.antt =====
-- The outbox of src/qte_strategy_engine/runner.py at concrete inputs.
use quant_trading_engine.Delivery.{Answers, Pair, Runner, marked}
use quant_trading_engine.Delivery.Attempts.{SentOnce}
use quant_trading_engine.Delivery.Blocking.{unresolved_blocks}
use quant_trading_engine.Delivery.Emissions.{sent_once}
use quant_trading_engine.Delivery.Emitting.{Emission, emit, staged}
use quant_trading_engine.Delivery.Recovering.{Scanned, recover_delivery, recover_pending, scan_rows}
use quant_trading_engine.Delivery.Steps.{Reaches, emits, here, later, recovers}
use quant_trading_engine.Floats.{fabs, is_zero}
use quant_trading_engine.Floats.Whole.{whole, whole_decimals}
use quant_trading_engine.Prelude.{
  Key-Text, Key-pair, Key-ℕ, [], codes, false, insert, lookup, none, refl, true, ◌∷◌, ◌≡◌,
}
use quant_trading_engine.Tests.Fixtures.{empty_factory, long_intent}
use quant_trading_engine.Timeframes.{Key-Timeframe}

abbrev gold : Pair
gold = (codes "trend", codes "XAUUSD")

abbrev idle : Runner
idle = record {
  namespace = codes "live";
  is_paper = false;
  transport = codes "nats";
  slots = (gold, empty_factory) ∷ [];
  uncertain_pairs = [];
  unconfirmed_staging = [];
  pending_results = [];
  outbox = [];
  entries_in_flight = 0;
  calls = [];
}

-- The broker takes the signal, and its answer is lost.
abbrev timed_out : Answers
timed_out = record {
  owned_at_start = true;
  owned = true;
  owned_at_send = true;
  shadow_on = false;
  shadow_at_send = false;
  marked_unknown = marked;
  marked_pending = marked;
  marked_final = marked;
  tracked = true;
  broker = none;
  now = 8;
}

abbrev emission : Emission
emission = record {
  pair = gold;
  intent = long_intent;
  fallback_price = none;
  moment = 7;
  fresh_uxid = codes "9F2C4B7E18A3D601";
  delivery_id = codes "d1";
  staging = staged;
  answers = timed_out;
}

abbrev retry : Scanned
retry = record { id = codes "d1"; pair = gold; answers = timed_out }

-- One call, the answer of which is lost: the row is ambiguous and the pair blocked.
one_call : (emit 3 emission idle).calls ≡ codes "d1" ∷ []
unfolding emit lookup is_zero fabs insert
one_call = refl

pair_is_blocked : (emit 3 emission idle).uncertain_pairs ≡ gold ∷ []
unfolding emit lookup is_zero fabs insert
pair_is_blocked = refl

-- Outside the horizon it is not sent again; inside it, it is.
not_again :
    (recover_pending true true 0 (retry ∷ []) (emit 3 emission idle)).calls ≡ codes "d1" ∷ []
unfolding recover_pending lookup emit is_zero fabs insert
not_again = refl

again :
    (recover_pending true true 60 (retry ∷ []) (emit 3 emission idle)).calls
    ≡ codes "d1" ∷ codes "d1" ∷ []
unfolding recover_pending lookup emit is_zero fabs insert
again = refl

abbrev lost_then_recovered :
    Reaches 0 3 idle (recover_pending true true 0 (retry ∷ []) (emit 3 emission idle))
unfolding lookup
lost_then_recovered = later (later here (emits emission refl)) (recovers true true (retry ∷ []))

sent_once_example : SentOnce (recover_pending true true 0 (retry ∷ []) (emit 3 emission idle))
sent_once_example =
    sent_once 3 idle (recover_pending true true 0 (retry ∷ []) (emit 3 emission idle)) refl
      lost_then_recovered

-- A scan that is cut off leaves the pair uncertain, though its row was resolved.
cut_off :
    (recover_pending true false 60 (retry ∷ []) (emit 3 emission idle)).uncertain_pairs ≡ gold ∷ []
unfolding recover_pending lookup emit is_zero fabs insert
cut_off = refl

unresolved_blocks_example :
    (let r = recover_pending true true 0 (retry ∷ retry ∷ []) (emit 3 emission idle) in
      ((emit 3 emission r).calls ≡ r.calls) × ((emit 3 emission r).outbox ≡ r.outbox))
unfolding scan_rows recover_delivery lookup emit is_zero fabs insert
unresolved_blocks_example =
    unresolved_blocks true 0 3 [] retry (retry ∷ []) (emit 3 emission idle) emission refl refl
