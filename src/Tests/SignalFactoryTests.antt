-- ===== src/Tests/SignalFactoryTests.antt =====
-- src/qte_shared/strategies/signal_factory.py at concrete inputs.
use quant_trading_engine.Floats.{Le, fabs, fmax, fmin, is_zero}
use quant_trading_engine.Floats.Whole.{whole, whole_decimals}
use quant_trading_engine.Models.{is_entry, is_terminal, tp1_close}
use quant_trading_engine.Models.Positions.{OpenPosition, left_after}
use quant_trading_engine.Models.Signals.{
  BrokerSignal, all_uxid_chars, fill_or_validate_uxid, is_valid_uxid, stop_is_wrong,
  target_is_wrong, uxid_or, validate_bracket, validate_entry, validate_shape,
}
use quant_trading_engine.Prelude.{
  Key-Text, Key-pair, Key-ℕ, Option, Text, codes, erase, err, false, inl, insert, lookup, none, ok,
  refl, some, strip, text_eq, true, upper, ◌≡◌,
}
use quant_trading_engine.Prelude.Int.{pos}
use quant_trading_engine.SignalFactory.{
  SignalFactory, commit, commit_entry, contains, cycles_of, entry_position, is_applied, put_cycle,
}
use quant_trading_engine.SignalFactory.Building.{
  build, checked, payload, prepare, published, spelled, with_uxid,
}
use quant_trading_engine.SignalFactory.Clamped.{build_close_bounds, unnamed_close-refusal}
use quant_trading_engine.SignalFactory.Closing.{after_close, commit-close}
use quant_trading_engine.SignalFactory.Deliveries.{commit-other, cycle_at}
use quant_trading_engine.SignalFactory.Entries.{IsTradable, build-IsTradable}
use quant_trading_engine.SignalFactory.Intents.{
  SignalIntent, apply, apply_at, carry_entry_context, default_stop, still_running,
  to_position_block,
}
use quant_trading_engine.SignalFactory.Keyed.{IsKeyed, commit-IsKeyed}
use quant_trading_engine.SignalFactory.Preparing.{
  at_risk, close_target, closing, for_target, no_cycle, prepare_close, prepare_entry, size_close,
  size_entry, sized_or_limited,
}
use quant_trading_engine.SignalFactory.Replay.{commit_idempotent}
use quant_trading_engine.SignalFactory.Untouched.{build_keeps_book}
use quant_trading_engine.Sizing.{
  bounded_by, budget_for, capped_risk, limit_quantity, rescale, risk_for, risk_quantity, size,
  wanted_risk,
}
use quant_trading_engine.Tests.Fixtures.{empty_factory, long_intent, paper_sizer}
use quant_trading_engine.Timeframes.{
  Key-Timeframe, normalize_timeframe, seconds, timeframe_seconds, to_broker_timeframe,
}

abbrev first_uxid : Text
first_uxid = codes "9F2C4B7E18A3D601"

abbrev second_uxid : Text
second_uxid = codes "9F2C4B7E18A3D602"

abbrev settled_intent : SignalIntent
settled_intent = record long_intent {
  quantity = some (pos 5);
  tp1 = some (pos 110);
  tp2 = some (pos 120);
  risk_percent = some (pos 5);
  tp1_percent = some (pos 50);
  move_sl_to_be = some true;
}

abbrev signal_of : Text → SignalIntent → BrokerSignal
signal_of uxid i = record {
  strategy = codes "trend";
  symbol = codes "XAUUSD";
  timeframe = codes "15";
  timestamp = 7;
  signal_uxid = uxid;
  position = to_position_block i;
}

abbrev long_signal : BrokerSignal
long_signal = signal_of first_uxid settled_intent

abbrev first_delivery : Option Text
first_delivery = some (codes "d1")

long_built :
    (build first_uxid long_intent (codes "xauusd") 7 false 8 empty_factory).1
    ≡ ok (settled_intent, long_signal)
unfolding build prepare prepare_entry at_risk risk_for wanted_risk capped_risk cycles_of lookup
    apply apply_at default_stop fabs size_entry sized_or_limited size risk_quantity budget_for
    limit_quantity bounded_by is_zero published to_broker_timeframe timeframe_seconds
    normalize_timeframe seconds spelled with_uxid fill_or_validate_uxid is_valid_uxid uxid_or strip
    payload checked validate_shape validate_entry validate_bracket stop_is_wrong target_is_wrong
    is_entry
long_built = refl

build-IsTradable_example : IsTradable paper_sizer long_signal.position
unfolding is_entry
build-IsTradable_example =
    build-IsTradable first_uxid long_intent (codes "xauusd") 7 false 8 empty_factory settled_intent
      long_signal refl long_built

build_keeps_book_example :
    (build first_uxid long_intent (codes "xauusd") 7 false 8 empty_factory).0.book
    ≡ empty_factory.book
build_keeps_book_example =
    build_keeps_book first_uxid long_intent (codes "xauusd") 7 false 8 empty_factory (inl refl)

-- The book with the long position of 5 units open.
abbrev long_held : SignalFactory
long_held = commit long_signal first_delivery 8 empty_factory

empty_factory-IsKeyed : IsKeyed empty_factory
unfolding cycles_of lookup
empty_factory-IsKeyed symbol uxid p found = absurd (cc found)

long_held-IsKeyed : IsKeyed long_held
long_held-IsKeyed = commit-IsKeyed long_signal first_delivery 8 empty_factory empty_factory-IsKeyed

commit-IsKeyed_example : IsKeyed long_held
commit-IsKeyed_example =
    commit-IsKeyed long_signal first_delivery 8 empty_factory empty_factory-IsKeyed

-- The position that the long signal opens.
abbrev long_position : OpenPosition
long_position = entry_position long_signal (pos 1) first_delivery

long_found : cycle_at (codes "XAUUSD") first_uxid long_held ≡ some long_position
unfolding commit commit_entry put_cycle cycles_of lookup insert erase is_entry entry_position
    to_position_block text_eq upper
long_found = refl

-- A first target that asks for 9 of the 5 units that are left.
abbrev tp1_intent : SignalIntent
tp1_intent = record long_intent {
  action = tp1_close;
  price = some (pos 110);
  quantity = some (pos 9);
  sl = none;
  risk_percent = none;
}

abbrev settled_tp1 : SignalIntent
settled_tp1 = record tp1_intent {
  quantity = some (pos 5);
  risk_percent = some (pos 5);
  tp1_percent = some (pos 50);
  move_sl_to_be = some true;
  is_running = some false;
}

abbrev tp1_signal : BrokerSignal
tp1_signal = signal_of first_uxid settled_tp1

tp1_built :
    (build second_uxid tp1_intent (codes "XAUUSD") 7 false 9 long_held).1
    ≡ ok (settled_tp1, tp1_signal)
unfolding build prepare prepare_close close_target closing for_target size_close rescale
    carry_entry_context still_running cycles_of lookup published to_broker_timeframe
    timeframe_seconds normalize_timeframe seconds spelled with_uxid fill_or_validate_uxid
    is_valid_uxid uxid_or strip payload checked validate_shape is_entry commit commit_entry
    put_cycle insert erase entry_position fmin fabs is_terminal
tp1_built = refl

build_close_bounds_example : Le (pos 5) (pos 5)
unfolding is_entry upper entry_position to_position_block
build_close_bounds_example =
    build_close_bounds second_uxid tp1_intent (codes "XAUUSD") 7 false 9 long_held settled_tp1
      tp1_signal long_position (pos 5) (pos 5) refl tp1_built refl long_found refl refl

id_is_normalised : fill_or_validate_uxid second_uxid (codes " 9f2c4b7e18a3d601 ") ≡ some first_uxid
unfolding fill_or_validate_uxid uxid_or is_valid_uxid all_uxid_chars strip upper
id_is_normalised = refl

blank_id : fill_or_validate_uxid second_uxid (codes "  ") ≡ some second_uxid
unfolding fill_or_validate_uxid uxid_or strip
blank_id = refl

malformed_id : fill_or_validate_uxid second_uxid (codes "u1") ≡ none
unfolding fill_or_validate_uxid uxid_or is_valid_uxid all_uxid_chars strip upper
malformed_id = refl

-- A close that names the open cycle in lower case is not found in the book, so its 9 units are not
-- cut to the 5 that are left; it is sent under that cycle's id.
abbrev lower_case_tp1 : SignalIntent
lower_case_tp1 = record tp1_intent { signal_uxid = some (codes "9f2c4b7e18a3d601") }

abbrev unclamped_tp1 : SignalIntent
unclamped_tp1 = record lower_case_tp1 { risk_percent = some (pos 2) }

lower_case_close :
    (build second_uxid lower_case_tp1 (codes "XAUUSD") 7 false 9 long_held).1
    ≡ ok (unclamped_tp1, signal_of first_uxid unclamped_tp1)
unfolding build prepare prepare_close close_target closing for_target size_close rescale cycles_of
    lookup published to_broker_timeframe timeframe_seconds normalize_timeframe seconds spelled
    with_uxid fill_or_validate_uxid uxid_or is_valid_uxid strip payload checked validate_shape
    is_entry commit commit_entry put_cycle insert erase entry_position fmin fabs is_terminal
lower_case_close = refl

unnamed_close-refusal_example :
    build second_uxid tp1_intent (codes "XAUUSD") 7 true 9 empty_factory
    ≡ (empty_factory, err no_cycle)
unfolding cycles_of lookup is_entry
unnamed_close-refusal_example =
    unnamed_close-refusal second_uxid tp1_intent (codes "XAUUSD") 7 true 9 empty_factory no_cycle
      refl refl refl refl

commit_idempotent_example :
    commit tp1_signal first_delivery 9 (commit tp1_signal first_delivery 8 long_held)
    ≡ commit tp1_signal first_delivery 8 long_held
commit_idempotent_example = commit_idempotent tp1_signal (codes "d1") 8 9 long_held

commit-other_example :
    cycle_at (codes "XAUUSD") second_uxid (commit long_signal first_delivery 8 long_held)
    ≡ cycle_at (codes "XAUUSD") second_uxid long_held
unfolding text_eq upper
commit-other_example =
    commit-other long_signal first_delivery 8 long_held (codes "XAUUSD") second_uxid refl

not_yet : is_applied (some (codes "d2")) long_position ≡ false
unfolding is_applied contains entry_position text_eq
not_yet = refl

commit-close_example :
    cycle_at (codes "XAUUSD") first_uxid (commit tp1_signal (some (codes "d2")) 9 long_held)
    ≡ after_close tp1_close tp1_signal.position.quantity (some (codes "d2")) 9 long_position
unfolding is_entry to_position_block upper
commit-close_example =
    commit-close tp1_signal (some (codes "d2")) 9 long_held long_position refl long_found not_yet

two_off : left_after (some (pos 5)) (some (pos 2)) ≡ some (pos 3)
unfolding left_after fmax fabs
two_off = refl
