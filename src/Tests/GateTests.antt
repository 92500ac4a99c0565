-- ===== src/Tests/GateTests.antt =====
-- src/qte_shared/bar_gate.py, src/qte_shared/state_scope.py and src/qte_bot/pagination.py at
-- concrete inputs.
use quant_trading_engine.BarGate.{
  BarGate, add_name, allow, blocks, discard, from_payload, member, prevent, to_payload, upper_name,
}
use quant_trading_engine.BarGate.Scopes.{blocks-allow, blocks-prevent, names}
use quant_trading_engine.BarGate.Stored.{IsUpper, stored-roundtrip}
use quant_trading_engine.Floats.Whole.{whole}
use quant_trading_engine.Models.{Origin}
use quant_trading_engine.Pagination.{clamp_offset, paginate}
use quant_trading_engine.Pagination.Walk.{walk, walk_complete}
use quant_trading_engine.Prelude.{
  List, [], codes, false, none, not, ok, or_else, refl, some, text_eq, true, upper, ℕ, ◌&&◌, ◌||◌,
  ◌∷◌, ◌≡◌,
}
use quant_trading_engine.Prelude.Int.{pos}
use quant_trading_engine.StateScope.{
  StateScope, check_scope, dev, includes, is_component, is_rest, origin, origin_eq, origin_of,
  providers, scope_namespace, split_dash, stamp_in_scope, stamp_market_data,
}
use quant_trading_engine.StateScope.Provenance.{InScope, stamp_in_scope-accepts}

abbrev no_gate : BarGate
no_gate = record { everything = false; symbols = []; strategies = [] }

abbrev gold_gate : BarGate
gold_gate = prevent false (some (codes "xauusd")) (some (codes "trend")) no_gate

gold_blocked : blocks (codes "XauUsd") (codes "other") gold_gate ≡ true
unfolding blocks prevent add_name member upper text_eq
gold_blocked = refl

other_open : blocks (codes "EURUSD") (codes "other") gold_gate ≡ false
unfolding blocks prevent add_name member discard upper text_eq
other_open = refl

no_gate-IsUpper : IsUpper no_gate
no_gate-IsUpper = tt

blocks-prevent_example :
    blocks (codes "XAUUSD") (codes "trend") (prevent false (some (codes "xauusd")) none no_gate) ≡ (
      blocks (codes "XAUUSD") (codes "trend") no_gate
      || false
      || names (upper_name (some (codes "xauusd"))) (upper (codes "XAUUSD"))
      || names none (codes "trend"))
blocks-prevent_example =
    blocks-prevent false (some (codes "xauusd")) none no_gate (codes "XAUUSD") (codes "trend")

blocks-allow_example : blocks (codes "XAUUSD") (codes "trend") (allow true none none gold_gate) ≡ (
    not true
    && (gold_gate.everything
        || (member (upper (codes "XAUUSD")) gold_gate.symbols
            && not (names (upper_name none) (upper (codes "XAUUSD"))))
        || (member (codes "trend") gold_gate.strategies && not (names none (codes "trend")))))
blocks-allow_example = blocks-allow true none none gold_gate (codes "XAUUSD") (codes "trend")

abbrev metals : BarGate
metals = record {
  everything = false;
  symbols = codes "XAUUSD" ∷ codes "XAGUSD" ∷ [];
  strategies = codes "trend" ∷ [];
}

metals-IsUpper : IsUpper metals
unfolding upper
metals-IsUpper = (refl, (refl, tt))

stored-roundtrip_example :
    blocks (codes "XAUUSD") (codes "other") (from_payload (some (to_payload metals)))
    ≡ blocks (codes "XAUUSD") (codes "other") metals
stored-roundtrip_example = stored-roundtrip metals (codes "XAUUSD") (codes "other") metals-IsUpper

abbrev rows : List ℕ
rows = 7 ∷ 8 ∷ 9 ∷ []

-- Three rows by pages of two; an offset past the end shows the first page.
second_page : paginate rows (pos 2) (pos 2) ≡ (9 ∷ [], record { total = 3; limit = 2; offset = 2 })
unfolding paginate clamp_offset
second_page = refl

past_the_end :
    paginate rows (pos 2) (pos 4) ≡ (7 ∷ 8 ∷ [], record { total = 3; limit = 2; offset = 0 })
unfolding paginate clamp_offset
past_the_end = refl

walk_complete_example : walk 3 rows (pos 2) 0 ≡ rows
walk_complete_example = walk_complete rows (pos 2)

abbrev dev_scope : StateScope
dev_scope = record {
  environment = codes "dev";
  execution_mode = dev;
  provider = codes "binance-mt5";
}

abbrev mt5_origin : Origin
mt5_origin = record {
  namespace = codes "dev:dev:binance-mt5";
  provider = codes "mt5";
  synthetic = false;
}

scope_checked : check_scope dev_scope ≡ ok dev_scope
unfolding check_scope is_component is_rest includes providers split_dash text_eq
scope_checked = refl

mt5_stamped : origin (some (codes "mt5")) none dev_scope ≡ ok mt5_origin
unfolding origin origin_of includes providers split_dash scope_namespace text_eq
mt5_stamped = refl

mt5_kept : stamp_in_scope (some mt5_origin) dev_scope ≡ ok mt5_origin
unfolding stamp_in_scope origin origin_of stamp_market_data origin_eq includes providers split_dash
    scope_namespace text_eq
mt5_kept = refl

stamp_in_scope-accepts_example :
    InScope dev_scope mt5_origin × (or_else (some mt5_origin) mt5_origin ≡ mt5_origin)
stamp_in_scope-accepts_example =
    stamp_in_scope-accepts (some mt5_origin) dev_scope mt5_origin mt5_kept
