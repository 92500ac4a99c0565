-- ===== src/BarGate.antt =====
-- src/qte_shared/bar_gate.py: the switch that stops the runner deciding on closed bars. A set of
-- names is a list, of which only the members count; a payload is the JSON value once it is read,
-- `none` where it is not an object or a field is not a list.
pub mod Scopes
pub mod Stored
use quant_trading_engine.Prelude.{
  Bool, Key-Text, Key-ℕ, List, Option, Text, [], false, if◌then◌else◌, ltb, map, nat_eq, none, not,
  or_else, some, true, upper, ◌&&◌, ◌==◌, ◌||◌, ◌∷◌,
}
use quant_trading_engine.Timeframes.{Key-Timeframe}

pub record BarGate : Type 0 where
  pub everything : Bool
  pub symbols : List Text
  pub strategies : List Text

unfoldable pub member : Text → List Text → Bool
member t [] = false
member t (u ∷ us) = u == t || member t us

unfoldable pub discard : Text → List Text → List Text
discard t [] = []
discard t (u ∷ us) = let rest = discard t us in if u == t then rest else u ∷ rest

abbrev pub is_empty : List Text → Bool
is_empty [] = true
is_empty (_ ∷ _) = false

-- `BarGate.blocking`
unfoldable pub blocking : BarGate → Bool
blocking g = g.everything || not (is_empty g.symbols) || not (is_empty g.strategies)

-- `BarGate.blocks`
unfoldable pub blocks : Text → Text → BarGate → Bool
unfolding member
blocks symbol strategy g =
    g.everything || member (upper symbol) g.symbols || member strategy g.strategies

-- `if name: names.add(name)`, and the same with `discard`: an empty name counts as missing.
unfoldable pub add_name : Option Text → List Text → List Text
add_name (some (c ∷ name)) names = (c ∷ name) ∷ discard (c ∷ name) names
add_name _ names = names

unfoldable pub discard_name : Option Text → List Text → List Text
unfolding discard
discard_name (some (c ∷ name)) names = discard (c ∷ name) names
discard_name _ names = names

abbrev pub upper_name : Option Text → Option Text
upper_name none = none
upper_name (some name) = some (upper name)

unfoldable pub prevent : Bool → Option Text → Option Text → BarGate → BarGate
unfolding add_name
prevent everything symbol strategy g = record {
  everything = everything || g.everything;
  symbols = add_name (upper_name symbol) g.symbols;
  strategies = add_name strategy g.strategies;
}

unfoldable pub allow : Bool → Option Text → Option Text → BarGate → BarGate
unfolding discard_name
allow everything symbol strategy g = record {
  everything = not everything && g.everything;
  symbols = discard_name (upper_name symbol) (if everything then [] else g.symbols);
  strategies = discard_name strategy (if everything then [] else g.strategies);
}

-- What is stored in Redis and broadcast.
pub record Payload : Type 0 where
  pub everything : Bool
  pub symbols : Option (List Text)
  pub strategies : Option (List Text)

-- `<` on texts, by code.
unfoldable pub text_lt : Text → Text → Bool
text_lt _ [] = false
text_lt [] (_ ∷ _) = true
text_lt (c ∷ s) (d ∷ t) = ltb c d || (nat_eq c d && text_lt s t)

-- `sorted`
unfoldable pub insert_sorted : Text → List Text → List Text
unfolding text_lt
insert_sorted t [] = t ∷ []
insert_sorted t (u ∷ us) =
    let rest = insert_sorted t us in if text_lt u t then u ∷ rest else t ∷ u ∷ us

unfoldable pub sorted : List Text → List Text
unfolding insert_sorted
sorted [] = []
sorted (t ∷ ts) = insert_sorted t (sorted ts)

unfoldable pub to_payload : BarGate → Payload
unfolding sorted
to_payload g = record {
  everything = g.everything;
  symbols = some (sorted g.symbols);
  strategies = some (sorted g.strategies);
}

unfoldable pub from_payload : Option Payload → BarGate
from_payload none = record { everything = false; symbols = []; strategies = [] }
from_payload (some p) = record {
  everything = p.everything;
  symbols = map upper (or_else p.symbols []);
  strategies = or_else p.strategies [];
}
