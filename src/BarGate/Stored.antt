-- ===== src/BarGate/Stored.antt =====
-- A gate of src/qte_shared/bar_gate.py that is stored and read back.
use quant_trading_engine.BarGate.{
  BarGate, add_name, blocks, discard, from_payload, insert_sorted, member, prevent, sorted, text_lt,
  to_payload, upper_name,
}
use quant_trading_engine.Prelude.{
  All, Bool, Bool-cases, Key-Text, Key-ℕ, List, Option, Text, [], arith, inl, inr, map, none, refl,
  some, upper, upper-upper, ◌==◌, ◌||◌, ◌∷◌, ◌≡◌,
}
use quant_trading_engine.Timeframes.{Key-Timeframe}

member-insert_sorted :
    (s t : Text) (us : List Text) → member s (insert_sorted t us) ≡ (t == s || member s us)
unfolding insert_sorted member
member-insert_sorted s t [] = refl
member-insert_sorted s t (u ∷ us) = ground (arith, member-insert_sorted s t us)

member-sorted : (s : Text) (us : List Text) → member s (sorted us) ≡ member s us
unfolding sorted member
member-sorted s [] = refl
member-sorted s (u ∷ us) = ground (arith, member-insert_sorted s u (sorted us), member-sorted s us)

abbrev IsUpperName : Text → Type 0
IsUpperName u = upper u ≡ u

-- Every symbol of the gate is upper-cased.
abbrev pub IsUpper : BarGate → Type 0
IsUpper g = All IsUpperName g.symbols

insert_sorted-All :
    (t : Text) (us : List Text)
    → IsUpperName t
    → All IsUpperName us
    → All IsUpperName (insert_sorted t us)
unfolding insert_sorted
insert_sorted-All t [] h k = (h, tt)
insert_sorted-All t (u ∷ us) h (k, ks) = elim (Bool-cases (text_lt u t)) [
  | inl below ↦ rw below (k, insert_sorted-All t us h ks)
  | inr above ↦ rw above (h, (k, ks))
]

sorted-All : (us : List Text) → All IsUpperName us → All IsUpperName (sorted us)
unfolding sorted
sorted-All [] h = tt
sorted-All (u ∷ us) (h, hs) = insert_sorted-All u (sorted us) h (sorted-All us hs)

discard-All : (t : Text) (us : List Text) → All IsUpperName us → All IsUpperName (discard t us)
unfolding discard
discard-All t [] h = tt
discard-All t (u ∷ us) (h, hs) = elim (Bool-cases (u == t)) [
  | inl same ↦ rw same (discard-All t us hs)
  | inr other ↦ rw other (h, discard-All t us hs)
]

map-upper : (us : List Text) → All IsUpperName us → map upper us ≡ us
map-upper [] h = refl
map-upper (u ∷ us) (h, hs) = rw (h, map-upper us hs) refl

-- A gate whose symbols are upper-cased blocks exactly the same pairs once it has been stored and
-- read back: sorting loses no name, and reading it back spells none differently.
pub stored-roundtrip :
    (g : BarGate) (s t : Text)
    → IsUpper g
    → blocks s t (from_payload (some (to_payload g))) ≡ blocks s t g
unfolding blocks from_payload to_payload
stored-roundtrip g s t h =
    rw
      (
        map-upper (sorted g.symbols) (sorted-All g.symbols h),
        member-sorted (upper s) g.symbols,
        member-sorted t g.strategies,
      )
      refl

upper_name-All :
    (name : Option Text) (us : List Text)
    → All IsUpperName us
    → All IsUpperName (add_name (upper_name name) us)
unfolding add_name upper
upper_name-All none us h = h
upper_name-All (some []) us h = h
upper_name-All (some (c ∷ name)) us h =
    (unfold upper in upper-upper (c ∷ name), discard-All (upper (c ∷ name)) us h)

-- Adding a scope keeps every symbol of the gate upper-cased, however the command spells it.
pub prevent-IsUpper :
    (everything : Bool) (symbol strategy : Option Text) (g : BarGate)
    → IsUpper g
    → IsUpper (prevent everything symbol strategy g)
unfolding prevent
prevent-IsUpper everything symbol strategy g h = upper_name-All symbol g.symbols h
