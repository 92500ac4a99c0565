-- ===== src/BarGate/Scopes.antt =====
-- What src/qte_shared/bar_gate.py blocks after a scope is added or released.
use quant_trading_engine.BarGate.{
  BarGate, add_name, allow, blocks, discard, discard_name, member, prevent, upper_name,
}
use quant_trading_engine.Prelude.{
  Bool, Key-Text, Key-ℕ, List, Option, Text, [], arith, eq_iff, false, none, not, refl, some, true,
  upper, ◌&&◌, ◌==◌, ◌||◌, ◌∷◌, ◌≡◌,
}
use quant_trading_engine.Timeframes.{Key-Timeframe}

member-discard :
    (t u : Text) (us : List Text) → member t (discard u us) ≡ (member t us && not (u == t))
unfolding member discard
member-discard t u [] = refl
member-discard t u (v ∷ us) =
    ground (arith, member-discard t u us, eq_iff v u, eq_iff v t, eq_iff u t)

-- Whether a scope that a command states names the text.
abbrev pub names : Option Text → Text → Bool
names (some (c ∷ name)) t = c ∷ name == t
names _ t = false

member-add_name :
    (t : Text) (name : Option Text) (us : List Text)
    → member t (add_name name us) ≡ (member t us || names name t)
unfolding add_name
member-add_name t none us = ground arith
member-add_name t (some []) us = ground arith
member-add_name t (some (c ∷ n)) us = unfold member in ground (arith, member-discard t (c ∷ n) us)

member-discard_name :
    (t : Text) (name : Option Text) (us : List Text)
    → member t (discard_name name us) ≡ (member t us && not (names name t))
unfolding discard_name
member-discard_name t none us = ground arith
member-discard_name t (some []) us = ground arith
member-discard_name t (some (c ∷ n)) us = member-discard t (c ∷ n) us

-- A pair is blocked after a scope is added exactly if it was before, or the scope is everything, or
-- it names the pair's symbol, in any case of letters, or its strategy.
pub blocks-prevent :
    (everything : Bool) (symbol strategy : Option Text) (g : BarGate) (s t : Text)
    → blocks s t (prevent everything symbol strategy g)
      ≡ (blocks s t g || everything || names (upper_name symbol) (upper s) || names strategy t)
unfolding blocks prevent
blocks-prevent everything symbol strategy g s t = ground (
  arith,
  member-add_name (upper s) (upper_name symbol) g.symbols,
  member-add_name t strategy g.strategies,
)

-- Releasing everything leaves nothing blocked; releasing less leaves a pair blocked exactly if all
-- is, or its symbol is and was not named, or its strategy is and was not named.
pub blocks-allow :
    (everything : Bool) (symbol strategy : Option Text) (g : BarGate) (s t : Text)
    → blocks s t (allow everything symbol strategy g) ≡ (
        not everything
        && (g.everything
            || (member (upper s) g.symbols && not (names (upper_name symbol) (upper s)))
            || (member t g.strategies && not (names strategy t))))
unfolding blocks allow
blocks-allow true symbol strategy g s t =
    unfold member in
    ground (
      arith,
      member-discard_name (upper s) (upper_name symbol) [],
      member-discard_name t strategy [],
    )
blocks-allow false symbol strategy g s t = ground (
  arith,
  member-discard_name (upper s) (upper_name symbol) g.symbols,
  member-discard_name t strategy g.strategies,
)
