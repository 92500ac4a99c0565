-- ===== src/Floats.antt =====
-- Python's finite `float`s, which the program takes from the machine: an interface with the
-- order and the few laws of rounded arithmetic that the code relies on. No law of exact
-- arithmetic (associativity, distribution) is assumed, since rounding breaks them.
pub mod Whole
use mathlib.Core.List.{foldl}
use quant_trading_engine.Prelude.{
  Bool, List, arith, false, if◌then◌else◌, ltb, not, true, ℕ, ◌&&◌, ◌≡◌, ◌⊎◌,
}

pub record Floats : Type 1 where
  pub Number : Type 0
  -- A literal of the source that is a whole number.
  pub of_ℕ : ℕ → Number
  -- `1e-12` and `1e-9`.
  pub dust : Number
  pub epsilon : Number
  pub lt : Number → Number → Bool
  pub add : Number → Number → Number
  pub sub : Number → Number → Number
  pub mul : Number → Number → Number
  pub div : Number → Number → Number
  pub neg : Number → Number
  -- `<` on finite floats is a strict total preorder.
  pub lt_irrefl : (a : Number) → lt a a ≡ false
  pub lt_asymm : (a b : Number) → lt a b ≡ true → lt b a ≡ false
  pub le_trans : (a b c : Number) → lt b a ≡ false → lt c b ≡ false → lt c a ≡ false
  pub dust_nonneg : lt dust (of_ℕ 0) ≡ false
  pub epsilon_nonneg : lt epsilon (of_ℕ 0) ≡ false
  -- `x - x` is `0.0`.
  pub sub_self : (a : Number) → sub a a ≡ of_ℕ 0
  -- A difference has the sign of the comparison, and taking away a nonnegative number rounds
  -- to no more than what it was taken from.
  pub sub_nonneg : (a b : Number) → lt a b ≡ false → lt (sub a b) (of_ℕ 0) ≡ false
  pub neg_nonneg : (a : Number) → lt a (of_ℕ 0) ≡ true → lt (neg a) (of_ℕ 0) ≡ false
  pub sub_mono : (a b c : Number) → lt b a ≡ false → lt (sub b c) (sub a c) ≡ false
  pub le_sub-neg : (a b : Number) → lt b (of_ℕ 0) ≡ false → lt (sub a (neg b)) a ≡ false
  pub sub_le : (a b : Number) → lt b (of_ℕ 0) ≡ false → lt a (sub a b) ≡ false

-- Python's `Decimal`s, also the machine's library: `of_float x` is `Decimal(str(x))`, `quantize n`
-- rounds towards zero to `n` places, `round_to n` is `round(x, n)` on floats.
pub record Decimals ⦃F : Floats⦄ : Type 1 where
  pub Decimal : Type 0
  pub of_float : F.Number → Decimal
  pub to_float : Decimal → F.Number
  pub zero_dec : Decimal
  pub hundred : Decimal
  pub dec_lt : Decimal → Decimal → Bool
  pub dec_sub : Decimal → Decimal → Decimal
  pub dec_abs : Decimal → Decimal
  pub dec_mul : Decimal → Decimal → Decimal
  pub dec_div : Decimal → Decimal → Decimal
  pub quantize : ℕ → Decimal → Decimal
  pub round_to : ℕ → F.Number → F.Number
  -- `str` of a float reads back as that float, and the conversion keeps the order.
  pub float_roundtrip : (x : F.Number) → to_float (of_float x) ≡ x
  pub to_float_mono : (d e : Decimal) → dec_lt e d ≡ false → F.lt (to_float e) (to_float d) ≡ false
  -- A positive decimal with at most twelve places is far above the least positive float.
  pub to_float_pos :
      (n : ℕ) (d : Decimal)
      → ltb 12 n ≡ false
      → dec_lt zero_dec (quantize n d) ≡ true
      → F.lt (F.of_ℕ 0) (to_float (quantize n d)) ≡ true
  -- The order of decimals, and rounding towards zero.
  pub dec_le_refl : (d : Decimal) → dec_lt d d ≡ false
  pub dec_lt_asymm : (d e : Decimal) → dec_lt d e ≡ true → dec_lt e d ≡ false
  pub dec_le_trans :
      (d e g : Decimal) → dec_lt e d ≡ false → dec_lt g e ≡ false → dec_lt g d ≡ false
  pub quantize_nonpos :
      (n : ℕ) (d : Decimal) → dec_lt zero_dec d ≡ false → dec_lt zero_dec (quantize n d) ≡ false
  pub quantize_le :
      (n : ℕ) (d : Decimal) → dec_lt zero_dec d ≡ true → dec_lt d (quantize n d) ≡ false

module _ ⦃F : Floats⦄ where
  open F use {Number, of_ℕ, lt, neg}

  abbrev pub Float : Type 0
  Float = Number

  -- Python's `max(a, b)` and `min(a, b)`: the first argument wins a tie.
  unfoldable pub fmax : Number → Number → Number
  fmax a b = if lt a b then b else a

  unfoldable pub fmin : Number → Number → Number
  fmin a b = if lt b a then b else a

  -- `abs`, `a == 0` and `not a`
  unfoldable pub fabs : Number → Number
  fabs a = if lt a (of_ℕ 0) then neg a else a

  unfoldable pub is_zero : Number → Bool
  is_zero a = not (lt a (of_ℕ 0)) && not (lt (of_ℕ 0) a)

  -- `sum(...)`, from the left.
  unfoldable pub fsum : List Number → Number
  fsum = foldl F.add (of_ℕ 0)

  -- `a <= b`
  abbrev pub Le : Number → Number → Type 0
  Le a b = lt b a ≡ false

  pub Le-refl : (a : Number) → Le a a
  Le-refl = F.lt_irrefl

  pub Le-trans : (a b c : Number) → Le a b → Le b c → Le a c
  Le-trans = F.le_trans

  pub fmax_left : (a b : Number) → Le a (fmax a b)
  unfolding fmax
  fmax_left a b = ground (arith, F.lt_irrefl a, F.lt_asymm a b)

  pub fmax_right : (a b : Number) → Le b (fmax a b)
  unfolding fmax
  fmax_right a b = ground (arith, F.lt_irrefl b)

  pub fmax_either : (a b : Number) → (fmax a b ≡ a) ⊎ (fmax a b ≡ b)
  unfolding fmax
  fmax_either a b = ground arith

  pub fmin_left : (a b : Number) → Le (fmin a b) a
  unfolding fmin
  fmin_left a b = ground (arith, F.lt_irrefl a, F.lt_asymm b a)

  pub fmin_right : (a b : Number) → Le (fmin a b) b
  unfolding fmin
  fmin_right a b = ground (arith, F.lt_irrefl b)

  pub fmin_either : (a b : Number) → (fmin a b ≡ a) ⊎ (fmin a b ≡ b)
  unfolding fmin
  fmin_either a b = ground arith

  pub fabs_nonneg : (a : Number) → Le (of_ℕ 0) (fabs a)
  unfolding fabs
  fabs_nonneg a = ground (arith, F.neg_nonneg a)
