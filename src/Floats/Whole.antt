-- ===== src/Floats/Whole.antt =====
-- Whole numbers as an instance of the interface. The tests and the examples of the theorems compute
-- with them.
use quant_trading_engine.Floats.{Decimals, Floats}
use quant_trading_engine.Prelude.{arith, false, if◌then◌else◌, ltb, refl, true, ℕ, ◌≡◌}
use quant_trading_engine.Prelude.Int.{add_ℤ, div_ℤ, ltb_ℤ, mul_ℤ, pos, sub_ℤ, ℤ}

pub lt_irrefl_ℤ : (a : ℤ) → ltb_ℤ a a ≡ false
lt_irrefl_ℤ a = ground arith

pub zero_nonneg_ℤ : ltb_ℤ (pos 0) (pos 0) ≡ false
zero_nonneg_ℤ = refl

pub lt_asymm_ℤ : (a b : ℤ) → ltb_ℤ a b ≡ true → ltb_ℤ b a ≡ false
lt_asymm_ℤ a b h = ground arith

pub le_trans_ℤ : (a b c : ℤ) → ltb_ℤ b a ≡ false → ltb_ℤ c b ≡ false → ltb_ℤ c a ≡ false
le_trans_ℤ a b c h k = ground arith

pub sub_self_ℤ : (a : ℤ) → sub_ℤ a a ≡ pos 0
sub_self_ℤ a = ground arith

pub sub_nonneg_ℤ : (a b : ℤ) → ltb_ℤ a b ≡ false → ltb_ℤ (sub_ℤ a b) (pos 0) ≡ false
sub_nonneg_ℤ a b h = ground arith

pub neg_nonneg_ℤ : (a : ℤ) → ltb_ℤ a (pos 0) ≡ true → ltb_ℤ (sub_ℤ (pos 0) a) (pos 0) ≡ false
neg_nonneg_ℤ a h = ground arith

pub sub_mono_ℤ : (a b c : ℤ) → ltb_ℤ b a ≡ false → ltb_ℤ (sub_ℤ b c) (sub_ℤ a c) ≡ false
sub_mono_ℤ a b c h = ground arith

pub le_sub-neg_ℤ : (a b : ℤ) → ltb_ℤ b (pos 0) ≡ false → ltb_ℤ (sub_ℤ a (sub_ℤ (pos 0) b)) a ≡ false
le_sub-neg_ℤ a b h = ground arith

pub sub_le_ℤ : (a b : ℤ) → ltb_ℤ b (pos 0) ≡ false → ltb_ℤ a (sub_ℤ a b) ≡ false
sub_le_ℤ a b h = ground arith

instance abbrev pub whole : Floats
whole = record {
  Number = ℤ;
  of_ℕ = pos;
  dust = pos 0;
  epsilon = pos 0;
  lt = ltb_ℤ;
  add = add_ℤ;
  sub = sub_ℤ;
  mul = mul_ℤ;
  div = div_ℤ;
  neg = λ a. sub_ℤ (pos 0) a;
  lt_irrefl = lt_irrefl_ℤ;
  lt_asymm = lt_asymm_ℤ;
  le_trans = le_trans_ℤ;
  dust_nonneg = zero_nonneg_ℤ;
  epsilon_nonneg = zero_nonneg_ℤ;
  sub_self = sub_self_ℤ;
  sub_nonneg = sub_nonneg_ℤ;
  neg_nonneg = neg_nonneg_ℤ;
  sub_mono = sub_mono_ℤ;
  le_sub-neg = le_sub-neg_ℤ;
  sub_le = sub_le_ℤ;
}

abbrev pub abs_ℤ : ℤ → ℤ
abs_ℤ a = if ltb_ℤ a (pos 0) then sub_ℤ (pos 0) a else a

pub same_ℤ : (a : ℤ) → a ≡ a
same_ℤ a = refl

pub keep_ℤ : (a b : ℤ) → ltb_ℤ b a ≡ false → ltb_ℤ b a ≡ false
keep_ℤ a b h = h

pub keep_pos_ℤ :
    (n : ℕ) (a : ℤ) → ltb 12 n ≡ false → ltb_ℤ (pos 0) a ≡ true → ltb_ℤ (pos 0) a ≡ true
keep_pos_ℤ n a small h = h

pub quantize_le_ℤ : (n : ℕ) (a : ℤ) → ltb_ℤ (pos 0) a ≡ true → ltb_ℤ a a ≡ false
quantize_le_ℤ n a h = lt_irrefl_ℤ a

pub quantize_nonpos_ℤ : (n : ℕ) (a : ℤ) → ltb_ℤ (pos 0) a ≡ false → ltb_ℤ (pos 0) a ≡ false
quantize_nonpos_ℤ n a h = h

instance abbrev pub whole_decimals : Decimals ⦃F = whole⦄
whole_decimals = record {
  Decimal = ℤ;
  of_float = λ a. a;
  to_float = λ a. a;
  zero_dec = pos 0;
  hundred = pos 100;
  dec_lt = ltb_ℤ;
  dec_sub = sub_ℤ;
  dec_abs = abs_ℤ;
  dec_mul = mul_ℤ;
  dec_div = div_ℤ;
  quantize = λ _ a. a;
  round_to = λ _ a. a;
  float_roundtrip = same_ℤ;
  to_float_mono = keep_ℤ;
  to_float_pos = keep_pos_ℤ;
  dec_le_refl = lt_irrefl_ℤ;
  dec_lt_asymm = lt_asymm_ℤ;
  dec_le_trans = le_trans_ℤ;
  quantize_nonpos = quantize_nonpos_ℤ;
  quantize_le = quantize_le_ℤ;
}
