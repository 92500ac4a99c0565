-- ===== src/Prelude/Keys.antt =====
-- Python's `==` on what can be a key of a `dict`, and the two directions of its law.
use Prim.Native.Nat.{ℕ}
use mathlib.Core.Path.{◌≡◌, refl, ap₂}
use mathlib.Core.Logic.{◌↔◌}
use mathlib.Core.Bool.{Bool, true, ◌&&◌}
use native.Mathlib.Omega.{arith}
use quant_trading_engine.Prelude.Tests.{nat_eq}

pub record Key {κ} (K : Type κ) : Type κ where
  pub same : K → K → Bool
  pub sound : (j k : K) → same j k ≡ true → j ≡ k
  pub complete : (k : K) → same k k ≡ true

module _ {κ} {K : Type κ} ⦃key : Key K⦄ where
  infix 50 ◌==◌
  abbrev pub ◌==◌ : K → K → Bool
  j == k = key.same j k

  pub eq_self : (k : K) → k == k ≡ true
  eq_self = key.complete

  pub eq_iff : (j k : K) → (j == k ≡ true) ↔ (j ≡ k)
  eq_iff j k = (key.sound j k, λ e. ground (arith, key.complete k))

pub nat_eq_sound : (m n : ℕ) → nat_eq m n ≡ true → m ≡ n
nat_eq_sound m n h = ground arith

pub nat_eq_self : (n : ℕ) → nat_eq n n ≡ true
nat_eq_self n = ground arith

instance abbrev pub Key-ℕ : Key ℕ
Key-ℕ = record { same = nat_eq; sound = nat_eq_sound; complete = nat_eq_self }

-- A tuple of two keys.
module _ {κ ι} {K : Type κ} {L : Type ι} ⦃k : Key K⦄ ⦃l : Key L⦄ where
  abbrev pub pair_eq : K × L → K × L → Bool
  pair_eq (a, b) (c, d) = a == c && b == d

  pub pair_eq_sound : (p q : K × L) → pair_eq p q ≡ true → p ≡ q
  pair_eq_sound (a, b) (c, d) h =
      let left : a == c ≡ true = ground arith in
      let right : b == d ≡ true = ground arith in
      ap₂ (λ x y. (x, y)) ((eq_iff a c).0 left) ((eq_iff b d).0 right)

  pub pair_eq_self : (p : K × L) → pair_eq p p ≡ true
  pair_eq_self (a, b) = rw (eq_self a, eq_self b) refl

  instance abbrev pub Key-pair : Key (K × L)
  Key-pair = record { same = pair_eq; sound = pair_eq_sound; complete = pair_eq_self }
