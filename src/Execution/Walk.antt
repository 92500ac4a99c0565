-- ===== src/Execution/Walk.antt =====
-- What one bar of src/qte_backtest/execution.py adds to the record of a position.
use quant_trading_engine.Execution.{
  Bar, ClosedLeg, CostModel, ExitReason, SimulatedPosition, close_at, close_leg, closed_leg,
  excursion, exit_tp1, exit_tp2, exits_at, fill_level, is_open, process_bar, stop_reason, take_stop,
  take_tp1, targets_at, touched, tp1_share, tp2_at,
}
use quant_trading_engine.Floats.{Float, Floats, fmin}
use quant_trading_engine.Models.{price}
use quant_trading_engine.Prelude.{
  Bool-cases, List, Option, Text, [], ap, append-nil, append_assoc, arith, false, inl, inr, length,
  length-append, none, not, refl, some, sym, true, ℕ, ◌&&◌, ◌++◌, ◌+◌, ◌∙◌, ◌∷◌, ◌≡◌, ◌≤◌,
}

module _ ⦃F : Floats⦄ where
  -- `after` is `before` with at most `n` legs added at the end.
  pub record AddsLegs (n : ℕ) (before after : List ClosedLeg) : Type 0 where
    pub added : List ClosedLeg
    pub appended : after ≡ before ++ added
    pub few : length added ≤ n

  AddsLegs-none : (before : List ClosedLeg) (n : ℕ) → AddsLegs n before before
  AddsLegs-none before n = record {
    added = [];
    appended = sym (append-nil before);
    few = omega arith;
  }

  AddsLegs-trans :
      (m n : ℕ) (a b c : List ClosedLeg) → AddsLegs m a b → AddsLegs n b c → AddsLegs (m + n) a c
  AddsLegs-trans m n a b c h k = record {
    added = h.added ++ k.added;
    appended =
        k.appended
        ∙ ap (λ (l : List ClosedLeg). l ++ k.added) h.appended
        ∙ append_assoc a h.added k.added;
    few = omega (arith, length-append {0} h.added k.added, h.few, k.few);
  }

  AddsLegs-weaken : (m n : ℕ) (a b : List ClosedLeg) → m ≤ n → AddsLegs m a b → AddsLegs n a b
  AddsLegs-weaken m n a b le h = record {
    added = h.added;
    appended = h.appended;
    few = omega (arith, h.few);
  }

  close_leg-AddsLegs :
      (c : CostModel) (t : ℕ) (price asked : Float) (reason : ExitReason) (why : Option Text)
      (p : SimulatedPosition)
      → AddsLegs 1 p.legs (close_leg c t price asked reason why p).legs
  unfolding close_leg
  close_leg-AddsLegs c t price asked reason why p =
      let q = fmin asked p.remaining in
      elim (Bool-cases (F.lt (F.of_ℕ 0) q)) [
        | inr nothing ↦ rw nothing (AddsLegs-none p.legs 1)
        | inl positive ↦ rw positive (record {
          added = closed_leg c t price q reason why p ∷ [];
          appended = refl;
          few = omega arith;
        })
      ]

  tp2_at-AddsLegs :
      (level : Option Float) (c : CostModel) (bar : Bar) (t : ℕ) (p : SimulatedPosition)
      → AddsLegs 1 p.legs (tp2_at level c bar t p).legs
  unfolding tp2_at
  tp2_at-AddsLegs none c bar t p = AddsLegs-none p.legs 1
  tp2_at-AddsLegs (some level) c bar t p =
      elim (Bool-cases (touched (some level) p.direction bar false)) [
        | inl hit ↦ rw hit (
            close_leg-AddsLegs c t (fill_level c level bar.open_price p.direction false) p.remaining
              exit_tp2 none p)
        | inr miss ↦ rw miss (AddsLegs-none p.legs 1)
      ]

  take_tp1-AddsLegs :
      (c : CostModel) (bar : Bar) (t : ℕ) (level : Float) (p : SimulatedPosition)
      → AddsLegs 1 p.legs (take_tp1 c bar t level p).legs
  unfolding take_tp1
  take_tp1-AddsLegs c bar t level p =
      close_leg-AddsLegs c t (fill_level c level bar.open_price p.direction false)
        (fmin p.remaining (F.mul p.quantity (tp1_share p.tp1_percent))) exit_tp1 none p

  targets_at-AddsLegs :
      (level : Option Float) (c : CostModel) (bar : Bar) (t : ℕ) (p : SimulatedPosition)
      → AddsLegs 2 p.legs (targets_at level c bar t p).legs
  unfolding targets_at
  targets_at-AddsLegs none c bar t p =
      AddsLegs-weaken 1 2 p.legs (tp2_at p.tp2 c bar t p).legs (omega arith)
        (tp2_at-AddsLegs p.tp2 c bar t p)
  targets_at-AddsLegs (some level) c bar t p =
      let p' = take_tp1 c bar t level p in
      let first = take_tp1-AddsLegs c bar t level p in
      let second = tp2_at-AddsLegs p'.tp2 c bar t p' in
      elim (Bool-cases (not p.tp1_filled && touched (some level) p.direction bar false)) [
        | inr miss ↦ rw miss (
            AddsLegs-weaken 1 2 p.legs (tp2_at p.tp2 c bar t p).legs (omega arith)
              (tp2_at-AddsLegs p.tp2 c bar t p))
        | inl hit ↦ rw hit (elim (Bool-cases (is_open p')) [
          | inl left ↦
              rw left
                (AddsLegs-trans 1 1 p.legs p'.legs (tp2_at p'.tp2 c bar t p').legs first second)
          | inr done ↦ rw done (AddsLegs-weaken 1 2 p.legs p'.legs (omega arith) first)
        ])
      ]

  exits_at-AddsLegs :
      (level : Option Float) (c : CostModel) (bar : Bar) (t : ℕ) (p : SimulatedPosition)
      → AddsLegs 2 p.legs (exits_at level c bar t p).legs
  unfolding exits_at
  exits_at-AddsLegs none c bar t p = targets_at-AddsLegs p.tp1 c bar t p
  exits_at-AddsLegs (some level) c bar t p =
      elim (Bool-cases (touched (some level) p.direction bar true)) [
        | inl hit ↦ rw hit (
            AddsLegs-weaken 1 2 p.legs (take_stop c bar t level p).legs (omega arith) (
              close_leg-AddsLegs c t (fill_level c level bar.open_price p.direction true)
                p.remaining (stop_reason p) none p))
        | inr miss ↦ rw miss (targets_at-AddsLegs p.tp1 c bar t p)
      ]

  -- One bar appends at most two fills to a position's record and rewrites none of those before.
  pub process_bar-AddsLegs :
      (c : CostModel) (bar : Bar) (t : ℕ) (p : SimulatedPosition)
      → AddsLegs 2 p.legs (process_bar c bar t p).legs
  unfolding process_bar
  process_bar-AddsLegs c bar t p =
      let seen = excursion bar p in
      elim (Bool-cases (is_open p)) [
        | inr flat ↦ rw flat (AddsLegs-none p.legs 2)
        | inl live ↦ rw live (exits_at-AddsLegs seen.sl c bar t seen)
      ]

  -- A closed position is left alone, by a bar and by a discretionary close alike.
  pub closed_stays :
      (c : CostModel) (bar : Bar) (t : ℕ) (p : SimulatedPosition) (price : Float)
      (reason : ExitReason) (asked : Option Float) (why : Option Text)
      → is_open p ≡ false
      → (process_bar c bar t p ≡ p) × (close_at c t price reason asked why p ≡ p)
  unfolding process_bar close_at
  closed_stays c bar t p price reason asked why flat = (rw flat, rw flat)
