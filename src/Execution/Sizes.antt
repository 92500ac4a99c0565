-- ===== src/Execution/Sizes.antt =====
-- The sizes that src/qte_backtest/execution.py closes, and what they leave of a position.
use quant_trading_engine.Execution.{
  Bar, ClosedLeg, CostModel, ExitReason, SimulatedPosition, close_at, close_leg, excursion,
  exit_fill, exit_tp1, exit_tp2, exits_at, fill_level, is_open, process_bar, stop_reason, take_tp1,
  targets_at, touched, tp1_share, tp2_at,
}
use quant_trading_engine.Floats.{Float, Floats, Le, Le-refl, Le-trans, fmin, fmin_right}
use quant_trading_engine.Models.{price}
use quant_trading_engine.Prelude.{
  All, All-append, Bool-cases, Option, Text, false, inl, inr, none, not, or_else, refl, some, true,
  ℕ, ◌&&◌, ◌∙◌, ◌≡◌,
}

module _ ⦃F : Floats⦄ where
  open F use {of_ℕ, lt, sub}

  -- A leg that was really filled, out of a position of size `total`.
  abbrev pub IsFilled : Float → ClosedLeg → Type 0
  IsFilled total l = (lt (of_ℕ 0) l.quantity ≡ true) × Le l.quantity total

  pub record IsSound (p : SimulatedPosition) : Type 0 where
    pub nonneg : Le (of_ℕ 0) p.remaining
    pub within : Le p.remaining p.quantity
    pub filled : All (IsFilled p.quantity) p.legs

  -- What a step does to the size: `remaining` only falls, and legs are only added.
  pub record Shrinks (p p' : SimulatedPosition) : Type 0 where
    pub sound : IsSound p'
    pub less : Le p'.remaining p.remaining
    pub same_total : p'.quantity ≡ p.quantity

  Shrinks-refl : (p : SimulatedPosition) → IsSound p → Shrinks p p
  Shrinks-refl p h = record { sound = h; less = Le-refl p.remaining; same_total = refl }

  Shrinks-trans : (p q r : SimulatedPosition) → Shrinks p q → Shrinks q r → Shrinks p r
  Shrinks-trans p q r a b = record {
    sound = b.sound;
    less = Le-trans r.remaining q.remaining p.remaining b.less a.less;
    same_total = b.same_total ∙ a.same_total;
  }

  close_leg-Shrinks :
      (c : CostModel) (t : ℕ) (price asked : Float) (reason : ExitReason) (why : Option Text)
      (p : SimulatedPosition)
      → IsSound p
      → Shrinks p (close_leg c t price asked reason why p)
  unfolding close_leg
  close_leg-Shrinks c t price asked reason why p h =
      let q = fmin asked p.remaining in
      elim (Bool-cases (lt (of_ℕ 0) q)) [
        | inr nothing ↦ rw nothing (Shrinks-refl p h)
        | inl positive ↦
            let fits : Le q p.remaining = fmin_right asked p.remaining in
            let fewer = F.sub_le p.remaining q (F.lt_asymm (of_ℕ 0) q positive) in
            rw positive (record {
              sound = record {
                nonneg = F.sub_nonneg p.remaining q fits;
                within = Le-trans (sub p.remaining q) p.remaining p.quantity fewer h.within;
                filled =
                    All-append (IsFilled p.quantity) p.legs _ h.filled
                      ((positive, Le-trans q p.remaining p.quantity fits h.within), tt);
              };
              less = fewer;
              same_total = refl;
            })
      ]

  -- The steps below rest on `close_leg` alone.
  excursion-Shrinks : (bar : Bar) (p : SimulatedPosition) → IsSound p → Shrinks p (excursion bar p)
  unfolding excursion
  excursion-Shrinks bar p h = record {
    sound = record { nonneg = h.nonneg; within = h.within; filled = h.filled };
    less = Le-refl p.remaining;
    same_total = refl;
  }

  take_tp1-Shrinks :
      (c : CostModel) (bar : Bar) (t : ℕ) (level : Float) (p : SimulatedPosition)
      → IsSound p
      → Shrinks p (take_tp1 c bar t level p)
  unfolding take_tp1
  take_tp1-Shrinks c bar t level p h =
      let q = fmin p.remaining (F.mul p.quantity (tp1_share p.tp1_percent)) in
      let price = fill_level c level bar.open_price p.direction false in
      let s = close_leg-Shrinks c t price q exit_tp1 none p h in
      record {
        sound = record {
          nonneg = s.sound.nonneg;
          within = s.sound.within;
          filled = s.sound.filled;
        };
        less = s.less;
        same_total = s.same_total;
      }

  tp2_at-Shrinks :
      (level : Option Float) (c : CostModel) (bar : Bar) (t : ℕ) (p : SimulatedPosition)
      → IsSound p
      → Shrinks p (tp2_at level c bar t p)
  unfolding tp2_at
  tp2_at-Shrinks none c bar t p h = Shrinks-refl p h
  tp2_at-Shrinks (some level) c bar t p h =
      elim (Bool-cases (touched (some level) p.direction bar false)) [
        | inl hit ↦ rw hit (
            close_leg-Shrinks c t (fill_level c level bar.open_price p.direction false) p.remaining
              exit_tp2 none p h)
        | inr miss ↦ rw miss (Shrinks-refl p h)
      ]

  targets_at-Shrinks :
      (level : Option Float) (c : CostModel) (bar : Bar) (t : ℕ) (p : SimulatedPosition)
      → IsSound p
      → Shrinks p (targets_at level c bar t p)
  unfolding targets_at
  targets_at-Shrinks none c bar t p h = tp2_at-Shrinks p.tp2 c bar t p h
  targets_at-Shrinks (some level) c bar t p h =
      let p' = take_tp1 c bar t level p in
      let first = take_tp1-Shrinks c bar t level p h in
      let second = tp2_at-Shrinks p'.tp2 c bar t p' first.sound in
      elim (Bool-cases (not p.tp1_filled && touched (some level) p.direction bar false)) [
        | inr miss ↦ rw miss (tp2_at-Shrinks p.tp2 c bar t p h)
        | inl hit ↦ rw hit (elim (Bool-cases (is_open p')) [
          | inl left ↦ rw left (Shrinks-trans p p' (tp2_at p'.tp2 c bar t p') first second)
          | inr done ↦ rw done first
        ])
      ]

  exits_at-Shrinks :
      (level : Option Float) (c : CostModel) (bar : Bar) (t : ℕ) (p : SimulatedPosition)
      → IsSound p
      → Shrinks p (exits_at level c bar t p)
  unfolding exits_at
  exits_at-Shrinks none c bar t p h = targets_at-Shrinks p.tp1 c bar t p h
  exits_at-Shrinks (some level) c bar t p h =
      elim (Bool-cases (touched (some level) p.direction bar true)) [
        | inl hit ↦ rw hit (
            close_leg-Shrinks c t (fill_level c level bar.open_price p.direction true) p.remaining
              (stop_reason p) none p h)
        | inr miss ↦ rw miss (targets_at-Shrinks p.tp1 c bar t p h)
      ]

  -- One bar never takes more out of a position than it holds: what remains stays between zero and
  -- what remained before, and every leg ever filled has a positive size of at most the position's.
  pub process_bar-Shrinks :
      (c : CostModel) (bar : Bar) (t : ℕ) (p : SimulatedPosition)
      → IsSound p
      → Shrinks p (process_bar c bar t p)
  unfolding process_bar
  process_bar-Shrinks c bar t p h =
      let seen = excursion bar p in
      let first = excursion-Shrinks bar p h in
      elim (Bool-cases (is_open p)) [
        | inr flat ↦ rw flat (Shrinks-refl p h)
        | inl live ↦ rw live (
            Shrinks-trans p seen (exits_at seen.sl c bar t seen) first
              (exits_at-Shrinks seen.sl c bar t seen first.sound))
      ]

  -- Nor does a discretionary close, whatever quantity it asks for.
  pub close_at-Shrinks :
      (c : CostModel) (t : ℕ) (price : Float) (reason : ExitReason) (asked : Option Float)
      (why : Option Text) (p : SimulatedPosition)
      → IsSound p
      → Shrinks p (close_at c t price reason asked why p)
  unfolding close_at
  close_at-Shrinks c t price reason asked why p h = elim (Bool-cases (is_open p)) [
    | inr flat ↦ rw flat (Shrinks-refl p h)
    | inl live ↦ rw live (
        close_leg-Shrinks c t (exit_fill c price p.direction) (or_else asked p.remaining) reason why
          p h)
  ]
