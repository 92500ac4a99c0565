-- ===== src/Execution/Excursions.antt =====
-- The excursion of a position in src/qte_backtest/execution.py: its worst and its best price.
use quant_trading_engine.Execution.{
  Bar, CostModel, ExitReason, SimulatedPosition, best_of, close_leg, excursion, exit_tp1, exit_tp2,
  exits_at, fill_level, is_open, process_bar, stop_reason, take_tp1, targets_at, touched, tp1_share,
  tp2_at, worst_of,
}
use quant_trading_engine.Floats.{
  Float, Floats, Le, fmax_left, fmax_right, fmin, fmin_left, fmin_right,
}
use quant_trading_engine.Models.{Direction, long, price, short}
use quant_trading_engine.Prelude.{
  Bool-cases, Option, Text, arith, false, inl, inr, none, not, refl, some, true, ℕ, ◌&&◌, ◌+◌, ◌∙◌,
  ◌≡◌,
}

module _ ⦃F : Floats⦄ where
  open F use {of_ℕ, lt}

  -- The prices of a bar that hurt most, and that helped most.
  abbrev pub adverse : Direction → Bar → Float
  adverse long bar = bar.low
  adverse short bar = bar.high

  abbrev pub favourable : Direction → Bar → Float
  favourable long bar = bar.high
  favourable short bar = bar.low

  -- `a` is at least as bad as `b` for the position.
  abbrev pub Worse : Direction → Float → Float → Type 0
  Worse long a b = Le a b
  Worse short a b = Le b a

  pub record Covers (bar : Bar) (p p' : SimulatedPosition) : Type 0 where
    pub same_side : p'.direction ≡ p.direction
    pub counted : p'.bars_held ≡ p.bars_held + 1
    pub worst_kept : Worse p.direction p'.worst_price p.worst_price
    pub worst_seen : Worse p.direction p'.worst_price (adverse p.direction bar)
    pub best_kept : Worse p.direction p.best_price p'.best_price
    pub best_seen : Worse p.direction (favourable p.direction bar) p'.best_price

  -- Which fields of a position a step leaves alone.
  pub record SameRange (p p' : SimulatedPosition) : Type 0 where
    pub side : p'.direction ≡ p.direction
    pub bars : p'.bars_held ≡ p.bars_held
    pub worst : p'.worst_price ≡ p.worst_price
    pub best : p'.best_price ≡ p.best_price

  close_leg-SameRange :
      (c : CostModel) (t : ℕ) (price asked : Float) (reason : ExitReason) (why : Option Text)
      (p : SimulatedPosition)
      → SameRange p (close_leg c t price asked reason why p)
  unfolding close_leg
  close_leg-SameRange c t price asked reason why p = ground arith

  tp2_at-SameRange :
      (level : Option Float) (c : CostModel) (bar : Bar) (t : ℕ) (p : SimulatedPosition)
      → SameRange p (tp2_at level c bar t p)
  unfolding tp2_at
  tp2_at-SameRange none c bar t p = ground arith
  tp2_at-SameRange (some level) c bar t p = ground (
    arith,
    close_leg-SameRange c t (fill_level c level bar.open_price p.direction false) p.remaining
        exit_tp2 none p,
  )

  SameRange-trans : (p q r : SimulatedPosition) → SameRange p q → SameRange q r → SameRange p r
  SameRange-trans p q r a b = record {
    side = b.side ∙ a.side;
    bars = b.bars ∙ a.bars;
    worst = b.worst ∙ a.worst;
    best = b.best ∙ a.best;
  }

  take_tp1-SameRange :
      (c : CostModel) (bar : Bar) (t : ℕ) (level : Float) (p : SimulatedPosition)
      → SameRange p (take_tp1 c bar t level p)
  unfolding take_tp1
  take_tp1-SameRange c bar t level p =
      let s =
        close_leg-SameRange c t (fill_level c level bar.open_price p.direction false)
          (fmin p.remaining (F.mul p.quantity (tp1_share p.tp1_percent))) exit_tp1 none p in
      record { side = s.side; bars = s.bars; worst = s.worst; best = s.best }

  targets_at-SameRange :
      (level : Option Float) (c : CostModel) (bar : Bar) (t : ℕ) (p : SimulatedPosition)
      → SameRange p (targets_at level c bar t p)
  unfolding targets_at
  targets_at-SameRange none c bar t p = tp2_at-SameRange p.tp2 c bar t p
  targets_at-SameRange (some level) c bar t p =
      let p' = take_tp1 c bar t level p in
      let first = take_tp1-SameRange c bar t level p in
      elim (Bool-cases (not p.tp1_filled && touched (some level) p.direction bar false)) [
        | inr miss ↦ rw miss (tp2_at-SameRange p.tp2 c bar t p)
        | inl hit ↦ rw hit (elim (Bool-cases (is_open p')) [
          | inl left ↦ rw left (
              SameRange-trans p p' (tp2_at p'.tp2 c bar t p') first
                (tp2_at-SameRange p'.tp2 c bar t p'))
          | inr done ↦ rw done first
        ])
      ]

  exits_at-SameRange :
      (level : Option Float) (c : CostModel) (bar : Bar) (t : ℕ) (p : SimulatedPosition)
      → SameRange p (exits_at level c bar t p)
  unfolding exits_at
  exits_at-SameRange none c bar t p = targets_at-SameRange p.tp1 c bar t p
  exits_at-SameRange (some level) c bar t p =
      elim (Bool-cases (touched (some level) p.direction bar true)) [
        | inl hit ↦ rw hit (
            close_leg-SameRange c t (fill_level c level bar.open_price p.direction true) p.remaining
              (stop_reason p) none p)
        | inr miss ↦ rw miss (targets_at-SameRange p.tp1 c bar t p)
      ]

  Covers-SameRange :
      (bar : Bar) (p q r : SimulatedPosition) → Covers bar p q → SameRange q r → Covers bar p r
  Covers-SameRange bar p q r h s = record {
    same_side = s.side ∙ h.same_side;
    counted = s.bars ∙ h.counted;
    worst_kept = rw s.worst h.worst_kept;
    worst_seen = rw s.worst h.worst_seen;
    best_kept = rw s.best h.best_kept;
    best_seen = rw s.best h.best_seen;
  }

  worst_of_bounds :
      (d : Direction) (w : Float) (bar : Bar)
      → Worse d (worst_of d w bar) w × Worse d (worst_of d w bar) (adverse d bar)
  worst_of_bounds long w bar = (fmin_left w bar.low, fmin_right w bar.low)
  worst_of_bounds short w bar = (fmax_left w bar.high, fmax_right w bar.high)

  best_of_bounds :
      (d : Direction) (b : Float) (bar : Bar)
      → Worse d b (best_of d b bar) × Worse d (favourable d bar) (best_of d b bar)
  best_of_bounds long b bar = (fmax_left b bar.high, fmax_right b bar.high)
  best_of_bounds short b bar = (fmin_left b bar.low, fmin_right b bar.low)

  excursion-Covers : (bar : Bar) (p : SimulatedPosition) → Covers bar p (excursion bar p)
  unfolding excursion
  excursion-Covers bar p =
      let worst = worst_of_bounds p.direction p.worst_price bar in
      let best = best_of_bounds p.direction p.best_price bar in
      record {
        same_side = refl;
        counted = refl;
        worst_kept = worst.0;
        worst_seen = worst.1;
        best_kept = best.0;
        best_seen = best.1;
      }

  -- A bar that finds the position open is counted, and the worst and best prices afterwards cover
  -- both those before and the bar's own extremes, on the bar that stops the trade out too.
  pub process_bar-Covers :
      (c : CostModel) (bar : Bar) (t : ℕ) (p : SimulatedPosition)
      → is_open p ≡ true
      → Covers bar p (process_bar c bar t p)
  unfolding process_bar
  process_bar-Covers c bar t p live =
      let seen = excursion bar p in
      rw live (
        Covers-SameRange bar p seen (exits_at seen.sl c bar t seen) (excursion-Covers bar p)
          (exits_at-SameRange seen.sl c bar t seen))
