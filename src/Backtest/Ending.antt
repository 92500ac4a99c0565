-- ===== src/Backtest/Ending.antt =====
-- The end of a run in src/qte_backtest/replay.py, at the close of the last bar.
use quant_trading_engine.Backtest.{BacktestEngine, change_at, filled, held_at, if_open, position_at}
use quant_trading_engine.Backtest.Strategy.{Row, close_all, end_run, mark_out}
use quant_trading_engine.Execution.{
  CostModel, ExitReason, SimulatedPosition, close_at, close_leg, exit_end_of_data, exit_fill,
  is_open,
}
use quant_trading_engine.Floats.{Decimals, Float, Floats, fmin, fmin_either}
use quant_trading_engine.Models.{price}
use quant_trading_engine.Prelude.{
  Bool-cases, Dict, Key-Text, Key-pair, Key-ℕ, List, Text, [], false, inl, inr, lookup, none, refl,
  some, suc, true, zero, ℕ, ◌==◌, ◌∷◌, ◌≡◌,
}
use quant_trading_engine.Timeframes.{Key-Timeframe}

module _ ⦃F : Floats⦄ ⦃D : Decimals⦄ where
  open F use {of_ℕ, dust, lt, sub}

  -- What is more than dust is more than nothing.
  open-positive : (x : Float) → lt dust x ≡ true → lt (of_ℕ 0) x ≡ true
  open-positive x more = elim (Bool-cases (lt (of_ℕ 0) x)) [
    | inl more_than ↦ more_than
    | inr not_more ↦ absurd (cc (more, F.le_trans x (of_ℕ 0) dust not_more F.dust_nonneg))
  ]

  close_leg-none_left :
      (c : CostModel) (t : ℕ) (price : Float) (r : ExitReason) (p : SimulatedPosition)
      → is_open p ≡ true
      → is_open (close_leg c t price p.remaining r none p) ≡ false
  unfolding close_leg is_open
  close_leg-none_left c t price r p more =
      let all = F.sub_self p.remaining in
      let least : fmin p.remaining p.remaining ≡ p.remaining =
        elim (fmin_either p.remaining p.remaining) [ inl h ↦ h | inr h ↦ h ] in
      rw (least, open-positive p.remaining more, all) F.dust_nonneg

  mark_out-closed :
      (c : CostModel) (t : ℕ) (price : Float) (p : SimulatedPosition)
      → is_open (mark_out c t price p) ≡ false
  unfolding mark_out close_at
  mark_out-closed c t price p = elim (Bool-cases (is_open p)) [
    | inl more ↦
        rw more (close_leg-none_left c t (exit_fill c price p.direction) exit_end_of_data p more)
    | inr less ↦ rw less less
  ]

  abbrev ClosedAt : List SimulatedPosition → ℕ → Type 0
  ClosedAt ps n = if_open (position_at ps n) ≡ none

  if_open-closed : (p : SimulatedPosition) → is_open p ≡ false → if_open (some p) ≡ none
  if_open-closed p less = rw less refl

  change_at-closed :
      (c : CostModel) (t : ℕ) (price : Float) (ps : List SimulatedPosition) (n : ℕ)
      → ClosedAt (change_at (mark_out c t price) ps n) n
  change_at-closed c t price [] n = refl
  change_at-closed c t price (p ∷ ps) zero =
      if_open-closed (mark_out c t price p) (mark_out-closed c t price p)
  change_at-closed c t price (p ∷ ps) (suc n) = change_at-closed c t price ps n

  change_at-stays_closed :
      (c : CostModel) (t : ℕ) (price : Float) (ps : List SimulatedPosition) (n m : ℕ)
      → ClosedAt ps m
      → ClosedAt (change_at (mark_out c t price) ps n) m
  change_at-stays_closed c t price [] n m h = h
  change_at-stays_closed c t price (p ∷ ps) zero zero h = change_at-closed c t price (p ∷ ps) zero
  change_at-stays_closed c t price (p ∷ ps) zero (suc m) h = h
  change_at-stays_closed c t price (p ∷ ps) (suc n) zero h = h
  change_at-stays_closed c t price (p ∷ ps) (suc n) (suc m) h =
      change_at-stays_closed c t price ps n m h

  close_all-stays_closed :
      (c : CostModel) (t : ℕ) (price : Float) (opened : Dict Text ℕ) (ps : List SimulatedPosition)
      (m : ℕ)
      → ClosedAt ps m
      → ClosedAt (close_all c t price opened ps) m
  unfolding close_all
  close_all-stays_closed c t price [] ps m h = h
  close_all-stays_closed c t price ((u, n) ∷ opened) ps m h =
      close_all-stays_closed c t price opened (change_at (mark_out c t price) ps n) m
        (change_at-stays_closed c t price ps n m h)

  close_all-closed :
      (c : CostModel) (t : ℕ) (price : Float) (u : Text) (opened : Dict Text ℕ)
      (ps : List SimulatedPosition)
      → held_at (close_all c t price opened ps) (lookup u opened) ≡ none
  unfolding close_all lookup
  close_all-closed c t price u [] ps = refl
  close_all-closed c t price u ((v, n) ∷ opened) ps =
      let ps' = change_at (mark_out c t price) ps n in
      elim (Bool-cases (v == u)) [
        | inl same ↦
            rw same
              (close_all-stays_closed c t price opened ps' n (change_at-closed c t price ps n))
        | inr other ↦ rw other (close_all-closed c t price u opened ps')
      ]

  -- When the run ends no position is open: whatever was, the last bar's close has closed in full.
  pub end_run-closed : (u : Text) (row : Row) (e : BacktestEngine) → filled (end_run row e) u ≡ none
  unfolding end_run filled
  end_run-closed u (t, bar) e = close_all-closed e.costs t bar.close u e.opened e.positions
