-- ===== src/Execution/Stops.antt =====
-- The stop of a position in src/qte_backtest/execution.py: when it is taken, and at what price.
use quant_trading_engine.Backtest.Strategy.{fill}
use quant_trading_engine.Execution.{
  Bar, CostModel, ExitReason, SimulatedPosition, close_leg, closed_leg, crossing, excursion,
  exit_fill, exit_r_sl, exit_sl, exits_at, fill_level, is_open, process_bar, stop_reason, take_stop,
  touched,
}
use quant_trading_engine.Floats.{
  Float, Floats, Le, Le-trans, fmax, fmax_left, fmax_right, fmin, fmin_left, fmin_right,
}
use quant_trading_engine.Models.{Direction, long, price, short}
use quant_trading_engine.Prelude.{
  Option, Text, [], ap, arith, false, if◌then◌else◌, none, refl, some, true, ℕ, ◌&&◌, ◌++◌, ◌∙◌,
  ◌∷◌, ◌≡◌,
}

module _ ⦃F : Floats⦄ where
  open F use {of_ℕ, dust, lt, sub, neg}

  -- `x > dust` makes `x` positive.
  is_open-positive : (p : SimulatedPosition) → is_open p ≡ true → lt (of_ℕ 0) p.remaining ≡ true
  unfolding is_open
  is_open-positive p running = ground (arith, F.le_trans p.remaining (of_ℕ 0) dust, F.dust_nonneg)

  fmin_self : (a : Float) → fmin a a ≡ a
  unfolding fmin
  fmin_self a = ground (arith, F.lt_irrefl a)

  -- A close of everything that remains.
  close_all :
      (c : CostModel) (t : ℕ) (price : Float) (reason : ExitReason) (why : Option Text)
      (p : SimulatedPosition)
      → lt (of_ℕ 0) p.remaining ≡ true
      → let p' = close_leg c t price p.remaining reason why p in
        (p'.legs ≡ p.legs ++ closed_leg c t price p.remaining reason why p ∷ [])
        × (p'.remaining ≡ of_ℕ 0)
        × (is_open p' ≡ false)
  unfolding close_leg is_open
  close_all c t price reason why p positive =
      rw (fmin_self p.remaining, positive)
        (refl, F.sub_self p.remaining, rw (F.sub_self p.remaining) F.dust_nonneg)

  process_bar-stop :
      (c : CostModel) (bar : Bar) (t : ℕ) (p : SimulatedPosition) (level : Float)
      → is_open p ≡ true
      → p.sl ≡ some level
      → touched (some level) p.direction bar true ≡ true
      → process_bar c bar t p ≡ take_stop c bar t level (excursion bar p)
  unfolding process_bar
  process_bar-stop c bar t p level running stop hit =
      rw running (ap (λ l. exits_at l c bar t (excursion bar p)) stop ∙ rw hit)

  -- A bar that touches the stop of an open position fills the stop alone, whatever targets the bar
  -- also covers: it adds one leg, of everything that remained, at the stop's fill, and the position
  -- is closed. The leg is called R_SL exactly if TP1 had been filled and the position moves its
  -- stop to breakeven then, and SL otherwise.
  pub stop_first :
      (c : CostModel) (bar : Bar) (t : ℕ) (p : SimulatedPosition) (level : Float)
      → is_open p ≡ true
      → p.sl ≡ some level
      → touched (some level) p.direction bar true ≡ true
      → let p' = process_bar c bar t p in
        let fill = fill_level c level bar.open_price p.direction true in
        let reason = if p.tp1_filled && p.move_sl_to_be then exit_r_sl else exit_sl in
        (p'.legs ≡ p.legs ++ closed_leg c t fill p.remaining reason none p ∷ [])
        × (p'.remaining ≡ of_ℕ 0)
        × (is_open p' ≡ false)
  unfolding take_stop excursion
  stop_first c bar t p level running stop hit =
      let seen = excursion bar p in
      rw (process_bar-stop c bar t p level running stop hit) (
        close_all c t (fill_level c level bar.open_price p.direction true) (stop_reason p) none seen
          (is_open-positive p running))

  -- Selling at most, or buying back at least, at `level`.
  abbrev pub NoBetter : Direction → Float → Float → Type 0
  NoBetter long fill level = Le fill level
  NoBetter short fill level = Le level fill

  exit_fill-NoBetter :
      (c : CostModel) (price : Float) (d : Direction)
      → Le (of_ℕ 0) (crossing c)
      → NoBetter d (exit_fill c price d) price
  unfolding exit_fill
  exit_fill-NoBetter c price long h = F.sub_le price (crossing c) h
  exit_fill-NoBetter c price short h = F.le_sub-neg price (crossing c) h

  -- The worse of two prices for whoever leaves a position.
  abbrev pub worse : Direction → Float → Float → Float
  worse long a b = fmin a b
  worse short a b = fmax a b

  -- Under costs that are not negative, a stop fills at the worse of its level and the bar's open,
  -- less the costs of the exit: never better than the level it was set at, and never better than
  -- the open of a bar that gapped through it.
  pub stop_fill-NoBetter :
      (c : CostModel) (level open_price : Float) (d : Direction)
      → Le (of_ℕ 0) (crossing c)
      → (fill_level c level open_price d true ≡ exit_fill c (worse d level open_price) d)
        × NoBetter d (fill_level c level open_price d true) level
        × NoBetter d (fill_level c level open_price d true) open_price
  unfolding fill_level fmin fmax
  stop_fill-NoBetter c level open_price long h =
      let raw = fmin level open_price in
      let paid = exit_fill-NoBetter c raw long h in
      (
        refl,
        Le-trans (exit_fill c raw long) raw level paid (fmin_left level open_price),
        Le-trans (exit_fill c raw long) raw open_price paid (fmin_right level open_price),
      )
  stop_fill-NoBetter c level open_price short h =
      let raw = fmax level open_price in
      let paid = exit_fill-NoBetter c raw short h in
      (
        refl,
        Le-trans level raw (exit_fill c raw short) (fmax_left level open_price) paid,
        Le-trans open_price raw (exit_fill c raw short) (fmax_right level open_price) paid,
      )
