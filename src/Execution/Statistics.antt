-- ===== src/Execution/Statistics.antt =====
-- The properties of `SimulatedPosition` in src/qte_backtest/execution.py, which a report reads.
use quant_trading_engine.Execution.{ClosedLeg, ExitReason, SimulatedPosition, is_open}
use quant_trading_engine.Floats.{Float, Floats, fabs, fmax, fsum, is_zero}
use quant_trading_engine.Models.{signed}
use quant_trading_engine.Prelude.{
  List, Option, Text, [], if◌then◌else◌, map, none, not, or_else, some, ℕ, ◌∷◌,
}

module _ ⦃F : Floats⦄ where
  open F use {of_ℕ, lt, add, sub, mul, div}

  unfoldable pub gross_pnl : SimulatedPosition → Float
  gross_pnl p = fsum (map (λ (l : ClosedLeg). l.gross_pnl) p.legs)

  unfoldable pub fees : SimulatedPosition → Float
  fees p = add p.entry_fees (fsum (map (λ (l : ClosedLeg). l.fees) p.legs))

  unfoldable pub net_pnl : SimulatedPosition → Float
  unfolding gross_pnl fees
  net_pnl p = sub (gross_pnl p) (fees p)

  abbrev pub last_leg : List ClosedLeg → Option ClosedLeg
  last_leg [] = none
  last_leg (l ∷ ls) = some (or_else (last_leg ls) l)

  unfoldable pub closed_at : SimulatedPosition → Option ℕ
  unfolding is_open
  closed_at p = elim (last_leg p.legs) [
    | none ↦ none
    | some leg ↦ if not (is_open p) then some leg.closed_at else none
  ]

  -- The size-weighted average of every closed leg.
  unfoldable pub exit_price : SimulatedPosition → Option Float
  exit_price p = elim (last_leg p.legs) [
    | none ↦ none
    | some _ ↦
        let volume = fsum (map (λ (l : ClosedLeg). l.quantity) p.legs) in
        if is_zero volume
        then none
        else some (div (fsum (map (λ (l : ClosedLeg). mul l.price l.quantity) p.legs)) volume)
  ]

  unfoldable pub exit_reason : SimulatedPosition → Option ExitReason
  exit_reason p = elim (last_leg p.legs) [ none ↦ none | some leg ↦ some leg.reason ]

  unfoldable pub exit_note : SimulatedPosition → Option Text
  exit_note p = elim (last_leg p.legs) [ none ↦ none | some leg ↦ leg.note ]

  -- The distance to the stop as it stood at entry.
  unfoldable pub initial_risk : SimulatedPosition → Option Float
  initial_risk p = elim p.initial_sl [
    | none ↦ none
    | some stop ↦
        let risk = fabs (sub p.entry_price stop) in if lt (of_ℕ 0) risk then some risk else none
  ]

  unfoldable pub mae : SimulatedPosition → Float
  mae p = fmax (of_ℕ 0) (signed p.direction (sub p.entry_price p.worst_price))

  unfoldable pub mfe : SimulatedPosition → Float
  mfe p = fmax (of_ℕ 0) (signed p.direction (sub p.best_price p.entry_price))

  unfoldable pub mae_r : SimulatedPosition → Option Float
  unfolding initial_risk mae
  mae_r p = elim (initial_risk p) [ none ↦ none | some risk ↦ some (div (mae p) risk) ]

  unfoldable pub mfe_r : SimulatedPosition → Option Float
  unfolding initial_risk mfe
  mfe_r p = elim (initial_risk p) [ none ↦ none | some risk ↦ some (div (mfe p) risk) ]

  -- Net profit in units of the risk taken at entry.
  unfoldable pub r_multiple : SimulatedPosition → Option Float
  unfolding initial_risk net_pnl
  r_multiple p = elim (initial_risk p) [
    | none ↦ none
    | some risk ↦
        if is_zero p.quantity
        then none
        else some (div (net_pnl p) (mul (mul risk p.quantity) p.contract_size))
  ]
