-- ===== src/Tests/ExecutionTests.antt =====
-- src/qte_backtest/execution.py at concrete inputs.
use quant_trading_engine.Execution.{
  Bar, ClosedLeg, CostModel, ExitReason, Order, SimulatedPosition, closed_leg, commission,
  exit_fill, exit_sl, fill_level, is_open, open_position, process_bar, touched,
}
use quant_trading_engine.Execution.Excursions.{Covers, process_bar-Covers}
use quant_trading_engine.Execution.Sizes.{IsSound, Shrinks, process_bar-Shrinks}
use quant_trading_engine.Execution.Stops.{NoBetter, stop_fill-NoBetter, stop_first, worse}
use quant_trading_engine.Execution.Walk.{AddsLegs, process_bar-AddsLegs}
use quant_trading_engine.Floats.{Float, fabs, fmax, fmin}
use quant_trading_engine.Floats.Whole.{whole}
use quant_trading_engine.Models.{long}
use quant_trading_engine.Prelude.{[], codes, false, map, none, refl, some, true, ◌++◌, ◌∷◌, ◌≡◌}
use quant_trading_engine.Prelude.Int.{pos}

abbrev costs : CostModel
costs = record {
  spread = pos 2;
  slippage = pos 1;
  commission_per_unit = pos 0;
  contract_size = pos 1;
}

abbrev order : Order
order = record {
  symbol = codes "XAUUSD";
  direction = long;
  bar_time = 0;
  price = pos 98;
  quantity = pos 10;
  sl = some (pos 90);
  tp1 = some (pos 110);
  tp2 = some (pos 120);
  tp1_percent = some (pos 100);
  move_sl_to_be = true;
  signal_uxid = none;
  risk_percent = none;
}

abbrev position : SimulatedPosition
unfolding open_position fabs
position = open_position costs order

abbrev wide_bar : Bar
wide_bar = record { open_price = pos 95; high = pos 130; low = pos 89; close = pos 100 }

abbrev gap_bar : Bar
gap_bar = record { open_price = pos 80; high = pos 130; low = pos 79; close = pos 100 }

position_entry : position.entry_price ≡ pos 100
unfolding open_position fabs
position_entry = refl

-- A gap through the stop fills at the open, 80, less the crossing, 2.
gap_fill : fill_level costs (pos 90) (pos 80) long true ≡ pos 78
unfolding fill_level
gap_fill = refl

-- Both levels are in the bar's range: the stop is taken.
abbrev leg_view : ClosedLeg → ExitReason × Float
leg_view l = (l.reason, l.price)

wide_bar_stops : map leg_view (process_bar costs wide_bar 5 position).legs ≡ (exit_sl, pos 88) ∷ []
unfolding process_bar open_position fmin fmax fabs fill_level commission
wide_bar_stops = refl

position-IsSound : IsSound position
unfolding open_position fabs
position-IsSound = record { nonneg = refl; within = refl; filled = tt }

process_bar-Shrinks_example : Shrinks position (process_bar costs wide_bar 5 position)
process_bar-Shrinks_example = process_bar-Shrinks costs wide_bar 5 position position-IsSound

stop_first_example :
    let p' = process_bar costs gap_bar 5 position in
    let fill = fill_level costs (pos 90) (pos 80) long true in
    (p'.legs ≡ position.legs ++ closed_leg costs 5 fill (pos 10) exit_sl none position ∷ [])
    × (p'.remaining ≡ pos 0)
    × (is_open p' ≡ false)
unfolding open_position is_open touched fabs
stop_first_example = stop_first costs gap_bar 5 position (pos 90) refl refl refl

stop_fill-NoBetter_example :
    (fill_level costs (pos 90) (pos 80) long true
      ≡ exit_fill costs (worse long (pos 90) (pos 80)) long)
    × NoBetter long (fill_level costs (pos 90) (pos 80) long true) (pos 90)
    × NoBetter long (fill_level costs (pos 90) (pos 80) long true) (pos 80)
stop_fill-NoBetter_example = stop_fill-NoBetter costs (pos 90) (pos 80) long refl

process_bar-AddsLegs_example : AddsLegs 2 position.legs (process_bar costs wide_bar 5 position).legs
process_bar-AddsLegs_example = process_bar-AddsLegs costs wide_bar 5 position

abbrev flat : SimulatedPosition
flat = record position { remaining = pos 0 }

process_bar-Covers_example : Covers wide_bar position (process_bar costs wide_bar 5 position)
unfolding is_open open_position fabs
process_bar-Covers_example = process_bar-Covers costs wide_bar 5 position refl
