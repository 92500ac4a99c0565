-- ===== src/Tests/SizingTests.antt =====
-- src/qte_shared/strategies/sizing.py at concrete inputs.

-- A dynamic pair with a ceiling of 5 percent, and at most 8 units a trade.
use quant_trading_engine.Floats.{Float, Le, fmin, is_zero}
use quant_trading_engine.Floats.Whole.{whole, whole_decimals}
use quant_trading_engine.Prelude.{Option, none, ok, refl, some, true, ◌≡◌}
use quant_trading_engine.Prelude.Int.{ltb_ℤ, pos}
use quant_trading_engine.Sizing.{
  PositionSizer, bounded_by, budget_for, capped_risk, check_sizer, limit_quantity,
  resolve_risk_ceiling, risk_for, risk_quantity, size, wanted_risk,
}
use quant_trading_engine.Sizing.Configured.{configured_risk_bounds}
use quant_trading_engine.Sizing.Limits.{AtMost, limit_quantity_bounds, quantity_ceiling}
use quant_trading_engine.Sizing.Settings.{
  Account, PairParams, as_float, ceiling_of, first_risk, from_settings, missing, nonzero, number,
  resolve_dynamic_risk, sizer_for, sizer_of, switch,
}

abbrev pub sizer : PositionSizer
sizer = record {
  capital = pos 1000;
  risk_percent = pos 2;
  contract_size = pos 1;
  max_quantity = some (pos 8);
  precision = 2;
  max_risk_percent = some (pos 5);
  dynamic_risk = true;
}

capped : risk_for sizer (some (pos 9)) ≡ ok (pos 5)
unfolding risk_for wanted_risk capped_risk
capped = refl

limited_to_ceiling : limit_quantity sizer (pos 20) ≡ ok (pos 8)
unfolding limit_quantity bounded_by is_zero
limited_to_ceiling = refl

-- 1000 units of capital at 5 percent over a stop 10 away.
sized : size sizer (some (pos 100)) (some (pos 90)) (some (pos 5)) ≡ ok (some (pos 5))
unfolding size risk_quantity limit_quantity bounded_by budget_for is_zero
sized = refl

limit_quantity_bounds_example :
    (ltb_ℤ (pos 0) (pos 8) ≡ true)
    × Le (pos 8) (pos 20)
    × AtMost (quantity_ceiling sizer.max_quantity) (pos 8)
limit_quantity_bounds_example = limit_quantity_bounds sizer (pos 20) (pos 8) refl limited_to_ceiling

unsized : size sizer (some (pos 100)) none (some (pos 5)) ≡ ok none
unfolding size budget_for
unsized = refl

abbrev no_stop : Option Float
no_stop = none

-- A dynamic pair that may ask for 9 percent, on an account that allows 5.
abbrev account : Account
account = record {
  capital = pos 1000;
  risk_percent = pos 1;
  contract_size = pos 1;
  max_quantity = some (pos 8);
  quantity_precision = 2;
  max_risk_percent = some (pos 5);
}

abbrev params : PairParams
params = record {
  risk_percent = number (pos 2);
  dynamic_risk = switch true;
  max_risk_percent = number (pos 9);
  use_equity_sizing = missing;
}

configured : from_settings (λ _. none) none params account ≡ ok sizer
unfolding from_settings first_risk resolve_dynamic_risk sizer_for ceiling_of sizer_of check_sizer
    nonzero resolve_risk_ceiling as_float is_zero fmin
configured = refl

configured_risk_bounds_example : AtMost (some (pos 5)) (pos 5)
unfolding nonzero is_zero
configured_risk_bounds_example =
    configured_risk_bounds (λ _. none) none params account sizer (some (pos 9)) (pos 5) configured
      capped
