-- ===== src/Tests/RepairTests.antt =====
-- src/qte_ingestion/repair.py at concrete inputs.
use quant_trading_engine.Floats.{fmax, fmin}
use quant_trading_engine.Floats.Whole.{whole}
use quant_trading_engine.Models.{Candle}
use quant_trading_engine.Prelude.{
  Dict, Key-Text, Key-ℕ, Text, [], codes, false, lookup, none, refl, some, text_eq, true, ℕ, ◌∷◌,
  ◌≡◌,
}
use quant_trading_engine.Prelude.Int.{pos}
use quant_trading_engine.Repair.{
  PartialBarRepairer, VendorRow, bar_of, merge_partial_bar, repair, repaired_by, routed_repair,
  vendor_bar,
}
use quant_trading_engine.Repair.Merging.{
  Completes, IsConsistent, merge_partial_bar-IsConsistent, routed_repair-Completes,
}
use quant_trading_engine.Timeframes.{Key-Timeframe, m1}

abbrev half_bar : Candle
half_bar = record {
  symbol = codes "XAUUSD";
  timeframe = m1;
  open_time = 60000000;
  open_price = pos 12;
  high = pos 15;
  low = pos 11;
  close = pos 14;
  volume = pos 3;
  tick_count = 3;
  is_closed = true;
  origin = none;
}

abbrev vendor_row : VendorRow
vendor_row = record {
  open_price = pos 10;
  high = pos 14;
  low = pos 9;
  close = pos 13;
  volume = pos 50;
}

abbrev repairers : Dict Text (PartialBarRepairer ℕ)
repairers =
    (
      codes "XAUUSD",
      record {
        source = some (λ _ _ _ _ _. some ((60000000, vendor_row) ∷ []));
        markets = (codes "XAUUSD", 0) ∷ [];
      },
    )
    ∷ []

abbrev whole_bar : Candle
whole_bar = record half_bar { open_price = pos 10; low = pos 9 }

repaired : routed_repair repairers half_bar true ≡ whole_bar
unfolding routed_repair repair vendor_bar repaired_by merge_partial_bar bar_of lookup text_eq fmax
    fmin
repaired = refl

routed_repair-Completes_example : Completes half_bar (routed_repair repairers half_bar true)
routed_repair-Completes_example = routed_repair-Completes repairers half_bar true

half_bar-IsConsistent : IsConsistent half_bar
half_bar-IsConsistent = record {
  open_above = refl;
  open_below = refl;
  close_above = refl;
  close_below = refl;
}

vendor-IsConsistent : IsConsistent (bar_of half_bar vendor_row)
unfolding bar_of
vendor-IsConsistent = record {
  open_above = refl;
  open_below = refl;
  close_above = refl;
  close_below = refl;
}

merge_partial_bar-IsConsistent_example :
    IsConsistent (merge_partial_bar half_bar (bar_of half_bar vendor_row) false)
merge_partial_bar-IsConsistent_example =
    merge_partial_bar-IsConsistent half_bar (bar_of half_bar vendor_row) false half_bar-IsConsistent
      vendor-IsConsistent
