-- ===== src/Tests/SettingsTests.antt =====
-- src/qte_shared/strategies/strategy_settings.py at concrete inputs.
use quant_trading_engine.Floats.Whole.{whole}
use quant_trading_engine.Prelude.{[], arith, err, false, ok, refl, some, true, ◌*◌, ◌||◌, ◌≡◌}
use quant_trading_engine.StrategySettings.{
  WeekendFlatPolicy, WeeklyMoment, absent, bad_switch, covers, declares_window, is_dated,
  resolve_weekend_flat, unreadable, week_offset, weekly_moment,
}
use quant_trading_engine.StrategySettings.Window.{
  IsArmed, covers-interval, in_interval, resolve_weekend_flat-IsArmed,
}

abbrev friday_night : WeeklyMoment
friday_night = record { weekday = 4; minute_of_day = 1290 }

abbrev monday_morning : WeeklyMoment
monday_morning = record { weekday = 0; minute_of_day = 60 }

abbrev weekend : WeekendFlatPolicy
weekend = record {
  enabled = true;
  flat_from = some friday_night;
  flat_until = some monday_morning;
  extra_windows = [];
}

-- 1970-01-02 was a Friday: 21:29 and 21:30; the Monday after it, 00:59 and 01:00.
before_the_window : covers weekend (163740 * 1000000) ≡ false
unfolding covers
before_the_window = refl

in_the_window : covers weekend (163800 * 1000000) ≡ true
unfolding covers
in_the_window = refl

at_its_end : covers weekend (349140 * 1000000) ≡ true
unfolding covers
at_its_end = refl

after_the_window : covers weekend (349200 * 1000000) ≡ false
unfolding covers
after_the_window = refl

covers-interval_example : covers weekend (163800 * 1000000) ≡ (
    is_dated (163800 * 1000000) []
    || in_interval
        (week_offset friday_night)
        (week_offset monday_morning)
        (week_offset (weekly_moment (163800 * 1000000))))
covers-interval_example =
    covers-interval friday_night monday_morning [] (163800 * 1000000) (omega arith, omega arith)
      (omega arith, omega arith)

resolve_weekend_flat-IsArmed_example :
    IsArmed weekend
    × (weekend ≡ record weekend { enabled = true })
    × (resolve_weekend_flat (record weekend { enabled = false }) absent
        ≡ ok (record weekend { enabled = false }))
    × (resolve_weekend_flat (record weekend { enabled = false }) unreadable ≡ err bad_switch)
unfolding resolve_weekend_flat declares_window
resolve_weekend_flat-IsArmed_example =
    resolve_weekend_flat-IsArmed (record weekend { enabled = false }) weekend true refl
