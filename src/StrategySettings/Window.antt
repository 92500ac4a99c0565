-- ===== src/StrategySettings/Window.antt =====
-- The weekly window of src/qte_shared/strategies/strategy_settings.py as an interval of the week.
use quant_trading_engine.Floats.Whole.{whole}
use quant_trading_engine.Prelude.{
  Bool, List, ap, arith, err, false, if◌then◌else◌, inl, inr, is_some, leb, ltb, ok, refl, some,
  sym, true, ℕ, ◌&&◌, ◌<◌, ◌||◌, ◌≡◌, ◌⊎◌,
}
use quant_trading_engine.StrategySettings.{
  DatedFlatWindow, WeekendFlatPolicy, WeeklyMoment, absent, bad_switch, covers, declares_window,
  in_weekly_window, is_dated, minutes_per_week, resolve_weekend_flat, stated, unreadable,
  week_offset, weekly_moment,
}

abbrev pub IsMoment : WeeklyMoment → Type 0
IsMoment m = (m.weekday < 7) × (m.minute_of_day < 1440)

weekly_moment-IsMoment : (wall : ℕ) → IsMoment (weekly_moment wall)
unfolding weekly_moment
weekly_moment-IsMoment wall = (omega arith, omega arith)

week_offset-bound : (m : WeeklyMoment) → IsMoment m → week_offset m < minutes_per_week
unfolding week_offset
week_offset-bound m h = omega arith

-- The same window, as one interval of the week or the two ends of it.
abbrev pub in_interval : ℕ → ℕ → ℕ → Bool
in_interval opened reopened offset =
    if leb opened reopened
    then leb opened offset && ltb offset reopened
    else leb opened offset || ltb offset reopened

in_weekly_window-interval :
    (opened reopened offset : ℕ)
    → opened < minutes_per_week
    → reopened < minutes_per_week
    → offset < minutes_per_week
    → in_weekly_window opened reopened offset ≡ in_interval opened reopened offset
unfolding in_weekly_window
in_weekly_window-interval opened reopened offset a b c = ground arith

-- An enabled policy with a weekly window, whose ends are a weekday and a minute of the day each, covers
-- a moment exactly if a declared closure holds it, or it lies in the week
-- from the cut-off, included, to the reopening, excluded, where a reopening earlier in the week than
-- the cut-off means the one of the week after.
pub covers-interval :
    (from until : WeeklyMoment) (extra : List DatedFlatWindow) (wall : ℕ)
    → IsMoment from
    → IsMoment until
    → covers
        (record {
          enabled = true;
          flat_from = some from;
          flat_until = some until;
          extra_windows = extra;
        })
        wall
      ≡ (is_dated wall extra
          || in_interval (week_offset from) (week_offset until) (week_offset (weekly_moment wall)))
unfolding covers
covers-interval from until extra wall h k =
    rw
      (in_weekly_window-interval (week_offset from) (week_offset until)
        (week_offset (weekly_moment wall)) (week_offset-bound from h) (week_offset-bound until k)
        (week_offset-bound (weekly_moment wall) (weekly_moment-IsMoment wall)))
      refl

-- An enabled policy states both ends of a weekly window.
abbrev pub IsArmed : WeekendFlatPolicy → Type 0
IsArmed p = (p.enabled ≡ false) ⊎ ((is_some p.flat_from ≡ true) × (is_some p.flat_until ≡ true))

-- A pair that states the switch, and is not refused, trades under the declared policy with that
-- switch, enabled only with both ends of a weekly window, whatever was declared; a pair that does
-- not state it trades under the declared policy, and one that states it unreadably is refused.
pub resolve_weekend_flat-IsArmed :
    (p q : WeekendFlatPolicy) (on : Bool)
    → resolve_weekend_flat p (stated on) ≡ ok q
    → IsArmed q
      × (q ≡ record p { enabled = on })
      × (resolve_weekend_flat p absent ≡ ok p)
      × (resolve_weekend_flat p unreadable ≡ err bad_switch)
unfolding resolve_weekend_flat declares_window
resolve_weekend_flat-IsArmed p q false h =
    let it : record p { enabled = false } ≡ q = cc h in
    (inl (sym (ap (λ (r : WeekendFlatPolicy). r.enabled) it)), sym it, refl, refl)
resolve_weekend_flat-IsArmed p q true h =
    let whole : (q ≡ record p { enabled = true }) × (declares_window p ≡ true) = ground arith in
    (rw whole.0 (inr (ground (arith, whole.1), ground (arith, whole.1))), whole.0, refl, refl)
