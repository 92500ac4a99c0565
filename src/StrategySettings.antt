-- ===== src/StrategySettings.antt =====
-- src/qte_shared/strategies/strategy_settings.py: the weekly closure that a strategy declares, and
-- the warm-up of a pair. A wall-clock moment is in microseconds since 1970-01-01 00:00, a Thursday;
-- the conversion of an instant to the wall clock of the market's zone is a parameter.
pub mod Window
use quant_trading_engine.Prelude.{
  Bool, List, Option, Result, [], err, false, if◌then◌else◌, is_some, leb, ltb, none, not, ok, some,
  true, ℕ, ◌%◌, ◌&&◌, ◌*◌, ◌+◌, ◌-◌, ◌/◌, ◌||◌, ◌∷◌,
}
use quant_trading_engine.Prelude.Int.{negsuc, pos, ℤ}
use quant_trading_engine.Timeframes.{second}

pub data SettingsError : Type 0 where
  bad_switch bad_window no_window no_flat_from no_flat_until empty_window bad_extra_windows
        bad_weekday bad_clock bad_moment unknown_key bad_warmup warmup_past_history :
      SettingsError

pub record WeeklyMoment : Type 0 where
  pub weekday : ℕ
  pub minute_of_day : ℕ

abbrev pub minutes_per_day : ℕ
minutes_per_day = 1440

abbrev pub minutes_per_week : ℕ
minutes_per_week = 10080

-- `WeeklyMoment.of`, of a wall-clock moment.
unfoldable pub weekly_moment : ℕ → WeeklyMoment
weekly_moment wall =
    let minute = wall / (60 * second) in
    record { weekday = (minute / 1440 + 3) % 7; minute_of_day = minute % 1440 }

unfoldable pub week_offset : WeeklyMoment → ℕ
week_offset m = m.weekday * minutes_per_day + m.minute_of_day

pub record DatedFlatWindow : Type 0 where
  pub flat_from : ℕ
  pub flat_until : ℕ

unfoldable pub is_dated : ℕ → List DatedFlatWindow → Bool
is_dated wall [] = false
is_dated wall (w ∷ ws) = (leb w.flat_from wall && ltb wall w.flat_until) || is_dated wall ws

pub record WeekendFlatPolicy : Type 0 where
  pub enabled : Bool
  pub flat_from : Option WeeklyMoment
  pub flat_until : Option WeeklyMoment
  pub extra_windows : List DatedFlatWindow

abbrev pub no_weekend_flat : WeekendFlatPolicy
no_weekend_flat = record {
  enabled = false;
  flat_from = none;
  flat_until = none;
  extra_windows = [];
}

-- Python's `a % m` of a difference that may be negative, where both are below `m`.
abbrev pub mod_sub : ℕ → ℕ → ℕ → ℕ
mod_sub a b m = (a + m - b) % m

-- `elapsed < span`, from the offsets of the cut-off, the reopening and the moment.
unfoldable pub in_weekly_window : ℕ → ℕ → ℕ → Bool
in_weekly_window opened reopened offset =
    ltb (mod_sub offset opened minutes_per_week) (mod_sub reopened opened minutes_per_week)

-- `WeekendFlatPolicy.covers`, of a wall-clock moment.
abbrev pub covers_between :
    Option WeeklyMoment → Option WeeklyMoment → List DatedFlatWindow → ℕ → Bool
covers_between (some from) (some until) extra wall =
    is_dated wall extra
    || in_weekly_window (week_offset from) (week_offset until) (week_offset (weekly_moment wall))
covers_between _ until extra wall = false

unfoldable pub covers : WeekendFlatPolicy → ℕ → Bool
unfolding is_dated in_weekly_window week_offset weekly_moment
covers p wall = p.enabled && covers_between p.flat_from p.flat_until p.extra_windows wall

unfoldable pub declares_window : WeekendFlatPolicy → Bool
declares_window p = is_some p.flat_from && is_some p.flat_until

-- `resolve_weekend_flat`: what a pair's `use_weekend_flat` says, none where it is absent, `err` where
-- it is not a switch.
pub data Switch : Type 0 where
  absent : Switch
  stated : Bool → Switch
  unreadable : Switch

unfoldable pub resolve_weekend_flat :
    WeekendFlatPolicy → Switch → Result SettingsError WeekendFlatPolicy
unfolding declares_window
resolve_weekend_flat p absent = ok p
resolve_weekend_flat p unreadable = err bad_switch
resolve_weekend_flat p (stated on) =
    if not on
    then ok (record p { enabled = false })
    else if not (declares_window p)
    then err no_window
    else ok (record p { enabled = true })

-- `resolve_warmup`: the pair's `warmup` if it states one, a whole number.
pub data WarmupParam : Type 0 where
  undeclared : WarmupParam
  bars : ℤ → WarmupParam
  not_whole : WarmupParam

abbrev pub past_window : Option ℕ → ℕ → Bool
past_window none wanted = false
past_window (some window) wanted = ltb window wanted

unfoldable pub resolve_warmup : ℕ → Option ℕ → WarmupParam → Result SettingsError ℕ
resolve_warmup declared window undeclared = ok declared
resolve_warmup declared window not_whole = err bad_warmup
resolve_warmup declared window (bars (negsuc n)) = err bad_warmup
resolve_warmup declared window (bars (pos wanted)) =
    if ltb wanted 1
    then err bad_warmup
    else if past_window window wanted
    then err warmup_past_history
    else ok wanted
