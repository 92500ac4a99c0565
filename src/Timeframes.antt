-- ===== src/Timeframes.antt =====
-- src/qte_shared/timeframes.py: timeframe labels, and the bucket a moment belongs to.
-- A moment is a UTC instant in whole microseconds since 1970, the resolution of `datetime`.
pub mod Labels
pub mod Buckets
use quant_trading_engine.Prelude.{
  ℕ, zero, suc, ◌+◌, ◌-◌, ◌*◌, ◌/◌, ◌%◌, Option, none, some, Bool, true, false, List, [], ◌∷◌, Text,
  codes, upper, strip, is_digit, digits_value, decimal_onto, lower_code, nat_eq, Key, ◌==◌, ◌≡◌,
  refl, if◌then◌else◌, arith, Key-Text, text_eq,
}

-- The keys of `TIMEFRAME_SECONDS`.
pub data Timeframe : Type 0 where
  m1 m5 m15 m30 h1 h4 d1 : Timeframe

-- `TIMEFRAME_SECONDS`
unfoldable pub seconds : Timeframe → ℕ
seconds m1 = 60
seconds m5 = 300
seconds m15 = 900
seconds m30 = 1800
seconds h1 = 3600
seconds h4 = 14400
seconds d1 = 86400

unfoldable pub label : Timeframe → Text
label m1 = codes "M1"
label m5 = codes "M5"
label m15 = codes "M15"
label m30 = codes "M30"
label h1 = codes "H1"
label h4 = codes "H4"
label d1 = codes "D1"

-- The dict's own order, in which the source walks it.
abbrev pub all_timeframes : List Timeframe
all_timeframes = m1 ∷ m5 ∷ m15 ∷ m30 ∷ h1 ∷ h4 ∷ d1 ∷ []

-- `upper in TIMEFRAME_SECONDS`
pub find_label : Text → List Timeframe → Option Timeframe
unfolding label text_eq
find_label text [] = none
find_label text (tf ∷ tfs) = if label tf == text then some tf else find_label text tfs

-- `for label, label_seconds in TIMEFRAME_SECONDS.items(): if label_seconds == seconds`
pub find_seconds : ℕ → List Timeframe → Option Timeframe
unfolding seconds
find_seconds n [] = none
find_seconds n (tf ∷ tfs) = if nat_eq (seconds tf) n then some tf else find_seconds n tfs

abbrev take_digits : Text → Text
take_digits [] = []
take_digits (c ∷ s) = let rest = take_digits s in if is_digit c then c ∷ rest else []

abbrev drop_digits : Text → Text
drop_digits [] = []
drop_digits (c ∷ s) = let rest = drop_digits s in if is_digit c then rest else c ∷ s

-- `{"m": 60, "h": 3600, "d": 86400}[unit]`, where a missing unit is "m".
abbrev unit_seconds : Text → Option ℕ
unit_seconds [] = some 60
unit_seconds (c ∷ []) =
    let unit = lower_code c in
    if nat_eq unit b'm'
    then some 60
    else if nat_eq unit b'h'
    then some 3600
    else if nat_eq unit b'd'
    then some 86400
    else none
unit_seconds (_ ∷ _ ∷ _) = none

-- `_ALIAS.fullmatch`, and the length in seconds that the match stands for.
pub alias_seconds : Text → Option ℕ
alias_seconds text = elim (take_digits text) [
  | [] ↦ none
  | c ∷ s ↦ elim (unit_seconds (drop_digits text)) [
    | none ↦ none
    | some unit ↦ some (digits_value 0 (c ∷ s) * unit)
  ]
]

-- `none` is the `ValueError`.
unfoldable pub normalize_timeframe : Text → Option Timeframe
unfolding find_label find_seconds alias_seconds upper strip
normalize_timeframe value =
    let text = strip value in
    elim (find_label (upper text) all_timeframes) [
      | some tf ↦ some tf
      | none ↦ elim (alias_seconds text) [ none ↦ none | some n ↦ find_seconds n all_timeframes ]
    ]

unfoldable pub timeframe_seconds : Text → Option ℕ
unfolding normalize_timeframe seconds
timeframe_seconds value = elim (normalize_timeframe value) [
  | none ↦ none
  | some tf ↦ some (seconds tf)
]

-- `str(timeframe_seconds(value) // 60)`; the largest is 1440, four digits.
unfoldable pub to_broker_timeframe : Text → Option Text
unfolding timeframe_seconds
to_broker_timeframe value = elim (timeframe_seconds value) [
  | none ↦ none
  | some n ↦ some (decimal_onto 4 (n / 60) [])
]

abbrev pub second : ℕ
second = 1000000

-- `int(moment.timestamp())` drops the microseconds.
unfoldable pub floor_to_bucket : ℕ → Timeframe → ℕ
unfolding seconds
floor_to_bucket moment tf = let epoch = moment / second in (epoch - epoch % seconds tf) * second

unfoldable pub next_bucket : ℕ → Timeframe → ℕ
unfolding floor_to_bucket
next_bucket moment tf = floor_to_bucket moment tf + seconds tf * second

unfoldable pub bucket_close : ℕ → Timeframe → ℕ
unfolding seconds
bucket_close open_time tf = open_time + seconds tf * second

-- `CLOCK_TOLERANCE`
abbrev pub clock_tolerance : ℕ
clock_tolerance = 5 * second

unfoldable pub timeframe_eq : Timeframe → Timeframe → Bool
unfolding seconds
timeframe_eq a b = nat_eq (seconds a) (seconds b)

pub timeframe_eq_sound : (a b : Timeframe) → timeframe_eq a b ≡ true → a ≡ b
unfolding timeframe_eq
timeframe_eq_sound a b h = ground arith

pub timeframe_eq_self : (a : Timeframe) → timeframe_eq a a ≡ true
unfolding timeframe_eq
timeframe_eq_self m1 = refl
timeframe_eq_self _ = refl

instance abbrev pub Key-Timeframe : Key Timeframe
Key-Timeframe = record {
  same = timeframe_eq;
  sound = timeframe_eq_sound;
  complete = timeframe_eq_self;
}
