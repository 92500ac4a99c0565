-- ===== src/Tests/TimeframeTests.antt =====
-- src/qte_shared/timeframes.py at concrete inputs.
use quant_trading_engine.Floats.Whole.{whole}
use quant_trading_engine.Prelude.{
  Text, arith, codes, none, refl, some, ℕ, ◌%◌, ◌*◌, ◌+◌, ◌<◌, ◌≡◌, ◌≤◌,
}
use quant_trading_engine.Timeframes.{
  d1, floor_to_bucket, h1, h4, m15, m30, normalize_timeframe, second, seconds, to_broker_timeframe,
}
use quant_trading_engine.Timeframes.Buckets.{floor_to_bucket_aligned}
use quant_trading_engine.Timeframes.Labels.{to_broker_timeframe_roundtrip}

alias_examples :
    (normalize_timeframe (codes "15") ≡ some m15)
    × (normalize_timeframe (codes " 1h ") ≡ some h1)
    × (normalize_timeframe (codes "4H") ≡ some h4)
    × (normalize_timeframe (codes "m30") ≡ some m30)
    × (normalize_timeframe (codes "7") ≡ none)
    × (normalize_timeframe (codes "15mm") ≡ none)
unfolding normalize_timeframe
alias_examples = (refl, refl, refl, refl, refl, refl)

broker_example : to_broker_timeframe (codes "4h") ≡ some (codes "240")
unfolding to_broker_timeframe
broker_example = refl

-- 2023-11-14 22:13:20.5 UTC
abbrev moment : ℕ
moment = 1700000000500000

floor_example : floor_to_bucket moment m15 ≡ 1699999200000000
unfolding floor_to_bucket
floor_example = refl

to_broker_timeframe_roundtrip_example :
    (sent : Text) × (to_broker_timeframe (codes "1d") ≡ some sent)
    × (normalize_timeframe sent ≡ some d1)
unfolding normalize_timeframe
to_broker_timeframe_roundtrip_example = to_broker_timeframe_roundtrip (codes "1d") d1 refl

floor_to_bucket_aligned_example :
    (floor_to_bucket moment m15 ≤ moment)
    × (moment < floor_to_bucket moment m15 + seconds m15 * second)
    × (floor_to_bucket moment m15 % (seconds m15 * second) ≡ 0)
    × (floor_to_bucket (floor_to_bucket moment m15) h4 ≡ floor_to_bucket moment h4)
unfolding seconds
floor_to_bucket_aligned_example = floor_to_bucket_aligned moment m15 h4 (omega arith)
