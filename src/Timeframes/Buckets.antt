-- ===== src/Timeframes/Buckets.antt =====
-- `floor_to_bucket` and `next_bucket` of src/qte_shared/timeframes.py: a moment's bucket.

-- A moment lies between the open time of its bucket, included, and that of the next, excluded,
-- and the open time is a multiple of the timeframe's length.
use quant_trading_engine.Prelude.{arith, ℕ, ◌%◌, ◌*◌, ◌+◌, ◌<◌, ◌≡◌, ◌≤◌}
use quant_trading_engine.Timeframes.{
  Timeframe, d1, floor_to_bucket, h1, h4, m1, m15, m30, m5, next_bucket, second, seconds,
}

pub floor_to_bucket_bounds :
    (t : ℕ) (tf : Timeframe)
    → (floor_to_bucket t tf ≤ t)
      × (t < next_bucket t tf)
      × (floor_to_bucket t tf % (seconds tf * second) ≡ 0)
unfolding next_bucket
floor_to_bucket_bounds t m1 = omega arith
floor_to_bucket_bounds t _ = omega arith

-- The bucket of a coarser timeframe can be read off the bucket of a finer one.
pub floor_to_bucket_nested :
    (t : ℕ) (fine coarse : Timeframe)
    → seconds fine ≤ seconds coarse
    → floor_to_bucket (floor_to_bucket t fine) coarse ≡ floor_to_bucket t coarse
unfolding floor_to_bucket
floor_to_bucket_nested t m1 m1 h = omega arith
floor_to_bucket_nested t m1 _ h = omega arith
floor_to_bucket_nested t m5 m1 h = omega arith
floor_to_bucket_nested t m5 _ h = omega arith
floor_to_bucket_nested t m15 m1 h = omega arith
floor_to_bucket_nested t m15 _ h = omega arith
floor_to_bucket_nested t m30 m1 h = omega arith
floor_to_bucket_nested t m30 _ h = omega arith
floor_to_bucket_nested t h1 m1 h = omega arith
floor_to_bucket_nested t h1 _ h = omega arith
floor_to_bucket_nested t h4 m1 h = omega arith
floor_to_bucket_nested t h4 _ h = omega arith
floor_to_bucket_nested t d1 m1 h = omega arith
floor_to_bucket_nested t d1 _ h = omega arith

-- The bucket of a moment opens at a multiple of the timeframe's length, at the moment or less than
-- that length before it, and a bucket of a timeframe that is no finer opens at the same time for the
-- moment as for the open time of its own bucket.
pub floor_to_bucket_aligned :
    (t : ℕ) (fine coarse : Timeframe)
    → seconds fine ≤ seconds coarse
    → (floor_to_bucket t fine ≤ t)
      × (t < floor_to_bucket t fine + seconds fine * second)
      × (floor_to_bucket t fine % (seconds fine * second) ≡ 0)
      × (floor_to_bucket (floor_to_bucket t fine) coarse ≡ floor_to_bucket t coarse)
unfolding next_bucket
floor_to_bucket_aligned t fine coarse h =
    let (opened, before_next, aligned) = floor_to_bucket_bounds t fine in
    (opened, before_next, aligned, floor_to_bucket_nested t fine coarse h)

-- The bucket of an open time is the bucket itself, and moments in order have buckets in order.
pub floor_to_bucket_idem :
    (t : ℕ) (tf : Timeframe) → floor_to_bucket (floor_to_bucket t tf) tf ≡ floor_to_bucket t tf
floor_to_bucket_idem t tf = floor_to_bucket_nested t tf tf (omega arith)

pub floor_to_bucket_mono :
    (s t : ℕ) (tf : Timeframe) → s ≤ t → floor_to_bucket s tf ≤ floor_to_bucket t tf
unfolding floor_to_bucket
floor_to_bucket_mono s t m1 h = omega arith
floor_to_bucket_mono s t _ h = omega arith
