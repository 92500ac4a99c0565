-- ===== src/Timeframes/Labels.antt =====
-- The spellings of a timeframe in src/qte_shared/timeframes.py, and the broker's.
use quant_trading_engine.Prelude.{◌≡◌, refl, Text, some, codes}
use quant_trading_engine.Timeframes.{
  Timeframe, m1, m5, m15, m30, h1, h4, d1, label, normalize_timeframe, timeframe_seconds,
  to_broker_timeframe,
}

-- A canonical label names itself.
pub normalize_timeframe-label : (tf : Timeframe) → normalize_timeframe (label tf) ≡ some tf
unfolding normalize_timeframe label
normalize_timeframe-label m1 = refl
normalize_timeframe-label _ = refl

-- The broker's spelling of each timeframe.
abbrev pub broker_text : Timeframe → Text
broker_text m1 = codes "1"
broker_text m5 = codes "5"
broker_text m15 = codes "15"
broker_text m30 = codes "30"
broker_text h1 = codes "60"
broker_text h4 = codes "240"
broker_text d1 = codes "1440"

to_broker_timeframe-eq :
    (value : Text) (tf : Timeframe)
    → normalize_timeframe value ≡ some tf
    → to_broker_timeframe value ≡ some (broker_text tf)
unfolding to_broker_timeframe
to_broker_timeframe-eq value m1 h = rw (h, to_broker_timeframe, timeframe_seconds)
to_broker_timeframe-eq value _ h = rw (h, to_broker_timeframe, timeframe_seconds)

normalize_timeframe-broker_text : (tf : Timeframe) → normalize_timeframe (broker_text tf) ≡ some tf
unfolding normalize_timeframe
normalize_timeframe-broker_text m1 = refl
normalize_timeframe-broker_text _ = refl

-- What is sent to the broker reads back as the timeframe that the text named, whatever spelling
-- that text used.
pub to_broker_timeframe_roundtrip :
    (value : Text) (tf : Timeframe)
    → normalize_timeframe value ≡ some tf
    → (sent : Text) × (to_broker_timeframe value ≡ some sent) × (normalize_timeframe sent ≡ some tf)
to_broker_timeframe_roundtrip value tf h =
    (broker_text tf, to_broker_timeframe-eq value tf h, normalize_timeframe-broker_text tf)
