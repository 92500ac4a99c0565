-- ===== src/Resampler.antt =====
-- src/qte_ingestion/resampler.py: ticks in, completed candles out, one symbol at a time.
-- Each method takes the `Resampler` and returns it with the method's result. Logging is left out.
pub mod Ledger
pub mod Invariant
pub mod Ticks
pub mod Flush
pub mod Events
pub mod Bars
pub mod Closing
use quant_trading_engine.Prelude.{
  ℕ, ◌+◌, ◌*◌, Option, none, some, Bool, true, false, not, ◌&&◌, ◌||◌, List, [], ◌∷◌, ◌++◌, map,
  Text, Dict, lookup, insert, erase, ◌==◌, ltb, leb, nat_eq, if◌then◌else◌,
}
use quant_trading_engine.Floats.{Floats, Float, fmax, fmin}
use quant_trading_engine.Timeframes.{
  Timeframe, seconds, second, Key-Timeframe, normalize_timeframe, floor_to_bucket,
}
use quant_trading_engine.Models.{Tick, Candle, price}

module _ ⦃F : Floats⦄ where
  open F use {of_ℕ, add}

  -- `_BarBuilder`
  pub record Builder : Type 0 where
    pub symbol : Text
    pub timeframe : Timeframe
    pub open_time : ℕ
    pub open_price : Float
    pub high : Float
    pub low : Float
    pub close : Float
    pub volume : Float
    pub tick_count : ℕ
    pub is_partial : Bool

  unfoldable pub new_builder : Text → Timeframe → ℕ → Float → Bool → Builder
  new_builder symbol timeframe open_time p is_partial = record {
    symbol = symbol;
    timeframe = timeframe;
    open_time = open_time;
    open_price = p;
    high = p;
    low = p;
    close = p;
    volume = of_ℕ 0;
    tick_count = 0;
    is_partial = is_partial;
  }

  -- `_BarBuilder.update`
  unfoldable pub update : Builder → Float → Float → Builder
  update b p v = record b {
    high = fmax b.high p;
    low = fmin b.low p;
    close = p;
    volume = add b.volume v;
    tick_count = b.tick_count + 1;
  }

  -- `_BarBuilder.snapshot`
  unfoldable pub snapshot : Builder → Bool → Candle
  snapshot b is_closed = record {
    symbol = b.symbol;
    timeframe = b.timeframe;
    open_time = b.open_time;
    open_price = b.open_price;
    high = b.high;
    low = b.low;
    close = b.close;
    volume = b.volume;
    tick_count = b.tick_count;
    is_closed = is_closed;
    origin = none;
  }

  pub record Resampler : Type 0 where
    pub symbol : Text
    pub timeframes : List Timeframe
    pub builders : Dict Timeframe Builder
    pub last_closed : Dict Timeframe ℕ
    pub joined_at : Option ℕ
    pub partial_closes : List (Timeframe × ℕ)

  -- `Resampler.__init__`; `none` is the `ValueError` of an unknown timeframe.
  unfoldable pub normalize_all : List Text → Option (List Timeframe)
  normalize_all [] = some []
  normalize_all (value ∷ values) = elim (normalize_timeframe value) [
    | none ↦ none
    | some tf ↦ elim (normalize_all values) [ none ↦ none | some tfs ↦ some (tf ∷ tfs) ]
  ]

  unfoldable pub new_resampler : Text → List Text → Option Resampler
  unfolding normalize_all
  new_resampler symbol values = elim (normalize_all values) [
    | none ↦ none
    | some tfs ↦ some (record {
      symbol = symbol;
      timeframes = tfs;
      builders = [];
      last_closed = [];
      joined_at = none;
      partial_closes = [];
    })
  ]

  unfoldable pub mark_joined : ℕ → Resampler → Resampler
  mark_joined moment r = record r { joined_at = some moment }

  -- `last_closed is not None and bucket <= last_closed`
  unfoldable pub is_spent : Timeframe → ℕ → Dict Timeframe ℕ → Bool
  is_spent tf bucket closes = elim (lookup tf closes) [ none ↦ false | some last ↦ leb bucket last ]

  -- `_open_builder`
  unfoldable pub open_builder : Resampler → Timeframe → ℕ → Float → Builder
  unfolding new_builder
  open_builder r tf bucket first_price =
      let joined_late : Bool = elim r.joined_at [
        | none ↦ false
        | some joined ↦ ltb bucket joined
      ] in
      new_builder r.symbol tf bucket first_price joined_late

  -- The markers in `_partial_closes`, a set.
  unfoldable pub has_marker : Timeframe → ℕ → List (Timeframe × ℕ) → Bool
  has_marker tf t [] = false
  has_marker tf t ((j, u) ∷ ms) = (j == tf && nat_eq u t) || has_marker tf t ms

  unfoldable pub add_marker : Timeframe → ℕ → List (Timeframe × ℕ) → List (Timeframe × ℕ)
  unfolding has_marker
  add_marker tf t ms = if has_marker tf t ms then ms else (tf, t) ∷ ms

  unfoldable pub remove_marker : Timeframe → ℕ → List (Timeframe × ℕ) → List (Timeframe × ℕ)
  remove_marker tf t [] = []
  remove_marker tf t ((j, u) ∷ ms) =
      let rest = remove_marker tf t ms in if j == tf && nat_eq u t then rest else (j, u) ∷ rest

  -- `_retire`
  unfoldable pub retire : Timeframe → Builder → Resampler → Candle × Resampler
  unfolding snapshot
  retire tf b r = (
    snapshot b true,
    record r {
      last_closed = insert tf b.open_time r.last_closed;
      partial_closes =
          (if b.is_partial then add_marker tf b.open_time r.partial_closes else r.partial_closes);
    },
  )

  -- `self._builders[timeframe] = builder`
  unfoldable pub set_builder : Timeframe → Builder → Resampler → Resampler
  set_builder tf b r = record r { builders = insert tf b r.builders }

  -- One turn of the loop in `add_tick`: the bars that it closes, and the state after it.
  unfoldable pub visit : Float → Float → ℕ → Timeframe → Resampler → List Candle × Resampler
  unfolding is_spent set_builder
  visit p v ts tf r =
      let bucket = floor_to_bucket ts tf in
      if is_spent tf bucket r.last_closed then ([], r) else elim (lookup tf r.builders) [
        | none ↦ ([], set_builder tf (update (open_builder r tf bucket p) p v) r)
        | some b ↦
            if ltb b.open_time bucket
            then (let (bar, r') = retire tf b r in
                (bar ∷ [], set_builder tf (update (open_builder r' tf bucket p) p v) r'))
            else if ltb bucket b.open_time
            then ([], r)
            else ([], set_builder tf (update b p v) r)
      ]

  unfoldable pub visit_all :
      Float → Float → ℕ → List Timeframe → Resampler → List Candle × Resampler
  visit_all p v ts [] r = ([], r)
  visit_all p v ts (tf ∷ tfs) r =
      let (bars, r') = visit p v ts tf r in
      let (more, r'') = visit_all p v ts tfs r' in (bars ++ more, r'')

  -- `add_tick`; `none` is the `ValueError` of a tick without a price, raised before any write.
  unfoldable pub add_tick : Tick → Resampler → Option (List Candle × Resampler)
  unfolding visit_all
  add_tick tick r = elim (price tick) [
    | none ↦ none
    | some p ↦ some (visit_all p tick.volume tick.ts r.timeframes r)
  ]

  abbrev pub bucket_end : Timeframe → Builder → ℕ
  unfolding seconds
  bucket_end tf b = b.open_time + seconds tf * second

  -- The body of the loop in `flush`: the bar is retired and its builder deleted.
  abbrev pub close_out : Timeframe → Builder → Resampler → Resampler
  close_out tf b r =
      let retired = (retire tf b r).1 in record retired { builders = erase tf retired.builders }

  -- The loop of `flush`, over the entries as they were when it began.
  unfoldable pub flush_entries : ℕ → Dict Timeframe Builder → Resampler → List Candle × Resampler
  flush_entries now [] r = ([], r)
  flush_entries now ((tf, b) ∷ entries) r =
      let is_over = leb (bucket_end tf b) now in
      let (bars, r') = flush_entries now entries (if is_over then close_out tf b r else r) in
      (if is_over then (retire tf b r).0 ∷ bars else bars, r')

  unfoldable pub flush : ℕ → Resampler → List Candle × Resampler
  unfolding flush_entries
  flush now r = flush_entries now r.builders r

  unfoldable pub take_partial : Candle → Resampler → Bool × Resampler
  unfolding has_marker remove_marker
  take_partial c r =
      if has_marker c.timeframe c.open_time r.partial_closes
      then (
        true,
        record r { partial_closes = remove_marker c.timeframe c.open_time r.partial_closes },
      )
      else (false, r)

  unfoldable pub open_candle : Timeframe → Resampler → Option Candle
  unfolding snapshot
  open_candle tf r = elim (lookup tf r.builders) [ none ↦ none | some b ↦ some (snapshot b false) ]

  unfoldable pub open_candles : Resampler → List Candle
  unfolding snapshot
  open_candles r = map (λ e. snapshot e.1 false) r.builders

  unfoldable pub contains_timeframe : Timeframe → List Timeframe → Bool
  contains_timeframe tf [] = false
  contains_timeframe tf (j ∷ tfs) = j == tf || contains_timeframe tf tfs

  unfoldable pub restored_builder : Text → Candle → Builder
  unfolding new_builder
  restored_builder symbol c =
      let b = new_builder symbol c.timeframe c.open_time c.open_price true in
      record b {
        high = c.high;
        low = c.low;
        close = c.close;
        volume = c.volume;
        tick_count = c.tick_count;
      }

  unfoldable pub restore : Candle → Resampler → Resampler
  unfolding is_spent set_builder contains_timeframe
  restore c r =
      if not (contains_timeframe c.timeframe r.timeframes)
      then r
      else if is_spent c.timeframe c.open_time r.last_closed
      then r
      else set_builder c.timeframe (restored_builder r.symbol c) r
