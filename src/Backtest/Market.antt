-- ===== src/Backtest/Market.antt =====
-- `sample_market`, `_drawable_series` and `count_gaps` of src/qte_backtest/replay.py. The calendar
-- aggregation of pandas (`frame.resample(..).agg(..).dropna()`) is a parameter, from the seconds of
-- a bucket and the bars to the bars.
use quant_trading_engine.Backtest.Strategy.{Row}
use quant_trading_engine.Floats.{Decimals, Float, Floats}
use quant_trading_engine.Prelude.{
  List, Option, Text, [], if◌then◌else◌, leb, length, ltb, map, none, some, suc, zero, ℕ, ◌*◌, ◌+◌,
  ◌-◌, ◌/◌, ◌∷◌,
}
use quant_trading_engine.Timeframes.{
  Timeframe, all_timeframes, d1, label, second, seconds, timeframe_seconds,
}

module _ ⦃F : Floats⦄ ⦃D : Decimals⦄ where
  open F use {of_ℕ}

  -- A row of the report: epoch seconds, and the four prices at eight decimals.
  pub record MarketRow : Type 0 where
    pub t : ℕ
    pub o : Float
    pub h : Float
    pub l : Float
    pub c : Float

  pub record MarketWindow : Type 0 where
    pub bucket_bars : ℕ
    pub base_timeframe : Text
    pub rows : List MarketRow
    pub benchmark_close : Float
    pub last_close : Float
    pub benchmark_from : ℕ

  -- The labels that are coarser than the timeframe, finest first.
  abbrev pub coarser : ℕ → List Timeframe → List Timeframe
  coarser s [] = []
  coarser s (tf ∷ tfs) = let rest = coarser s tfs in if ltb s (seconds tf) then tf ∷ rest else rest

  -- The loop over the ladder: the bars of the label before, none before the first turn. After the
  -- last turn the source reads `resampled`, which no turn has set where the ladder is empty.
  unfoldable pub first_fit :
      (ℕ → List Row → List Row)
      → ℕ
      → List Row
      → Option (List Row)
      → List Timeframe
      → Option (Text × List Row)
  unfolding seconds label
  first_fit resample max_rows frame none [] = none
  first_fit resample max_rows frame (some resampled) [] = some (label d1, resampled)
  first_fit resample max_rows frame last (tf ∷ tfs) =
      let resampled = resample (seconds tf) frame in
      let rest = first_fit resample max_rows frame (some resampled) tfs in
      if leb (length resampled) max_rows then some (label tf, resampled) else rest

  abbrev pub on_ladder :
      (ℕ → List Row → List Row) → ℕ → List Row → Option ℕ → Option (Text × List Row)
  on_ladder resample max_rows frame none = none
  on_ladder resample max_rows frame (some s) =
      first_fit resample max_rows frame none (coarser s all_timeframes)

  -- `_drawable_series`; `none` is an exception.
  unfoldable pub drawable_series :
      (ℕ → List Row → List Row) → List Row → Text → Option ℕ → Option (Text × List Row)
  unfolding first_fit timeframe_seconds
  drawable_series resample frame timeframe none = some (timeframe, frame)
  drawable_series resample frame timeframe (some max_rows) =
      if leb (length frame) max_rows
      then some (timeframe, frame)
      else on_ladder resample max_rows frame (timeframe_seconds timeframe)

  abbrev pub market_row : Row → MarketRow
  market_row (t, bar) = record {
    t = t / second;
    o = D.round_to 8 bar.open_price;
    h = D.round_to 8 bar.high;
    l = D.round_to 8 bar.low;
    c = D.round_to 8 bar.close;
  }

  -- `frame.iloc[n]`, of a frame with a first row.
  abbrev pub row_at : Row → List Row → ℕ → Row
  row_at row rows zero = row
  row_at row [] (suc n) = row
  row_at row (next ∷ rows) (suc n) = row_at next rows n

  abbrev pub at_most : ℕ → ℕ → ℕ
  at_most a b = if leb a b then a else b

  abbrev pub at_least : ℕ → ℕ → ℕ
  at_least a b = if leb a b then b else a

  unfoldable pub market_window : Text → List Row → ℕ → ℕ → Row → Row → MarketWindow
  market_window base_timeframe drawn base_seconds run_seconds anchor last = record {
    bucket_bars = at_least 1 (base_seconds / run_seconds);
    base_timeframe = base_timeframe;
    rows = map market_row drawn;
    benchmark_close = D.round_to 8 anchor.1.close;
    last_close = D.round_to 8 last.1.close;
    benchmark_from = anchor.0;
  }

  abbrev pub window_of : Text → List Row → Row → Row → Option ℕ → Option ℕ → Option MarketWindow
  window_of base drawn anchor last (some base_seconds) (some run_seconds) =
      some (market_window base drawn base_seconds run_seconds anchor last)
  window_of base drawn anchor last none run_seconds = none
  window_of base drawn anchor last base_seconds none = none

  abbrev pub drawn_window : Text → Row → Row → Option (Text × List Row) → Option MarketWindow
  drawn_window timeframe anchor last none = none
  drawn_window timeframe anchor last (some (base, drawn)) =
      window_of base drawn anchor last (timeframe_seconds base) (timeframe_seconds timeframe)

  -- `sample_market`, of a frame with a first row; `none` is an exception.
  unfoldable pub sample_market :
      (ℕ → List Row → List Row) → Row → List Row → ℕ → Text → Option ℕ → Option MarketWindow
  unfolding drawable_series market_window timeframe_seconds
  sample_market resample row rows warmup timeframe max_rows =
      let last = row_at row rows (length rows) in
      let anchor = row_at row rows (at_most (warmup - 1) (length rows)) in
      drawn_window timeframe anchor last (drawable_series resample (row ∷ rows) timeframe max_rows)

  -- The differences of the index that are more than one timeframe; the first row has none.
  unfoldable pub gaps_after : ℕ → ℕ → List Row → ℕ
  gaps_after expected before [] = 0
  gaps_after expected before (row ∷ rows) =
      (if ltb expected (row.0 - before) then 1 else 0) + gaps_after expected row.0 rows

  abbrev pub gaps_of : Row → List Row → Option ℕ → Option ℕ
  gaps_of row rows none = none
  gaps_of row rows (some s) = some (gaps_after (s * second) row.0 rows)

  -- `count_gaps`
  unfoldable pub count_gaps : List Row → Text → Option ℕ
  unfolding gaps_after timeframe_seconds
  count_gaps [] timeframe = some 0
  count_gaps (row ∷ []) timeframe = some 0
  count_gaps (row ∷ next ∷ rows) timeframe = gaps_of row (next ∷ rows) (timeframe_seconds timeframe)
