-- ===== src/Repair.antt =====
-- src/qte_ingestion/repair.py: a bar that was joined late is completed from vendor history. The
-- provider's history is a parameter: a table of rows by open time, or `none` where the request
-- raises or is slower than the timeout. The log lines are left out.
pub mod Merging
use quant_trading_engine.Floats.{Float, Floats, fmax, fmin}
use quant_trading_engine.Models.{Candle}
use quant_trading_engine.Prelude.{
  Bool, Dict, Key-Text, Key-ℕ, Option, Text, if◌then◌else◌, lookup, none, some, true, ℕ, ◌*◌, ◌/◌,
}
use quant_trading_engine.StateScope.{origin}
use quant_trading_engine.Timeframes.{Key-Timeframe, Timeframe, second}

module _ ⦃F : Floats⦄ where
  pub record VendorRow : Type 0 where
    pub open_price : Float
    pub high : Float
    pub low : Float
    pub close : Float
    pub volume : Float

  abbrev pub History : Type 0
  History = Dict ℕ VendorRow

  -- The request for one symbol and timeframe, from one day to another, on a market.
  abbrev pub HistorySource {ℓ} : Type ℓ → Type ℓ
  HistorySource Market = Text → Timeframe → ℕ → ℕ → Market → Option History

  -- `PartialBarRepairer`
  pub record PartialBarRepairer {ℓ} (Market : Type ℓ) : Type ℓ where
    pub source : Option (HistorySource Market)
    pub markets : Dict Text Market

  -- `open_time.date()`, in days since 1970.
  abbrev pub date_of : ℕ → ℕ
  date_of t = t / (86400 * second)

  -- The vendor's bar for the candle's bucket.
  unfoldable pub bar_of : Candle → VendorRow → Candle
  bar_of c row = record {
    symbol = c.symbol;
    timeframe = c.timeframe;
    open_time = c.open_time;
    open_price = row.open_price;
    high = row.high;
    low = row.low;
    close = row.close;
    volume = row.volume;
    tick_count = 0;
    is_closed = true;
    origin = none;
  }

  -- `_vendor_bar`; `none` where it raises, `some none` where the vendor has no bar.
  abbrev pub answer_of : Candle → Option History → Option (Option Candle)
  answer_of c none = none
  answer_of c (some history) =
      some (elim (lookup c.open_time history) [ none ↦ none | some row ↦ some (bar_of c row) ])

  unfoldable pub vendor_bar {ℓ} :
      {Market : Type ℓ} → HistorySource Market → Dict Text Market → Candle → Option (Option Candle)
  vendor_bar source markets c = elim (lookup c.symbol markets) [
    | none ↦ none
    | some market ↦
        let day = date_of c.open_time in answer_of c (source c.symbol c.timeframe day day market)
  ]

  unfoldable pub merge_partial_bar : Candle → Candle → Bool → Candle
  merge_partial_bar partial vendor close_is_current = record partial {
    open_price = vendor.open_price;
    high = fmax partial.high vendor.high;
    low = fmin partial.low vendor.low;
    close = (if close_is_current then partial.close else vendor.close);
  }

  unfoldable pub repaired_by : Option (Option Candle) → Candle → Bool → Candle
  unfolding merge_partial_bar
  repaired_by (some (some vendor)) c close_is_current = merge_partial_bar c vendor close_is_current
  repaired_by _ c close_is_current = c

  unfoldable pub repair {ℓ} : {Market : Type ℓ} → PartialBarRepairer Market → Candle → Bool → Candle
  unfolding vendor_bar repaired_by
  repair r c close_is_current = elim r.source [
    | none ↦ c
    | some source ↦ repaired_by (vendor_bar source r.markets c) c close_is_current
  ]

  -- `RoutedBarRepairer.repair`: by the provider of the bar's symbol.
  unfoldable pub routed_repair {ℓ} :
      {Market : Type ℓ} → Dict Text (PartialBarRepairer Market) → Candle → Bool → Candle
  unfolding repair
  routed_repair repairers c close_is_current = elim (lookup c.symbol repairers) [
    | none ↦ c
    | some r ↦ repair r c close_is_current
  ]
