-- ===== src/Models.antt =====
-- src/qte_shared/models.py: ticks, candles and trade actions.
pub mod Signals
pub mod Positions
use quant_trading_engine.Floats.{Float, Floats}
use quant_trading_engine.Prelude.{Bool, Option, Text, false, none, some, true, ℕ}
use quant_trading_engine.Timeframes.{Timeframe}

-- `MarketDataOrigin` of src/qte_shared/state_scope.py
pub record Origin : Type 0 where
  pub namespace : Text
  pub provider : Text
  pub synthetic : Bool

-- The source's +1 and -1.
pub data Direction : Type 0 where
  long short : Direction

-- `SignalAction`
pub data SignalAction : Type 0 where
  long_entry short_entry tp1_close tp2_close r_sl_close sl_close flat_close : SignalAction

unfoldable pub is_entry : SignalAction → Bool
is_entry long_entry = true
is_entry short_entry = true
is_entry _ = false

-- `TERMINAL_ACTIONS`
unfoldable pub is_terminal : SignalAction → Bool
is_terminal tp2_close = true
is_terminal sl_close = true
is_terminal r_sl_close = true
is_terminal flat_close = true
is_terminal _ = false

-- `action is SignalAction.TP1`
abbrev pub is_tp1 : SignalAction → Bool
is_tp1 tp1_close = true
is_tp1 _ = false

-- `1 if action is SignalAction.LONG else -1`
abbrev pub side_of : SignalAction → Direction
side_of long_entry = long
side_of _ = short

module _ ⦃F : Floats⦄ where
  open F use {of_ℕ, add, div, neg}

  -- `direction * x`
  abbrev pub signed : Direction → Float → Float
  signed long x = x
  signed short x = neg x

  pub record Tick : Type 0 where
    pub symbol : Text
    pub ts : ℕ
    pub bid : Option Float
    pub ask : Option Float
    pub last : Option Float
    pub volume : Float
    pub origin : Option Origin

  -- `Tick.price`; `none` is the `ValueError` of a tick that carries no price.
  abbrev sided_price : Option Float → Option Float → Option Float
  sided_price (some b) (some a) = some (div (add b a) (of_ℕ 2))
  sided_price (some b) none = some b
  sided_price none (some a) = some a
  sided_price none none = none

  unfoldable pub price : Tick → Option Float
  price t = elim t.last [ some p ↦ some p | none ↦ sided_price t.bid t.ask ]

  pub record Candle : Type 0 where
    pub symbol : Text
    pub timeframe : Timeframe
    pub open_time : ℕ
    pub open_price : Float
    pub high : Float
    pub low : Float
    pub close : Float
    pub volume : Float
    pub tick_count : ℕ
    pub is_closed : Bool
    pub origin : Option Origin
