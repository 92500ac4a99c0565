-- ===== src/Execution.antt =====
-- src/qte_backtest/execution.py: the fill simulator. A direction is the source's +1 or -1, by
-- which a float is multiplied exactly. `__post_init__` fills `worst_price` and `best_price`, so
-- neither is ever missing here.

pub mod Statistics
pub mod Sizes
pub mod Stops
pub mod Walk
pub mod Excursions
use quant_trading_engine.Floats.{Float, Floats, fabs, fmax, fmin, is_zero}
use quant_trading_engine.Models.{Direction, long, price, short, signed}
use quant_trading_engine.Prelude.{
  Bool, List, Option, Text, [], false, if◌then◌else◌, none, not, or_else, some, true, ℕ, ◌&&◌, ◌++◌,
  ◌+◌, ◌∷◌,
}

pub data ExitReason : Type 0 where
  exit_tp1 exit_tp2 exit_sl exit_r_sl exit_flat exit_end_of_data : ExitReason

module _ ⦃F : Floats⦄ where
  open F use {of_ℕ, dust, lt, add, sub, mul, div, neg}

  pub record CostModel : Type 0 where
    pub spread : Float
    pub slippage : Float
    pub commission_per_unit : Float
    pub contract_size : Float

  -- `spread / 2.0 + slippage`
  abbrev pub crossing : CostModel → Float
  crossing c = add (div c.spread (of_ℕ 2)) c.slippage

  unfoldable pub entry_fill : CostModel → Float → Direction → Float
  entry_fill c price d = add price (signed d (crossing c))

  unfoldable pub exit_fill : CostModel → Float → Direction → Float
  exit_fill c price d = sub price (signed d (crossing c))

  unfoldable pub commission : CostModel → Float → Float
  commission c quantity = mul (mul (fabs quantity) c.contract_size) c.commission_per_unit

  pub record ClosedLeg : Type 0 where
    pub closed_at : ℕ
    pub price : Float
    pub quantity : Float
    pub reason : ExitReason
    pub gross_pnl : Float
    pub fees : Float
    pub note : Option Text

  pub record SimulatedPosition : Type 0 where
    pub symbol : Text
    pub direction : Direction
    pub opened_at : ℕ
    pub entry_price : Float
    pub quantity : Float
    pub sl : Option Float
    pub tp1 : Option Float
    pub tp2 : Option Float
    pub tp1_percent : Option Float
    pub move_sl_to_be : Bool
    pub signal_uxid : Option Text
    pub entry_fees : Float
    pub remaining : Float
    pub legs : List ClosedLeg
    pub tp1_filled : Bool
    pub initial_sl : Option Float
    pub worst_price : Float
    pub best_price : Float
    pub bars_held : ℕ
    pub contract_size : Float
    pub risk_percent : Option Float

  unfoldable pub is_open : SimulatedPosition → Bool
  is_open p = lt dust p.remaining

  -- What `open_position` is called with.
  pub record Order : Type 0 where
    pub symbol : Text
    pub direction : Direction
    pub bar_time : ℕ
    pub price : Float
    pub quantity : Float
    pub sl : Option Float
    pub tp1 : Option Float
    pub tp2 : Option Float
    pub tp1_percent : Option Float
    pub move_sl_to_be : Bool
    pub signal_uxid : Option Text
    pub risk_percent : Option Float

  -- `open_position` and `__post_init__`: `remaining` starts at 0.0 and is set to the quantity.
  unfoldable pub open_position : CostModel → Order → SimulatedPosition
  unfolding entry_fill commission
  open_position c o =
      let fill = entry_fill c o.price o.direction in
      record {
        symbol = o.symbol;
        direction = o.direction;
        opened_at = o.bar_time;
        entry_price = fill;
        quantity = o.quantity;
        sl = o.sl;
        tp1 = o.tp1;
        tp2 = o.tp2;
        tp1_percent = o.tp1_percent;
        move_sl_to_be = o.move_sl_to_be;
        signal_uxid = o.signal_uxid;
        entry_fees = commission c o.quantity;
        remaining = o.quantity;
        legs = [];
        tp1_filled = false;
        initial_sl = o.sl;
        worst_price = fill;
        best_price = fill;
        bars_held = 0;
        contract_size = c.contract_size;
        risk_percent = o.risk_percent;
      }

  -- A row of the frame.
  pub record Bar : Type 0 where
    pub open_price : Float
    pub high : Float
    pub low : Float
    pub close : Float

  -- `(direction == 1) == is_stop`
  abbrev pub is_below : Direction → Bool → Bool
  is_below long is_stop = is_stop
  is_below short is_stop = not is_stop

  unfoldable pub touched : Option Float → Direction → Bar → Bool → Bool
  touched none d bar is_stop = false
  touched (some level) d bar is_stop =
      if is_below d is_stop then not (lt level bar.low) else not (lt bar.high level)

  unfoldable pub fill_level : CostModel → Float → Float → Direction → Bool → Float
  unfolding exit_fill
  fill_level c level open_price d is_stop =
      let gapped_through =
        if is_below d is_stop then lt open_price level else lt level open_price in
      exit_fill c (if gapped_through then open_price else level) d

  abbrev pub closed_leg :
      CostModel → ℕ → Float → Float → ExitReason → Option Text → SimulatedPosition → ClosedLeg
  closed_leg c bar_time price quantity reason note p = record {
    closed_at = bar_time;
    price = price;
    quantity = quantity;
    reason = reason;
    gross_pnl = mul (mul (signed p.direction (sub price p.entry_price)) quantity) c.contract_size;
    fees = commission c quantity;
    note = note;
  }

  -- `_close`
  unfoldable pub close_leg :
      CostModel
      → ℕ
      → Float
      → Float
      → ExitReason
      → Option Text
      → SimulatedPosition
      → SimulatedPosition
  close_leg c bar_time price asked reason note p =
      let quantity = fmin asked p.remaining in
      if not (lt (of_ℕ 0) quantity) then p else record p {
        legs = p.legs ++ closed_leg c bar_time price quantity reason note p ∷ [];
        remaining = sub p.remaining quantity;
      }

  abbrev pub worst_of : Direction → Float → Bar → Float
  worst_of long worst bar = fmin worst bar.low
  worst_of short worst bar = fmax worst bar.high

  abbrev pub best_of : Direction → Float → Bar → Float
  best_of long best bar = fmax best bar.high
  best_of short best bar = fmin best bar.low

  -- The bar's range, before any exit check.
  unfoldable pub excursion : Bar → SimulatedPosition → SimulatedPosition
  excursion bar p = record p {
    bars_held = p.bars_held + 1;
    worst_price = worst_of p.direction p.worst_price bar;
    best_price = best_of p.direction p.best_price bar;
  }

  -- `(position.tp1_percent or 100.0) / 100.0`
  abbrev pub tp1_share : Option Float → Float
  tp1_share none = div (of_ℕ 100) (of_ℕ 100)
  tp1_share (some percent) = div (if is_zero percent then of_ℕ 100 else percent) (of_ℕ 100)

  abbrev pub stop_reason : SimulatedPosition → ExitReason
  stop_reason p = if p.tp1_filled && p.move_sl_to_be then exit_r_sl else exit_sl

  unfoldable pub take_stop : CostModel → Bar → ℕ → Float → SimulatedPosition → SimulatedPosition
  unfolding close_leg
  take_stop c bar bar_time level p =
      close_leg c bar_time (fill_level c level bar.open_price p.direction true) p.remaining
        (stop_reason p) none p

  -- The fill of the first target, and the move of the stop to the entry fill.
  unfoldable pub take_tp1 : CostModel → Bar → ℕ → Float → SimulatedPosition → SimulatedPosition
  unfolding close_leg
  take_tp1 c bar bar_time level p =
      let quantity = fmin p.remaining (mul p.quantity (tp1_share p.tp1_percent)) in
      let price = fill_level c level bar.open_price p.direction false in
      let p' = close_leg c bar_time price quantity exit_tp1 none p in
      record p' {
        tp1_filled = true;
        sl = (if p'.move_sl_to_be then some p'.entry_price else p'.sl);
      }

  -- The second target, at its level.
  unfoldable pub tp2_at : Option Float → CostModel → Bar → ℕ → SimulatedPosition → SimulatedPosition
  unfolding close_leg touched
  tp2_at none c bar bar_time p = p
  tp2_at (some level) c bar bar_time p =
      if touched (some level) p.direction bar false
      then close_leg c bar_time (fill_level c level bar.open_price p.direction false) p.remaining
          exit_tp2 none p
      else p

  unfoldable pub take_tp2 : CostModel → Bar → ℕ → SimulatedPosition → SimulatedPosition
  unfolding tp2_at
  take_tp2 c bar bar_time p = tp2_at p.tp2 c bar bar_time p

  -- The targets, once the stop has not been touched: the first at its level, then the second
  -- unless the first has closed the position.
  unfoldable pub targets_at :
      Option Float → CostModel → Bar → ℕ → SimulatedPosition → SimulatedPosition
  unfolding take_tp1 take_tp2 is_open touched
  targets_at none c bar bar_time p = take_tp2 c bar bar_time p
  targets_at (some level) c bar bar_time p =
      if not p.tp1_filled && touched (some level) p.direction bar false
      then (let p' = take_tp1 c bar bar_time level p in
          if is_open p' then take_tp2 c bar bar_time p' else p')
      else take_tp2 c bar bar_time p

  -- The exit checks with the stop at its level: stop before target, always.
  unfoldable pub exits_at :
      Option Float → CostModel → Bar → ℕ → SimulatedPosition → SimulatedPosition
  unfolding take_stop targets_at touched
  exits_at none c bar bar_time p = targets_at p.tp1 c bar bar_time p
  exits_at (some level) c bar bar_time p =
      if touched (some level) p.direction bar true
      then take_stop c bar bar_time level p
      else targets_at p.tp1 c bar bar_time p

  unfoldable pub process_bar : CostModel → Bar → ℕ → SimulatedPosition → SimulatedPosition
  unfolding excursion exits_at is_open
  process_bar c bar bar_time p =
      if not (is_open p)
      then p
      else (let seen = excursion bar p in exits_at seen.sl c bar bar_time seen)

  unfoldable pub close_at :
      CostModel
      → ℕ
      → Float
      → ExitReason
      → Option Float
      → Option Text
      → SimulatedPosition
      → SimulatedPosition
  unfolding is_open exit_fill close_leg
  close_at c bar_time price reason quantity note p =
      if is_open p
      then close_leg c bar_time (exit_fill c price p.direction) (or_else quantity p.remaining)
          reason note p
      else p
