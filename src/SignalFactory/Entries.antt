-- ===== src/SignalFactory/Entries.antt =====
-- The entries that `SignalFactory.build` of src/qte_shared/strategies/signal_factory.py lets through.
use quant_trading_engine.Floats.{Decimals, Float, Floats}
use quant_trading_engine.Models.{is_entry, side_of}
use quant_trading_engine.Models.Signals.{
  BrokerSignal, PositionBlock, stop_is_wrong, validate_bracket, validate_entry, validate_shape,
}
use quant_trading_engine.Prelude.{
  Bool, Option, Text, arith, false, none, ok, refl, some, subst, sym, true, upper, ℕ, ◌≡◌,
}
use quant_trading_engine.SignalFactory.{SignalFactory}
use quant_trading_engine.SignalFactory.Accepted.{build-IsAccepted}
use quant_trading_engine.SignalFactory.Building.{build, payload}
use quant_trading_engine.SignalFactory.Intents.{SignalIntent, to_position_block}
use quant_trading_engine.SignalFactory.Preparing.{Prepared}
use quant_trading_engine.SignalFactory.Settling.{IsPrepared, prepare-IsPrepared}
use quant_trading_engine.Sizing.{PositionSizer}
use quant_trading_engine.Sizing.Limits.{AtMost, quantity_ceiling}

module _ ⦃F : Floats⦄ where
  open F use {of_ℕ, lt}

  -- What a worker needs of an entry, on a pair with the given sizing.
  pub record IsTradable (s : PositionSizer) (b : PositionBlock) : Type 0 where
    pub entry : Float
    pub size : Float
    pub stop : Float
    pub risk : Float
    pub price_is : b.price ≡ some entry
    pub quantity_is : b.quantity ≡ some size
    pub stop_is : b.sl ≡ some stop
    pub risk_is : b.risk_percent ≡ some risk
    pub positive : lt (of_ℕ 0) size ≡ true
    pub within : AtMost (quantity_ceiling s.max_quantity) size
    pub bounded : AtMost s.max_risk_percent risk
    pub losing_side : stop_is_wrong (side_of b.action) entry (some stop) ≡ false

  -- What the checks before publishing say of an entry.
  pub record IsShaped (b : PositionBlock) : Type 0 where
    pub entry : Float
    pub size : Float
    pub price_is : b.price ≡ some entry
    pub quantity_is : b.quantity ≡ some size
    pub positive : lt (of_ℕ 0) size ≡ true
    pub losing_side : stop_is_wrong (side_of b.action) entry b.sl ≡ false

  validate_entry-IsShaped :
      (price quantity : Option Float) (b : PositionBlock)
      → b.price ≡ price
      → b.quantity ≡ quantity
      → validate_entry price quantity b ≡ none
      → IsShaped b
  unfolding validate_entry validate_bracket
  validate_entry-IsShaped none quantity b p q h = cc h
  validate_entry-IsShaped (some entry) none b p q h = cc h
  validate_entry-IsShaped (some entry) (some size) b p q h = record {
    entry = entry;
    size = size;
    price_is = p;
    quantity_is = q;
    positive = ground arith;
    losing_side = ground arith;
  }

  validate_shape-IsShaped :
      (b : PositionBlock) → is_entry b.action ≡ true → validate_shape b ≡ none → IsShaped b
  unfolding validate_shape
  validate_shape-IsShaped b entry h =
      validate_entry-IsShaped b.price b.quantity b refl refl (rw entry at h)

module _ ⦃F : Floats⦄ ⦃D : Decimals⦄ where
  payload-IsTradable :
      (symbol timeframe uxid : Text) (moment : ℕ) (f : SignalFactory) (i : SignalIntent)
      (p : Prepared)
      → is_entry i.action ≡ true
      → IsPrepared f i p
      → validate_shape (payload symbol timeframe moment uxid p).position ≡ none
      → IsTradable f.sizer (payload symbol timeframe moment uxid p).position
  unfolding payload to_position_block
  payload-IsTradable symbol timeframe uxid moment f i p entry made valid =
      let block = (payload symbol timeframe moment uxid p).position in
      let shaped : IsShaped block =
        validate_shape-IsShaped block (rw made.same_action entry) valid in
      let (stop, stop_is) = made.has_stop shaped.entry shaped.price_is in
      record {
        entry = shaped.entry;
        size = shaped.size;
        stop = stop;
        risk = made.risk;
        price_is = shaped.price_is;
        quantity_is = shaped.quantity_is;
        stop_is = stop_is;
        risk_is = made.risk_is;
        positive = shaped.positive;
        within = made.within shaped.size shaped.quantity_is shaped.positive;
        bounded = made.bounded;
        losing_side = rw (← stop_is) shaped.losing_side;
      }

  -- Every entry that is let through states a price, a positive quantity within the account's
  -- ceiling, a stop that is not on the winning side of the price, and a risk within the pair's
  -- ceiling: no entry is published without a stop.
  pub build-IsTradable :
      (fresh : Text) (i : SignalIntent) (symbol : Text) (moment : ℕ) (commits : Bool) (now : ℕ)
      (f : SignalFactory) (i' : SignalIntent) (s : BrokerSignal)
      → is_entry i.action ≡ true
      → (build fresh i symbol moment commits now f).1 ≡ ok (i', s)
      → IsTradable f.sizer s.position
  build-IsTradable fresh i symbol moment commits now f i' s entry h =
      let a = build-IsAccepted fresh i symbol moment commits now f i' s h in
      let made = prepare-IsPrepared fresh (upper symbol) f i a.prepared entry a.prepared_is in
      subst (λ t. IsTradable f.sizer t.position) (sym a.signal_is)
        (payload-IsTradable (upper symbol) a.timeframe a.uxid moment f i a.prepared entry made
          (subst (λ t. validate_shape t.position ≡ none) a.signal_is a.shaped))
