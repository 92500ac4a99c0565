-- ===== src/Repair/Merging.antt =====
-- A bar before and after a repair of src/qte_ingestion/repair.py.
use quant_trading_engine.Floats.{
  Floats, Le, Le-refl, Le-trans, fmax, fmax_left, fmax_right, fmin, fmin_left, fmin_right,
}
use quant_trading_engine.Models.{Candle}
use quant_trading_engine.Prelude.{
  Bool, Bool-cases, Dict, Key-Text, Key-ℕ, Option, Option-cases, Text, inl, inr, lookup, none, refl,
  some, ◌≡◌,
}
use quant_trading_engine.Repair.{
  HistorySource, PartialBarRepairer, merge_partial_bar, repair, repaired_by, routed_repair,
  vendor_bar,
}
use quant_trading_engine.Timeframes.{Key-Timeframe}

module _ ⦃F : Floats⦄ where
  -- The bar is the same one, with the volume and the ticks that were received, and its range still
  -- holds every price that the first one's held.
  pub record Completes (c c' : Candle) : Type 0 where
    pub same_symbol : c'.symbol ≡ c.symbol
    pub same_timeframe : c'.timeframe ≡ c.timeframe
    pub same_open_time : c'.open_time ≡ c.open_time
    pub same_volume : c'.volume ≡ c.volume
    pub same_ticks : c'.tick_count ≡ c.tick_count
    pub same_origin : c'.origin ≡ c.origin
    pub same_state : c'.is_closed ≡ c.is_closed
    pub lower : Le c'.low c.low
    pub higher : Le c.high c'.high

  Completes-refl : (c : Candle) → Completes c c
  Completes-refl c = record {
    same_symbol = refl;
    same_timeframe = refl;
    same_open_time = refl;
    same_volume = refl;
    same_ticks = refl;
    same_origin = refl;
    same_state = refl;
    lower = Le-refl c.low;
    higher = Le-refl c.high;
  }

  repaired_by-Completes :
      (answer : Option (Option Candle)) (c : Candle) (close_is_current : Bool)
      → Completes c (repaired_by answer c close_is_current)
  unfolding repaired_by merge_partial_bar
  repaired_by-Completes none c close_is_current = Completes-refl c
  repaired_by-Completes (some none) c close_is_current = Completes-refl c
  repaired_by-Completes (some (some vendor)) c close_is_current = record {
    same_symbol = refl;
    same_timeframe = refl;
    same_open_time = refl;
    same_volume = refl;
    same_ticks = refl;
    same_origin = refl;
    same_state = refl;
    lower = fmin_left c.low vendor.low;
    higher = fmax_left c.high vendor.high;
  }

  repair-Completes {ℓ} :
      {Market : Type ℓ} (r : PartialBarRepairer Market) (c : Candle) (close_is_current : Bool)
      → Completes c (repair r c close_is_current)
  unfolding repair
  repair-Completes r c close_is_current = go r.source
    where
      go :
          (source : Option (HistorySource _))
          → Completes c (elim source [
            | none ↦ c
            | some s ↦ repaired_by (vendor_bar s r.markets c) c close_is_current
          ])
      go none = Completes-refl c
      go (some s) = repaired_by-Completes (vendor_bar s r.markets c) c close_is_current

  -- Whatever the vendor answers, and whether or not the symbol has a provider, a repair changes no
  -- more of a bar than its open, its close and its range, and never narrows the range.
  pub routed_repair-Completes {ℓ} :
      {Market : Type ℓ} (repairers : Dict Text (PartialBarRepairer Market)) (c : Candle)
      (close_is_current : Bool)
      → Completes c (routed_repair repairers c close_is_current)
  unfolding routed_repair
  routed_repair-Completes repairers c close_is_current =
      elim (Option-cases (lookup c.symbol repairers)) [
        | inl missing ↦ rw (routed_repair, missing) (Completes-refl c)
        | inr (r, found) ↦ rw (routed_repair, found) (repair-Completes r c close_is_current)
      ]

  -- The open and the close lie in the range.
  pub record IsConsistent (c : Candle) : Type 0 where
    pub open_above : Le c.low c.open_price
    pub open_below : Le c.open_price c.high
    pub close_above : Le c.low c.close
    pub close_below : Le c.close c.high

  -- Two bars with their open and close in their range merge into one that has both in its range,
  -- whichever close is taken.
  pub merge_partial_bar-IsConsistent :
      (partial vendor : Candle) (close_is_current : Bool)
      → IsConsistent partial
      → IsConsistent vendor
      → IsConsistent (merge_partial_bar partial vendor close_is_current)
  unfolding merge_partial_bar
  merge_partial_bar-IsConsistent p v close_is_current hp hv =
      let low_p = fmin_left p.low v.low in
      let low_v = fmin_right p.low v.low in
      let high_p = fmax_left p.high v.high in
      let high_v = fmax_right p.high v.high in
      record {
        open_above = Le-trans (fmin p.low v.low) v.low v.open_price low_v hv.open_above;
        open_below = Le-trans v.open_price v.high (fmax p.high v.high) hv.open_below high_v;
        close_above = elim (Bool-cases close_is_current) [
          | inl current ↦
              rw current (Le-trans (fmin p.low v.low) p.low p.close low_p hp.close_above)
          | inr stale ↦ rw stale (Le-trans (fmin p.low v.low) v.low v.close low_v hv.close_above)
        ];
        close_below = elim (Bool-cases close_is_current) [
          | inl current ↦
              rw current (Le-trans p.close p.high (fmax p.high v.high) hp.close_below high_p)
          | inr stale ↦
              rw stale (Le-trans v.close v.high (fmax p.high v.high) hv.close_below high_v)
        ];
      }
