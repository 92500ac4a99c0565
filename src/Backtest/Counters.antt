-- ===== src/Backtest/Counters.antt =====
-- The counters of src/qte_backtest/replay.py that the intents of one bar go into.
use quant_trading_engine.Backtest.{
  BacktestEngine, drop_closed, fill_close, fill_close_at, fill_entry, held_at, sync_cycle,
}
use quant_trading_engine.Backtest.Accounts.{accounted, take_intents-accounted}
use quant_trading_engine.Backtest.Applying.{resynced}
use quant_trading_engine.Backtest.Strategy.{
  Draws, applied, apply_intent, book_build, fill, take_intent, take_intents,
}
use quant_trading_engine.Floats.{Decimals, Float, Floats}
use quant_trading_engine.Models.{is_entry}
use quant_trading_engine.Models.Signals.{BrokerSignal}
use quant_trading_engine.Prelude.{
  Bool, Bool-cases, Key-Text, Key-pair, Key-ℕ, List, Option, Result, Text, [], arith, err, false,
  if-both, if◌then◌else◌, inl, inr, is_some, length, lookup, none, ok, or_else, refl, some, true, ℕ,
  ◌&&◌, ◌++◌, ◌+◌, ◌∷◌, ◌≡◌, ◌≤◌,
}
use quant_trading_engine.SignalFactory.Building.{build}
use quant_trading_engine.SignalFactory.Intents.{SignalIntent}
use quant_trading_engine.SignalFactory.Preparing.{BuildError}
use quant_trading_engine.Timeframes.{Key-Timeframe}

module _ ⦃F : Floats⦄ ⦃D : Decimals⦄ where
  -- The entries and the closes among the intents.
  abbrev pub entries_among : List SignalIntent → ℕ
  entries_among [] = 0
  entries_among (i ∷ is) = (if is_entry i.action then 1 else 0) + entries_among is

  abbrev pub closes_among : List SignalIntent → ℕ
  closes_among [] = 0
  closes_among (i ∷ is) = (if is_entry i.action then 0 else 1) + closes_among is

  -- From `e` to `e'`, with so many entries and closes taken while the calendar was open or shut.
  abbrev pub Counts : Bool → ℕ → ℕ → BacktestEngine → BacktestEngine → Type 0
  Counts shut entries closes e e' =
      (e'.blocked ≡ e.blocked + (if shut then entries else 0))
      × (e'.rejected ≤ e.rejected + (if shut then 0 else entries))
      × (e'.rejected_closes ≤ e.rejected_closes + closes)

  abbrev SameCounters : BacktestEngine → BacktestEngine → Type 0
  SameCounters e e' =
      (e'.blocked ≡ e.blocked)
      × (e'.rejected ≡ e.rejected)
      × (e'.rejected_closes ≡ e.rejected_closes)

  fill_close_at-SameCounters :
      (signal : BrokerSignal) (reason : Text) (t : ℕ) (close : Float) (at : Option ℕ)
      (e : BacktestEngine)
      → SameCounters e (fill_close_at signal reason t close at e)
  fill_close_at-SameCounters signal reason t close none e = (refl, refl, refl)
  fill_close_at-SameCounters signal reason t close (some n) e =
      elim (Bool-cases (is_some (held_at e.positions (some n)))) [
        | inl held ↦ rw held (refl, refl, refl)
        | inr gone ↦ rw gone (refl, refl, refl)
      ]

  fill-SameCounters :
      (entry : Bool) (signal : BrokerSignal) (reason : Text) (t : ℕ) (close : Float)
      (e : BacktestEngine)
      → SameCounters e (resynced (fill entry signal reason t close e))
  unfolding fill sync_cycle drop_closed
  fill-SameCounters true signal reason t close e = unfold fill_entry in (refl, refl, refl)
  fill-SameCounters false signal reason t close e =
      unfold fill_close in
      fill_close_at-SameCounters signal reason t close (lookup signal.signal_uxid e.opened) e

  -- An intent that is built is an entry that may be refused, or a close that may be.
  book_build-Counts :
      (i : SignalIntent) (t : ℕ) (close : Float) (e : BacktestEngine)
      (r : Result BuildError (SignalIntent × BrokerSignal))
      → let e' = book_build i t close e r in
        (e'.blocked ≡ e.blocked)
        × (e'.rejected ≤ e.rejected + (if is_entry i.action then 1 else 0))
        × (e'.rejected_closes ≤ e.rejected_closes + (if is_entry i.action then 0 else 1))
  unfolding book_build
  book_build-Counts i t close e (err x) = elim (Bool-cases (is_entry i.action)) [
    | inl asked ↦ rw asked (refl, omega arith, omega arith)
    | inr other ↦ rw other (refl, omega arith, omega arith)
  ]
  book_build-Counts i t close e (ok (j, signal)) =
      let e' = record e { signals = e.signals ++ signal ∷ [] } in
      let (blocked, rejected, closes) =
        fill-SameCounters (is_entry i.action) signal i.reason t close e' in
      (blocked, omega (arith, rejected), omega (arith, closes))

  take_intent-Counts :
      (draws : Draws) (shut : Bool) (i : SignalIntent) (t : ℕ) (close : Float) (e : BacktestEngine)
      → Counts shut
          (if is_entry i.action then 1 else 0)
          (if is_entry i.action then 0 else 1)
          e
          (take_intent draws shut i t close e)
  unfolding take_intent apply_intent
  take_intent-Counts draws shut i t close e =
      let n = applied e in
      let priced = record i { price = some (or_else i.price close) } in
      let out = build (draws.ids n) priced e.symbol t true (draws.moments n) e.factory in
      let taken = book_build priced t close (record e { factory = out.0 }) out.1 in
      let counted = book_build-Counts priced t close (record e { factory = out.0 }) out.1 in
      if-both
        (Counts shut (if is_entry i.action then 1 else 0) (if is_entry i.action then 0 else 1) e)
        (shut && is_entry i.action) (record e { blocked = e.blocked + 1 }) taken
        (λ stopped. ground (arith, stopped)) (λ let_in. ground (arith, let_in, counted))

  take_intents-Counts :
      (draws : Draws) (shut : Bool) (intents : List SignalIntent) (t : ℕ) (close : Float)
      (e : BacktestEngine)
      → Counts shut
          (entries_among intents)
          (closes_among intents)
          e
          (take_intents draws shut intents t close e)
  unfolding take_intents
  take_intents-Counts draws shut [] t close e = ground arith
  take_intents-Counts draws shut (i ∷ is) t close e =
      let e' = take_intent draws shut i t close e in
      ground (
        arith,
        take_intents-Counts draws shut is t close e',
        take_intent-Counts draws shut i t close e,
      )

  -- Each intent of a bar is counted once, as published, refused or stopped by the calendar: on a
  -- shut bar it stops every entry and none is refused, on an open one none is stopped; no more
  -- entries are refused than there are entries, and no more closes than there are closes.
  pub take_intents-counted :
      (draws : Draws) (shut : Bool) (intents : List SignalIntent) (t : ℕ) (close : Float)
      (e : BacktestEngine)
      → let e' = take_intents draws shut intents t close e in
        (accounted e' ≡ accounted e + length intents)
        × Counts shut (entries_among intents) (closes_among intents) e e'
  take_intents-counted draws shut intents t close e = (
    take_intents-accounted draws shut intents t close e,
    take_intents-Counts draws shut intents t close e,
  )
