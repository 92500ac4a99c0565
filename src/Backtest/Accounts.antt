-- ===== src/Backtest/Accounts.antt =====
-- What becomes of the intents of one bar in `run` and `_apply` of src/qte_backtest/replay.py.
use quant_trading_engine.Backtest.{
  BacktestEngine, change_at, close_position, drop_closed, fill_close, fill_close_at, fill_entry,
  held_at, sync_cycle,
}
use quant_trading_engine.Backtest.Applying.{resynced}
use quant_trading_engine.Backtest.Strategy.{
  Draws, applied, apply_intent, book_build, fill, take_intent, take_intents,
}
use quant_trading_engine.Execution.{SimulatedPosition}
use quant_trading_engine.Floats.{Decimals, Float, Floats}
use quant_trading_engine.Models.{is_entry}
use quant_trading_engine.Models.Signals.{BrokerSignal}
use quant_trading_engine.Prelude.{
  Bool, Bool-cases, Key-Text, Key-ℕ, List, Option, Result, Text, [], ap, arith, err, false, if-both,
  inl, inr, is_some, length, length-append, lookup, none, ok, or_else, refl, some, suc, true, zero,
  ℕ, ◌&&◌, ◌++◌, ◌+◌, ◌∙◌, ◌∷◌, ◌≡◌,
}
use quant_trading_engine.SignalFactory.Building.{build}
use quant_trading_engine.SignalFactory.Intents.{SignalIntent}
use quant_trading_engine.SignalFactory.Preparing.{BuildError}
use quant_trading_engine.Timeframes.{Key-Timeframe}

module _ ⦃F : Floats⦄ ⦃D : Decimals⦄ where
  -- The intents that were taken so far: published, refused or stopped by the calendar.
  abbrev pub accounted : BacktestEngine → ℕ
  accounted e = applied e + e.blocked

  fill_close_at-accounted :
      (signal : BrokerSignal) (reason : Text) (t : ℕ) (close : Float) (at : Option ℕ)
      (e : BacktestEngine)
      → accounted (fill_close_at signal reason t close at e) ≡ accounted e
  fill_close_at-accounted signal reason t close none e = refl
  fill_close_at-accounted signal reason t close (some n) e =
      elim (Bool-cases (is_some (held_at e.positions (some n)))) [
        | inl held ↦ rw held refl
        | inr gone ↦ rw gone refl
      ]

  fill-accounted :
      (entry : Bool) (signal : BrokerSignal) (reason : Text) (t : ℕ) (close : Float)
      (e : BacktestEngine)
      → accounted (fill entry signal reason t close e) ≡ accounted e
  unfolding fill
  fill-accounted true signal reason t close e = unfold fill_entry in refl
  fill-accounted false signal reason t close e =
      unfold fill_close in
      fill_close_at-accounted signal reason t close (lookup signal.signal_uxid e.opened) e

  resynced-accounted : (e : BacktestEngine) → accounted (resynced e) ≡ accounted e
  unfolding sync_cycle drop_closed
  resynced-accounted e = refl

  book_build-accounted :
      (i : SignalIntent) (t : ℕ) (close : Float) (e : BacktestEngine)
      (r : Result BuildError (SignalIntent × BrokerSignal))
      → accounted (book_build i t close e r) ≡ accounted e + 1
  unfolding book_build
  book_build-accounted i t close e (err x) = elim (Bool-cases (is_entry i.action)) [
    | inl entry ↦ rw entry (omega arith)
    | inr other ↦ rw other (omega arith)
  ]
  book_build-accounted i t close e (ok (j, signal)) =
      let e' = record e { signals = e.signals ++ signal ∷ [] } in
      let filled_in = fill (is_entry i.action) signal i.reason t close e' in
      let added = length-append e.signals (signal ∷ []) in
      resynced-accounted filled_in
      ∙ fill-accounted (is_entry i.action) signal i.reason t close e'
      ∙ omega (arith, added)

  take_intent-accounted :
      (draws : Draws) (shut : Bool) (i : SignalIntent) (t : ℕ) (close : Float) (e : BacktestEngine)
      → accounted (take_intent draws shut i t close e) ≡ accounted e + 1
  unfolding take_intent apply_intent
  take_intent-accounted draws shut i t close e =
      let n = applied e in
      let priced = record i { price = some (or_else i.price close) } in
      let out = build (draws.ids n) priced e.symbol t true (draws.moments n) e.factory in
      elim (Bool-cases (shut && is_entry i.action)) [
        | inl blocked ↦ rw blocked (omega arith)
        | inr let_in ↦
            rw let_in (book_build-accounted priced t close (record e { factory = out.0 }) out.1)
      ]

  -- The four counters together grow by the number of the intents.
  pub take_intents-accounted :
      (draws : Draws) (shut : Bool) (intents : List SignalIntent) (t : ℕ) (close : Float)
      (e : BacktestEngine)
      → accounted (take_intents draws shut intents t close e) ≡ accounted e + length intents
  unfolding take_intents
  take_intents-accounted draws shut [] t close e = omega arith
  take_intents-accounted draws shut (i ∷ is) t close e =
      let e' = take_intent draws shut i t close e in
      omega (
        arith,
        take_intents-accounted draws shut is t close e',
        take_intent-accounted draws shut i t close e,
      )

  pub change_at-length :
      (g : SimulatedPosition → SimulatedPosition) (ps : List SimulatedPosition) (n : ℕ)
      → length (change_at g ps n) ≡ length ps
  change_at-length g [] n = refl
  change_at-length g (p ∷ ps) zero = refl
  change_at-length g (p ∷ ps) (suc n) = ap suc (change_at-length g ps n)

  fill_close_at-length :
      (signal : BrokerSignal) (reason : Text) (t : ℕ) (close : Float) (at : Option ℕ)
      (e : BacktestEngine)
      → length (fill_close_at signal reason t close at e).positions ≡ length e.positions
  fill_close_at-length signal reason t close none e = refl
  fill_close_at-length signal reason t close (some n) e =
      elim (Bool-cases (is_some (held_at e.positions (some n)))) [
        | inl held ↦
            rw held (change_at-length (close_position signal reason t close e.costs) e.positions n)
        | inr gone ↦ rw gone refl
      ]

  book_build-no_entry :
      (i : SignalIntent) (t : ℕ) (close : Float) (e : BacktestEngine)
      (r : Result BuildError (SignalIntent × BrokerSignal))
      → is_entry i.action ≡ false
      → length (book_build i t close e r).positions ≡ length e.positions
  unfolding book_build
  book_build-no_entry i t close e (err x) other = rw other refl
  book_build-no_entry i t close e (ok (j, signal)) other =
      let e' = record e { signals = e.signals ++ signal ∷ [] } in
      rw other (
        unfold sync_cycle drop_closed fill fill_close in
        fill_close_at-length signal i.reason t close (lookup signal.signal_uxid e.opened) e')

  pub apply_intent-no_entry :
      (draws : Draws) (i : SignalIntent) (t : ℕ) (close : Float) (e : BacktestEngine)
      → is_entry i.action ≡ false
      → length (apply_intent draws i t close e).positions ≡ length e.positions
  unfolding apply_intent
  apply_intent-no_entry draws i t close e other =
      let n = applied e in
      let priced = record i { price = some (or_else i.price close) } in
      let out = build (draws.ids n) priced e.symbol t true (draws.moments n) e.factory in
      book_build-no_entry priced t close (record e { factory = out.0 }) out.1 other

  take_intent-shut :
      (draws : Draws) (i : SignalIntent) (t : ℕ) (close : Float) (e : BacktestEngine)
      → length (take_intent draws true i t close e).positions ≡ length e.positions
  unfolding take_intent
  take_intent-shut draws i t close e =
      if-both (λ e'. length e'.positions ≡ length e.positions) (is_entry i.action)
        (record e { blocked = e.blocked + 1 }) (apply_intent draws i t close e) (λ entry. refl)
        (λ other. apply_intent-no_entry draws i t close e other)

  -- While the calendar shuts the market no position is opened, whatever the strategy asks for.
  pub take_intents-shut :
      (draws : Draws) (intents : List SignalIntent) (t : ℕ) (close : Float) (e : BacktestEngine)
      → length (take_intents draws true intents t close e).positions ≡ length e.positions
  unfolding take_intents
  take_intents-shut draws [] t close e = refl
  take_intents-shut draws (i ∷ is) t close e =
      take_intents-shut draws is t close (take_intent draws true i t close e)
      ∙ take_intent-shut draws i t close e
