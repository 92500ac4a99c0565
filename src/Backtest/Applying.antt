-- ===== src/Backtest/Applying.antt =====
-- `_apply` and the loop over the bars of src/qte_backtest/replay.py: the factory's book beside the
-- open positions.
use quant_trading_engine.Backtest.{
  BacktestEngine, drop_closed, fill_close, fill_close_at, fill_entry, filled, held_at, sync_cycle,
}
use quant_trading_engine.Backtest.Strategy.{
  Draws, Row, Strategy, act, applied, apply_intent, book_build, context_at, fill, flat_intent,
  flatten, last_rows, refuse, replay, start_bar, take_intent, take_intents, turn, walk_open,
}
use quant_trading_engine.Backtest.Syncing.{InSync, sync_cycle-Everywhere, sync_cycle-InSync}
use quant_trading_engine.Execution.{Bar}
use quant_trading_engine.Floats.{Decimals, Float, Floats}
use quant_trading_engine.Models.{is_entry}
use quant_trading_engine.Models.Signals.{BrokerSignal}
use quant_trading_engine.Prelude.{
  Bool, Bool-cases, Key-Text, Key-ℕ, List, Option, Result, Text, [], err, false, inl, inr, is_some,
  lookup, map, none, ok, or_else, refl, some, true, upper, ℕ, ◌&&◌, ◌++◌, ◌∷◌, ◌≡◌,
}
use quant_trading_engine.SignalFactory.{SignalFactory, cycles_of, open_cycles}
use quant_trading_engine.SignalFactory.Building.{build}
use quant_trading_engine.SignalFactory.Filed.{Everywhere}
use quant_trading_engine.SignalFactory.Intents.{SignalIntent}
use quant_trading_engine.SignalFactory.OwnIds.{OwnIds, OwnIds-IsKept, build-Everywhere}
use quant_trading_engine.SignalFactory.Preparing.{BuildError}
use quant_trading_engine.SignalFactory.Untouched.{build_keeps_book}
use quant_trading_engine.StrategySettings.{covers}
use quant_trading_engine.Timeframes.{Key-Timeframe}

module _ ⦃F : Floats⦄ ⦃D : Decimals⦄ where
  fill_close_at-factory :
      (signal : BrokerSignal) (reason : Text) (t : ℕ) (close : Float) (at : Option ℕ)
      (e : BacktestEngine)
      → (fill_close_at signal reason t close at e).factory ≡ e.factory
  fill_close_at-factory signal reason t close none e = refl
  fill_close_at-factory signal reason t close (some n) e =
      elim (Bool-cases (is_some (held_at e.positions (some n)))) [
        | inl held ↦ rw held refl
        | inr gone ↦ rw gone refl
      ]

  fill-factory :
      (entry : Bool) (signal : BrokerSignal) (reason : Text) (t : ℕ) (close : Float)
      (e : BacktestEngine)
      → (fill entry signal reason t close e).factory ≡ e.factory
  unfolding fill
  fill-factory true signal reason t close e = unfold fill_entry in refl
  fill-factory false signal reason t close e =
      unfold fill_close in
      fill_close_at-factory signal reason t close (lookup signal.signal_uxid e.opened) e

  -- The cycles stand under their own ids, and each of the symbol's is an open position.
  abbrev pub Tracks : BacktestEngine → Type 0
  Tracks e = Everywhere OwnIds e.factory × InSync e

  abbrev pub resynced : BacktestEngine → BacktestEngine
  resynced e = sync_cycle (drop_closed e)

  resynced-Tracks : (e : BacktestEngine) → Everywhere OwnIds e.factory → Tracks (resynced e)
  resynced-Tracks e all =
      let e' = drop_closed e in
      let all' : Everywhere OwnIds e'.factory = (unfold drop_closed in all) in
      (
        sync_cycle-Everywhere OwnIds OwnIds-IsKept e' all',
        sync_cycle-InSync e' (all' (upper e'.symbol)),
      )

  pub start_bar-Tracks :
      (bar : Bar) (t : ℕ) (e : BacktestEngine)
      → Everywhere OwnIds e.factory
      → Tracks (start_bar bar t e)
  unfolding start_bar
  start_bar-Tracks bar t e all =
      resynced-Tracks (record e { positions = walk_open e.costs bar t e.opened e.positions }) all

  same_book-Tracks :
      (e : BacktestEngine) (f : SignalFactory)
      → f.book ≡ e.factory.book
      → Tracks e
      → Tracks (record e { factory = f })
  unfolding cycles_of filled
  same_book-Tracks e f same (all, agree) = rw same (all, agree)

  refuse-Tracks : (entry : Bool) (e : BacktestEngine) → Tracks e → Tracks (refuse entry e)
  unfolding filled
  refuse-Tracks true e h = h
  refuse-Tracks false e h = h

  book_build-Tracks :
      (i : SignalIntent) (t : ℕ) (close : Float) (e : BacktestEngine)
      (r : Result BuildError (SignalIntent × BrokerSignal))
      → Everywhere OwnIds e.factory
      → ((x : BuildError) → r ≡ err x → Tracks e)
      → Tracks (book_build i t close e r)
  unfolding book_build
  book_build-Tracks i t close e (err x) all refused =
      refuse-Tracks (is_entry i.action) e (refused x refl)
  book_build-Tracks i t close e (ok (j, signal)) all refused =
      let e' = record e { signals = e.signals ++ signal ∷ [] } in
      let same = fill-factory (is_entry i.action) signal i.reason t close e' in
      resynced-Tracks (fill (is_entry i.action) signal i.reason t close e') (rw same all)

  pub apply_intent-Tracks :
      (draws : Draws) (i : SignalIntent) (t : ℕ) (close : Float) (e : BacktestEngine)
      → Tracks e
      → Tracks (apply_intent draws i t close e)
  unfolding apply_intent
  apply_intent-Tracks draws i t close e (all, agree) =
      let n = applied e in
      let priced = record i { price = some (or_else i.price close) } in
      let out = build (draws.ids n) priced e.symbol t true (draws.moments n) e.factory in
      book_build-Tracks priced t close (record e { factory = out.0 }) out.1
        (build-Everywhere OwnIds OwnIds-IsKept (draws.ids n) priced e.symbol t true
          (draws.moments n) e.factory all)
        (λ x refused.
          same_book-Tracks e out.0
            (build_keeps_book (draws.ids n) priced e.symbol t true (draws.moments n) e.factory
              (inr (x, refused)))
            (all, agree))

  take_intents-Tracks :
      (draws : Draws) (shut : Bool) (intents : List SignalIntent) (t : ℕ) (close : Float)
      (e : BacktestEngine)
      → Tracks e
      → Tracks (take_intents draws shut intents t close e)
  unfolding take_intents take_intent
  take_intents-Tracks draws shut [] t close e h = h
  take_intents-Tracks draws shut (i ∷ is) t close e h =
      take_intents-Tracks draws shut is t close (take_intent draws shut i t close e)
        (elim (Bool-cases (shut && is_entry i.action)) [
          | inl blocked ↦ rw blocked (unfold filled in h)
          | inr let_in ↦ rw let_in (apply_intent-Tracks draws i t close e h)
        ])

  act-Tracks :
      (draws : Draws) (shut : Bool) (intents : List SignalIntent) (row : Row) (e : BacktestEngine)
      → Tracks e
      → Tracks (act draws shut intents row e)
  unfolding act flatten
  act-Tracks draws true intents (t, bar) e h =
      let e' = take_intents draws true intents t bar.close e in
      take_intents-Tracks draws false
        (map (flat_intent e'.symbol bar.close) (open_cycles e'.symbol e'.factory)) t bar.close e'
        (take_intents-Tracks draws true intents t bar.close e h)
  act-Tracks draws false intents (t, bar) e h =
      take_intents-Tracks draws false intents t bar.close e h

  module _ {ℓ} {State : Type ℓ} (strategy : Strategy State) (zone : ℕ → ℕ) (draws : Draws) where
    turn-Tracks :
        (window : Option ℕ) (seen : List Row) (row : Row) (s : State) (e : BacktestEngine)
        → Tracks e
        → Tracks (turn strategy zone draws window seen row (s, e)).1
    unfolding turn
    turn-Tracks window seen (t, bar) s e h =
        let e' = start_bar bar t e in
        let decided = strategy.on_candle_closed (last_rows window seen) (context_at t e') s in
        act-Tracks draws (covers e.weekend_flat (zone t)) decided.1 (t, bar) e'
          (start_bar-Tracks bar t e h.0)

    pub replay-Tracks :
        (window : Option ℕ) (seen rows : List Row) (s : State) (e : BacktestEngine)
        → Tracks e
        → Tracks (replay strategy zone draws window seen rows (s, e)).1
    unfolding replay
    replay-Tracks window seen [] s e h = h
    replay-Tracks window seen (row ∷ rows) s e h =
        let seen' = seen ++ row ∷ [] in
        let (s', e') = turn strategy zone draws window seen' row (s, e) in
        replay-Tracks window seen' rows s' e' (turn-Tracks window seen' row s e h)
