-- ===== src/Backtest/Told.antt =====
-- The loop over the bars of src/qte_backtest/replay.py from a new engine, and what a strategy is
-- told of the open cycles.
use quant_trading_engine.Backtest.{BacktestEngine, filled}
use quant_trading_engine.Backtest.Applying.{Tracks, replay-Tracks, start_bar-Tracks}
use quant_trading_engine.Backtest.Running.{new_engine}
use quant_trading_engine.Backtest.Strategy.{
  Draws, Row, Strategy, context_at, replay, start_bar, turn,
}
use quant_trading_engine.Backtest.Syncing.{Agrees, InSync}
use quant_trading_engine.Execution.{Bar, CostModel, SimulatedPosition}
use quant_trading_engine.Floats.{Decimals, Float, Floats}
use quant_trading_engine.Models.Positions.{OpenPosition}
use quant_trading_engine.Prelude.{
  All, Bool-cases, Key-Text, Key-ℕ, List, Option, Text, [], ap, append-nil, append_assoc, inl, inr,
  is_some, lookup, lookup-head, map, none, refl, some, sym, true, upper, ℕ, ◌++◌, ◌==◌, ◌∙◌, ◌∷◌,
  ◌≡◌,
}
use quant_trading_engine.SignalFactory.{Cycles, SignalFactory, cycles_of, open_cycles}
use quant_trading_engine.StrategySettings.{WeekendFlatPolicy}
use quant_trading_engine.Timeframes.{Key-Timeframe}

module _ ⦃F : Floats⦄ ⦃D : Decimals⦄ where
  abbrev pub IsHeld : BacktestEngine → Text → Type 0
  IsHeld e u = is_some (filled e u) ≡ true

  Agrees-held : (p : OpenPosition) (q : Option SimulatedPosition) → Agrees p q → is_some q ≡ true
  Agrees-held p none h = absurd h
  Agrees-held p (some q) h = refl

  keys-All :
      (P : Text → Type 0) (d : Cycles)
      → ((u : Text) (p : OpenPosition) → lookup u d ≡ some p → P u)
      → All P (map (λ x. x.0) d)
  keys-All P [] h = tt
  keys-All P ((v, q) ∷ d) h = (
    h v q (lookup-head v q d),
    keys-All P d (λ u p found. elim (Bool-cases (v == u)) [
      | inl same ↦ h u q (unfold lookup in rw same refl)
      | inr other ↦ h u p (unfold lookup in rw other found)
    ]),
  )

  open_cycles-IsHeld :
      (t : ℕ) (e : BacktestEngine) → InSync e → All (IsHeld e) (context_at t e).open_uxids
  unfolding context_at open_cycles
  open_cycles-IsHeld t e agree =
      keys-All (IsHeld e) (cycles_of (upper e.symbol) e.factory)
        (λ u p found. Agrees-held p (filled e u) (agree u p found))

  new_engine-Tracks :
      (symbol : Text) (costs : CostModel) (quantity : Float) (policy : WeekendFlatPolicy)
      (f : SignalFactory)
      → f.book ≡ []
      → Tracks (new_engine symbol costs quantity policy f)
  unfolding new_engine cycles_of filled lookup
  new_engine-Tracks symbol costs quantity policy f empty =
      rw empty ((λ s. tt), (λ u p found. absurd (cc found)))

  module _ {ℓ} {State : Type ℓ} (strategy : Strategy State) (zone : ℕ → ℕ) (draws : Draws) where
    -- From a factory that holds nothing, after any number of bars: each cycle of the book stands
    -- under its own id, and each cycle of the symbol is an open simulated position that has the same
    -- size left and whose first target has been filled exactly if the cycle says so.
    pub replay-InSync :
        (window : Option ℕ) (seen rows : List Row) (s : State) (symbol : Text) (costs : CostModel)
        (quantity : Float) (policy : WeekendFlatPolicy) (f : SignalFactory)
        → f.book ≡ []
        → Tracks
            (replay strategy zone draws window seen rows
              (s, new_engine symbol costs quantity policy f)).1
    replay-InSync window seen rows s symbol costs quantity policy f empty =
        replay-Tracks strategy zone draws window seen rows s
          (new_engine symbol costs quantity policy f)
          (new_engine-Tracks symbol costs quantity policy f empty)

    -- From a factory that holds nothing, after any number of bars and at whatever bar comes next:
    -- each cycle that the strategy is told is open has a position that is still open once the stops
    -- and targets of that bar have been applied.
    pub told_open :
        (window : Option ℕ) (seen rows : List Row) (s : State) (symbol : Text) (costs : CostModel)
        (quantity : Float) (policy : WeekendFlatPolicy) (f : SignalFactory) (t : ℕ) (bar : Bar)
        → f.book ≡ []
        → (let e =
              (replay strategy zone draws window seen rows
                (s, new_engine symbol costs quantity policy f)).1 in
            All (IsHeld (start_bar bar t e)) (context_at t (start_bar bar t e)).open_uxids)
    told_open window seen rows s symbol costs quantity policy f t bar empty =
        let e =
          (replay strategy zone draws window seen rows
            (s, new_engine symbol costs quantity policy f)).1 in
        let tracks = replay-InSync window seen rows s symbol costs quantity policy f empty in
        open_cycles-IsHeld t (start_bar bar t e) (start_bar-Tracks bar t e tracks.0).1

    -- The bars of a run are taken in order, and what the run has done up to a bar is the same
    -- whatever bars come later.
    pub replay-append :
        (window : Option ℕ) (seen rows later : List Row) (s : State) (e : BacktestEngine)
        → replay strategy zone draws window seen (rows ++ later) (s, e)
          ≡ replay strategy zone draws window
              (seen ++ rows)
              later
              (replay strategy zone draws window seen rows (s, e))
    unfolding replay
    replay-append window seen [] later s e =
        ap (λ before. replay strategy zone draws window before later (s, e)) (sym (append-nil seen))
    replay-append window seen (row ∷ rows) later s e =
        let seen' = seen ++ row ∷ [] in
        let (s', e') = turn strategy zone draws window seen' row (s, e) in
        replay-append window seen' rows later s' e'
        ∙ ap
            (λ before.
              replay strategy zone draws window before later
                (replay strategy zone draws window seen' rows (s', e')))
            (append_assoc seen (row ∷ []) rows)
