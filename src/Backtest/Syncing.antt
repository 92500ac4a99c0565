-- ===== src/Backtest/Syncing.antt =====
-- `_sync_cycle` of src/qte_backtest/replay.py: what it leaves in the factory's book.
use quant_trading_engine.Backtest.{
  BacktestEngine, filled, sync_all, sync_cycle, sync_with, with_fill,
}
use quant_trading_engine.Execution.{SimulatedPosition}
use quant_trading_engine.Floats.{Decimals, Floats}
use quant_trading_engine.Models.Positions.{OpenPosition}
use quant_trading_engine.Prelude.{
  Bool-cases, Key-Text, Key-ℕ, Option, Option-cases, Text, [], ap, arith, eq_iff, eq_self,
  if◌then◌else◌, inl, inr, is_some, lookup, none, refl, some, sym, upper, ◌&&◌, ◌==◌, ◌∙◌, ◌∷◌, ◌≡◌,
}
use quant_trading_engine.SignalFactory.{Cycles, SignalFactory, cycles_of}
use quant_trading_engine.SignalFactory.Deliveries.{cycle_at-forget_cycle, cycle_at-put_cycle}
use quant_trading_engine.SignalFactory.Filed.{
  Everywhere, IsKept, forget_cycle-Everywhere, put_cycle-Everywhere,
}
use quant_trading_engine.SignalFactory.OwnIds.{OwnIds}
use quant_trading_engine.Timeframes.{Key-Timeframe}

module _ ⦃F : Floats⦄ ⦃D : Decimals⦄ where
  -- What becomes of a cycle, from the open position that the replay holds for its id.
  abbrev pub synced : Option SimulatedPosition → Option OpenPosition → Option OpenPosition
  synced none p = none
  synced (some q) none = none
  synced (some q) (some p) = some (with_fill q p)

  sync_with-cycles :
      (symbol u s v : Text) (p : OpenPosition) (q : Option SimulatedPosition) (f : SignalFactory)
      → p.signal_uxid ≡ u
      → lookup v (cycles_of s (sync_with symbol u p q f)) ≡ (
          if upper symbol == s && u == v
          then synced q (lookup v (cycles_of s f))
          else lookup v (cycles_of s f))
  sync_with-cycles symbol u s v p none f own = rw own (cycle_at-forget_cycle symbol u s v f)
  sync_with-cycles symbol u s v p (some q) f own =
      elim (Option-cases (lookup u (cycles_of (upper symbol) f))) [
        | inl gone ↦ rw gone (ground (arith, eq_iff (upper symbol) s, eq_iff u v))
        | inr (r, found) ↦ rw found (
            cycle_at-put_cycle (upper symbol) u s v (with_fill q r) f
            ∙ ground (arith, eq_iff (upper symbol) s, eq_iff u v))
      ]

  sync_with-own :
      (held : Text → Option SimulatedPosition) (symbol u s v : Text) (p : OpenPosition)
      (f : SignalFactory)
      → p.signal_uxid ≡ u
      → lookup v (cycles_of s (sync_with symbol u p (held p.signal_uxid) f)) ≡ (
          if upper symbol == s && u == v
          then synced (held v) (lookup v (cycles_of s f))
          else lookup v (cycles_of s f))
  sync_with-own held symbol u s v p f own =
      let it = sync_with-cycles symbol u s v p (held p.signal_uxid) f own in
      elim (Bool-cases (u == v)) [
        | inl same ↦
            let at_v : held p.signal_uxid ≡ held v = ap held (own ∙ (eq_iff u v).0 same) in
            ground (arith, it, at_v)
        | inr other ↦ ground (arith, it)
      ]

  sync_all-cycles :
      (symbol : Text) (held : Text → Option SimulatedPosition) (entries : Cycles)
      (f : SignalFactory) (s v : Text)
      → OwnIds entries
      → lookup v (cycles_of s (sync_all symbol held entries f)) ≡ (
          if upper symbol == s && is_some (lookup v entries)
          then synced (held v) (lookup v (cycles_of s f))
          else lookup v (cycles_of s f))
  unfolding sync_all lookup
  sync_all-cycles symbol held [] f s v own = ground arith
  sync_all-cycles symbol held ((u, p) ∷ entries) f s v (o, fresh, own) =
      let f' = sync_with symbol u p (held p.signal_uxid) f in
      sync_all-cycles symbol held entries f' s v own
      ∙ ground (arith, sync_with-own held symbol u s v p f o, eq_iff u v, fresh)

  -- What the replay holds of a cycle: an open position with its remaining size and first target.
  abbrev pub Agrees : OpenPosition → Option SimulatedPosition → Type 0
  Agrees p none = ⊥
  Agrees p (some q) = (p.remaining ≡ some q.remaining) × (p.tp1_filled ≡ q.tp1_filled)

  -- Each cycle that the factory holds for the symbol is an open position of the replay.
  abbrev pub InSync : BacktestEngine → Type 0
  InSync e =
      (u : Text) (p : OpenPosition)
      → lookup u (cycles_of (upper e.symbol) e.factory) ≡ some p
      → Agrees p (filled e u)

  synced-Agrees :
      (q : Option SimulatedPosition) (r : Option OpenPosition) (p : OpenPosition)
      → synced q r ≡ some p
      → Agrees p q
  synced-Agrees none r p at_p = absurd (cc at_p)
  synced-Agrees (some q) none p at_p = absurd (cc at_p)
  synced-Agrees (some q) (some r) p at_p =
      let it : with_fill q r ≡ p = cc at_p in
      (ap (λ x. x.remaining) (sym it), ap (λ x. x.tp1_filled) (sym it))

  synced-cases :
      (q : Option SimulatedPosition) (r : Option OpenPosition)
      → (if is_some r then synced q r else r) ≡ synced q r
  synced-cases none none = refl
  synced-cases none (some r) = refl
  synced-cases (some q) none = refl
  synced-cases (some q) (some r) = refl

  sync_cycle-cycles :
      (e : BacktestEngine) (u : Text)
      → OwnIds (cycles_of (upper e.symbol) e.factory)
      → lookup u (cycles_of (upper e.symbol) (sync_cycle e).factory)
        ≡ synced (filled e u) (lookup u (cycles_of (upper e.symbol) e.factory))
  unfolding sync_cycle
  sync_cycle-cycles e u own =
      let entries = cycles_of (upper e.symbol) e.factory in
      sync_all-cycles e.symbol (filled e) entries e.factory (upper e.symbol) u own
      ∙ (rw (eq_self (upper e.symbol)) (synced-cases (filled e u) (lookup u entries)))

  pub sync_cycle-InSync :
      (e : BacktestEngine) → OwnIds (cycles_of (upper e.symbol) e.factory) → InSync (sync_cycle e)
  unfolding sync_cycle filled
  sync_cycle-InSync e own u p found =
      let before = lookup u (cycles_of (upper e.symbol) e.factory) in
      synced-Agrees (filled e u) before p (sym (sync_cycle-cycles e u own) ∙ found)

module _ ⦃F : Floats⦄ ⦃D : Decimals⦄ (P : Cycles → Type 0) (kept : IsKept P) where
  sync_with-Everywhere :
      (symbol u : Text) (p : OpenPosition) (q : Option SimulatedPosition) (f : SignalFactory)
      → Everywhere P f
      → Everywhere P (sync_with symbol u p q f)
  sync_with-Everywhere symbol u p none f all =
      forget_cycle-Everywhere P kept symbol p.signal_uxid f all
  sync_with-Everywhere symbol u p (some q) f all =
      elim (Option-cases (lookup u (cycles_of (upper symbol) f))) [
        | inl gone ↦ rw gone all
        | inr (r, found) ↦ rw found (
            put_cycle-Everywhere P kept (upper symbol) u (with_fill q r) f
              (kept.own u r (cycles_of (upper symbol) f) (all (upper symbol)) found) all)
      ]

  sync_all-Everywhere :
      (symbol : Text) (held : Text → Option SimulatedPosition) (entries : Cycles)
      (f : SignalFactory)
      → Everywhere P f
      → Everywhere P (sync_all symbol held entries f)
  unfolding sync_all
  sync_all-Everywhere symbol held [] f all = all
  sync_all-Everywhere symbol held ((u, p) ∷ entries) f all =
      let f' = sync_with symbol u p (held p.signal_uxid) f in
      sync_all-Everywhere symbol held entries f'
        (sync_with-Everywhere symbol u p (held p.signal_uxid) f all)

  pub sync_cycle-Everywhere :
      (e : BacktestEngine) → Everywhere P e.factory → Everywhere P (sync_cycle e).factory
  unfolding sync_cycle
  sync_cycle-Everywhere e all =
      sync_all-Everywhere e.symbol (filled e) (cycles_of (upper e.symbol) e.factory) e.factory all
