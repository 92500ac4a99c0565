-- ===== src/SignalFactory/Deliveries.antt =====
-- `SignalFactory.commit` of src/qte_shared/strategies/signal_factory.py and the cycles that a signal
-- does not name.
use quant_trading_engine.Floats.{Floats}
use quant_trading_engine.Models.{is_entry}
use quant_trading_engine.Models.Positions.{OpenPosition, apply_close}
use quant_trading_engine.Models.Signals.{BrokerSignal}
use quant_trading_engine.Prelude.{
  Bool-cases, Key-Text, Key-ℕ, Option, Option-cases, Text, [], arith, eq_iff, eq_self, erase, false,
  if◌then◌else◌, inl, inr, insert, is_some, lookup, lookup-erase, lookup-insert, none, or_else,
  refl, some, upper, upper-upper, ℕ, ◌&&◌, ◌==◌, ◌∙◌, ◌∷◌, ◌≡◌,
}
use quant_trading_engine.SignalFactory.{
  Cycles, SignalFactory, close_cycle, commit, commit_entry, cycles_of, drop_cycle, entry_position,
  forget_cycle, forget_one, is_applied, note_delivery, put_cycle,
}
use quant_trading_engine.Timeframes.{Key-Timeframe}

module _ ⦃F : Floats⦄ where
  -- The cycle that the book holds for a symbol, as it is spelled there, and an id.
  abbrev pub cycle_at : Text → Text → SignalFactory → Option OpenPosition
  cycle_at symbol uxid f = lookup uxid (cycles_of symbol f)

  lookup-nil :
      (u uxid : Text) → lookup u [] ≡ (if uxid == u then none else lookup {V = OpenPosition} u [])
  unfolding lookup
  lookup-nil u uxid = ground arith

  pub cycle_at-put_cycle :
      (symbol uxid s u : Text) (p : OpenPosition) (f : SignalFactory)
      → cycle_at s u (put_cycle symbol uxid p f)
        ≡ (if symbol == s && uxid == u then some p else cycle_at s u f)
  unfolding put_cycle
  cycle_at-put_cycle symbol uxid s u p f = ground (
    arith,
    lookup-insert s symbol (insert uxid p (cycles_of symbol f)) f.book,
    lookup-insert u uxid p (cycles_of symbol f),
    eq_iff symbol s,
  )

  cycle_at-drop_cycle :
      (key uxid s u : Text) (left : Cycles) (f : SignalFactory)
      → cycle_at s u (drop_cycle key uxid left f)
        ≡ (if key == s then lookup u left else cycle_at s u f)
  unfolding cycles_of lookup
  cycle_at-drop_cycle key uxid s u [] f = ground (arith, lookup-erase s key f.book)
  cycle_at-drop_cycle key uxid s u (e ∷ left) f =
      ground (arith, lookup-insert s key (e ∷ left) f.book)

  cycle_at-forget_one :
      (key uxid s u : Text) (f : SignalFactory)
      → cycle_at s u (forget_one key uxid (lookup key f.book) f)
        ≡ (if key == s && uxid == u then none else cycle_at s u f)
  unfolding cycles_of
  cycle_at-forget_one key uxid s u f = elim (Option-cases (lookup key f.book)) [
    | inl missing ↦ rw missing (elim (Bool-cases (key == s)) [
      | inl same ↦ rw (same, ← (eq_iff key s).0 same, missing) (lookup-nil u uxid)
      | inr other ↦ rw other refl
    ])
    | inr (cycles, found) ↦ rw found (
        cycle_at-drop_cycle key uxid s u (erase uxid cycles) f
        ∙ ground (arith, lookup-erase u uxid cycles, eq_iff key s))
  ]

  pub cycle_at-forget_cycle :
      (symbol uxid s u : Text) (f : SignalFactory)
      → cycle_at s u (forget_cycle symbol (some uxid) f)
        ≡ (if upper symbol == s && uxid == u then none else cycle_at s u f)
  unfolding forget_cycle
  cycle_at-forget_cycle symbol uxid s u f = cycle_at-forget_one (upper symbol) uxid s u f

  pub cycle_at-forget_cycle_self :
      (symbol uxid : Text) (f : SignalFactory)
      → cycle_at (upper symbol) uxid (forget_cycle (upper symbol) (some uxid) f) ≡ none
  cycle_at-forget_cycle_self symbol uxid f =
      cycle_at-forget_cycle (upper symbol) uxid (upper symbol) uxid f
      ∙ ground (arith, upper-upper symbol, eq_self (upper symbol), eq_self uxid)

  pub cycle_at-put_cycle_self :
      (symbol uxid : Text) (p : OpenPosition) (f : SignalFactory)
      → cycle_at symbol uxid (put_cycle symbol uxid p f) ≡ some p
  cycle_at-put_cycle_self symbol uxid p f =
      cycle_at-put_cycle symbol uxid symbol uxid p f ∙ ground (arith, eq_self symbol, eq_self uxid)

  commit_entry-other :
      (signal : BrokerSignal) (id : Option Text) (f : SignalFactory) (s u : Text)
      → (upper signal.symbol == s && signal.signal_uxid == u) ≡ false
      → cycle_at s u (commit_entry signal id f) ≡ cycle_at s u f
  unfolding commit_entry
  commit_entry-other signal id f s u other =
      let symbol = upper signal.symbol in
      let uxid = signal.signal_uxid in
      let scale = or_else (lookup symbol f.pending_scale) (F.of_ℕ 1) in
      let f' = record f { pending_scale = erase symbol f.pending_scale } in
      elim (Bool-cases (is_some (lookup uxid (cycles_of symbol f)))) [
        | inl known ↦ rw known refl
        | inr new ↦ rw new (
            cycle_at-put_cycle symbol uxid s u (entry_position signal scale id) f'
            ∙ rw other (unfold cycles_of in refl))
      ]

  close_cycle-other :
      (held : Option OpenPosition) (signal : BrokerSignal) (id : Option Text) (now : ℕ)
      (f : SignalFactory) (s u : Text)
      → (upper signal.symbol == s && signal.signal_uxid == u) ≡ false
      → cycle_at s u (close_cycle held signal id now f) ≡ cycle_at s u f
  unfolding close_cycle
  close_cycle-other none signal id now f s u other = refl
  close_cycle-other (some p) signal id now f s u other =
      let symbol = upper signal.symbol in
      let uxid = signal.signal_uxid in
      let (booked, is_over) = apply_close signal.position.action signal.position.quantity now p in
      elim (Bool-cases (is_applied id p)) [
        | inl applied ↦ rw applied refl
        | inr fresh ↦ rw fresh (elim (Bool-cases is_over) [
          | inl over ↦
              rw over (
                cycle_at-forget_cycle symbol uxid s u f
                ∙ rw (upper-upper signal.symbol, other) refl)
          | inr open_still ↦
              rw open_still
                (cycle_at-put_cycle symbol uxid s u (note_delivery id booked) f ∙ rw other refl)
        ])
      ]

  -- A delivered signal, entry or close, changes no cycle but the one that it names.
  pub commit-other :
      (signal : BrokerSignal) (id : Option Text) (now : ℕ) (f : SignalFactory) (s u : Text)
      → (upper signal.symbol == s && signal.signal_uxid == u) ≡ false
      → cycle_at s u (commit signal id now f) ≡ cycle_at s u f
  unfolding commit cycles_of
  commit-other signal id now f s u other =
      let symbol = upper signal.symbol in
      let uxid = signal.signal_uxid in
      elim (Bool-cases (is_entry signal.position.action)) [
        | inl entry ↦ rw entry (commit_entry-other signal id f s u other)
        | inr close ↦
            rw close
              (close_cycle-other (lookup uxid (cycles_of symbol f)) signal id now f s u other)
      ]
