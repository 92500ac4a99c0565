-- ===== src/SignalFactory/Filed.antt =====
-- Properties of the cycles of each symbol that every operation of
-- src/qte_shared/strategies/signal_factory.py keeps, and the one that the book is a dictionary of
-- cycles, each under its own id.
use quant_trading_engine.Floats.{Floats}
use quant_trading_engine.Models.{is_entry}
use quant_trading_engine.Models.Positions.{OpenPosition, apply_close}
use quant_trading_engine.Models.Signals.{BrokerSignal}
use quant_trading_engine.Prelude.{
  Bool-cases, Key-Text, Key-ℕ, Option, Option-cases, Text, [], arith, eq_iff, erase, if◌then◌else◌,
  inl, inr, insert, is_some, lookup, lookup-erase, lookup-insert, none, or_else, refl, some, upper,
  ℕ, ◌==◌, ◌∙◌, ◌∷◌, ◌≡◌,
}
use quant_trading_engine.SignalFactory.{
  Cycles, SignalFactory, close_cycle, commit, commit_entry, cycles_of, drop_cycle, entry_position,
  forget_cycle, forget_one, is_applied, note_delivery, put_cycle,
}
use quant_trading_engine.Timeframes.{Key-Timeframe}

module _ ⦃F : Floats⦄ where
  -- A property that holds of no cycles, that a cycle put under its own id and one taken out keep,
  -- and that says of each cycle that it stands under its own id.
  pub record IsKept (P : Cycles → Type 0) : Type 0 where
    pub nil : P []
    pub put :
        (u : Text) (p : OpenPosition) (d : Cycles) → p.signal_uxid ≡ u → P d → P (insert u p d)
    pub drop : (u : Text) (d : Cycles) → P d → P (erase u d)
    pub own :
        (u : Text) (p : OpenPosition) (d : Cycles) → P d → lookup u d ≡ some p → p.signal_uxid ≡ u

  abbrev pub Everywhere : (Cycles → Type 0) → SignalFactory → Type 0
  Everywhere P f = (s : Text) → P (cycles_of s f)

  cycles_of-put_cycle :
      (symbol u s : Text) (p : OpenPosition) (f : SignalFactory)
      → cycles_of s (put_cycle symbol u p f)
        ≡ (if symbol == s then insert u p (cycles_of symbol f) else cycles_of s f)
  unfolding cycles_of put_cycle
  cycles_of-put_cycle symbol u s p f =
      ground (arith, lookup-insert s symbol (insert u p (or_else (lookup symbol f.book) [])) f.book)

  cycles_of-drop_cycle :
      (key u s : Text) (left : Cycles) (f : SignalFactory)
      → cycles_of s (drop_cycle key u left f) ≡ (if key == s then left else cycles_of s f)
  unfolding cycles_of
  cycles_of-drop_cycle key u s [] f = ground (arith, lookup-erase s key f.book)
  cycles_of-drop_cycle key u s (e ∷ left) f = ground (arith, lookup-insert s key (e ∷ left) f.book)

  cycles_of-forget_one :
      (key u s : Text) (f : SignalFactory)
      → cycles_of s (forget_one key u (lookup key f.book) f)
        ≡ (if key == s then erase u (cycles_of s f) else cycles_of s f)
  unfolding cycles_of erase
  cycles_of-forget_one key u s f = elim (Option-cases (lookup key f.book)) [
    | inl gone ↦ rw gone (ground (arith, eq_iff key s))
    | inr (cycles, found) ↦
        rw found (cycles_of-drop_cycle key u s (erase u cycles) f ∙ ground (arith, eq_iff key s))
  ]

  pub cycles_of-forget_cycle :
      (symbol u s : Text) (f : SignalFactory)
      → cycles_of s (forget_cycle symbol (some u) f)
        ≡ (if upper symbol == s then erase u (cycles_of s f) else cycles_of s f)
  unfolding forget_cycle
  cycles_of-forget_cycle symbol u s f = cycles_of-forget_one (upper symbol) u s f

  module _ (P : Cycles → Type 0) (kept : IsKept P) where
    pub put_cycle-Everywhere :
        (symbol u : Text) (p : OpenPosition) (f : SignalFactory)
        → p.signal_uxid ≡ u
        → Everywhere P f
        → Everywhere P (put_cycle symbol u p f)
    put_cycle-Everywhere symbol u p f own all s =
        rw (cycles_of-put_cycle symbol u s p f) (elim (Bool-cases (symbol == s)) [
          | inl same ↦ rw same (kept.put u p (cycles_of symbol f) own (all symbol))
          | inr other ↦ rw other (all s)
        ])

    pub forget_cycle-Everywhere :
        (symbol u : Text) (f : SignalFactory)
        → Everywhere P f
        → Everywhere P (forget_cycle symbol (some u) f)
    forget_cycle-Everywhere symbol u f all s =
        rw (cycles_of-forget_cycle symbol u s f) (elim (Bool-cases (upper symbol == s)) [
          | inl same ↦ rw same (kept.drop u (cycles_of s f) (all s))
          | inr other ↦ rw other (all s)
        ])

    note_delivery-own :
        (id : Option Text) (p : OpenPosition) → (note_delivery id p).signal_uxid ≡ p.signal_uxid
    note_delivery-own none p = refl
    note_delivery-own (some id) p = refl

    close_cycle-Everywhere :
        (held : Option OpenPosition) (signal : BrokerSignal) (id : Option Text) (now : ℕ)
        (f : SignalFactory)
        → lookup signal.signal_uxid (cycles_of (upper signal.symbol) f) ≡ held
        → Everywhere P f
        → Everywhere P (close_cycle held signal id now f)
    unfolding close_cycle
    close_cycle-Everywhere none signal id now f found all = all
    close_cycle-Everywhere (some p) signal id now f found all =
        let symbol = upper signal.symbol in
        let u = signal.signal_uxid in
        let (booked, is_over) = apply_close signal.position.action signal.position.quantity now p in
        let own : p.signal_uxid ≡ u = kept.own u p (cycles_of symbol f) (all symbol) found in
        let same : booked.signal_uxid ≡ p.signal_uxid = (unfold apply_close in refl) in
        elim (Bool-cases (is_applied id p)) [
          | inl applied ↦ rw applied all
          | inr fresh ↦ rw fresh (elim (Bool-cases is_over) [
            | inl over ↦ rw over (forget_cycle-Everywhere symbol u f all)
            | inr left ↦ rw left (
                put_cycle-Everywhere symbol u (note_delivery id booked) f
                  (note_delivery-own id booked ∙ same ∙ own) all)
          ])
        ]

    commit_entry-Everywhere :
        (signal : BrokerSignal) (id : Option Text) (f : SignalFactory)
        → Everywhere P f
        → Everywhere P (commit_entry signal id f)
    unfolding commit_entry
    commit_entry-Everywhere signal id f all =
        let symbol = upper signal.symbol in
        let u = signal.signal_uxid in
        let scale = or_else (lookup symbol f.pending_scale) (F.of_ℕ 1) in
        let f' = record f { pending_scale = erase symbol f.pending_scale } in
        elim (Bool-cases (is_some (lookup u (cycles_of symbol f)))) [
          | inl known ↦ rw known all
          | inr new ↦ rw new (
              put_cycle-Everywhere symbol u (entry_position signal scale id) f'
                (unfold entry_position in refl) (unfold cycles_of in all))
        ]

    pub commit-Everywhere :
        (signal : BrokerSignal) (id : Option Text) (now : ℕ) (f : SignalFactory)
        → Everywhere P f
        → Everywhere P (commit signal id now f)
    unfolding commit
    commit-Everywhere signal id now f all =
        let held = lookup signal.signal_uxid (cycles_of (upper signal.symbol) f) in
        elim (Bool-cases (is_entry signal.position.action)) [
          | inl entry ↦ rw entry (commit_entry-Everywhere signal id f all)
          | inr close ↦ rw close (close_cycle-Everywhere held signal id now f refl all)
        ]
