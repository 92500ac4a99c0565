-- ===== src/SignalFactory/Keyed.antt =====
-- The ids that the book of src/qte_shared/strategies/signal_factory.py files cycles under.
use quant_trading_engine.Floats.{Floats}
use quant_trading_engine.Models.{is_entry}
use quant_trading_engine.Models.Positions.{OpenPosition, apply_close}
use quant_trading_engine.Models.Signals.{BrokerSignal}
use quant_trading_engine.Prelude.{
  Bool-cases, Key-Text, Key-ℕ, Option, Text, arith, eq_iff, erase, inl, inr, is_some, lookup, none,
  or_else, refl, some, upper, ℕ, ◌∙◌, ◌≡◌,
}
use quant_trading_engine.SignalFactory.{
  SignalFactory, close_cycle, commit, commit_entry, cycles_of, entry_position, forget_cycle,
  is_applied, note_delivery, put_cycle,
}
use quant_trading_engine.SignalFactory.Deliveries.{
  cycle_at, cycle_at-forget_cycle, cycle_at-put_cycle,
}
use quant_trading_engine.Timeframes.{Key-Timeframe}

module _ ⦃F : Floats⦄ where
  abbrev pub IsKeyed : SignalFactory → Type 0
  IsKeyed f =
      (symbol uxid : Text) (p : OpenPosition)
      → cycle_at symbol uxid f ≡ some p
      → p.signal_uxid ≡ uxid

  put_cycle-IsKeyed :
      (symbol uxid : Text) (p : OpenPosition) (f : SignalFactory)
      → p.signal_uxid ≡ uxid
      → IsKeyed f
      → IsKeyed (put_cycle symbol uxid p f)
  put_cycle-IsKeyed symbol uxid p f own keyed s u q found =
      ground (arith, cycle_at-put_cycle symbol uxid s u p f, keyed s u q, eq_iff uxid u)

  forget_cycle-IsKeyed :
      (symbol uxid : Text) (f : SignalFactory)
      → IsKeyed f
      → IsKeyed (forget_cycle symbol (some uxid) f)
  forget_cycle-IsKeyed symbol uxid f keyed s u q found =
      ground (arith, cycle_at-forget_cycle symbol uxid s u f, keyed s u q)

  note_delivery-uxid :
      (id : Option Text) (p : OpenPosition) → (note_delivery id p).signal_uxid ≡ p.signal_uxid
  note_delivery-uxid none p = refl
  note_delivery-uxid (some id) p = refl

  close_cycle-IsKeyed :
      (held : Option OpenPosition) (signal : BrokerSignal) (id : Option Text) (now : ℕ)
      (f : SignalFactory)
      → cycle_at (upper signal.symbol) signal.signal_uxid f ≡ held
      → IsKeyed f
      → IsKeyed (close_cycle held signal id now f)
  unfolding close_cycle
  close_cycle-IsKeyed none signal id now f found keyed = keyed
  close_cycle-IsKeyed (some p) signal id now f found keyed =
      let symbol = upper signal.symbol in
      let uxid = signal.signal_uxid in
      let (booked, is_over) = apply_close signal.position.action signal.position.quantity now p in
      let own : p.signal_uxid ≡ uxid = keyed symbol uxid p found in
      let same : booked.signal_uxid ≡ p.signal_uxid = (unfold apply_close in refl) in
      elim (Bool-cases (is_applied id p)) [
        | inl applied ↦ rw applied keyed
        | inr fresh ↦ rw fresh (elim (Bool-cases is_over) [
          | inl over ↦ rw over (forget_cycle-IsKeyed symbol uxid f keyed)
          | inr left ↦ rw left (
              put_cycle-IsKeyed symbol uxid (note_delivery id booked) f
                (note_delivery-uxid id booked ∙ same ∙ own) keyed)
        ])
      ]

  commit_entry-IsKeyed :
      (signal : BrokerSignal) (id : Option Text) (f : SignalFactory)
      → IsKeyed f
      → IsKeyed (commit_entry signal id f)
  unfolding commit_entry
  commit_entry-IsKeyed signal id f keyed =
      let symbol = upper signal.symbol in
      let uxid = signal.signal_uxid in
      let scale = or_else (lookup symbol f.pending_scale) (F.of_ℕ 1) in
      let f' = record f { pending_scale = erase symbol f.pending_scale } in
      elim (Bool-cases (is_some (lookup uxid (cycles_of symbol f)))) [
        | inl known ↦ rw known keyed
        | inr new ↦ rw new (
            put_cycle-IsKeyed symbol uxid (entry_position signal scale id) f'
              (unfold entry_position in refl) (unfold cycles_of in keyed))
      ]

  -- A delivered signal, entry or close, keeps every cycle of the book filed under its own id.
  pub commit-IsKeyed :
      (signal : BrokerSignal) (id : Option Text) (now : ℕ) (f : SignalFactory)
      → IsKeyed f
      → IsKeyed (commit signal id now f)
  unfolding commit cycles_of
  commit-IsKeyed signal id now f keyed =
      let held = cycle_at (upper signal.symbol) signal.signal_uxid f in
      elim (Bool-cases (is_entry signal.position.action)) [
        | inl entry ↦ rw entry (commit_entry-IsKeyed signal id f keyed)
        | inr close ↦ rw close (close_cycle-IsKeyed held signal id now f refl keyed)
      ]
