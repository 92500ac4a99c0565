-- ===== src/SignalFactory/Replay.antt =====
-- `SignalFactory.commit` of src/qte_shared/strategies/signal_factory.py on a delivery that is replayed
-- after a crash.
use quant_trading_engine.Floats.{Floats}
use quant_trading_engine.Models.{is_entry}
use quant_trading_engine.Models.Positions.{OpenPosition, apply_close}
use quant_trading_engine.Models.Signals.{BrokerSignal}
use quant_trading_engine.Prelude.{
  Bool-cases, Key-Text, Key-ℕ, List, Option, Text, [], arith, eq_self, erase, inl, inr, is_some,
  lookup, none, or_else, refl, some, true, upper, upper-upper, ℕ, ◌++◌, ◌∷◌, ◌≡◌,
}
use quant_trading_engine.SignalFactory.{
  SignalFactory, close_cycle, commit, commit_entry, contains, cycles_of, entry_position, is_applied,
  note_delivery,
}
use quant_trading_engine.SignalFactory.Deliveries.{
  cycle_at, cycle_at-forget_cycle, cycle_at-put_cycle,
}
use quant_trading_engine.Timeframes.{Key-Timeframe}

module _ ⦃F : Floats⦄ where
  contains-append : (id : Text) (ids : List Text) → contains id (ids ++ id ∷ []) ≡ true
  unfolding contains
  contains-append id [] = ground (arith, eq_self id)
  contains-append id (i ∷ ids) = ground (arith, contains-append id ids)

  is_applied-note_delivery :
      (id : Text) (p : OpenPosition) → is_applied (some id) (note_delivery (some id) p) ≡ true
  unfolding is_applied
  is_applied-note_delivery id p = contains-append id p.applied_delivery_ids

  -- Once the book holds a cycle to which the delivery was applied, or none, closing does nothing.
  abbrev IsSettled : Text → Option OpenPosition → Type 0
  IsSettled id none = Unit
  IsSettled id (some p) = is_applied (some id) p ≡ true

  close_cycle-IsSettled :
      (held : Option OpenPosition) (signal : BrokerSignal) (id : Text) (now : ℕ) (f : SignalFactory)
      → IsSettled id held
      → close_cycle held signal (some id) now f ≡ f
  unfolding close_cycle
  close_cycle-IsSettled none signal id now f h = refl
  close_cycle-IsSettled (some p) signal id now f h = rw h refl

  close_cycle-settles :
      (held : Option OpenPosition) (signal : BrokerSignal) (id : Text) (now : ℕ) (f : SignalFactory)
      → cycle_at (upper signal.symbol) signal.signal_uxid f ≡ held
      → IsSettled id (
          cycle_at
            (upper signal.symbol)
            signal.signal_uxid
            (close_cycle held signal (some id) now f))
  unfolding close_cycle
  close_cycle-settles none signal id now f found = rw found tt
  close_cycle-settles (some p) signal id now f found =
      let symbol = upper signal.symbol in
      let uxid = signal.signal_uxid in
      let (booked, is_over) = apply_close signal.position.action signal.position.quantity now p in
      elim (Bool-cases (is_applied (some id) p)) [
        | inl applied ↦ rw (applied, found) applied
        | inr fresh ↦ rw fresh (elim (Bool-cases is_over) [
          | inl over ↦ rw over (
              rw
                (
                  cycle_at-forget_cycle symbol uxid symbol uxid f,
                  upper-upper signal.symbol,
                  eq_self symbol,
                  eq_self uxid,
                )
                tt)
          | inr left ↦ rw left (
              rw
                (
                  cycle_at-put_cycle symbol uxid symbol uxid (note_delivery (some id) booked) f,
                  eq_self symbol,
                  eq_self uxid,
                )
                (is_applied-note_delivery id booked))
        ])
      ]

  commit_entry-opens :
      (signal : BrokerSignal) (id : Option Text) (f : SignalFactory)
      → is_some (cycle_at (upper signal.symbol) signal.signal_uxid (commit_entry signal id f))
        ≡ true
  unfolding commit_entry
  commit_entry-opens signal id f =
      let symbol = upper signal.symbol in
      let uxid = signal.signal_uxid in
      let scale = or_else (lookup symbol f.pending_scale) (F.of_ℕ 1) in
      let f' = record f { pending_scale = erase symbol f.pending_scale } in
      elim (Bool-cases (is_some (lookup uxid (cycles_of symbol f)))) [
        | inl known ↦ rw known (unfold cycles_of in known)
        | inr new ↦ rw new (
            rw
              (
                cycle_at-put_cycle symbol uxid symbol uxid (entry_position signal scale id) f',
                eq_self symbol,
                eq_self uxid,
              )
              refl)
      ]

  commit_entry_again :
      (signal : BrokerSignal) (id : Option Text) (f : SignalFactory)
      → is_some (cycle_at (upper signal.symbol) signal.signal_uxid f) ≡ true
      → commit_entry signal id f ≡ f
  unfolding commit_entry cycles_of
  commit_entry_again signal id f known = rw known refl

  -- Committing a delivery a second time, at whatever later moment, leaves the book exactly as the
  -- first time did: a replayed entry does not reset its cycle, a replayed partial close is not
  -- taken off again, and a replayed final close finds its cycle gone.
  pub commit_idempotent :
      (signal : BrokerSignal) (id : Text) (now later : ℕ) (f : SignalFactory)
      → commit signal (some id) later (commit signal (some id) now f)
        ≡ commit signal (some id) now f
  unfolding commit cycles_of
  commit_idempotent signal id now later f =
      let held = cycle_at (upper signal.symbol) signal.signal_uxid f in
      elim (Bool-cases (is_entry signal.position.action)) [
        | inl entry ↦ rw entry (
            commit_entry_again signal (some id) (commit_entry signal (some id) f)
              (commit_entry-opens signal (some id) f))
        | inr close ↦ rw close (
            let f' = close_cycle held signal (some id) now f in
            close_cycle-IsSettled (cycle_at (upper signal.symbol) signal.signal_uxid f') signal id
              later f' (close_cycle-settles held signal id now f refl))
      ]
