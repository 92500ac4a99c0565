-- ===== src/SignalFactory/Closing.antt =====
-- `SignalFactory.commit` of src/qte_shared/strategies/signal_factory.py on a close: when the cycle
-- ends, and what is left of one that goes on.
use quant_trading_engine.Floats.{Float, Floats, Le, fabs, fabs_nonneg, fmax, fmax_either, fmax_left}
use quant_trading_engine.Models.{
  SignalAction, flat_close, is_entry, is_terminal, long_entry, r_sl_close, short_entry, sl_close,
  tp1_close, tp2_close,
}
use quant_trading_engine.Models.Positions.{OpenPosition, apply_close, is_flat, left_after}
use quant_trading_engine.Models.Signals.{BrokerSignal}
use quant_trading_engine.Prelude.{
  Bool, Bool-cases, Option, Text, arith, false, if◌then◌else◌, inl, inr, none, not, refl, some,
  true, upper, ℕ, ◌∙◌, ◌≡◌,
}
use quant_trading_engine.SignalFactory.{
  SignalFactory, close_cycle, commit, cycles_of, is_applied, note_delivery,
}
use quant_trading_engine.SignalFactory.Deliveries.{
  cycle_at, cycle_at-forget_cycle_self, cycle_at-put_cycle_self,
}

module _ ⦃F : Floats⦄ where
  open F use {of_ℕ, epsilon, lt, sub}

  -- The size after a close, where both sizes are known, and whether it is no more than dust.
  abbrev pub size_left : Option Float → Option Float → Option Float
  size_left none quantity = none
  size_left (some remaining) none = some remaining
  size_left (some remaining) (some quantity) = some (fmax (of_ℕ 0) (sub remaining (fabs quantity)))

  abbrev pub is_used_up : Option Float → Option Float → Bool
  is_used_up none quantity = false
  is_used_up (some remaining) none = not (lt epsilon remaining)
  is_used_up (some remaining) (some quantity) =
      not (lt epsilon (fmax (of_ℕ 0) (sub remaining (fabs quantity))))

  -- The cycle after a close: gone after TP2, a stop of either kind or FLAT, and after a TP1 that
  -- uses it up.
  abbrev pub after_close :
      SignalAction → Option Float → Option Text → ℕ → OpenPosition → Option OpenPosition
  after_close tp2_close quantity id now p = none
  after_close sl_close quantity id now p = none
  after_close r_sl_close quantity id now p = none
  after_close flat_close quantity id now p = none
  after_close tp1_close quantity id now p =
      if is_used_up p.remaining quantity
      then none
      else some (
          note_delivery id (record p {
            remaining = size_left p.remaining quantity;
            tp1_filled = true;
            updated_at = now;
          }))
  after_close long_entry quantity id now p = some p
  after_close short_entry quantity id now p = some p

  left_after-size_left :
      (remaining quantity : Option Float)
      → left_after remaining quantity ≡ size_left remaining quantity
  unfolding left_after
  left_after-size_left none none = refl
  left_after-size_left none (some quantity) = refl
  left_after-size_left (some remaining) none = refl
  left_after-size_left (some remaining) (some quantity) = refl

  is_flat-is_used_up :
      (remaining quantity : Option Float)
      → is_flat (size_left remaining quantity) ≡ is_used_up remaining quantity
  unfolding is_flat
  is_flat-is_used_up none quantity = refl
  is_flat-is_used_up (some remaining) none = refl
  is_flat-is_used_up (some remaining) (some quantity) = refl

  -- What `apply_close` says is to be kept.
  abbrev booked_or_none : Option Text → OpenPosition × Bool → Option OpenPosition
  booked_or_none id (booked, is_over) = if is_over then none else some (note_delivery id booked)

  apply_close-after_close :
      (action : SignalAction) (quantity : Option Float) (id : Option Text) (now : ℕ)
      (p : OpenPosition)
      → is_entry action ≡ false
      → booked_or_none id (apply_close action quantity now p) ≡ after_close action quantity id now p
  unfolding apply_close is_terminal is_entry
  apply_close-after_close tp2_close quantity id now p close = refl
  apply_close-after_close sl_close quantity id now p close = refl
  apply_close-after_close r_sl_close quantity id now p close = refl
  apply_close-after_close flat_close quantity id now p close = refl
  apply_close-after_close tp1_close quantity id now p close =
      rw (left_after-size_left p.remaining quantity, is_flat-is_used_up p.remaining quantity) refl
  apply_close-after_close long_entry quantity id now p close = absurd (cc close)
  apply_close-after_close short_entry quantity id now p close = absurd (cc close)

  close_cycle-booked :
      (signal : BrokerSignal) (id : Option Text) (now : ℕ) (f : SignalFactory) (p : OpenPosition)
      → is_applied id p ≡ false
      → cycle_at (upper signal.symbol) signal.signal_uxid (close_cycle (some p) signal id now f)
        ≡ booked_or_none id (apply_close signal.position.action signal.position.quantity now p)
  unfolding close_cycle
  close_cycle-booked signal id now f p fresh =
      let symbol = upper signal.symbol in
      let uxid = signal.signal_uxid in
      let (booked, is_over) = apply_close signal.position.action signal.position.quantity now p in
      rw fresh (elim (Bool-cases is_over) [
        | inl over ↦ rw over (cycle_at-forget_cycle_self signal.symbol uxid f)
        | inr left ↦ rw left (cycle_at-put_cycle_self symbol uxid (note_delivery id booked) f)
      ])

  -- A close that is delivered for an open cycle, and was not applied to it before, ends the cycle if
  -- it is a TP2, a stop of either kind or a FLAT, and if it is a TP1 that leaves no more of a known
  -- size than rounding dust; after any other TP1 the cycle goes on, with TP1 filled, the closed
  -- quantity taken off a known size, though not below zero, and the delivery noted.
  pub commit-close :
      (signal : BrokerSignal) (id : Option Text) (now : ℕ) (f : SignalFactory) (p : OpenPosition)
      → is_entry signal.position.action ≡ false
      → cycle_at (upper signal.symbol) signal.signal_uxid f ≡ some p
      → is_applied id p ≡ false
      → cycle_at (upper signal.symbol) signal.signal_uxid (commit signal id now f)
        ≡ after_close signal.position.action signal.position.quantity id now p
  unfolding commit cycles_of
  commit-close signal id now f p close found fresh =
      rw (close, found)
        (close_cycle-booked signal id now f p fresh
          ∙ apply_close-after_close signal.position.action signal.position.quantity id now p close)

  -- What a close leaves lies between zero and what there was before.
  pub left_after_bounds :
      (remaining quantity left : Float)
      → Le (of_ℕ 0) remaining
      → left_after (some remaining) (some quantity) ≡ some left
      → Le (of_ℕ 0) left × Le left remaining
  unfolding left_after
  left_after_bounds remaining quantity left h e = ground (
    arith,
    fmax_left (of_ℕ 0) (F.sub remaining (fabs quantity)),
    fmax_either (of_ℕ 0) (F.sub remaining (fabs quantity)),
    F.sub_le remaining (fabs quantity),
    fabs_nonneg quantity,
  )
