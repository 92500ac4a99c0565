-- ===== src/SignalFactory/Clamped.antt =====
-- The closes that `SignalFactory.build` of src/qte_shared/strategies/signal_factory.py lets through
-- and those that it refuses: the cycle that a close is for, and the size that it claims.
use quant_trading_engine.Floats.{Decimals, Float, Floats, Le}
use quant_trading_engine.Models.{is_entry}
use quant_trading_engine.Models.Positions.{OpenPosition}
use quant_trading_engine.Models.Signals.{BrokerSignal}
use quant_trading_engine.Prelude.{
  Bool, Key-Text, Key-pair, Key-ℕ, Option, Result, Text, [], ap, arith, err, false, lookup, none,
  ok, or_else, refl, some, sym, upper, ℕ, ◌∙◌, ◌∷◌, ◌≡◌,
}
use quant_trading_engine.SignalFactory.{Cycles, SignalFactory, cycles_of}
use quant_trading_engine.SignalFactory.Accepted.{build-IsAccepted}
use quant_trading_engine.SignalFactory.Building.{build, is_foreign, payload, prepare, published}
use quant_trading_engine.SignalFactory.Closes.{
  closing-IsFor, for_target-quantity, size_close_bounds,
}
use quant_trading_engine.SignalFactory.Deliveries.{cycle_at}
use quant_trading_engine.SignalFactory.Intents.{SignalIntent, first_some, to_position_block}
use quant_trading_engine.SignalFactory.Preparing.{
  BuildError, Prepared, ambiguous_close, close_target, closing, for_target, no_cycle, nonempty,
  prepare_close, uxid_of,
}
use quant_trading_engine.Timeframes.{Key-Timeframe}

module _ ⦃F : Floats⦄ ⦃D : Decimals⦄ where
  only_cycle :
      (cycles : Cycles) (target : Option OpenPosition) (uxid : Text) (p : OpenPosition)
      → close_target none cycles ≡ ok target
      → lookup uxid cycles ≡ some p
      → target ≡ some p
  unfolding close_target lookup
  only_cycle [] target uxid p h found = absurd (cc found)
  only_cycle ((k, q) ∷ []) target uxid p h found = ground arith
  only_cycle (_ ∷ _ ∷ _) target uxid p h found = absurd (cc h)

  -- The cycle that a close is for is the one that the book holds under the id it is sent with, if
  -- it names no other id.
  target-held :
      (f : SignalFactory) (symbol : Text) (named : Option Text) (target : Option OpenPosition)
      (uxid : Text) (p : OpenPosition)
      → close_target named (cycles_of symbol f) ≡ ok target
      → or_else named uxid ≡ uxid
      → cycle_at symbol uxid f ≡ some p
      → target ≡ some p
  unfolding close_target cycles_of
  target-held f symbol none target uxid p picked as_sent found =
      only_cycle (cycles_of symbol f) target uxid p picked found
  target-held f symbol (some u) target uxid p picked as_sent found =
      let looked : lookup u (cycles_of symbol f) ≡ target = cc picked in
      let named_is : u ≡ uxid = as_sent in sym looked ∙ rw named_is found

  prepare_close-target :
      (i : SignalIntent) (symbol : Text) (f : SignalFactory) (p : Prepared) (uxid : Text)
      (held : OpenPosition)
      → prepare_close i symbol f ≡ ok p
      → or_else i.signal_uxid uxid ≡ uxid
      → cycle_at symbol uxid f ≡ some held
      → p.intent.quantity ≡ (for_target f.sizer (some held) i).quantity
  unfolding prepare_close
  prepare_close-target i symbol f p uxid held h as_sent found =
      go (close_target i.signal_uxid (cycles_of symbol f)) refl h
    where
      go :
          (r : Result BuildError (Option OpenPosition))
          → close_target i.signal_uxid (cycles_of symbol f) ≡ r
          → (elim r [
            | err e ↦ err e
            | ok target ↦ closing i f target (first_some (nonempty i.signal_uxid) (uxid_of target))
          ])
            ≡ ok p
          → p.intent.quantity ≡ (for_target f.sizer (some held) i).quantity
      go (err e) picked k = absurd (cc k)
      go (ok target) picked k =
          let own = first_some (nonempty i.signal_uxid) (uxid_of target) in
          let (sent_as, sized, same) = closing-IsFor i f target own p k in
          sized
          ∙ ap (λ (t : Option OpenPosition). (for_target f.sizer t i).quantity)
              (target-held f symbol i.signal_uxid target uxid held picked as_sent found)

  -- A close that is let through and names no id, or the very one that its signal carries, claims no
  -- more than is left of the cycle that the book holds under that id, where the signal states a
  -- quantity and the cycle a remaining size.
  pub build_close_bounds :
      (fresh : Text) (i : SignalIntent) (symbol : Text) (moment : ℕ) (commits : Bool) (now : ℕ)
      (f : SignalFactory) (i' : SignalIntent) (s : BrokerSignal) (p : OpenPosition) (left q : Float)
      → is_entry i.action ≡ false
      → (build fresh i symbol moment commits now f).1 ≡ ok (i', s)
      → or_else i.signal_uxid s.signal_uxid ≡ s.signal_uxid
      → cycle_at (upper symbol) s.signal_uxid f ≡ some p
      → p.remaining ≡ some left
      → s.position.quantity ≡ some q
      → Le q left
  unfolding payload to_position_block
  build_close_bounds fresh i symbol moment commits now f i' s p left q close h as_sent held rest
        asked =
      let a = build-IsAccepted fresh i symbol moment commits now f i' s h in
      let same : prepare fresh i (upper symbol) f ≡ prepare_close i (upper symbol) f =
        (unfold prepare in rw close refl) in
      let sized =
        prepare_close-target i (upper symbol) f a.prepared s.signal_uxid p
          (sym same ∙ a.prepared_is) as_sent held in
      let closed : a.prepared.intent.quantity ≡ some q =
        rw (← (ap (λ t. t.position.quantity) a.signal_is)) asked in
      size_close_bounds f.sizer i p left q rest
        (sym (sized ∙ for_target-quantity f.sizer p i) ∙ closed)

  -- Why a close that names no cycle is refused.
  abbrev pub refusal : Cycles → Option BuildError
  refusal [] = some no_cycle
  refusal (_ ∷ []) = none
  refusal (_ ∷ _ ∷ _) = some ambiguous_close

  prepare_close-refusal :
      (i : SignalIntent) (symbol : Text) (f : SignalFactory) (e : BuildError) (cycles : Cycles)
      → cycles_of symbol f ≡ cycles
      → i.signal_uxid ≡ none
      → refusal cycles ≡ some e
      → prepare_close i symbol f ≡ err e
  unfolding prepare_close close_target closing
  prepare_close-refusal i symbol f e [] held unnamed h =
      let picked : close_target i.signal_uxid (cycles_of symbol f) ≡ ok none =
        rw (unnamed, held) refl in
      let named : first_some (nonempty i.signal_uxid) none ≡ none = rw unnamed refl in
      rw (prepare_close, picked) (rw named (cc h))
  prepare_close-refusal i symbol f e (_ ∷ []) held unnamed h = absurd (cc h)
  prepare_close-refusal i symbol f e (_ ∷ _ ∷ _) held unnamed h =
      let picked : close_target i.signal_uxid (cycles_of symbol f) ≡ err ambiguous_close =
        rw (unnamed, held) refl in
      rw (prepare_close, picked) (cc h)

  -- A close that names no cycle is refused, and changes nothing, when no cycle is open and when
  -- several are.
  pub unnamed_close-refusal :
      (fresh : Text) (i : SignalIntent) (symbol : Text) (moment : ℕ) (commits : Bool) (now : ℕ)
      (f : SignalFactory) (e : BuildError)
      → is_foreign i.symbol (upper symbol) ≡ false
      → is_entry i.action ≡ false
      → i.signal_uxid ≡ none
      → refusal (cycles_of (upper symbol) f) ≡ some e
      → build fresh i symbol moment commits now f ≡ (f, err e)
  unfolding build published
  unnamed_close-refusal fresh i symbol moment commits now f e home close unnamed h =
      let key = upper symbol in
      let refused = prepare_close-refusal i key f e (cycles_of key f) refl unnamed h in
      let same : prepare fresh i key f ≡ prepare_close i key f =
        (unfold prepare in rw close refl) in
      rw (home, same ∙ refused) refl
