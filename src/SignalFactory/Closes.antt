-- ===== src/SignalFactory/Closes.antt =====
-- How `_size_close` of src/qte_shared/strategies/signal_factory.py sizes a close.
use quant_trading_engine.Floats.{Decimals, Float, Floats, Le, Le-refl, fmin, fmin_right}
use quant_trading_engine.Models.{
  SignalAction, flat_close, long_entry, r_sl_close, short_entry, sl_close, tp1_close, tp2_close,
}
use quant_trading_engine.Models.Positions.{OpenPosition, remaining_or, share}
use quant_trading_engine.Prelude.{
  Option, Option-cases, Text, arith, inl, inr, none, ok, or_else, refl, some, subst, ◌≡◌,
}
use quant_trading_engine.SignalFactory.{SignalFactory}
use quant_trading_engine.SignalFactory.Intents.{SignalIntent, carry_entry_context}
use quant_trading_engine.SignalFactory.Preparing.{
  Prepared, closing, default_close, for_target, nonzero_or, size_close,
}
use quant_trading_engine.Sizing.{PositionSizer, rescale}

module _ ⦃F : Floats⦄ ⦃D : Decimals⦄ where
  open F use {of_ℕ, lt}

  share_bounds :
      (quantity remaining percent : Option Float) (r q : Float)
      → remaining ≡ some r
      → share quantity remaining percent ≡ some q
      → Le q r
  unfolding share remaining_or
  share_bounds none remaining percent r q left h = cc h
  share_bounds (some x) remaining none r q left h = cc h
  share_bounds (some x) none (some c) r q left h = cc left
  share_bounds (some x) (some y) (some c) r q left h =
      ground (arith, fmin_right (F.div (F.mul x c) (of_ℕ 100)) y)

  default_close_bounds :
      (action : SignalAction) (percent : Option Float) (p : OpenPosition) (r q : Float)
      → p.remaining ≡ some r
      → default_close action percent p ≡ some q
      → Le q r
  unfolding default_close
  default_close_bounds flat_close percent p r q left h = cc h
  default_close_bounds tp1_close percent p r q left h =
      share_bounds p.quantity p.remaining (nonzero_or percent p.tp1_percent) r q left h
  default_close_bounds tp2_close percent p r q left h = ground (arith, Le-refl r)
  default_close_bounds r_sl_close percent p r q left h = ground (arith, Le-refl r)
  default_close_bounds sl_close percent p r q left h = ground (arith, Le-refl r)
  default_close_bounds long_entry percent p r q left h = ground (arith, Le-refl r)
  default_close_bounds short_entry percent p r q left h = ground (arith, Le-refl r)

  pub size_close_bounds :
      (s : PositionSizer) (i : SignalIntent) (p : OpenPosition) (r q : Float)
      → p.remaining ≡ some r
      → size_close s i p ≡ some q
      → Le q r
  unfolding size_close
  size_close_bounds s i p r q left h = elim (Option-cases i.quantity) [
    | inl unnamed ↦ default_close_bounds i.action i.tp1_percent p r q left (rw unnamed at h)
    | inr (x, asked) ↦
        let same : fmin (rescale s x p.scale) r ≡ q = cc (rw (asked, left) at h) in
        rw (← same) (fmin_right (rescale s x p.scale) r)
  ]

  pub for_target-quantity :
      (s : PositionSizer) (p : OpenPosition) (i : SignalIntent)
      → (for_target s (some p) i).quantity ≡ size_close s i p
  unfolding for_target carry_entry_context
  for_target-quantity s p i = refl

  pub closing-IsFor :
      (i : SignalIntent) (f : SignalFactory) (target : Option OpenPosition) (uxid : Option Text)
      (p : Prepared)
      → closing i f target uxid ≡ ok p
      → (uxid ≡ some p.uxid)
        × (p.intent.quantity ≡ (for_target f.sizer target i).quantity)
        × (p.factory ≡ f)
  unfolding closing
  closing-IsFor i f target none p h = ground arith
  closing-IsFor i f target (some u) p h =
      let i' = for_target f.sizer target i in
      let p' : Prepared = record {
        intent = record i' { risk_percent = some (or_else i'.risk_percent f.sizer.risk_percent) };
        uxid = u;
        factory = f;
      } in
      let same : p' ≡ p = cc h in
      subst (λ x. (some u ≡ some x.uxid) × (x.intent.quantity ≡ i'.quantity) × (x.factory ≡ f)) same
        (refl, refl, refl)
