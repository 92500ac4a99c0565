-- ===== src/SignalFactory/Preparing.antt =====
-- How `SignalFactory.build` of src/qte_shared/strategies/signal_factory.py settles what a strategy
-- decided. The id that `new_uxid` returns is an argument. What raises `ValueError` returns `err`.
use quant_trading_engine.Floats.{Decimals, Float, Floats, fmin, is_zero}
use quant_trading_engine.Models.{SignalAction, flat_close, tp1_close}
use quant_trading_engine.Models.Positions.{OpenPosition, share}
use quant_trading_engine.Models.Signals.{ShapeError}
use quant_trading_engine.Prelude.{
  Bool, Key-Text, Key-ℕ, Option, Result, Text, [], err, false, if◌then◌else◌, insert, is_some,
  lookup, none, ok, or_else, some, ◌∷◌,
}
use quant_trading_engine.SignalFactory.{Cycles, SignalFactory, cycles_of}
use quant_trading_engine.SignalFactory.Intents.{
  SignalIntent, apply, carry_entry_context, first_some,
}
use quant_trading_engine.Sizing.{
  PositionSizer, SizingError, is_not_positive, limit_quantity, rescale, risk_for, size,
}
use quant_trading_engine.Timeframes.{Key-Timeframe}

pub data BuildError : Type 0 where
  wrong_symbol reused_cycle ambiguous_close no_cycle unknown_timeframe bad_uxid : BuildError
  bad_size : SizingError → BuildError
  bad_shape : ShapeError → BuildError

-- `x or None` on a text: an empty one counts as missing.
abbrev pub nonempty : Option Text → Option Text
nonempty (some (c ∷ s)) = some (c ∷ s)
nonempty _ = none

module _ ⦃F : Floats⦄ where
  abbrev pub uxid_of : Option OpenPosition → Option Text
  uxid_of none = none
  uxid_of (some p) = some p.signal_uxid

  -- The cycle that a close is for: the one it names, or the only one.
  unfoldable pub close_target : Option Text → Cycles → Result BuildError (Option OpenPosition)
  close_target (some uxid) cycles = ok (lookup uxid cycles)
  close_target none [] = ok none
  close_target none ((_, p) ∷ []) = ok (some p)
  close_target none (_ ∷ _ ∷ _) = err ambiguous_close

module _ ⦃F : Floats⦄ ⦃D : Decimals⦄ where
  open F use {of_ℕ, lt, div}

  -- `_size_entry`: the quantity, and the scale to remember if there is one.
  abbrev pub scale_of : Float → Option Float → Float
  scale_of quantity none = of_ℕ 1
  scale_of quantity (some proposed) = div quantity proposed

  unfoldable pub limited :
      PositionSizer → Option Float → Option Float → Result SizingError (Option Float × Option Float)
  unfolding limit_quantity
  limited s proposed none = ok (none, none)
  limited s proposed (some quantity) = elim (limit_quantity s (D.of_float quantity)) [
    | err e ↦ err e
    | ok q ↦ ok (some q, some (scale_of q proposed))
  ]

  unfoldable pub sized_or_limited :
      PositionSizer
      → Option Float
      → Option Float
      → Result SizingError (Option Float)
      → Result SizingError (Option Float × Option Float)
  unfolding limited
  sized_or_limited s default proposed (err e) = err e
  sized_or_limited s default proposed (ok (some q)) = ok (some q, some (scale_of q proposed))
  sized_or_limited s default proposed (ok none) = limited s proposed (first_some proposed default)

  unfoldable pub size_entry :
      SignalFactory → SignalIntent → Result SizingError (Option Float × Option Float)
  unfolding size sized_or_limited
  size_entry f i =
      if is_not_positive i.quantity
      then ok (i.quantity, none)
      else sized_or_limited f.sizer f.default_quantity i.quantity
          (size f.sizer i.price i.sl i.risk_percent)

  -- `_prepare_entry`: the intent as it was settled, and the id of the cycle.
  abbrev pub is_open_cycle : Option Text → Cycles → Bool
  is_open_cycle none cycles = false
  is_open_cycle (some uxid) cycles = is_some (lookup uxid cycles)

  abbrev pub note_scale : Text → Option Float → SignalFactory → SignalFactory
  note_scale symbol none f = f
  note_scale symbol (some scale) f = record f {
    pending_scale = insert symbol scale f.pending_scale;
  }

  -- An intent on its way through `build`.
  pub record Prepared : Type 0 where
    pub intent : SignalIntent
    pub uxid : Text
    pub factory : SignalFactory

  abbrev pub settled :
      Text
      → Text
      → SignalFactory
      → SignalIntent
      → Result SizingError (Option Float × Option Float)
      → Result BuildError Prepared
  settled fresh symbol f i (err e) = err (bad_size e)
  settled fresh symbol f i (ok (quantity, scale)) = ok (record {
    intent = record i { quantity = quantity };
    uxid = or_else (nonempty i.signal_uxid) fresh;
    factory = note_scale symbol scale f;
  })

  unfoldable pub at_risk :
      Text
      → Text
      → SignalFactory
      → SignalIntent
      → Result SizingError Float
      → Result BuildError Prepared
  unfolding size_entry
  at_risk fresh symbol f i (err e) = err (bad_size e)
  at_risk fresh symbol f i (ok risk) =
      let i' = record i { risk_percent = some risk } in settled fresh symbol f i' (size_entry f i')

  unfoldable pub prepare_entry :
      Text → SignalIntent → Text → SignalFactory → Result BuildError Prepared
  unfolding apply at_risk risk_for cycles_of
  prepare_entry fresh i symbol f =
      let i' = apply f.bracket i in
      if is_open_cycle i.signal_uxid (cycles_of symbol f)
      then err reused_cycle
      else at_risk fresh symbol f i' (risk_for f.sizer i'.risk_percent)

  -- `intent.tp1_percent or position.tp1_percent`, where 0 counts as missing.
  abbrev pub nonzero_or : Option Float → Option Float → Option Float
  nonzero_or none b = b
  nonzero_or (some a) b = if is_zero a then b else some a

  -- `_size_close` of a close that names no size.
  unfoldable pub default_close : SignalAction → Option Float → OpenPosition → Option Float
  unfolding share
  default_close flat_close percent p = none
  default_close tp1_close percent p =
      share p.quantity p.remaining (nonzero_or percent p.tp1_percent)
  default_close _ percent p = p.remaining

  unfoldable pub size_close : PositionSizer → SignalIntent → OpenPosition → Option Float
  unfolding default_close rescale
  size_close s i p = elim i.quantity [
    | none ↦ default_close i.action i.tp1_percent p
    | some quantity ↦
        let scaled = rescale s quantity p.scale in
        some (elim p.remaining [ none ↦ scaled | some remaining ↦ fmin scaled remaining ])
  ]

  -- The close for the cycle that it is for, if the book holds that.
  unfoldable pub for_target : PositionSizer → Option OpenPosition → SignalIntent → SignalIntent
  unfolding size_close carry_entry_context
  for_target s none i = i
  for_target s (some p) i = carry_entry_context p (record i { quantity = size_close s i p })

  unfoldable pub closing :
      SignalIntent → SignalFactory → Option OpenPosition → Option Text → Result BuildError Prepared
  unfolding for_target
  closing i f target none = err no_cycle
  closing i f target (some uxid) =
      let i' = for_target f.sizer target i in
      ok (record {
        intent = record i' { risk_percent = some (or_else i'.risk_percent f.sizer.risk_percent) };
        uxid = uxid;
        factory = f;
      })

  unfoldable pub prepare_close : SignalIntent → Text → SignalFactory → Result BuildError Prepared
  unfolding close_target closing cycles_of
  prepare_close i symbol f = elim (close_target i.signal_uxid (cycles_of symbol f)) [
    | err e ↦ err e
    | ok target ↦ closing i f target (first_some (nonempty i.signal_uxid) (uxid_of target))
  ]
