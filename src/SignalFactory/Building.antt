-- ===== src/SignalFactory/Building.antt =====
-- `SignalFactory.build` of src/qte_shared/strategies/signal_factory.py. The id that `new_uxid`
-- returns, the moment of the bar and that of `utcnow` are arguments; the token, the free-form
-- `indicators` and `inputs` and the log lines are left out. The factory comes back on a refusal
-- too, since the source has changed it by then.
use quant_trading_engine.Floats.{Decimals, Floats}
use quant_trading_engine.Models.{is_entry}
use quant_trading_engine.Models.Signals.{
  BrokerSignal, ShapeError, fill_or_validate_uxid, validate_shape,
}
use quant_trading_engine.Prelude.{
  Bool, Key-Text, Key-pair, Key-ℕ, Option, Result, Text, err, false, if◌then◌else◌, none, not, ok,
  some, upper, ℕ, ◌==◌,
}
use quant_trading_engine.SignalFactory.{SignalFactory, commit}
use quant_trading_engine.SignalFactory.Intents.{SignalIntent, first_some, to_position_block}
use quant_trading_engine.SignalFactory.Preparing.{
  BuildError, Prepared, bad_shape, bad_uxid, prepare_close, prepare_entry, unknown_timeframe,
  wrong_symbol,
}
use quant_trading_engine.Timeframes.{Key-Timeframe, to_broker_timeframe}

module _ ⦃F : Floats⦄ ⦃D : Decimals⦄ where
  -- `intent.symbol is not None and intent.symbol.upper() != target_symbol`
  abbrev pub is_foreign : Option Text → Text → Bool
  is_foreign none target = false
  is_foreign (some symbol) target = not (upper symbol == target)

  unfoldable pub prepare : Text → SignalIntent → Text → SignalFactory → Result BuildError Prepared
  unfolding prepare_entry prepare_close is_entry
  prepare fresh i symbol f =
      if is_entry i.action then prepare_entry fresh i symbol f else prepare_close i symbol f

  -- The intent after the pair's setting for equity sizing is filled in.
  abbrev pub completed : Prepared → SignalIntent
  completed p = record p.intent {
    use_equity_sizing = first_some p.intent.use_equity_sizing p.factory.use_equity_sizing;
  }

  unfoldable pub payload : Text → Text → ℕ → Text → Prepared → BrokerSignal
  unfolding to_position_block
  payload symbol timeframe moment uxid p = record {
    strategy = p.factory.strategy_name;
    symbol = symbol;
    timeframe = timeframe;
    timestamp = moment;
    signal_uxid = uxid;
    position = to_position_block (completed p);
  }

  -- What `build` returns: the payload and the intent as it was settled.
  abbrev pub Built : Type 0
  Built = SignalFactory × Result BuildError (SignalIntent × BrokerSignal)

  unfoldable pub checked : Bool → ℕ → Prepared → BrokerSignal → Option ShapeError → Built
  unfolding commit
  checked commits now p signal (some e) = (p.factory, err (bad_shape e))
  checked commits now p signal none =
      (if commits then commit signal none now p.factory else p.factory, ok (completed p, signal))

  -- The payload carries the id as `BrokerSignal` spells it, and a malformed one is refused. One that
  -- is blank is replaced, which is then the first id that is drawn.
  unfoldable pub with_uxid : Text → Text → ℕ → Bool → ℕ → Prepared → Option Text → Built
  unfolding payload validate_shape checked
  with_uxid symbol timeframe moment commits now p none = (p.factory, err bad_uxid)
  with_uxid symbol timeframe moment commits now p (some uxid) =
      let signal = payload symbol timeframe moment uxid p in
      checked commits now p signal (validate_shape signal.position)

  unfoldable pub spelled : Text → Text → ℕ → Bool → ℕ → Prepared → Option Text → Built
  unfolding with_uxid fill_or_validate_uxid
  spelled fresh symbol moment commits now p none = (p.factory, err unknown_timeframe)
  spelled fresh symbol moment commits now p (some timeframe) =
      with_uxid symbol timeframe moment commits now p (fill_or_validate_uxid fresh p.uxid)

  unfoldable pub published :
      Text → Text → ℕ → Bool → ℕ → SignalFactory → Result BuildError Prepared → Built
  unfolding to_broker_timeframe spelled
  published fresh symbol moment commits now f (err e) = (f, err e)
  published fresh symbol moment commits now f (ok p) =
      spelled fresh symbol moment commits now p (to_broker_timeframe p.factory.timeframe)

  unfoldable pub build : Text → SignalIntent → Text → ℕ → Bool → ℕ → SignalFactory → Built
  unfolding prepare published
  build fresh i symbol moment commits now f =
      let target_symbol = upper symbol in
      if is_foreign i.symbol target_symbol
      then (f, err wrong_symbol)
      else published fresh target_symbol moment commits now f (prepare fresh i target_symbol f)
