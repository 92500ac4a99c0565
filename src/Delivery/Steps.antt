-- ===== src/Delivery/Steps.antt =====
-- The runner of src/qte_strategy_engine/runner.py as a state machine: it emits, recovers, and is
-- started again with what was in memory lost.
use quant_trading_engine.Delivery.{Pair, Runner}
use quant_trading_engine.Delivery.Emitting.{Emission, emit}
use quant_trading_engine.Delivery.Recovering.{Scanned, recover_pending}
use quant_trading_engine.Floats.{Decimals, Floats}
use quant_trading_engine.Prelude.{
  Bool, Dict, Key-Text, Key-pair, Key-ℕ, List, [], lookup, none, ℕ, ◌≡◌,
}
use quant_trading_engine.SignalFactory.{SignalFactory}
use quant_trading_engine.Timeframes.{Key-Timeframe}

module _ ⦃F : Floats⦄ ⦃D : Decimals⦄ where
  -- A new process: the outbox and what the broker was sent are all that is left, beside slots that
  -- are built anew and pairs that are blocked until the first scan.
  unfoldable pub restart : Dict Pair SignalFactory → List Pair → Runner → Runner
  restart slots blocked r = record r {
    slots = slots;
    uncertain_pairs = blocked;
    unconfirmed_staging = [];
    pending_results = [];
    entries_in_flight = 0;
  }

  -- An id is drawn for a delivery that no row has.
  pub data Step (horizon ceiling : ℕ) (r : Runner) : Runner → Type 0 where
    emits :
        (e : Emission)
        → lookup e.delivery_id r.outbox ≡ none
        → Step horizon ceiling r (emit ceiling e r)
    recovers :
        (owned read_all : Bool) (rows : List Scanned)
        → Step horizon ceiling r (recover_pending owned read_all horizon rows r)
    restarts :
        (slots : Dict Pair SignalFactory) (blocked : List Pair)
        → Step horizon ceiling r (restart slots blocked r)

  pub data Reaches (horizon ceiling : ℕ) (start : Runner) : Runner → Type 0 where
    here : Reaches horizon ceiling start start
    later :
        {r : Runner} {after : Runner}
        → Reaches horizon ceiling start r
        → Step horizon ceiling r after
        → Reaches horizon ceiling start after
