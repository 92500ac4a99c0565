-- ===== src/Tests/ResamplerTests.antt =====
-- src/qte_ingestion/resampler.py at concrete inputs.
use quant_trading_engine.Floats.{Float, fmax, fmin}
use quant_trading_engine.Floats.Whole.{whole}
use quant_trading_engine.Models.{Candle, Tick, price}
use quant_trading_engine.Prelude.{
  Key-Text, Key-pair, Key-ℕ, List, [], arith, codes, erase, insert, lookup, map, none, refl, some,
  true, ℕ, ◌*◌, ◌/◌, ◌∷◌, ◌≡◌,
}
use quant_trading_engine.Prelude.Int.{pos}
use quant_trading_engine.Resampler.{
  Builder, Resampler, add_tick, flush, is_spent, mark_joined, new_resampler, open_builder, retire,
  update, visit, visit_all,
}
use quant_trading_engine.Resampler.Bars.{IsOhlc, Quote, visits, visits-IsOhlc}
use quant_trading_engine.Resampler.Closing.{ended, flush_closes, still_open}
use quant_trading_engine.Resampler.Events.{
  Event, joined_event, run, run-Increasing, tick_event, timer_event,
}
use quant_trading_engine.Resampler.Invariant.{IsOrdered}
use quant_trading_engine.Resampler.Ledger.{Increasing}
use quant_trading_engine.Timeframes.{
  Key-Timeframe, Timeframe, floor_to_bucket, m1, m5, normalize_timeframe, second, seconds,
  timeframe_eq,
}

abbrev quote_at : ℕ → ℕ → Tick
quote_at t p = record {
  symbol = codes "XAUUSD";
  ts = t * second;
  bid = none;
  ask = none;
  last = some (pos p);
  volume = pos 1;
  origin = none;
}

abbrev fresh : Resampler
fresh = record {
  symbol = codes "XAUUSD";
  timeframes = m1 ∷ m5 ∷ [];
  builders = [];
  last_closed = [];
  joined_at = none;
  partial_closes = [];
}

-- Two ticks in a minute, one in the next, a late one, the timer, and a tick behind the timer.
abbrev life : List Event
life =
    joined_event (30 * second)
    ∷ tick_event (quote_at 40 20)
    ∷ tick_event (quote_at 50 25)
    ∷ tick_event (quote_at 70 22)
    ∷ tick_event (quote_at 55 99)
    ∷ timer_event (120 * second)
    ∷ tick_event (quote_at 119 99)
    ∷ tick_event (quote_at 305 30)
    ∷ []

-- Timeframe length, open time in seconds, high, count of each published bar.
abbrev bar_view : Candle → ℕ × ℕ × Float × ℕ
bar_view c = (seconds c.timeframe, c.open_time / second, c.high, c.tick_count)

life-bars :
    map bar_view (run life fresh).0
    ≡ (60, 0, pos 25, 2) ∷ (60, 60, pos 22, 1) ∷ (300, 0, pos 99, 5) ∷ []
unfolding run add_tick flush visit_all visit update open_builder retire lookup insert erase price
    floor_to_bucket timeframe_eq mark_joined fmax fmin
life-bars = refl

fresh-eq : new_resampler (codes "XAUUSD") (codes "M1" ∷ codes "5m" ∷ []) ≡ some fresh
unfolding new_resampler normalize_timeframe
fresh-eq = refl

run-Increasing_example : Increasing (run life fresh).0
run-Increasing_example =
    run-Increasing (codes "XAUUSD") (codes "M1" ∷ codes "5m" ∷ []) fresh life fresh-eq

abbrev quote : ℕ → ℕ → Quote
quote t p = record { price = pos p; volume = pos 1; ts = t * second }

visits-IsOhlc_example :
    ((visits m1 (quote 61 20 ∷ quote 65 18 ∷ quote 70 19 ∷ []) fresh).0 ≡ [])
    × ((b : Builder) × (lookup m1
            (visits m1 (quote 61 20 ∷ quote 65 18 ∷ quote 70 19 ∷ []) fresh).1.builders
          ≡ some b)
        × IsOhlc (quote 61 20) (quote 65 18 ∷ quote 70 19 ∷ []) b)
unfolding is_spent lookup floor_to_bucket
visits-IsOhlc_example =
    visits-IsOhlc m1 (quote 61 20) (quote 65 18 ∷ quote 70 19 ∷ []) fresh refl refl
      (refl, (refl, tt))

abbrev bar : Builder
bar = record {
  symbol = codes "XAUUSD";
  timeframe = m1;
  open_time = 60 * second;
  open_price = pos 20;
  high = pos 22;
  low = pos 19;
  close = pos 21;
  volume = pos 4;
  tick_count = 4;
  is_partial = true;
}

abbrev holding : Resampler
holding = record fresh { builders = (m1, bar) ∷ []; last_closed = (m1, 0) ∷ [] }

holding-IsOrdered : IsOrdered holding
unfolding lookup timeframe_eq
holding-IsOrdered = record {
  unique = (refl, tt);
  named = λ tf b e. ground arith;
  ahead = λ tf b last e l. ground arith;
}

flush_closes_example :
    ((flush (120 * second) holding).0 ≡ ended (120 * second) holding.builders)
    × ((tf : Timeframe)
        → lookup tf (flush (120 * second) holding).1.builders
          ≡ still_open (120 * second) tf (lookup tf holding.builders))
flush_closes_example = flush_closes (120 * second) holding holding-IsOrdered
