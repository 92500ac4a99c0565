-- ===== src/Tests/Fixtures.antt =====
-- A pair, a factory that holds nothing and an intent, over whole numbers, for the tests.
use quant_trading_engine.Floats.Whole.{whole}
use quant_trading_engine.Models.{long_entry}
use quant_trading_engine.Prelude.{[], codes, none, some, true}
use quant_trading_engine.Prelude.Int.{pos}
use quant_trading_engine.SignalFactory.{SignalFactory}
use quant_trading_engine.SignalFactory.Intents.{SignalIntent}
use quant_trading_engine.Sizing.{PositionSizer}

abbrev pub paper_sizer : PositionSizer
paper_sizer = record {
  capital = pos 1000;
  risk_percent = pos 2;
  contract_size = pos 1;
  max_quantity = some (pos 8);
  precision = 2;
  max_risk_percent = some (pos 5);
  dynamic_risk = true;
}

abbrev pub empty_factory : SignalFactory
empty_factory = record {
  strategy_name = codes "trend";
  timeframe = codes "M15";
  bracket = record {
    sl_pct = pos 1;
    tp1_r = pos 1;
    tp2_r = pos 2;
    tp1_percent = pos 50;
    move_sl_to_be = true;
    risk_percent = none;
  };
  sizer = paper_sizer;
  default_quantity = none;
  use_equity_sizing = none;
  book = [];
  pending_scale = [];
}

-- A long at 100 with a stop at 90, for which the strategy asked for 10 units at 9 percent.
abbrev pub long_intent : SignalIntent
long_intent = record {
  action = long_entry;
  symbol = none;
  price = some (pos 100);
  quantity = some (pos 10);
  sl = some (pos 90);
  tp1 = none;
  tp2 = none;
  risk_percent = some (pos 9);
  tp1_percent = none;
  move_sl_to_be = none;
  use_equity_sizing = none;
  is_running = none;
  is_scale_position = none;
  scale_strategy = none;
  scaling = none;
  signal_uxid = none;
  reason = [];
}
