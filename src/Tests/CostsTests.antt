-- ===== src/Tests/CostsTests.antt =====
-- src/qte_backtest/costs.py at concrete inputs.
use quant_trading_engine.Costs.{
  AccountCosts, CostProfile, CostProfiles, ResolvedCosts, from_account, from_defaults, from_flag,
  from_symbol, negative_cost, quote, resolve_costs,
}
use quant_trading_engine.Costs.Paid.{ResolvedPaid}
use quant_trading_engine.Costs.Parsed.{parsed_costs-ResolvedPaid}
use quant_trading_engine.Costs.Parsing.{
  TomlTable, cost_table, entry, no_entries, parse_costs, toml_number, toml_table,
}
use quant_trading_engine.Costs.Quoted.{quote-merges}
use quant_trading_engine.Floats.Whole.{whole}
use quant_trading_engine.Prelude.{
  Key-Text, Key-pair, Key-ℕ, [], codes, err, insert, lookup, none, ok, refl, some, text_eq, upper,
  ℕ, ◌∷◌, ◌≡◌,
}
use quant_trading_engine.Prelude.Int.{negsuc, pos}
use quant_trading_engine.Timeframes.{Key-Timeframe}

abbrev spread_of : ℕ → TomlTable
spread_of n = entry (codes "spread") (toml_number (pos n)) no_entries

-- [profiles.raw.defaults] and [profiles.raw.symbols.xauusd]
abbrev raw_document : TomlTable
raw_document =
    entry (codes "profiles")
      (toml_table (
        entry (codes "raw")
          (toml_table (
            entry (codes "defaults")
              (toml_table (entry (codes "slippage") (toml_number (pos 2)) (spread_of 3)))
              (entry (codes "symbols")
                (toml_table (entry (codes "xauusd") (toml_table (spread_of 5)) no_entries))
                no_entries)))
          no_entries))
      no_entries

abbrev raw : CostProfile
raw = record {
  name = codes "raw";
  defaults = (codes "slippage", pos 2) ∷ (codes "spread", pos 3) ∷ [];
  symbols = (codes "XAUUSD", (codes "spread", pos 5) ∷ []) ∷ [];
}

abbrev raw_file : CostProfiles
raw_file = record { profiles = (codes "raw", raw) ∷ []; default_profile = [] }

raw_parsed : parse_costs raw_document ≡ ok raw_file
unfolding parse_costs text_eq lookup insert upper
raw_parsed = refl

negative_refused :
    cost_table (toml_table (entry (codes "spread") (toml_number (negsuc 0)) no_entries))
    ≡ err negative_cost
unfolding cost_table text_eq
negative_refused = refl

abbrev account_costs : AccountCosts
account_costs = record {
  account_spread = pos 9;
  account_slippage = pos 9;
  account_commission = pos 7;
}

abbrev priced_run : ResolvedCosts
priced_run = record {
  spread = (pos 5, from_symbol);
  slippage = (pos 1, from_flag);
  commission_per_unit = (pos 7, from_account);
  profile = codes "raw";
}

run_priced :
    resolve_costs
      (codes "xauusd")
      (some raw_file)
      none
      ((codes "slippage", some (pos 1)) ∷ (codes "spread", none) ∷ [])
      account_costs
    ≡ ok priced_run
unfolding resolve_costs text_eq insert
run_priced = refl

parsed_costs-ResolvedPaid_example : ResolvedPaid priced_run
parsed_costs-ResolvedPaid_example =
    parsed_costs-ResolvedPaid raw_document raw_file (codes "xauusd") none
      ((codes "slippage", some (pos 1)) ∷ (codes "spread", none) ∷ []) account_costs priced_run
      raw_parsed (refl, refl, refl) run_priced

quote-merges_example :
    (lookup (codes "slippage") (quote raw (codes "xauusd")).0 ≡ some (pos 2))
    × (lookup (codes "slippage") (quote raw (codes "xauusd")).1 ≡ some from_defaults)
unfolding lookup text_eq upper
quote-merges_example = quote-merges raw (codes "xauusd") (codes "slippage") (refl, tt)
