-- ===== src/Costs/Parsing.antt =====
-- `_parse`, `_symbol_tables` and `_cost_table` of src/qte_backtest/costs.py, and what they let in.
use quant_trading_engine.BarGate.Scopes.{names}
use quant_trading_engine.Costs.{
  CostError, CostProfile, CostProfiles, CostTable, bad_default, bad_number, bad_profile,
  bad_profiles, bad_symbols, bad_table, is_cost, negative_cost, symbol_twice, unknown_cost,
  unknown_default, unknown_profile_key, unknown_top_key,
}
use quant_trading_engine.Floats.{Float, Floats}
use quant_trading_engine.Prelude.{
  Bool, Dict, Key-Text, Key-pair, Key-ℕ, List, Result, Text, [], codes, err, false, if◌then◌else◌,
  insert, is_some, lookup, not, ok, true, upper, ◌&&◌, ◌==◌, ◌>>=◌, ◌||◌, ◌∷◌,
}
use quant_trading_engine.Timeframes.{Key-Timeframe}

mutual
  pub data Toml ⦃F : Floats⦄ : Type 0 where
    toml_number : Float → Toml
    toml_text : Text → Toml
    toml_table : TomlTable → Toml
    toml_other : Toml

  pub data TomlTable ⦃F : Floats⦄ : Type 0 where
    no_entries : TomlTable
    entry : Text → Toml → TomlTable → TomlTable

module _ ⦃F : Floats⦄ where
  open F use {of_ℕ, lt}

  -- `table.get(key, default)`
  abbrev pub entry_at : Text → Toml → TomlTable → Toml
  entry_at key default no_entries = default
  entry_at key default (entry k value table) =
      let rest = entry_at key default table in if k == key then value else rest

  abbrev pub is_one_of : Text → List Text → Bool
  is_one_of key [] = false
  is_one_of key (name ∷ names) = key == name || is_one_of key names

  abbrev pub keys_in : List Text → TomlTable → Bool
  keys_in names no_entries = true
  keys_in names (entry k value table) = is_one_of k names && keys_in names table

  unfoldable pub checked_cost : Text → Toml → Result CostError Float
  checked_cost key (toml_number value) =
      if not (is_cost key)
      then err unknown_cost
      else if lt value (of_ℕ 0)
      then err negative_cost
      else ok value
  checked_cost key value = if not (is_cost key) then err unknown_cost else err bad_number

  unfoldable pub cost_entries : TomlTable → CostTable → Result CostError CostTable
  unfolding checked_cost
  cost_entries no_entries costs = ok costs
  cost_entries (entry key value table) costs =
      checked_cost key value >>= λ cost. cost_entries table (insert key cost costs)

  -- `_cost_table`
  unfoldable pub cost_table : Toml → Result CostError CostTable
  unfolding cost_entries
  cost_table (toml_table table) = cost_entries table []
  cost_table _ = err bad_table

  abbrev pub new_symbol : Text → Dict Text CostTable → Result CostError Text
  new_symbol symbol tables = if is_some (lookup symbol tables) then err symbol_twice else ok symbol

  unfoldable pub symbol_entries :
      TomlTable → Dict Text CostTable → Result CostError (Dict Text CostTable)
  unfolding cost_table
  symbol_entries no_entries tables = ok tables
  symbol_entries (entry symbol value table) tables = new_symbol (upper symbol) tables >>= λ name.
      (cost_table value >>= λ costs. symbol_entries table (insert name costs tables))

  -- `_symbol_tables`
  unfoldable pub symbol_tables : Toml → Result CostError (Dict Text CostTable)
  unfolding symbol_entries
  symbol_tables (toml_table table) = symbol_entries table []
  symbol_tables _ = err bad_symbols

  abbrev pub parts_of : Text → TomlTable → Result CostError CostProfile
  parts_of name table =
      cost_table (entry_at (codes "defaults") (toml_table no_entries) table) >>= λ defaults.
      (symbol_tables (entry_at (codes "symbols") (toml_table no_entries) table) >>= λ symbols.
      ok (record { name = name; defaults = defaults; symbols = symbols }))

  unfoldable pub profile_of : Text → Toml → Result CostError CostProfile
  unfolding cost_table symbol_tables
  profile_of name (toml_table table) =
      if keys_in (codes "defaults" ∷ codes "symbols" ∷ []) table
      then parts_of name table
      else err unknown_profile_key
  profile_of name _ = err bad_profile

  unfoldable pub profile_entries :
      TomlTable → Dict Text CostProfile → Result CostError (Dict Text CostProfile)
  unfolding profile_of
  profile_entries no_entries profiles = ok profiles
  profile_entries (entry name value table) profiles =
      profile_of name value >>= λ profile. profile_entries table (insert name profile profiles)

  abbrev pub profiles_of : Toml → Result CostError (Dict Text CostProfile)
  profiles_of (toml_table table) = profile_entries table []
  profiles_of _ = err bad_profiles

  -- The default has to be one of the profiles, if it is stated.
  abbrev pub file_of : Dict Text CostProfile → Toml → Result CostError CostProfiles
  file_of profiles (toml_text []) = ok (record { profiles = profiles; default_profile = [] })
  file_of profiles (toml_text (c ∷ name)) =
      if is_some (lookup (c ∷ name) profiles)
      then ok (record { profiles = profiles; default_profile = c ∷ name })
      else err unknown_default
  file_of profiles _ = err bad_default

  -- `_parse`
  unfoldable pub parse_costs : TomlTable → Result CostError CostProfiles
  unfolding profile_entries
  parse_costs document =
      if not (keys_in (codes "profiles" ∷ codes "default_profile" ∷ []) document)
      then err unknown_top_key
      else (profiles_of (entry_at (codes "profiles") (toml_table no_entries) document)
          >>= λ profiles.
              file_of profiles (entry_at (codes "default_profile") (toml_text []) document))
