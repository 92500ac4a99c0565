-- ===== src/Costs.antt =====
-- src/qte_backtest/costs.py: what a replay charges a fill. A TOML document is a value: a number, a
-- text, a table, or anything else that TOML has; a whole number counts as the float that it is read
-- as. Log lines and where a file lies are left out.
pub mod Parsing
pub mod Paid
pub mod Parsed
pub mod Quoted
use quant_trading_engine.Floats.{Float, Floats}
use quant_trading_engine.Prelude.{
  Bool, Dict, Key-Text, Key-pair, Key-ℕ, List, Option, Result, Text, [], codes, err, false,
  if◌then◌else◌, insert, is_some, lookup, none, not, ok, or_else, some, strip, upper, ◌==◌, ◌>>=◌,
  ◌||◌, ◌∷◌,
}
use quant_trading_engine.Timeframes.{Key-Timeframe}

-- `COST_KEYS`
abbrev pub cost_keys : List Text
cost_keys = codes "spread" ∷ codes "slippage" ∷ codes "commission_per_unit" ∷ []

pub data CostSource : Type 0 where
  from_flag from_symbol from_defaults from_account : CostSource

pub data CostError : Type 0 where
  unknown_top_key bad_profiles bad_profile unknown_profile_key bad_table unknown_cost : CostError
  bad_number negative_cost bad_symbols symbol_twice bad_default unknown_default : CostError
  no_default unknown_profile no_profile_file unknown_flag negative_flag : CostError

module _ ⦃F : Floats⦄ where
  open F use {of_ℕ, lt}

  abbrev pub CostTable : Type 0
  CostTable = Dict Text Float

  pub record CostProfile : Type 0 where
    pub name : Text
    pub defaults : CostTable
    pub symbols : Dict Text CostTable

  -- `CostProfiles`, where a file was read.
  pub record CostProfiles : Type 0 where
    pub profiles : Dict Text CostProfile
    pub default_profile : Text

  abbrev pub table_of : CostProfile → Text → CostTable
  table_of p symbol = or_else (lookup (upper symbol) p.symbols) []

  abbrev pub states : CostProfile → Text → Bool
  states p symbol = is_some (lookup (upper symbol) p.symbols)

  -- `values[key] = value` and `origins[key] = source`, for each entry in turn.
  unfoldable pub merge_costs : CostTable → CostTable → CostTable
  merge_costs [] values = values
  merge_costs ((key, value) ∷ costs) values = merge_costs costs (insert key value values)

  unfoldable pub merge_origins :
      CostSource → CostTable → Dict Text CostSource → Dict Text CostSource
  merge_origins source [] origins = origins
  merge_origins source ((key, value) ∷ costs) origins =
      merge_origins source costs (insert key source origins)

  -- `CostProfile.quote`
  unfoldable pub quote : CostProfile → Text → CostTable × Dict Text CostSource
  unfolding merge_costs merge_origins upper lookup
  quote p symbol =
      let sources = merge_origins from_defaults p.defaults [] in
      (
        merge_costs (table_of p symbol) p.defaults,
        merge_origins from_symbol (table_of p symbol) sources,
      )

  -- `(name or self.default_profile or "").strip()`
  abbrev pub wanted_name : Option Text → Text → Text
  wanted_name none default = strip default
  wanted_name (some []) default = strip default
  wanted_name (some (c ∷ name)) default = strip (c ∷ name)

  abbrev pub found_profile : Option CostProfile → Result CostError (Option CostProfile)
  found_profile none = err unknown_profile
  found_profile (some p) = ok (some p)

  abbrev pub named : Text → Dict Text CostProfile → Result CostError (Option CostProfile)
  named [] ((_, p) ∷ []) = ok (some p)
  named [] profiles = err no_default
  named (c ∷ name) profiles = found_profile (lookup (c ∷ name) profiles)

  abbrev pub select_from : Text → Dict Text CostProfile → Result CostError (Option CostProfile)
  select_from wanted [] = ok none
  select_from wanted (p ∷ profiles) = named wanted (p ∷ profiles)

  -- `CostProfiles.select`
  unfoldable pub select : CostProfiles → Option Text → Result CostError (Option CostProfile)
  unfolding lookup strip
  select profiles name = select_from (wanted_name name profiles.default_profile) profiles.profiles

  abbrev pub is_cost : Text → Bool
  is_cost key =
      key == codes "spread" || key == codes "slippage" || key == codes "commission_per_unit"

  -- The flags that were passed.
  unfoldable pub given_flags : Dict Text (Option Float) → CostTable
  given_flags [] = []
  given_flags ((key, none) ∷ flags) = given_flags flags
  given_flags ((key, some value) ∷ flags) = (key, value) ∷ given_flags flags

  abbrev pub has_unknown : CostTable → Bool
  has_unknown [] = false
  has_unknown ((key, value) ∷ costs) = not (is_cost key) || has_unknown costs

  abbrev pub has_negative : CostTable → Bool
  has_negative [] = false
  has_negative ((key, value) ∷ costs) = lt value (of_ℕ 0) || has_negative costs

  -- `QTE_ACCOUNT__SPREAD`, `.._SLIPPAGE` and `.._COMMISSION_PER_UNIT`
  pub record AccountCosts : Type 0 where
    pub account_spread : Float
    pub account_slippage : Float
    pub account_commission : Float

  -- One key: the flag, else what the profile states, else the account's number.
  abbrev pub priced : Option Float → Option Float → Option CostSource → Float → Float × CostSource
  priced (some flag) quoted_value source account = (flag, from_flag)
  priced none (some value) source account = (value, or_else source from_defaults)
  priced none none source account = (account, from_account)

  pub record ResolvedCosts : Type 0 where
    pub spread : Float × CostSource
    pub slippage : Float × CostSource
    pub commission_per_unit : Float × CostSource
    pub profile : Text

  abbrev pub quoted : Option CostProfile → Text → CostTable × Dict Text CostSource
  quoted none symbol = ([], [])
  quoted (some p) symbol = quote p symbol

  abbrev pub name_of : Option CostProfile → Text
  name_of none = []
  name_of (some p) = p.name

  abbrev pub price_key :
      CostTable → CostTable × Dict Text CostSource → Text → Float → Float × CostSource
  price_key given (values, sources) key account =
      priced (lookup key given) (lookup key values) (lookup key sources) account

  unfoldable pub price_keys : Option CostProfile → Text → CostTable → AccountCosts → ResolvedCosts
  unfolding quote lookup
  price_keys chosen symbol given account =
      let stated_costs = quoted chosen symbol in
      record {
        spread = price_key given stated_costs (codes "spread") account.account_spread;
        slippage = price_key given stated_costs (codes "slippage") account.account_slippage;
        commission_per_unit =
            price_key given stated_costs (codes "commission_per_unit") account.account_commission;
        profile = name_of chosen;
      }

  unfoldable pub price_all :
      Option CostProfile → Text → CostTable → AccountCosts → Result CostError ResolvedCosts
  unfolding price_keys
  price_all chosen symbol given account =
      if has_unknown given
      then err unknown_flag
      else if has_negative given
      then err negative_flag
      else ok (price_keys chosen symbol given account)

  -- `wanted or None`
  abbrev pub some_text : Text → Option Text
  some_text [] = none
  some_text (c ∷ s) = some (c ∷ s)

  abbrev pub choose : Option CostProfiles → Text → Result CostError (Option CostProfile)
  choose none [] = ok none
  choose none (c ∷ wanted) = err no_profile_file
  choose (some profiles) wanted = select profiles (some_text wanted)

  -- `resolve_costs`
  unfoldable pub resolve_costs :
      Text
      → Option CostProfiles
      → Option Text
      → Dict Text (Option Float)
      → AccountCosts
      → Result CostError ResolvedCosts
  unfolding select price_all given_flags strip
  resolve_costs symbol profiles profile flags account =
      choose profiles (strip (or_else profile [])) >>= λ chosen.
      price_all chosen symbol (given_flags flags) account
