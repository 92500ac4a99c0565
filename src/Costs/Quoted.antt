-- ===== src/Costs/Quoted.antt =====
-- `CostProfile.quote` of src/qte_backtest/costs.py, key by key.
use quant_trading_engine.Costs.{
  CostProfile, CostSource, CostTable, from_defaults, from_symbol, merge_costs, merge_origins, quote,
  table_of,
}
use quant_trading_engine.Floats.{Float, Floats}
use quant_trading_engine.Prelude.{
  Bool-cases, Dict, Key-Text, Key-pair, Key-ℕ, Option, Text, UniqueKeys, [], arith, eq_iff,
  if◌then◌else◌, inl, inr, insert, is_some, lookup, lookup-insert, none, refl, some, subst, ◌==◌,
  ◌∙◌, ◌∷◌, ◌≡◌,
}
use quant_trading_engine.SignalFactory.Intents.{first_some}
use quant_trading_engine.Timeframes.{Key-Timeframe}

module _ ⦃F : Floats⦄ where
  merge_costs-lookup :
      (costs values : CostTable) (key : Text)
      → UniqueKeys costs
      → lookup key (merge_costs costs values) ≡ first_some (lookup key costs) (lookup key values)
  unfolding merge_costs lookup
  merge_costs-lookup [] values key unique = refl
  merge_costs-lookup ((k, v) ∷ costs) values key (fresh, unique) =
      merge_costs-lookup costs (insert k v values) key unique ∙ elim (Bool-cases (k == key)) [
        | inl same ↦
            let it = (eq_iff k key).0 same in
            let gone : lookup key costs ≡ none = subst (λ j. lookup j costs ≡ none) it fresh in
            rw (lookup-insert key k v values, gone, same) refl
        | inr other ↦ rw (lookup-insert key k v values, other) refl
      ]

  merge_origins-lookup :
      (source : CostSource) (costs : CostTable) (origins : Dict Text CostSource) (key : Text)
      → lookup key (merge_origins source costs origins)
        ≡ (if is_some (lookup key costs) then some source else lookup key origins)
  unfolding merge_origins lookup
  merge_origins-lookup source [] origins key = refl
  merge_origins-lookup source ((k, v) ∷ costs) origins key =
      merge_origins-lookup source costs (insert k source origins) key
      ∙ ground (arith, lookup-insert key k source origins)

  -- The table that said a cost, for a symbol's own table and the defaults.
  abbrev pub said_by : Option Float → Option Float → Option CostSource
  said_by (some own) default = some from_symbol
  said_by none (some default) = some from_defaults
  said_by none none = none

  -- What a profile states for a symbol, in whose table no key stands twice, is, key by key, what that
  -- table states, else what the defaults state; and the source noted beside it is the table that it
  -- was taken from.
  pub quote-merges :
      (p : CostProfile) (symbol key : Text)
      → UniqueKeys (table_of p symbol)
      → (lookup key (quote p symbol).0
          ≡ first_some (lookup key (table_of p symbol)) (lookup key p.defaults))
        × (lookup key (quote p symbol).1
            ≡ said_by (lookup key (table_of p symbol)) (lookup key p.defaults))
  unfolding quote
  quote-merges p symbol key unique =
      let own = table_of p symbol in
      let defaults = merge_origins from_defaults p.defaults [] in
      (
        merge_costs-lookup own p.defaults key unique,
        merge_origins-lookup from_symbol own defaults key
            ∙ said (lookup key own) (lookup key p.defaults) (lookup key defaults)
                (merge_origins-lookup from_defaults p.defaults [] key),
      )
    where
      said :
          (own default : Option Float) (origin_noted : Option CostSource)
          → origin_noted ≡ (if is_some default then some from_defaults else none)
          → (if is_some own then some from_symbol else origin_noted) ≡ said_by own default
      said (some own) default origin_noted h = refl
      said none (some default) origin_noted h = h
      said none none origin_noted h = h
