-- ===== src/Costs/Parsed.antt =====
-- src/qte_backtest/costs.py from the text of the file to the price of a run.
use quant_trading_engine.Costs.{
  AccountCosts, CostProfile, CostProfiles, CostTable, ResolvedCosts, bad_number, is_cost,
  resolve_costs, unknown_cost,
}
use quant_trading_engine.Costs.Paid.{
  AccountPaid, AllPaid, IsPaid, ProfilePaid, ProfilesPaid, ResolvedPaid, TablesPaid, insert-AllPaid,
  resolve_costs-ResolvedPaid,
}
use quant_trading_engine.Costs.Parsing.{
  Toml, TomlTable, checked_cost, cost_entries, cost_table, entry, entry_at, file_of, keys_in,
  new_symbol, no_entries, parse_costs, parts_of, profile_entries, profile_of, profiles_of,
  symbol_entries, symbol_tables, toml_number, toml_other, toml_table, toml_text,
}
use quant_trading_engine.Delivery.{resolved}
use quant_trading_engine.Floats.{Float, Floats}
use quant_trading_engine.Prelude.{
  Bool, Bool-cases, Dict, Key-Text, Key-pair, Key-ℕ, Option, Text, [], ap, bind-ok, codes, err,
  false, if◌then◌else◌, inl, inr, insert, is_some, lookup, not, ok, some, subst, true, upper, ◌==◌,
  ◌>>=◌, ◌∷◌, ◌≡◌,
}
use quant_trading_engine.Timeframes.{Key-Timeframe}

module _ ⦃F : Floats⦄ where
  open F use {of_ℕ, lt}

  refused-both :
      (b : Bool) (x : Float) → (if not b then err unknown_cost else err bad_number) ≡ ok x → ⊥
  refused-both true x h = cc h
  refused-both false x h = cc h

  checked_cost-IsPaid :
      (key : Text) (value : Toml) (x : Float) → checked_cost key value ≡ ok x → IsPaid x
  unfolding checked_cost
  checked_cost-IsPaid key (toml_number y) x h = elim (Bool-cases (is_cost key)) [
    | inl known ↦ elim (Bool-cases (lt y (of_ℕ 0))) [
      | inl negative ↦ absurd (cc (rw negative at (rw known at h)))
      | inr paid ↦
          let it : ok y ≡ ok x = rw paid at (rw known at h) in
          let same : y ≡ x = cc it in subst IsPaid same paid
    ]
    | inr unknown ↦ absurd (cc (rw unknown at h))
  ]
  checked_cost-IsPaid key (toml_text t) x h = absurd (refused-both (is_cost key) x h)
  checked_cost-IsPaid key (toml_table t) x h = absurd (refused-both (is_cost key) x h)
  checked_cost-IsPaid key toml_other x h = absurd (refused-both (is_cost key) x h)

  cost_entries-AllPaid :
      (table : TomlTable) (costs out : CostTable)
      → AllPaid costs
      → cost_entries table costs ≡ ok out
      → AllPaid out
  unfolding cost_entries
  cost_entries-AllPaid no_entries costs out all h =
      let it : costs ≡ out = cc h in subst AllPaid it all
  cost_entries-AllPaid (entry key value table) costs out all h =
      let (x, paid, rest) =
        bind-ok (checked_cost key value) (λ x. cost_entries table (insert key x costs)) out h in
      cost_entries-AllPaid table (insert key x costs) out
        (insert-AllPaid key x costs (checked_cost-IsPaid key value x paid) all) rest

  cost_table-AllPaid : (value : Toml) (out : CostTable) → cost_table value ≡ ok out → AllPaid out
  unfolding cost_table
  cost_table-AllPaid (toml_table table) out h = cost_entries-AllPaid table [] out tt h
  cost_table-AllPaid (toml_number x) out h = absurd (cc h)
  cost_table-AllPaid (toml_text t) out h = absurd (cc h)
  cost_table-AllPaid toml_other out h = absurd (cc h)

  insert-TablesPaid :
      (symbol : Text) (costs : CostTable) (tables : Dict Text CostTable)
      → AllPaid costs
      → TablesPaid tables
      → TablesPaid (insert symbol costs tables)
  unfolding insert
  insert-TablesPaid symbol costs [] paid all = (paid, tt)
  insert-TablesPaid symbol costs ((s, c) ∷ tables) paid all = elim (Bool-cases (s == symbol)) [
    | inl same ↦ rw same (paid, all.1)
    | inr other ↦ rw other (all.0, insert-TablesPaid symbol costs tables paid all.1)
  ]

  symbol_entries-TablesPaid :
      (table : TomlTable) (tables out : Dict Text CostTable)
      → TablesPaid tables
      → symbol_entries table tables ≡ ok out
      → TablesPaid out
  unfolding symbol_entries
  symbol_entries-TablesPaid no_entries tables out all h =
      let it : tables ≡ out = cc h in subst TablesPaid it all
  symbol_entries-TablesPaid (entry symbol value table) tables out all h =
      let (name, fresh, rest) =
        bind-ok (new_symbol (upper symbol) tables)
          (λ name. cost_table value >>= λ costs. symbol_entries table (insert name costs tables))
          out h in
      let (costs, parsed, after) =
        bind-ok (cost_table value) (λ costs. symbol_entries table (insert name costs tables)) out
          rest in
      symbol_entries-TablesPaid table (insert name costs tables) out
        (insert-TablesPaid name costs tables (cost_table-AllPaid value costs parsed) all) after

  symbol_tables-TablesPaid :
      (value : Toml) (out : Dict Text CostTable) → symbol_tables value ≡ ok out → TablesPaid out
  unfolding symbol_tables
  symbol_tables-TablesPaid (toml_table table) out h = symbol_entries-TablesPaid table [] out tt h
  symbol_tables-TablesPaid (toml_number x) out h = absurd (cc h)
  symbol_tables-TablesPaid (toml_text t) out h = absurd (cc h)
  symbol_tables-TablesPaid toml_other out h = absurd (cc h)

  parts_of-ProfilePaid :
      (name : Text) (table : TomlTable) (p : CostProfile)
      → parts_of name table ≡ ok p
      → ProfilePaid p
  parts_of-ProfilePaid name table p h =
      let defaults_in = entry_at (codes "defaults") (toml_table no_entries) table in
      let symbols_in = entry_at (codes "symbols") (toml_table no_entries) table in
      let (defaults, parsed, rest) = bind-ok (cost_table defaults_in) _ p h in
      let (symbols, parsed', made) = bind-ok (symbol_tables symbols_in) _ p rest in
      let it : record { name = name; defaults = defaults; symbols = symbols } ≡ p = cc made in
      subst ProfilePaid it (
        cost_table-AllPaid defaults_in defaults parsed,
        symbol_tables-TablesPaid symbols_in symbols parsed',
      )

  profile_of-ProfilePaid :
      (name : Text) (value : Toml) (p : CostProfile) → profile_of name value ≡ ok p → ProfilePaid p
  unfolding profile_of
  profile_of-ProfilePaid name (toml_table table) p h =
      elim (Bool-cases (keys_in (codes "defaults" ∷ codes "symbols" ∷ []) table)) [
        | inl known ↦ parts_of-ProfilePaid name table p (rw known at h)
        | inr unknown ↦ absurd (cc (rw unknown at h))
      ]
  profile_of-ProfilePaid name (toml_number x) p h = absurd (cc h)
  profile_of-ProfilePaid name (toml_text t) p h = absurd (cc h)
  profile_of-ProfilePaid name toml_other p h = absurd (cc h)

  insert-ProfilesPaid :
      (name : Text) (p : CostProfile) (profiles : Dict Text CostProfile)
      → ProfilePaid p
      → ProfilesPaid profiles
      → ProfilesPaid (insert name p profiles)
  unfolding insert
  insert-ProfilesPaid name p [] paid all = (paid, tt)
  insert-ProfilesPaid name p ((n, q) ∷ profiles) paid all = elim (Bool-cases (n == name)) [
    | inl same ↦ rw same (paid, all.1)
    | inr other ↦ rw other (all.0, insert-ProfilesPaid name p profiles paid all.1)
  ]

  profile_entries-ProfilesPaid :
      (table : TomlTable) (profiles out : Dict Text CostProfile)
      → ProfilesPaid profiles
      → profile_entries table profiles ≡ ok out
      → ProfilesPaid out
  unfolding profile_entries
  profile_entries-ProfilesPaid no_entries profiles out all h =
      let it : profiles ≡ out = cc h in subst ProfilesPaid it all
  profile_entries-ProfilesPaid (entry name value table) profiles out all h =
      let (p, parsed, rest) =
        bind-ok (profile_of name value) (λ p. profile_entries table (insert name p profiles)) out
          h in
      profile_entries-ProfilesPaid table (insert name p profiles) out
        (insert-ProfilesPaid name p profiles (profile_of-ProfilePaid name value p parsed) all) rest

  profiles_of-ProfilesPaid :
      (value : Toml) (out : Dict Text CostProfile) → profiles_of value ≡ ok out → ProfilesPaid out
  profiles_of-ProfilesPaid (toml_table table) out h = profile_entries-ProfilesPaid table [] out tt h
  profiles_of-ProfilesPaid (toml_number x) out h = absurd (cc h)
  profiles_of-ProfilesPaid (toml_text t) out h = absurd (cc h)
  profiles_of-ProfilesPaid toml_other out h = absurd (cc h)

  file_of-profiles :
      (profiles : Dict Text CostProfile) (value : Toml) (file : CostProfiles)
      → file_of profiles value ≡ ok file
      → profiles ≡ file.profiles
  file_of-profiles profiles (toml_text []) file h =
      let it : record { profiles = profiles; default_profile = [] } ≡ file = cc h in
      ap (λ f. f.profiles) it
  file_of-profiles profiles (toml_text (c ∷ name)) file h =
      elim (Bool-cases (is_some (lookup (c ∷ name) profiles))) [
        | inl known ↦
            let made : ok (record { profiles = profiles; default_profile = c ∷ name }) ≡ ok file =
              rw known at h in
            let it : record { profiles = profiles; default_profile = c ∷ name } ≡ file = cc made in
            ap (λ f. f.profiles) it
        | inr unknown ↦ absurd (cc (rw unknown at h))
      ]
  file_of-profiles profiles (toml_number x) file h = absurd (cc h)
  file_of-profiles profiles (toml_table t) file h = absurd (cc h)
  file_of-profiles profiles toml_other file h = absurd (cc h)

  parse_costs-ProfilesPaid :
      (document : TomlTable) (file : CostProfiles)
      → parse_costs document ≡ ok file
      → ProfilesPaid file.profiles
  unfolding parse_costs
  parse_costs-ProfilesPaid document file h =
      let table = entry_at (codes "profiles") (toml_table no_entries) document in
      let default = entry_at (codes "default_profile") (toml_text []) document in
      elim (Bool-cases (keys_in (codes "profiles" ∷ codes "default_profile" ∷ []) document)) [
        | inl known ↦
            let made : (profiles_of table >>= λ profiles. file_of profiles default) ≡ ok file =
              rw known at h in
            let (profiles, parsed, rest) =
              bind-ok (profiles_of table) (λ profiles. file_of profiles default) file made in
            subst ProfilesPaid (file_of-profiles profiles default file rest)
              (profiles_of-ProfilesPaid table profiles parsed)
        | inr unknown ↦ absurd (cc (rw unknown at h))
      ]

  -- Whatever document is read, whichever profile is asked for and whatever flags are passed: where
  -- the run is priced at all, and the account states no negative cost, it pays no negative cost.
  pub parsed_costs-ResolvedPaid :
      (document : TomlTable) (file : CostProfiles) (symbol : Text) (profile : Option Text)
      (flags : Dict Text (Option Float)) (account : AccountCosts) (r : ResolvedCosts)
      → parse_costs document ≡ ok file
      → AccountPaid account
      → resolve_costs symbol (some file) profile flags account ≡ ok r
      → ResolvedPaid r
  parsed_costs-ResolvedPaid document file symbol profile flags account r parsed paid resolved =
      resolve_costs-ResolvedPaid symbol (some file) profile flags account r
        (parse_costs-ProfilesPaid document file parsed) paid resolved
