-- ===== src/Costs/Paid.antt =====
-- src/qte_backtest/costs.py: no cost is negative.
use quant_trading_engine.Costs.{
  AccountCosts, CostProfile, CostProfiles, CostSource, CostTable, ResolvedCosts, choose,
  found_profile, given_flags, has_negative, has_unknown, merge_costs, named, price_all, price_key,
  price_keys, priced, quote, quoted, resolve_costs, select, select_from, some_text, table_of,
  wanted_name,
}
use quant_trading_engine.Floats.{Float, Floats}
use quant_trading_engine.Prelude.{
  Bool-cases, Dict, Key-Text, Key-pair, Key-ℕ, Option, Text, [], arith, bind-ok, codes, false, inl,
  inr, insert, lookup, none, ok, or_else, some, strip, subst, upper, ◌==◌, ◌∷◌, ◌≡◌,
}
use quant_trading_engine.Timeframes.{Key-Timeframe}

module _ ⦃F : Floats⦄ where
  open F use {of_ℕ, lt}

  abbrev pub IsPaid : Float → Type 0
  IsPaid x = lt x (of_ℕ 0) ≡ false

  abbrev pub AllPaid : CostTable → Type 0
  AllPaid [] = Unit
  AllPaid ((key, value) ∷ costs) = IsPaid value × AllPaid costs

  pub insert-AllPaid :
      (key : Text) (value : Float) (costs : CostTable)
      → IsPaid value
      → AllPaid costs
      → AllPaid (insert key value costs)
  unfolding insert
  insert-AllPaid key value [] paid all = (paid, tt)
  insert-AllPaid key value ((k, v) ∷ costs) paid all = elim (Bool-cases (k == key)) [
    | inl same ↦ rw same (paid, all.1)
    | inr other ↦ rw other (all.0, insert-AllPaid key value costs paid all.1)
  ]

  merge_costs-AllPaid :
      (costs values : CostTable)
      → AllPaid costs
      → AllPaid values
      → AllPaid (merge_costs costs values)
  unfolding merge_costs
  merge_costs-AllPaid [] values h k = k
  merge_costs-AllPaid ((key, value) ∷ costs) values h k =
      merge_costs-AllPaid costs (insert key value values) h.1
        (insert-AllPaid key value values h.0 k)

  abbrev pub PaidIf : Option Float → Type 0
  PaidIf none = Unit
  PaidIf (some x) = IsPaid x

  lookup-AllPaid : (key : Text) (costs : CostTable) → AllPaid costs → PaidIf (lookup key costs)
  unfolding lookup
  lookup-AllPaid key [] all = tt
  lookup-AllPaid key ((k, v) ∷ costs) all = elim (Bool-cases (k == key)) [
    | inl same ↦ rw same all.0
    | inr other ↦ rw other (lookup-AllPaid key costs all.1)
  ]

  -- The tables of a profile, and those of a file.
  abbrev pub TablesPaid : Dict Text CostTable → Type 0
  TablesPaid [] = Unit
  TablesPaid ((symbol, costs) ∷ tables) = AllPaid costs × TablesPaid tables

  abbrev pub ProfilePaid : CostProfile → Type 0
  ProfilePaid p = AllPaid p.defaults × TablesPaid p.symbols

  abbrev pub ProfilesPaid : Dict Text CostProfile → Type 0
  ProfilesPaid [] = Unit
  ProfilesPaid ((name, p) ∷ profiles) = ProfilePaid p × ProfilesPaid profiles

  table_of-AllPaid :
      (symbol : Text) (tables : Dict Text CostTable)
      → TablesPaid tables
      → AllPaid (or_else (lookup symbol tables) [])
  unfolding lookup
  table_of-AllPaid symbol [] all = tt
  table_of-AllPaid symbol ((s, costs) ∷ tables) all = elim (Bool-cases (s == symbol)) [
    | inl same ↦ rw same all.0
    | inr other ↦ rw other (table_of-AllPaid symbol tables all.1)
  ]

  abbrev pub ChosenPaid : Option CostProfile → Type 0
  ChosenPaid none = Unit
  ChosenPaid (some p) = ProfilePaid p

  quoted-AllPaid :
      (chosen : Option CostProfile) (symbol : Text)
      → ChosenPaid chosen
      → AllPaid (quoted chosen symbol).0
  quoted-AllPaid none symbol h = tt
  quoted-AllPaid (some p) symbol h =
      unfold quote in
      merge_costs-AllPaid (table_of p symbol) p.defaults
        (table_of-AllPaid (upper symbol) p.symbols h.1) h.0

  given-AllPaid : (costs : CostTable) → has_negative costs ≡ false → AllPaid costs
  given-AllPaid [] h = tt
  given-AllPaid ((key, value) ∷ costs) h =
      (ground (arith, h), given-AllPaid costs (ground (arith, h)))

  priced-IsPaid :
      (flag value : Option Float) (source : Option CostSource) (account : Float)
      → PaidIf flag
      → PaidIf value
      → IsPaid account
      → IsPaid (priced flag value source account).0
  priced-IsPaid (some x) value source account f v a = f
  priced-IsPaid none (some x) source account f v a = v
  priced-IsPaid none none source account f v a = a

  abbrev pub AccountPaid : AccountCosts → Type 0
  AccountPaid a = IsPaid a.account_spread × IsPaid a.account_slippage × IsPaid a.account_commission

  abbrev pub ResolvedPaid : ResolvedCosts → Type 0
  ResolvedPaid r = IsPaid r.spread.0 × IsPaid r.slippage.0 × IsPaid r.commission_per_unit.0

  price_key-IsPaid :
      (given : CostTable) (values : CostTable × Dict Text CostSource) (key : Text) (account : Float)
      → AllPaid given
      → AllPaid values.0
      → IsPaid account
      → IsPaid (price_key given values key account).0
  price_key-IsPaid given (values, sources) key account f v a =
      priced-IsPaid (lookup key given) (lookup key values) (lookup key sources) account
        (lookup-AllPaid key given f) (lookup-AllPaid key values v) a

  price_keys-ResolvedPaid :
      (chosen : Option CostProfile) (symbol : Text) (given : CostTable) (account : AccountCosts)
      → ChosenPaid chosen
      → AllPaid given
      → AccountPaid account
      → ResolvedPaid (price_keys chosen symbol given account)
  unfolding price_keys
  price_keys-ResolvedPaid chosen symbol given account paid f (a, b, c) =
      let values = quoted chosen symbol in
      let v = quoted-AllPaid chosen symbol paid in
      (
        price_key-IsPaid given values (codes "spread") account.account_spread f v a,
        price_key-IsPaid given values (codes "slippage") account.account_slippage f v b,
        price_key-IsPaid given values (codes "commission_per_unit") account.account_commission f v
            c,
      )

  price_all-ResolvedPaid :
      (chosen : Option CostProfile) (symbol : Text) (given : CostTable) (account : AccountCosts)
      (r : ResolvedCosts)
      → ChosenPaid chosen
      → AccountPaid account
      → price_all chosen symbol given account ≡ ok r
      → ResolvedPaid r
  unfolding price_all
  price_all-ResolvedPaid chosen symbol given account r paid a h =
      elim (Bool-cases (has_unknown given)) [
        | inl unknown ↦ absurd (cc (rw unknown at h))
        | inr known ↦ elim (Bool-cases (has_negative given)) [
          | inl negative ↦ absurd (cc (rw negative at (rw known at h)))
          | inr paid_flags ↦
              let done : ok (price_keys chosen symbol given account) ≡ ok r =
                rw paid_flags at (rw known at h) in
              let it : price_keys chosen symbol given account ≡ r = cc done in
              subst ResolvedPaid it (
                price_keys-ResolvedPaid chosen symbol given account paid
                  (given-AllPaid given paid_flags) a)
        ]
      ]

  lookup-ChosenPaid :
      (name : Text) (profiles : Dict Text CostProfile)
      → ProfilesPaid profiles
      → ChosenPaid (lookup name profiles)
  unfolding lookup
  lookup-ChosenPaid name [] all = tt
  lookup-ChosenPaid name ((n, p) ∷ profiles) all = elim (Bool-cases (n == name)) [
    | inl same ↦ rw same all.0
    | inr other ↦ rw other (lookup-ChosenPaid name profiles all.1)
  ]

  found_profile-ChosenPaid :
      (p chosen : Option CostProfile)
      → ChosenPaid p
      → found_profile p ≡ ok chosen
      → ChosenPaid chosen
  found_profile-ChosenPaid none chosen paid h = absurd (cc h)
  found_profile-ChosenPaid (some p) chosen paid h =
      let it : some p ≡ chosen = cc h in subst ChosenPaid it paid

  named-ChosenPaid :
      (wanted : Text) (profiles : Dict Text CostProfile) (chosen : Option CostProfile)
      → ProfilesPaid profiles
      → named wanted profiles ≡ ok chosen
      → ChosenPaid chosen
  named-ChosenPaid [] [] chosen all h = absurd (cc h)
  named-ChosenPaid [] ((n, p) ∷ []) chosen all h =
      let it : some p ≡ chosen = cc h in subst ChosenPaid it all.0
  named-ChosenPaid [] (p ∷ q ∷ profiles) chosen all h = absurd (cc h)
  named-ChosenPaid (c ∷ name) profiles chosen all h =
      found_profile-ChosenPaid (lookup (c ∷ name) profiles) chosen
        (lookup-ChosenPaid (c ∷ name) profiles all) h

  select_from-ChosenPaid :
      (wanted : Text) (profiles : Dict Text CostProfile) (chosen : Option CostProfile)
      → ProfilesPaid profiles
      → select_from wanted profiles ≡ ok chosen
      → ChosenPaid chosen
  select_from-ChosenPaid wanted [] chosen all h =
      let it : none ≡ chosen = cc h in subst ChosenPaid it tt
  select_from-ChosenPaid wanted (p ∷ profiles) chosen all h =
      named-ChosenPaid wanted (p ∷ profiles) chosen all h

  abbrev pub FilePaid : Option CostProfiles → Type 0
  FilePaid none = Unit
  FilePaid (some file) = ProfilesPaid file.profiles

  choose-ChosenPaid :
      (file : Option CostProfiles) (wanted : Text) (chosen : Option CostProfile)
      → FilePaid file
      → choose file wanted ≡ ok chosen
      → ChosenPaid chosen
  unfolding select
  choose-ChosenPaid none [] chosen paid h = let it : none ≡ chosen = cc h in subst ChosenPaid it tt
  choose-ChosenPaid none (c ∷ wanted) chosen paid h = absurd (cc h)
  choose-ChosenPaid (some file) wanted chosen paid h =
      select_from-ChosenPaid (wanted_name (some_text wanted) file.default_profile) file.profiles
        chosen paid h

  pub resolve_costs-ResolvedPaid :
      (symbol : Text) (file : Option CostProfiles) (profile : Option Text)
      (flags : Dict Text (Option Float)) (account : AccountCosts) (r : ResolvedCosts)
      → FilePaid file
      → AccountPaid account
      → resolve_costs symbol file profile flags account ≡ ok r
      → ResolvedPaid r
  unfolding resolve_costs
  resolve_costs-ResolvedPaid symbol file profile flags account r paid a h =
      let (chosen, selected, done) =
        bind-ok (choose file (strip (or_else profile [])))
          (λ chosen. price_all chosen symbol (given_flags flags) account) r h in
      price_all-ResolvedPaid chosen symbol (given_flags flags) account r
        (choose-ChosenPaid file (strip (or_else profile [])) chosen paid selected) a done
