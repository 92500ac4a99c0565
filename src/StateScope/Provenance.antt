-- ===== src/StateScope/Provenance.antt =====
-- The origins that src/qte_shared/state_scope.py hands out and stamps, and those that a scope accepts.

-- What it is for data to belong to a scope.
use quant_trading_engine.Delivery.{differs}
use quant_trading_engine.Models.{Origin}
use quant_trading_engine.Prelude.{
  Bool, Bool-cases, Key-Text, Key-pair, Key-ℕ, Option, Result, Text, arith, codes, eq_iff, eq_self,
  err, false, if◌then◌else◌, inl, inr, none, not, ok, or_else, refl, some, sym, true, ◌&&◌, ◌==◌,
  ◌||◌, ◌∙◌, ◌≡◌, ◌⊎◌,
}
use quant_trading_engine.StateScope.{
  ExecutionMode, ScopeError, StateScope, accepts, bool_eq, dev, foreign_origin, includes, is_dev,
  live, origin, origin_eq, origin_of, providers, scope_namespace, shadow, stamp_in_scope,
  stamp_market_data, stamp_with,
}
use quant_trading_engine.Timeframes.{Key-Timeframe}

abbrev pub InScope : StateScope → Origin → Type 0
InScope s o =
    (o.namespace ≡ scope_namespace s)
    × (includes o.provider (providers s) ≡ true)
    × ((o.synthetic ≡ false) ⊎ (s.execution_mode ≡ dev))
    × ((o.provider == codes "simulator" && not o.synthetic) ≡ false)

dev_or_not :
    (mode : ExecutionMode) (synthetic : Bool)
    → (not synthetic || is_dev mode) ≡ true
    → (synthetic ≡ false) ⊎ (mode ≡ dev)
dev_or_not mode false h = inl refl
dev_or_not dev true h = inr refl
dev_or_not shadow true h = absurd (cc h)
dev_or_not live true h = absurd (cc h)

origin_of-accepts :
    (provider : Text) (s : StateScope) (o : Origin)
    → origin_of provider none s ≡ ok o
    → accepts (some o) s ≡ true
unfolding origin_of accepts
origin_of-accepts provider s o h = ground (arith, eq_self (scope_namespace s))

-- The origin that a scope hands out, to the provider that is named or its only one, is one that it
-- accepts.
pub origin-accepts :
    (provider : Option Text) (s : StateScope) (o : Origin)
    → origin provider none s ≡ ok o
    → accepts (some o) s ≡ true
unfolding origin
origin-accepts (some provider) s o h = origin_of-accepts provider s o h
origin-accepts none s o h = origin_of-accepts s.provider s o (ground arith)

stamp_with-ok :
    (held : Option Origin) (r : Result ScopeError Origin) (o : Origin)
    → stamp_with held r ≡ ok o
    → r ≡ ok o
unfolding stamp_market_data
stamp_with-ok held (err e) o h = h
stamp_with-ok none (ok p) o h = h
stamp_with-ok (some q) (ok p) o h = ground arith

stamp_in_scope-step :
    (held : Origin) (s : StateScope)
    → stamp_in_scope (some held) s ≡ (
        if not (includes held.provider (providers s))
        then err foreign_origin
        else stamp_with (some held) (origin (some held.provider) none s))
unfolding stamp_in_scope
stamp_in_scope-step held s = refl

accepts-InScope : (s : StateScope) (o : Origin) → accepts (some o) s ≡ true → InScope s o
unfolding accepts
accepts-InScope s o h =
    let mode = s.execution_mode in
    (
      (eq_iff o.namespace (scope_namespace s)).0 (ground (arith, h)),
      ground (arith, h),
      dev_or_not mode o.synthetic (ground (arith, h)),
      ground (arith, h),
    )

bool_eq-same : (a b : Bool) → bool_eq a b ≡ true → a ≡ b
bool_eq-same true b h = sym h
bool_eq-same false true h = absurd (cc h)
bool_eq-same false false h = refl

origin_eq-same : (o p : Origin) → origin_eq o p ≡ true → o ≡ p
unfolding origin_eq
origin_eq-same o p h = ground (
  arith,
  eq_iff o.namespace p.namespace,
  eq_iff o.provider p.provider,
  bool_eq-same o.synthetic p.synthetic,
)

stamp_with-keeps :
    (held : Option Origin) (r : Result ScopeError Origin) (o : Origin)
    → stamp_with held r ≡ ok o
    → or_else held o ≡ o
unfolding stamp_market_data
stamp_with-keeps held (err e) o h = absurd (cc h)
stamp_with-keeps none (ok p) o h = refl
stamp_with-keeps (some q) (ok p) o h = elim (Bool-cases (origin_eq q p)) [
  | inl same ↦
      let it : ok p ≡ ok o = rw same at h in
      let p_is : p ≡ o = cc it in origin_eq-same q p same ∙ p_is
  | inr differs ↦ absurd (cc (rw differs at h))
]

stamp_in_scope-lem :
    (held : Option Origin) (s : StateScope) (o : Origin)
    → stamp_in_scope held s ≡ ok o
    → (accepts (some o) s ≡ true) × (or_else held o ≡ o)
stamp_in_scope-lem none s o h =
    let stamped : stamp_with none (origin none none s) ≡ ok o = unfold stamp_in_scope in h in
    (origin-accepts none s o (stamp_with-ok none (origin none none s) o stamped), refl)
stamp_in_scope-lem (some p) s o h =
    let step = sym (stamp_in_scope-step p s) ∙ h in
    let given = origin (some p.provider) none s in
    elim (Bool-cases (includes p.provider (providers s))) [
      | inl known ↦
          let stamped = rw known at step in
          (
            origin-accepts (some p.provider) s o (stamp_with-ok (some p) given o stamped),
            stamp_with-keeps (some p) given o stamped,
          )
      | inr foreign ↦ absurd (cc (rw foreign at step))
    ]

-- A record that is stamped for a scope, whether it carried an origin or none, carries the scope's
-- namespace and the name of one of its providers; it is marked as synthetic only in development, and
-- always where the provider is the simulator; and an origin that it carried before is the one that
-- it carries now: foreign data is refused, not relabelled.
pub stamp_in_scope-accepts :
    (held : Option Origin) (s : StateScope) (o : Origin)
    → stamp_in_scope held s ≡ ok o
    → InScope s o × (or_else held o ≡ o)
stamp_in_scope-accepts held s o h =
    let (accepted, kept) = stamp_in_scope-lem held s o h in (accepts-InScope s o accepted, kept)
