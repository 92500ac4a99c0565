-- ===== src/StateScope.antt =====
-- src/qte_shared/state_scope.py: the identity that a book, a cache and a bus belong to, and which
-- market data it takes. The checks of the three names against `[a-z0-9][a-z0-9_-]{0,47}` are
-- written out; what raises `ValueError` returns `err`. A record is its `origin` here: the copy that
-- is stamped differs from it in that field alone.
pub mod Provenance
use quant_trading_engine.Models.{Origin}
use quant_trading_engine.Prelude.{
  Bool, Key-Text, Key-ℕ, List, Option, Result, Text, [], codes, err, false, if◌then◌else◌, leb,
  length, ltb, nat_eq, none, not, ok, or_else, some, true, ℕ, ◌&&◌, ◌++◌, ◌==◌, ◌||◌, ◌∷◌,
}
use quant_trading_engine.Timeframes.{Key-Timeframe}

pub data ExecutionMode : Type 0 where
  dev shadow live : ExecutionMode

abbrev pub is_dev : ExecutionMode → Bool
is_dev dev = true
is_dev _ = false

abbrev is_live : ExecutionMode → Bool
is_live live = true
is_live _ = false

pub record StateScope : Type 0 where
  pub environment : Text
  pub execution_mode : ExecutionMode
  pub provider : Text

pub data ScopeError : Type 0 where
  bad_component dev_mode_outside live_in_development synthetic_outside shared_simulator
        unnamed_provider foreign_provider foreign_origin :
      ScopeError

-- `text.split("-")`
abbrev pub onto_first : ℕ → List Text → List Text
onto_first c [] = (c ∷ []) ∷ []
onto_first c (part ∷ parts) = (c ∷ part) ∷ parts

unfoldable pub split_dash : Text → List Text
split_dash [] = [] ∷ []
split_dash (c ∷ s) =
    let rest = split_dash s in if nat_eq c b'-' then [] ∷ rest else onto_first c rest

unfoldable pub providers : StateScope → List Text
unfolding split_dash
providers s = split_dash s.provider

unfoldable pub includes : Text → List Text → Bool
includes t [] = false
includes t (u ∷ us) = u == t || includes t us

abbrev pub simulator : Text
simulator = codes "simulator"

abbrev pub mode_label : ExecutionMode → Text
mode_label dev = codes "dev"
mode_label shadow = codes "shadow"
mode_label live = codes "live"

-- `namespace`
unfoldable pub scope_namespace : StateScope → Text
scope_namespace s =
    s.environment ++ codes ":" ++ mode_label s.execution_mode ++ codes ":" ++ s.provider

abbrev is_start : ℕ → Bool
is_start c = (leb b'a' c && leb c b'z') || (leb b'0' c && leb c b'9')

unfoldable pub is_rest : Text → Bool
is_rest [] = true
is_rest (c ∷ s) = (is_start c || nat_eq c b'_' || nat_eq c b'-') && is_rest s

unfoldable pub is_component : Text → Bool
unfolding is_rest
is_component [] = false
is_component (c ∷ s) = is_start c && is_rest s && leb (length s) 47

-- `__post_init__`
unfoldable pub check_scope : StateScope → Result ScopeError StateScope
unfolding is_component includes providers
check_scope s =
    let in_dev = s.environment == codes "dev" in
    let simulated = includes simulator (providers s) in
    if not (is_component s.environment && is_component s.provider)
    then err bad_component
    else if is_dev s.execution_mode && not in_dev
    then err dev_mode_outside
    else if is_live s.execution_mode && in_dev
    then err live_in_development
    else if simulated && not (is_dev s.execution_mode)
    then err synthetic_outside
    else if simulated && ltb 1 (length (providers s))
    then err shared_simulator
    else ok s

-- `origin`, of the provider that is named or the only one.
unfoldable pub origin_of : Text → Option Bool → StateScope → Result ScopeError Origin
unfolding includes providers scope_namespace
origin_of provider synthetic s =
    let is_synthetic = or_else synthetic (provider == simulator) in
    if not (includes provider (providers s))
    then err foreign_provider
    else if is_synthetic && not (is_dev s.execution_mode)
    then err synthetic_outside
    else ok
        (record { namespace = scope_namespace s; provider = provider; synthetic = is_synthetic })

unfoldable pub origin : Option Text → Option Bool → StateScope → Result ScopeError Origin
unfolding origin_of providers
origin (some provider) synthetic s = origin_of provider synthetic s
origin none synthetic s =
    if ltb 1 (length (providers s)) then err unnamed_provider else origin_of s.provider synthetic s

unfoldable pub accepts : Option Origin → StateScope → Bool
unfolding includes providers scope_namespace
accepts none s = false
accepts (some o) s =
    o.namespace == scope_namespace s
    && includes o.provider (providers s)
    && (not o.synthetic || is_dev s.execution_mode)
    && (not (o.provider == simulator) || o.synthetic)

abbrev pub bool_eq : Bool → Bool → Bool
bool_eq true b = b
bool_eq false b = not b

unfoldable pub origin_eq : Origin → Origin → Bool
origin_eq o p =
    o.namespace == p.namespace && o.provider == p.provider && bool_eq o.synthetic p.synthetic

-- `stamp_market_data`, of the record's origin.
unfoldable pub stamp_market_data : Option Origin → Origin → Result ScopeError Origin
unfolding origin_eq
stamp_market_data none o = ok o
stamp_market_data (some held) o = if origin_eq held o then ok o else err foreign_origin

abbrev pub stamp_with : Option Origin → Result ScopeError Origin → Result ScopeError Origin
stamp_with held (err e) = err e
stamp_with held (ok o) = stamp_market_data held o

unfoldable pub stamp_in_scope : Option Origin → StateScope → Result ScopeError Origin
unfolding origin includes providers
stamp_in_scope none s = stamp_with none (origin none none s)
stamp_in_scope (some held) s =
    if not (includes held.provider (providers s))
    then err foreign_origin
    else stamp_with (some held) (origin (some held.provider) none s)
