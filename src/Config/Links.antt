-- ===== src/Config/Links.antt =====
-- What the references of a specification lead to, where `validateReferences` finds nothing wrong.
use modelcairn.Base.{
  ℕ, suc, String, append, str_eq, Bool, true, false, not, ◌&&◌, ◌||◌, Option, none, some, List, [],
  ◌∷◌, is_some, ◌orelse◌, reject, orelse-none, reject-none, same, ◌≡◌, refl, arith,
}
use modelcairn.Config.{
  Kind, Ref, Spec, nothing, provider, provider_account, provider_connection, credential, egress,
  model, destination, strategy, route, agent_token, Resource, invalid, Std,
}
use modelcairn.Config.Specs.{item_path}
use modelcairn.Config.References.{
  lookup, Graph, missing, require, spec_of, same_provider, check_provider, require_all,
  validate_references,
}

-- The reference leads to a resource of the graph.
abbrev pub IsFound : Graph → Kind → Ref → Type 0
IsFound g kind ref = (r : Resource) × (lookup kind ref.name g.effective ≡ some r)

-- The provider that a connection or an account belongs to.
abbrev pub provider_name : Spec → Option String
provider_name (provider_connection c) = some c.provider_ref.name
provider_name (provider_account r) = some r.name
provider_name _ = none

-- The providers of a model, by its connection, and of a credential, by its account.
abbrev pub provider_of : Graph → Spec → Option String
provider_of g (model m) =
    provider_name (spec_of (lookup "ProviderConnection" m.connection_ref.name g.effective))
provider_of g (credential c) =
    provider_name (spec_of (lookup "ProviderAccount" c.provider_account_ref.name g.effective))
provider_of g _ = none

-- Names that are both known are equal.
abbrev pub IsSame : Option String → Option String → Type 0
IsSame (some a) (some b) = a ≡ b
IsSame _ _ = Unit

abbrev pub AllFound : Graph → Kind → List Ref → Type 0
AllFound g kind [] = Unit
AllFound g kind (x ∷ xs) = IsFound g kind x × AllFound g kind xs

-- What the references of a specification lead to, in a graph.
abbrev pub IsLinked : Graph → Spec → Type 0
IsLinked g (provider_account r) = IsFound g "Provider" r
IsLinked g (provider_connection v) = IsFound g "Provider" v.provider_ref
IsLinked g (credential v) =
    IsFound g "ProviderAccount" v.provider_account_ref
    × IsFound g "Egress" v.egress_ref
    × (g.secret_exists v.secret_ref.name ≡ true)
IsLinked g (model v) = IsFound g "ProviderConnection" v.connection_ref
IsLinked g (destination v) =
    IsFound g "Model" v.model_ref
    × IsFound g "Credential" v.credential_ref
    × IsSame (provider_of g (spec_of (lookup "Model" v.model_ref.name g.effective)))
        (provider_of g (spec_of (lookup "Credential" v.credential_ref.name g.effective)))
IsLinked g (strategy v) = AllFound g "Destination" v.destinations
IsLinked g (route v) = IsFound g "Strategy" v.strategy_ref
IsLinked g (agent_token v) = AllFound g "Route" v.allowed_route_refs
IsLinked g _ = Unit

require-IsFound :
    (g : Graph) (kind : Kind) (ref : Ref) (path : String)
    → g.strict ≡ true
    → require g kind ref path ≡ none
    → IsFound g kind ref
unfolding require
require-IsFound g kind ref path s h =
    found (lookup kind ref.name g.effective) g.strict (is_some (lookup kind ref.name g.index)) s (
      reject-none
        (not (is_some (lookup kind ref.name g.effective))
          && (g.strict || is_some (lookup kind ref.name g.index)))
        (missing path) h)
  where
    found :
        (o : Option Resource) (s l : Bool)
        → s ≡ true
        → (not (is_some o) && (s || l)) ≡ false
        → (r : Resource) × (o ≡ some r)
    found none s l hs h = ground arith
    found (some r) s l hs h = (r, refl)

same_provider-IsSame :
    (a b : Spec) (path : String)
    → same_provider a b path ≡ none
    → IsSame (provider_name a) (provider_name b)
unfolding same_provider
same_provider-IsSame nothing b path h = tt
same_provider-IsSame provider b path h = tt
same_provider-IsSame (provider_account r) nothing path h = tt
same_provider-IsSame (provider_account r) provider path h = ground arith
same_provider-IsSame (provider_account r) (provider_account r') path h = ground arith
same_provider-IsSame (provider_account r) (provider_connection v) path h = ground arith
same_provider-IsSame (provider_account r) (credential v) path h = ground arith
same_provider-IsSame (provider_account r) (egress t e) path h = ground arith
same_provider-IsSame (provider_account r) (model v) path h = ground arith
same_provider-IsSame (provider_account r) (destination v) path h = ground arith
same_provider-IsSame (provider_account r) (strategy v) path h = ground arith
same_provider-IsSame (provider_account r) (route v) path h = ground arith
same_provider-IsSame (provider_account r) (agent_token v) path h = ground arith
same_provider-IsSame (provider_connection v) nothing path h = tt
same_provider-IsSame (provider_connection v) provider path h = ground arith
same_provider-IsSame (provider_connection v) (provider_account r) path h =
    same v.provider_ref.name r.name
      (reject-none (not (str_eq v.provider_ref.name r.name)) (invalid "provider_mismatch" path) h)
same_provider-IsSame (provider_connection v) (provider_connection w) path h = ground arith
same_provider-IsSame (provider_connection v) (credential w) path h = ground arith
same_provider-IsSame (provider_connection v) (egress t e) path h = ground arith
same_provider-IsSame (provider_connection v) (model w) path h = ground arith
same_provider-IsSame (provider_connection v) (destination w) path h = ground arith
same_provider-IsSame (provider_connection v) (strategy w) path h = ground arith
same_provider-IsSame (provider_connection v) (route w) path h = ground arith
same_provider-IsSame (provider_connection v) (agent_token w) path h = ground arith
same_provider-IsSame (credential v) b path h = tt
same_provider-IsSame (egress t e) b path h = tt
same_provider-IsSame (model v) b path h = tt
same_provider-IsSame (destination v) b path h = tt
same_provider-IsSame (strategy v) b path h = tt
same_provider-IsSame (route v) b path h = tt
same_provider-IsSame (agent_token v) b path h = tt

IsSame-none : (o : Option String) → IsSame o none
IsSame-none none = tt
IsSame-none (some a) = tt

check_provider-IsSame :
    (g : Graph) (m c : Spec) (path : String)
    → check_provider g m c path ≡ none
    → IsSame (provider_of g m) (provider_of g c)
unfolding check_provider
check_provider-IsSame g nothing c path h = tt
check_provider-IsSame g provider c path h = tt
check_provider-IsSame g (provider_account r) c path h = tt
check_provider-IsSame g (provider_connection v) c path h = tt
check_provider-IsSame g (credential v) nothing path h = IsSame-none (provider_of g (credential v))
check_provider-IsSame g (credential v) provider path h = ground arith
check_provider-IsSame g (credential v) (provider_account r) path h = ground arith
check_provider-IsSame g (credential v) (provider_connection w) path h = ground arith
check_provider-IsSame g (credential v) (credential w) path h = ground arith
check_provider-IsSame g (credential v) (egress t e) path h = ground arith
check_provider-IsSame g (credential v) (model w) path h = ground arith
check_provider-IsSame g (credential v) (destination w) path h = ground arith
check_provider-IsSame g (credential v) (strategy w) path h = ground arith
check_provider-IsSame g (credential v) (route w) path h = ground arith
check_provider-IsSame g (credential v) (agent_token w) path h = ground arith
check_provider-IsSame g (egress t e) c path h = tt
check_provider-IsSame g (model v) nothing path h = IsSame-none (provider_of g (model v))
check_provider-IsSame g (model v) provider path h = ground arith
check_provider-IsSame g (model v) (provider_account r) path h = ground arith
check_provider-IsSame g (model v) (provider_connection w) path h = ground arith
check_provider-IsSame g (model v) (credential w) path h =
    same_provider-IsSame (spec_of (lookup "ProviderConnection" v.connection_ref.name g.effective))
      (spec_of (lookup "ProviderAccount" w.provider_account_ref.name g.effective)) path h
check_provider-IsSame g (model v) (egress t e) path h = ground arith
check_provider-IsSame g (model v) (model w) path h = ground arith
check_provider-IsSame g (model v) (destination w) path h = ground arith
check_provider-IsSame g (model v) (strategy w) path h = ground arith
check_provider-IsSame g (model v) (route w) path h = ground arith
check_provider-IsSame g (model v) (agent_token w) path h = ground arith
check_provider-IsSame g (destination v) c path h = tt
check_provider-IsSame g (strategy v) c path h = tt
check_provider-IsSame g (route v) c path h = tt
check_provider-IsSame g (agent_token v) c path h = tt

module _ (S : Std) where
  require_all-AllFound :
      (g : Graph) (kind : Kind) (p suffix : String) (i : ℕ) (refs : List Ref)
      → g.strict ≡ true
      → require_all S g kind p suffix i refs ≡ none
      → AllFound g kind refs
  unfolding require_all
  require_all-AllFound g kind p suffix i [] s h = tt
  require_all-AllFound g kind p suffix i (x ∷ xs) s h =
      let both =
        orelse-none (require g kind x (item_path S p suffix i))
          (require_all S g kind p suffix (suc i) xs) h in
      (
        require-IsFound g kind x (item_path S p suffix i) s both.0,
        require_all-AllFound g kind p suffix (suc i) xs s both.1,
      )

  pub references-IsLinked :
      (g : Graph) (spec : Spec) (p : String)
      → g.strict ≡ true
      → validate_references S g spec p ≡ none
      → IsLinked g spec
  unfolding validate_references
  references-IsLinked g (provider_account r) p s h =
      require-IsFound g "Provider" r (append p ".providerRef") s h
  references-IsLinked g (provider_connection v) p s h =
      require-IsFound g "Provider" v.provider_ref (append p ".providerRef") s h
  references-IsLinked g (credential v) p s h =
      let account =
        require g "ProviderAccount" v.provider_account_ref (append p ".providerAccountRef") in
      let egress = require g "Egress" v.egress_ref (append p ".egressRef") in
      let secret =
        reject (g.strict && not (g.secret_exists v.secret_ref.name))
          (missing (append p ".secretRef")) in
      let a = orelse-none account (egress orelse secret) h in
      let b = orelse-none egress secret a.1 in
      (
        require-IsFound g "ProviderAccount" v.provider_account_ref (append p ".providerAccountRef")
            s a.0,
        require-IsFound g "Egress" v.egress_ref (append p ".egressRef") s b.0,
        exists g.strict (g.secret_exists v.secret_ref.name) s (
            reject-none (g.strict && not (g.secret_exists v.secret_ref.name))
              (missing (append p ".secretRef")) b.1),
      )
    where
      exists : (s b : Bool) → s ≡ true → (s && not b) ≡ false → b ≡ true
      exists s b hs h = ground arith
  references-IsLinked g (model v) p s h =
      require-IsFound g "ProviderConnection" v.connection_ref (append p ".connectionRef") s h
  references-IsLinked g (destination v) p s h =
      let m = require g "Model" v.model_ref (append p ".modelRef") in
      let c = require g "Credential" v.credential_ref (append p ".credentialRef") in
      let ms = spec_of (lookup "Model" v.model_ref.name g.effective) in
      let cs = spec_of (lookup "Credential" v.credential_ref.name g.effective) in
      let a = orelse-none m (c orelse check_provider g ms cs (append p ".credentialRef")) h in
      let b = orelse-none c (check_provider g ms cs (append p ".credentialRef")) a.1 in
      (
        require-IsFound g "Model" v.model_ref (append p ".modelRef") s a.0,
        require-IsFound g "Credential" v.credential_ref (append p ".credentialRef") s b.0,
        check_provider-IsSame g ms cs (append p ".credentialRef") b.1,
      )
  references-IsLinked g (strategy v) p s h =
      require_all-AllFound g "Destination" p ".destinations" 0 v.destinations s h
  references-IsLinked g (route v) p s h =
      require-IsFound g "Strategy" v.strategy_ref (append p ".strategyRef") s h
  references-IsLinked g (agent_token v) p s h =
      require_all-AllFound g "Route" p ".allowedRouteRefs" 0 v.allowed_route_refs s h
  references-IsLinked g nothing p s h = tt
  references-IsLinked g provider p s h = tt
  references-IsLinked g (egress t e) p s h = tt
