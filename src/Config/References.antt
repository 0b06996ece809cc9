-- ===== src/Config/References.antt =====
-- `validateReferences` of internal/config/validate.go, in maps of resources by kind and name.
use modelcairn.Base.{
  ℕ, suc, String, append, str_eq, Bool, not, ◌&&◌, ◌||◌, Option, none, some, List, [], ◌∷◌, is_some,
  ◌orelse◌, reject, if◌then◌else◌,
}
use modelcairn.Config.{
  Kind, Ref, Spec, nothing, provider, provider_account, provider_connection, credential, egress,
  model, destination, strategy, route, agent_token, Resource, Fault, invalid, panicked, Std,
}
use modelcairn.Config.Specs.{item_path}

abbrev pub same_key : Kind → String → Resource → Bool
same_key kind name r = str_eq r.kind kind && str_eq r.metadata.name name

unfoldable pub lookup : Kind → String → List Resource → Option Resource
lookup kind name [] = none
lookup kind name (r ∷ rest) = if same_key kind name r then some r else lookup kind name rest

-- The parameters of `validateReferences` besides the resource.
pub record Graph : Type 0 where
  pub effective : List Resource
  pub secret_exists : String → Bool
  pub strict : Bool
  pub index : List Resource

abbrev pub missing : String → Fault
missing path = invalid "reference_not_found" path

-- The closure `require`: its error. What it returns is `lookup`.
unfoldable pub require : Graph → Kind → Ref → String → Option Fault
unfolding lookup
require g kind ref path =
    reject
      (not (is_some (lookup kind ref.name g.effective))
        && (g.strict || is_some (lookup kind ref.name g.index)))
      (missing path)

-- The specification of a resource that a map may not have.
abbrev pub spec_of : Option Resource → Spec
spec_of none = nothing
spec_of (some r) = r.spec

-- `connection` and `account` belong to one provider, if both are known.
unfoldable pub same_provider : Spec → Spec → String → Option Fault
same_provider nothing account path = none
same_provider connection nothing path = none
same_provider (provider_connection c) (provider_account r) path =
    reject (not (str_eq c.provider_ref.name r.name)) (invalid "provider_mismatch" path)
same_provider connection account path = some panicked

unfoldable pub check_provider : Graph → Spec → Spec → String → Option Fault
unfolding lookup same_provider
check_provider g nothing c path = none
check_provider g m nothing path = none
check_provider g (model m) (credential c) path =
    same_provider (spec_of (lookup "ProviderConnection" m.connection_ref.name g.effective))
      (spec_of (lookup "ProviderAccount" c.provider_account_ref.name g.effective)) path
check_provider g m c path = some panicked

module _ (S : Std) where
  unfoldable pub require_all : Graph → Kind → String → String → ℕ → List Ref → Option Fault
  unfolding require
  require_all g kind p suffix i [] = none
  require_all g kind p suffix i (x ∷ xs) =
      require g kind x (item_path S p suffix i) orelse require_all g kind p suffix (suc i) xs

  unfoldable pub validate_references : Graph → Spec → String → Option Fault
  unfolding require require_all check_provider lookup
  validate_references g (provider_account r) p = require g "Provider" r (append p ".providerRef")
  validate_references g (provider_connection v) p =
      require g "Provider" v.provider_ref (append p ".providerRef")
  validate_references g (credential v) p =
      require g "ProviderAccount" v.provider_account_ref (append p ".providerAccountRef") orelse (
        require g "Egress" v.egress_ref (append p ".egressRef")
        orelse reject (g.strict && not (g.secret_exists v.secret_ref.name))
            (missing (append p ".secretRef")))
  validate_references g (model v) p =
      require g "ProviderConnection" v.connection_ref (append p ".connectionRef")
  validate_references g (destination v) p =
      require g "Model" v.model_ref (append p ".modelRef") orelse (
        require g "Credential" v.credential_ref (append p ".credentialRef")
        orelse check_provider g (spec_of (lookup "Model" v.model_ref.name g.effective))
            (spec_of (lookup "Credential" v.credential_ref.name g.effective))
            (append p ".credentialRef"))
  validate_references g (strategy v) p =
      require_all g "Destination" p ".destinations" 0 v.destinations
  validate_references g (route v) p = require g "Strategy" v.strategy_ref (append p ".strategyRef")
  validate_references g (agent_token v) p =
      require_all g "Route" p ".allowedRouteRefs" 0 v.allowed_route_refs
  validate_references g nothing p = none
  validate_references g provider p = none
  validate_references g (egress type enabled) p = none
