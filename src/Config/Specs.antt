-- ===== src/Config/Specs.antt =====
-- `validateSpec` and `validRef` of internal/config/validate.go.
use modelcairn.Base.{
  ℕ, suc, ◌*◌, ◌^◌, String, append, str_eq, Bool, true, false, not, ◌&&◌, ◌||◌, Option, none, some,
  List, [], ◌∷◌, ℤ, pos, leb_ℤ, ltb, length, ◌orelse◌, reject, first,
}
use Prim.Native.String.{count}
use modelcairn.Config.Patterns.{is_name, is_alias, itoa, is_private_literal_host}
use modelcairn.Config.{
  Url, Float, nan, inf, finite, Ref, ModelPricing, Spec, nothing, provider, provider_account,
  provider_connection, credential, egress, model, destination, strategy, route, agent_token, Fault,
  invalid, Std, bad_value,
}

-- the keys of a `map[string]bool`
abbrev pub member : String → List String → Bool
member x [] = false
member x (y ∷ ys) = str_eq x y || member x ys

abbrev pub within : ℤ → ℕ → ℕ → Bool
within value lo hi = leb_ℤ (pos lo) value && leb_ℤ value (pos hi)

-- not a number from 0 to 1000000
abbrev pub bad_price : Float → Bool
bad_price nan = true
bad_price (inf negative) = true
bad_price (finite x) = not (within x 0 (1000000 * 2 ^ 1074))

module _ (S : Std) where
  open S use {parse_url, is_time}

  unfoldable pub valid_ref : Ref → String → Option Fault
  unfolding is_name
  valid_ref r p = reject (not (is_name r.name)) (bad_value p ".name")

  -- `p+suffix+"["+itoa(i)+"]"`
  abbrev pub item_path : String → String → ℕ → String
  item_path p suffix i = append p (append suffix (append "[" (append (itoa i) "]")))

  unfoldable pub valid_refs : String → String → ℕ → List Ref → Option Fault
  unfolding valid_ref
  valid_refs p suffix i [] = none
  valid_refs p suffix i (x ∷ xs) =
      valid_ref x (item_path p suffix i) orelse valid_refs p suffix (suc i) xs

  abbrev pub bad_url : Bool → Option Url → Bool
  bad_url allow_private none = true
  bad_url allow_private (some u) =
      str_eq u.scheme ""
      || str_eq u.host ""
      || u.has_user
      || not (str_eq u.raw_query "")
      || not (str_eq u.fragment "")
      || not (str_eq u.scheme "http") && not (str_eq u.scheme "https")
      || not allow_private && is_private_literal_host S u.host_name

  abbrev pub capabilities : List String
  capabilities =
      "text" ∷ "stream" ∷ "tools" ∷ "parallel-tools" ∷ "developer-role" ∷ "json-schema" ∷ "logprobs"
      ∷ []

  unfoldable pub valid_capabilities : String → ℕ → List String → List String → Option Fault
  valid_capabilities p i seen [] = none
  valid_capabilities p i seen (c ∷ cs) =
      reject (not (member c capabilities) || member c seen)
        (invalid "invalid_value" (item_path p ".capabilities" i))
      orelse valid_capabilities p (suc i) (c ∷ seen) cs

  abbrev pub bad_pricing : Option ModelPricing → Bool
  bad_pricing none = false
  bad_pricing (some pricing) =
      not (str_eq pricing.currency "USD")
      || bad_price pricing.input_per_million
      || bad_price pricing.output_per_million

  unfoldable pub valid_route_refs : String → ℕ → List String → List Ref → Option Fault
  unfolding valid_ref
  valid_route_refs p i seen [] = none
  valid_route_refs p i seen (x ∷ xs) = valid_ref x (item_path p ".allowedRouteRefs" i) orelse (
      reject (member x.name seen) (invalid "invalid_value" (item_path p ".allowedRouteRefs" i))
      orelse valid_route_refs p (suc i) (x.name ∷ seen) xs)

  abbrev pub bad_time : Option String → Bool
  bad_time none = false
  bad_time (some time) = not (is_time time)

  unfoldable pub validate_spec : Spec → String → Option Fault
  unfolding valid_ref valid_refs valid_capabilities valid_route_refs is_alias
  validate_spec nothing p = some (invalid "invalid_structure" p)
  validate_spec provider p = none
  validate_spec (provider_account r) p = valid_ref r (append p ".providerRef")
  validate_spec (provider_connection v) p =
      valid_ref v.provider_ref (append p ".providerRef")
      orelse first (
          (bad_url (v.allow_private_network) (parse_url v.base_url), bad_value p ".baseUrl")
          ∷ (ltb 2048 (count v.base_url) || not (str_eq v.adapter "openai-chat-v1"), bad_value p "")
          ∷ [])
  validate_spec (credential v) p =
      valid_ref v.provider_account_ref (append p ".providerAccountRef") orelse (
        valid_ref v.egress_ref (append p ".egressRef")
        orelse valid_ref v.secret_ref (append p ".secretRef"))
  validate_spec (egress type enabled) p = reject (not (str_eq type "direct")) (bad_value p ".type")
  validate_spec (model v) p = valid_ref v.connection_ref (append p ".connectionRef") orelse (
      reject (ltb (count v.provider_model_id) 1 || ltb 255 (count v.provider_model_id))
        (bad_value p ".providerModelId")
      orelse (valid_capabilities p 0 [] v.capabilities
          orelse reject (bad_pricing v.pricing) (bad_value p ".pricing")))
  validate_spec (destination v) p = valid_ref v.model_ref (append p ".modelRef") orelse (
      valid_ref v.credential_ref (append p ".credentialRef")
      orelse reject (not (within v.weight 1 1000)) (bad_value p ".weight"))
  validate_spec (strategy v) p =
      reject (ltb (length v.destinations) 1 || ltb 32 (length v.destinations))
        (bad_value p ".destinations")
      orelse (valid_refs p ".destinations" 0 v.destinations
          orelse reject
              (not (within v.max_attempts 1 32)
                || not (within v.attempt_timeout_ms 100 600000)
                || not (within v.total_timeout_ms 100 900000))
              (bad_value p ""))
  validate_spec (route v) p =
      reject (not (is_alias v.model_alias)) (bad_value p ".modelAlias")
      orelse valid_ref v.strategy_ref (append p ".strategyRef")
  validate_spec (agent_token v) p =
      reject (ltb (length v.allowed_route_refs) 1) (bad_value p ".allowedRouteRefs") orelse (
        valid_route_refs p 0 [] v.allowed_route_refs
        orelse reject (bad_time v.expires_at) (bad_value p ".expiresAt"))
