-- ===== src/Config.antt =====
-- internal/config: the resources of a configuration, and what its validation answers.
use modelcairn.Base.{ℕ, String, Bool, Option, none, some, List, ℤ, append}
pub mod Patterns
pub mod Specs
pub mod References
pub mod Validate
pub mod Links
pub mod Closed
pub mod Distinct
pub mod Mutation

pub record Ref : Type 0 where
  pub name : String

abbrev pub Kind : Type 0
Kind = String

abbrev pub State : Type 0
State = String

pub record Metadata : Type 0 where
  pub name : String
  pub display_name : Option String
  pub description : Option String
  pub uid : Option String
  pub resource_version : Option ℤ

pub record ProviderConnectionSpec : Type 0 where
  pub provider_ref : Ref
  pub base_url : String
  pub adapter : String
  pub allow_private_network : Bool
  pub enabled : Bool

pub record CredentialSpec : Type 0 where
  pub provider_account_ref : Ref
  pub egress_ref : Ref
  pub secret_ref : Ref
  pub enabled : Bool

-- A float64: a finite one counts units of 2^-1074.
pub data Float : Type 0 where
  nan : Float
  inf : Bool → Float
  finite : ℤ → Float

pub record ModelPricing : Type 0 where
  pub currency : String
  pub input_per_million : Float
  pub output_per_million : Float

pub record ModelSpec : Type 0 where
  pub connection_ref : Ref
  pub provider_model_id : String
  pub capabilities : List String
  pub enabled : Bool
  pub pricing : Option ModelPricing

pub record DestinationSpec : Type 0 where
  pub model_ref : Ref
  pub credential_ref : Ref
  pub enabled : Bool
  pub weight : ℤ

pub record StrategySpec : Type 0 where
  pub destinations : List Ref
  pub max_attempts : ℤ
  pub attempt_timeout_ms : ℤ
  pub total_timeout_ms : ℤ

pub record RouteSpec : Type 0 where
  pub model_alias : String
  pub strategy_ref : Ref
  pub enabled : Bool

pub record AgentTokenSpec : Type 0 where
  pub allowed_route_refs : List Ref
  pub expires_at : Option String
  pub enabled : Bool

-- The `any` of a resource; `nothing` is nil.
pub data Spec : Type 0 where
  nothing : Spec
  provider : Spec
  provider_account : Ref → Spec
  provider_connection : ProviderConnectionSpec → Spec
  credential : CredentialSpec → Spec
  egress : String → Bool → Spec
  model : ModelSpec → Spec
  destination : DestinationSpec → Spec
  strategy : StrategySpec → Spec
  route : RouteSpec → Spec
  agent_token : AgentTokenSpec → Spec

pub record Resource : Type 0 where
  pub kind : Kind
  pub state : State
  pub metadata : Metadata
  pub spec : Spec

pub record Document : Type 0 where
  pub api_version : String
  pub kind : String
  pub resources : List Resource

-- What a validation ends with when it does not end well: an error, or a failed type assertion.
pub data Fault : Type 0 where
  invalid : String → String → Fault
  panicked : Fault

-- What `net/url` makes of a string; `host_name` is its method `Hostname`.
pub record Url : Type 0 where
  pub scheme : String
  pub host : String
  pub host_name : String
  pub has_user : Bool
  pub raw_query : String
  pub fragment : String

-- The answers of a `net.IP` to its methods.
pub record Ip : Type 0 where
  pub private : Bool
  pub loopback : Bool
  pub link_local_unicast : Bool
  pub link_local_multicast : Bool
  pub unspecified : Bool

-- The functions that the package calls of strings, net/url, net, and time (`time.Parse` by RFC 3339).
pub record Std : Type 0 where
  pub to_lower : String → String
  pub parse_url : String → Option Url
  pub parse_ip : String → Option Ip
  pub is_time : String → Bool

-- `failure(CodeInvalidValue, p+suffix)`
abbrev pub bad_value : String → String → Fault
bad_value p suffix = invalid "invalid_value" (append p suffix)
