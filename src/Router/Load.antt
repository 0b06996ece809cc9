-- ===== src/Router/Load.antt =====
-- internal/router/snapshot.go: `Load`, on the rows that its queries give.
use modelcairn.Base.{
  ℕ, String, str_eq, append, Bool, true, false, ◌||◌, not, Option, none, some, List, [], ◌∷◌, ◌++◌,
  ℤ, if◌then◌else◌,
}
use modelcairn.Base.Text.{str_lt}
use modelcairn.Base.Sort.{sort}
use modelcairn.Chat.Shape.{is_seen}
use modelcairn.Router.{Destination}

-- What a query gives: a row, `sql.ErrNoRows`, or another error.
pub data Row {ℓ} (A : Type ℓ) : Type ℓ where
  row : A → Row A
  no_rows : Row A
  query_error : String → Row A

pub record RouteRow : Type 0 where
  pub config_revision : ℕ
  pub route_id : String
  pub alias : String
  pub strategy_id : String
  pub version_id : Option String
  pub enabled : Bool
  pub strategy_version : Option ℕ
  pub definition : Option String

pub record StrategyDefinition : Type 0 where
  pub destinations : List String
  pub max_attempts : ℤ
  pub attempt_timeout_ms : ℤ
  pub total_timeout_ms : ℤ

pub record DestinationRow : Type 0 where
  pub id : String
  pub name : String
  pub weight : ℕ
  pub enabled : Bool
  pub model_id : String
  pub provider_model_id : String
  pub capabilities_json : String
  pub model_enabled : Bool
  pub connection_id : String
  pub base_url : String
  pub adapter : String
  pub allow_private_network : Bool
  pub connection_enabled : Bool
  pub credential_id : String
  pub secret_id : String
  pub secret_name : String
  pub credential_status : String
  pub egress_id : String
  pub egress_type : String
  pub egress_enabled : Bool
  pub provider_id : String

-- The answers of the database in one read transaction, and what encoding/json decodes.
pub record Reads : Type 0 where
  pub begin_error : Option String
  pub route : String → Row RouteRow
  pub destination : String → Row DestinationRow
  pub cooling : DestinationRow → Row Bool
  pub commit_error : Option String
  pub strategy : String → Option StrategyDefinition
  pub capability_names : String → Option (List String)

-- A `LoadError` with its code, or an error of the database.
pub data LoadFailure : Type 0 where
  load_error : String → LoadFailure
  database_error : String → LoadFailure

pub data Loaded {ℓ} (A : Type ℓ) : Type ℓ where
  loaded : A → Loaded A
  failed : LoadFailure → Loaded A

abbrev pub invalid_graph {ℓ} : {A : Type ℓ} → Loaded A
invalid_graph = failed (load_error "invalid_router_graph")

abbrev pub then_load {ℓ κ} : {A : Type ℓ} {B : Type κ} → Loaded A → (A → Loaded B) → Loaded B
then_load (loaded x) next = next x
then_load (failed e) next = failed e

abbrev pub known_capabilities : List String
known_capabilities =
    "text" ∷ "stream" ∷ "tools" ∷ "parallel-tools" ∷ "developer-role" ∷ "json-schema" ∷ "logprobs"
    ∷ []

-- `knownCapability`
abbrev pub known_capability : String → Bool
known_capability capability = is_seen capability known_capabilities

-- The loop over the names of a model's capabilities, with those before.
unfoldable pub available_capabilities : List String → List String → Loaded (List String)
available_capabilities [] available = loaded available
available_capabilities (c ∷ cs) available =
    let rest = available_capabilities cs (c ∷ available) in
    if is_seen c available || not (known_capability c) then invalid_graph else rest

abbrev pub reason_if : Bool → String → List String
reason_if true reason = reason ∷ []
reason_if false reason = []

-- The loop over the required capabilities.
unfoldable pub missing : List String → List String → List String
missing [] available = []
missing (c ∷ cs) available =
    reason_if (not (is_seen c available)) (append "capability_missing:" c) ++ missing cs available

-- The reasons against a destination, as they are found.
unfoldable pub exclusions : DestinationRow → List String → List String → Bool → List String
exclusions d required available cooling =
    reason_if (not d.enabled) "destination_disabled"
    ++ (reason_if (not d.model_enabled) "model_disabled"
        ++ (reason_if (not d.connection_enabled) "connection_disabled"
            ++ (reason_if (not (str_eq d.credential_status "active"))
                  (append "credential_" d.credential_status)
                ++ (reason_if (not d.egress_enabled) "egress_disabled"
                    ++ (missing required available ++ reason_if cooling "cooldown_active")))))

abbrev pub destination_of : DestinationRow → List String → List String → Destination
destination_of d available reasons = record {
  id = d.id;
  name = d.name;
  model_id = d.model_id;
  provider_model_id = d.provider_model_id;
  connection_id = d.connection_id;
  base_url = d.base_url;
  adapter = d.adapter;
  allow_private_network = d.allow_private_network;
  credential_id = d.credential_id;
  secret_id = d.secret_id;
  secret_name = d.secret_name;
  egress_id = d.egress_id;
  egress_type = d.egress_type;
  weight = d.weight;
  capabilities = sort str_lt available;
  exclusion_reasons = sort str_lt reasons;
}

abbrev pub with_cooling : DestinationRow → List String → List String → Row Bool → Loaded Destination
with_cooling d required available no_rows = failed (database_error "load cooldown")
with_cooling d required available (query_error e) = failed (database_error e)
with_cooling d required available (row cooling) =
    loaded (destination_of d available (exclusions d required available cooling))

abbrev pub with_names :
    Reads → DestinationRow → List String → Option (List String) → Loaded Destination
with_names R d required none = invalid_graph
with_names R d required (some names) =
    then_load (available_capabilities names [])
      (λ available. with_cooling d required available (R.cooling d))

abbrev pub with_row : Reads → List String → Row DestinationRow → Loaded Destination
with_row R required no_rows = invalid_graph
with_row R required (query_error e) = failed (database_error e)
with_row R required (row d) = with_names R d required (R.capability_names d.capabilities_json)

-- `loadDestination`
unfoldable pub load_destination : Reads → List String → String → Loaded Destination
load_destination R required name = with_row R required (R.destination name)

-- The loop over the destinations of the strategy, with the names before.
unfoldable pub load_destinations :
    Reads → List String → List String → List String → Loaded (List Destination)
load_destinations R required [] seen = loaded []
load_destinations R required (name ∷ names) seen =
    let rest = load_destinations R required names (name ∷ seen) in
    if str_eq name "" || is_seen name seen
    then invalid_graph
    else then_load (load_destination R required name) (λ d. then_load rest (λ ds. loaded (d ∷ ds)))
