-- ===== src/Tests/LoadTests.antt =====
-- A route with two destinations: one can be used, the other is cooling down and lacks a capability.
use modelcairn.Base.{str_eq, true, false, none, some, [], ◌∷◌, ◌≡◌, refl, pos, if◌then◌else◌}
use modelcairn.Base.Text.{str_lt}
use modelcairn.Base.Sort.{sort}
use modelcairn.Router.{Snapshot}
use modelcairn.Router.Load.{
  row, no_rows, RouteRow, StrategyDefinition, DestinationRow, Reads, loaded, failed, load_error,
  available_capabilities, missing, exclusions, destination_of, load_destination, load_destinations,
}
use modelcairn.Router.LoadRoute.{snapshot_of, load}
use modelcairn.Router.Snapshots.{IsUsable, load-IsUsable}

abbrev pub route : RouteRow
route = record {
  config_revision = 3;
  route_id = "r-1";
  alias = "large";
  strategy_id = "s-1";
  version_id = some "v-1";
  enabled = true;
  strategy_version = some 2;
  definition = some "{}";
}

abbrev pub strategy : StrategyDefinition
strategy = record {
  destinations = "near" ∷ "far" ∷ [];
  max_attempts = pos 2;
  attempt_timeout_ms = pos 1000;
  total_timeout_ms = pos 5000;
}

abbrev pub near : DestinationRow
near = record {
  id = "d-1";
  name = "near";
  weight = 1;
  enabled = true;
  model_id = "m-1";
  provider_model_id = "pm-1";
  capabilities_json = "both";
  model_enabled = true;
  connection_id = "c-1";
  base_url = "https://near.example";
  adapter = "openai";
  allow_private_network = false;
  connection_enabled = true;
  credential_id = "k-1";
  secret_id = "x-1";
  secret_name = "key";
  credential_status = "active";
  egress_id = "e-1";
  egress_type = "direct";
  egress_enabled = true;
  provider_id = "p-1";
}

abbrev pub far : DestinationRow
far = record near { id = "d-2"; name = "far"; capabilities_json = "one" }

abbrev pub reads : Reads
reads = record {
  begin_error = none;
  route = λ alias. if str_eq alias "large" then row route else no_rows;
  destination = λ name. if str_eq name "near" then row near else row far;
  cooling = λ d. row (str_eq d.id "d-2");
  commit_error = none;
  strategy = λ text. some strategy;
  capability_names =
      λ text. if str_eq text "both" then some ("tools" ∷ "text" ∷ []) else some ("text" ∷ []);
}

abbrev snapshot : Snapshot
snapshot = snapshot_of route "v-1" 2 strategy (
    record (destination_of near [] []) { capabilities = "text" ∷ "tools" ∷ [] }
    ∷ record (destination_of far ("text" ∷ []) []) {
      exclusion_reasons = "capability_missing:tools" ∷ "cooldown_active" ∷ [];
    }
    ∷ [])

route_loaded : load reads "large" ("text" ∷ "tools" ∷ []) ≡ loaded snapshot
unfolding load load_destinations load_destination available_capabilities missing exclusions sort
    str_lt
route_loaded = refl

unknown_route : load reads "small" [] ≡ failed (load_error "route_not_found")
unfolding load
unknown_route = refl

load-IsUsable_example : IsUsable reads "large" ("text" ∷ "tools" ∷ []) snapshot
load-IsUsable_example = load-IsUsable reads "large" ("text" ∷ "tools" ∷ []) snapshot route_loaded
