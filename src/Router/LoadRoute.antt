-- ===== src/Router/LoadRoute.antt =====
-- internal/router/snapshot.go: `Load`, from the route to its snapshot.
use modelcairn.Base.{
  ℕ, ◌*◌, String, Bool, ◌||◌, not, Option, none, some, List, [], ◌∷◌, ltb, length, ℤ, pos, negsuc,
  leb_ℤ, if◌then◌else◌,
}
use modelcairn.Chat.Messages.{put}
use modelcairn.Router.{Destination, Snapshot}
use modelcairn.Router.Load.{
  Row, row, no_rows, query_error, RouteRow, StrategyDefinition, Reads, load_error, database_error,
  Loaded, loaded, failed, invalid_graph, then_load, load_destinations,
}

-- `requiredSet`
abbrev pub required_set : List String → List String
required_set [] = []
required_set (c ∷ cs) = put c (required_set cs)

-- An integer that the checks have found positive.
abbrev pub nat_of : ℤ → ℕ
nat_of (pos n) = n
nat_of (negsuc n) = 0

abbrev pub not_within : ℤ → ℕ → ℕ → Bool
not_within x low high = not (leb_ℤ (pos low) x) || not (leb_ℤ x (pos high))

abbrev pub bad_strategy : StrategyDefinition → Bool
bad_strategy d =
    ltb (length d.destinations) 1
    || ltb 32 (length d.destinations)
    || not_within d.max_attempts 1 32
    || not_within d.attempt_timeout_ms 100 600000
    || not_within d.total_timeout_ms 100 900000

-- Durations are nanoseconds.
abbrev pub snapshot_of : RouteRow → String → ℕ → StrategyDefinition → List Destination → Snapshot
snapshot_of r version_id version d destinations = record {
  config_revision = r.config_revision;
  route_id = r.route_id;
  alias = r.alias;
  strategy_id = r.strategy_id;
  strategy_version_id = version_id;
  strategy_version = version;
  max_attempts = nat_of d.max_attempts;
  attempt_timeout = nat_of d.attempt_timeout_ms * 1000000;
  total_timeout = nat_of d.total_timeout_ms * 1000000;
  destinations = destinations;
}

abbrev pub committed : Option String → Snapshot → Loaded Snapshot
committed none snapshot = loaded snapshot
committed (some e) snapshot = failed (database_error e)

abbrev pub with_definition :
    Reads → List String → RouteRow → String → ℕ → Option StrategyDefinition → Loaded Snapshot
with_definition R required r version_id version none = invalid_graph
with_definition R required r version_id version (some d) =
    if bad_strategy d
    then invalid_graph
    else then_load (load_destinations R (required_set required) d.destinations [])
        (λ ds. committed R.commit_error (snapshot_of r version_id version d ds))

abbrev pub with_version :
    Reads → List String → RouteRow → Option String → Option ℕ → Option String → Loaded Snapshot
with_version R required r (some version_id) (some version) (some definition) =
    with_definition R required r version_id version (R.strategy definition)
with_version R required r _ _ _ = invalid_graph

abbrev pub with_route : Reads → List String → Row RouteRow → Loaded Snapshot
with_route R required no_rows = failed (load_error "route_not_found")
with_route R required (query_error e) = failed (database_error e)
with_route R required (row r) =
    if not r.enabled
    then failed (load_error "route_disabled")
    else with_version R required r r.version_id r.strategy_version r.definition

abbrev pub begun : Reads → String → List String → Option String → Loaded Snapshot
begun R alias required (some e) = failed (database_error e)
begun R alias required none = with_route R required (R.route alias)

-- `Load`
unfoldable pub load : Reads → String → List String → Loaded Snapshot
load R alias required = begun R alias required R.begin_error
