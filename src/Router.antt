-- ===== src/Router.antt =====
-- The data of internal/router: destinations, snapshots, attempts and results of a run.
pub mod Classify
pub mod Trail
pub mod Engine
pub mod StreamData
pub mod Stream
pub mod Load
pub mod LoadRoute
pub mod Usable
pub mod Snapshots
pub mod Capable
use modelcairn.Fault.{Error}
use modelcairn.Base.{ℕ, ℤ, String, Bool, true, false, Option, none, some, List, [], ◌∷◌}

pub record UpstreamResult : Type 0 where
  pub status_code : ℕ
  pub content_type : String
  pub retry_after : String
  pub provider_request_id : String
  pub body : List ℕ
  pub input_tokens : Option ℕ
  pub output_tokens : Option ℕ

-- Times are nanoseconds of the engine's clock; a duration may be negative.
pub record Attempt : Type 0 where
  pub sequence : ℕ
  pub destination_id : String
  pub status_code : ℕ
  pub error_class : String
  pub retryable : Bool
  pub fallback_reason : String
  pub outcome : String
  pub provider_request_id : String
  pub retry_after : String
  pub started_at : ℕ
  pub completed_at : ℕ
  pub duration : ℤ

pub record RunResult : Type 0 where
  pub upstream : UpstreamResult
  pub attempts : List Attempt

pub record RunError : Type 0 where
  pub code : String
  pub attempts : List Attempt
  pub cause : Option Error

pub record Destination : Type 0 where
  pub id : String
  pub name : String
  pub model_id : String
  pub provider_model_id : String
  pub connection_id : String
  pub base_url : String
  pub adapter : String
  pub allow_private_network : Bool
  pub credential_id : String
  pub secret_id : String
  pub secret_name : String
  pub egress_id : String
  pub egress_type : String
  pub weight : ℕ
  pub capabilities : List String
  pub exclusion_reasons : List String

unfoldable pub eligible : Destination → Bool
eligible d = elim d.exclusion_reasons [ [] ↦ true | _ ∷ _ ↦ false ]

pub record Snapshot : Type 0 where
  pub config_revision : ℕ
  pub route_id : String
  pub alias : String
  pub strategy_id : String
  pub strategy_version_id : String
  pub strategy_version : ℕ
  pub max_attempts : ℕ
  pub attempt_timeout : ℕ
  pub total_timeout : ℕ
  pub destinations : List Destination

abbrev pub zero_upstream : UpstreamResult
zero_upstream = record {
  status_code = 0;
  content_type = "";
  retry_after = "";
  provider_request_id = "";
  body = [];
  input_tokens = none;
  output_tokens = none;
}

abbrev pub zero_result : RunResult
zero_result = record { upstream = zero_upstream; attempts = [] }

-- What one turn of the loop observes of the world: `totalContext.Err()` at its head, the clock before
-- and after the call, and whether the caller's and the total context have ended when the answer is
-- classified. `parent_head` is `ctx.Err() != nil` where the head's error is turned into a code.
pub record Round : Type 0 where
  pub total_head : Option Error
  pub parent_head : Bool
  pub started : ℕ
  pub completed : ℕ
  pub parent_done : Bool
  pub total_done : Bool
