-- ===== src/Router/Engine.antt =====
-- `Engine.Run` of internal/router/engine.go.
pub mod Answer
pub mod Trail
pub mod Verdict
pub mod Decision
use modelcairn.Base.{
  ℕ, ◌+◌, min, String, Bool, true, false, Option, none, some, List, [], ◌∷◌, ◌++◌, ◌&&◌, ◌||◌, ltb,
  leb, ◌==◌, not, is_some, if◌then◌else◌, length, take, filter, sub_ℕ,
}
use modelcairn.Chat.{Request}
use modelcairn.Fault.{Error}
use modelcairn.Router.{
  UpstreamResult, Attempt, RunResult, RunError, Destination, eligible, Snapshot, zero_upstream,
  zero_result, Round,
}
use modelcairn.Router.Classify.{classify_attempt}

-- The executor's answer to its call in turn `index` of the loop.
abbrev pub Executor : Type 0
Executor = ℕ → Destination → Request → String → UpstreamResult × Option Error

pub record Engine : Type 0 where
  pub executor : Option Executor
  pub rounds : ℕ → Round

-- How a turn of the loop ends: with a `return`, or with the next turn.
pub data Flow : Type 0 where
  return : Option RunError → Flow
  next : Flow

abbrev pub run_error : String → List Attempt → Option Error → RunError
run_error code attempts cause = record { code = code; attempts = attempts; cause = cause }

unfoldable pub terminal_context_error : Bool → Error → List Attempt → RunError
terminal_context_error parent_done err attempts =
    run_error (if parent_done then "request_cancelled" else "total_timeout") attempts (some err)

abbrev pub in_200s : ℕ → Bool
in_200s status = leb 200 status && ltb status 300

-- The attempt as it is before it is classified.
abbrev pub new_attempt : ℕ → Destination → UpstreamResult → Round → Attempt
new_attempt index d upstream round = record {
  sequence = index + 1;
  destination_id = d.id;
  status_code = upstream.status_code;
  error_class = "";
  retryable = false;
  fallback_reason = "";
  outcome = "error";
  provider_request_id = upstream.provider_request_id;
  retry_after = upstream.retry_after;
  started_at = round.started;
  completed_at = round.completed;
  duration = sub_ℕ round.completed round.started;
}

-- The body of the loop from the executor's answer on.
pub run_answer :
    ℕ → ℕ → Destination → Round → RunResult → UpstreamResult × Option Error → RunResult × Flow
run_answer limit index d round result (upstream, execute_err) =
    let c =
      classify_attempt round.parent_done round.total_done execute_err upstream.status_code
        (new_attempt index d upstream round) in
    let attempts = result.attempts ++ c.attempt ∷ [] in
    if not (is_some execute_err) && in_200s upstream.status_code
    then (
      record {
        upstream = upstream;
        attempts = result.attempts ++ record (c.attempt) { outcome = "success" } ∷ [];
      },
      return none,
    )
    else if not c.retry
    then (
      record { upstream = upstream; attempts = attempts },
      return (some (run_error c.code attempts execute_err)),
    )
    else if index + 1 == limit
    then (
      record { upstream = upstream; attempts = attempts },
      return (some (run_error "fallback_exhausted" attempts execute_err)),
    )
    else (record { upstream = upstream; attempts = attempts }, next)

-- One turn of the loop, by what `totalContext.Err()` is at its head.
pub run_head :
    Executor
    → Round
    → ℕ
    → String
    → Request
    → ℕ
    → Destination
    → RunResult
    → Option Error
    → RunResult × Flow
unfolding run_answer terminal_context_error
run_head execute round limit alias request index d result (some err) =
    (result, return (some (terminal_context_error round.parent_head err result.attempts)))
run_head execute round limit alias request index d result none =
    run_answer limit index d round result (execute index d request alias)

unfoldable pub run_turn :
    Executor → (ℕ → Round) → ℕ → String → Request → ℕ → Destination → RunResult → RunResult × Flow
unfolding run_head
run_turn execute rounds limit alias request index d result =
    let round = rounds index in
    run_head execute round limit alias request index d result round.total_head

abbrev pub proceed : RunResult → Flow → RunResult × Option RunError → RunResult × Option RunError
proceed result (return err) rest = (result, err)
proceed result next rest = rest

-- The loop, over the destinations from `index` up to `limit`.
unfoldable pub run_loop :
    Executor
    → (ℕ → Round)
    → ℕ
    → String
    → Request
    → ℕ
    → List Destination
    → RunResult
    → RunResult × Option RunError
run_loop execute rounds limit alias request index [] result =
    (result, some (run_error "fallback_exhausted" result.attempts none))
run_loop execute rounds limit alias request index (d ∷ ds) result =
    let (result', flow) = run_turn execute rounds limit alias request index d result in
    let rest = run_loop execute rounds limit alias request (index + 1) ds result' in
    proceed result' flow rest

pub run_eligible :
    Executor → (ℕ → Round) → Snapshot → Request → List Destination → RunResult × Option RunError
run_eligible execute rounds snapshot request [] =
    (zero_result, some (run_error "no_eligible_destination" [] none))
run_eligible execute rounds snapshot request (d ∷ ds) =
    let limit = min snapshot.max_attempts (length (d ∷ ds)) in
    run_loop execute rounds limit snapshot.alias request 0 (take limit (d ∷ ds)) zero_result

pub run_executor : Option Executor → (ℕ → Round) → Snapshot → Request → RunResult × Option RunError
unfolding run_eligible
run_executor none rounds snapshot request =
    (zero_result, some (run_error "invalid_router_snapshot" [] none))
run_executor (some execute) rounds snapshot request =
    if ltb snapshot.max_attempts 1 || snapshot.attempt_timeout == 0 || snapshot.total_timeout == 0
    then (zero_result, some (run_error "invalid_router_snapshot" [] none))
    else if request.stream
    then (zero_result, some (run_error "streaming_not_supported" [] none))
    else run_eligible execute rounds snapshot request (filter eligible snapshot.destinations)

-- `none` is a nil engine.
unfoldable pub run : Option Engine → Snapshot → Request → RunResult × Option RunError
unfolding run_executor
run none snapshot request = (zero_result, some (run_error "invalid_router_snapshot" [] none))
run (some e) snapshot request = run_executor e.executor e.rounds snapshot request
