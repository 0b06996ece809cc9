-- ===== src/Router/Engine/Answer.antt =====
-- The turn of `Engine.Run` from the executor's answer on: the attempt that it records, and what it
-- returns.
use modelcairn.Base.{
  ℕ, ◌+◌, ◌&&◌, filter, not, is_some, true, Option, none, some, [], ◌∷◌, ◌++◌, ◌≡◌, ◌⊎◌, arith,
  if◌then◌else◌,
}
use modelcairn.Chat.{Request}
use modelcairn.Fault.{Error}
use modelcairn.Router.{
  eligible, Snapshot, zero_result, UpstreamResult, Attempt, RunResult, RunError, Destination, Round,
}
use modelcairn.Router.Classify.{classify_attempt}
use modelcairn.Router.Engine.{
  Executor, run_error, run_executor, run_eligible, return, next, new_attempt, in_200s, run_answer,
}

-- The attempt that a turn records.
pub answer_attempt : ℕ → Destination → Round → UpstreamResult × Option Error → Attempt
answer_attempt index d round (upstream, execute_err) =
    let c =
      classify_attempt round.parent_done round.total_done execute_err upstream.status_code
        (new_attempt index d upstream round) in
    if not (is_some execute_err) && in_200s upstream.status_code
    then record (c.attempt) { outcome = "success" }
    else c.attempt

module _ (limit index : ℕ) (d : Destination) (round : Round) (result : RunResult)
    (answer : UpstreamResult × Option Error) where
  pub answer-attempts :
      (run_answer limit index d round result answer).0.attempts
      ≡ result.attempts ++ answer_attempt index d round answer ∷ []
  unfolding run_answer answer_attempt
  answer-attempts = ground arith

  pub answer-sequence : (answer_attempt index d round answer).sequence ≡ index + 1
  unfolding answer_attempt classify_attempt
  answer-sequence = ground arith

  pub answer-destination_id : (answer_attempt index d round answer).destination_id ≡ d.id
  unfolding answer_attempt classify_attempt
  answer-destination_id = ground arith

  pub answer-next :
      (run_answer limit index d round result answer).1 ≡ next
      → ((answer_attempt index d round answer).retryable ≡ true)
        × ((answer_attempt index d round answer).outcome ≡ "error")
  unfolding answer_attempt run_answer classify_attempt
  answer-next h = ground arith

  pub answer-success :
      (run_answer limit index d round result answer).1 ≡ return none
      → ((answer_attempt index d round answer).outcome ≡ "success")
        × (in_200s (answer_attempt index d round answer).status_code ≡ true)
        × ((answer_attempt index d round answer).status_code
            ≡ (run_answer limit index d round result answer).0.upstream.status_code)
        × (((answer_attempt index d round answer).error_class ≡ "provider_status")
            ⊎ ((answer_attempt index d round answer).error_class ≡ "client_cancelled")
            ⊎ ((answer_attempt index d round answer).error_class ≡ "total_timeout"))
  unfolding answer_attempt run_answer classify_attempt
  answer-success h = ground arith

  pub answer-error :
      (e : RunError)
      → (run_answer limit index d round result answer).1 ≡ return (some e)
      → e.attempts ≡ (run_answer limit index d round result answer).0.attempts
  unfolding run_answer
  answer-error e h = ground arith

-- A run ends by an early return, with the zero result and no attempts in its error, or with what the
-- loop returns.
pub executor-cases :
    (execute : Executor) (rounds : ℕ → Round) (snapshot : Snapshot) (request : Request)
    → ((run_executor (some execute) rounds snapshot request
          ≡ (zero_result, some (run_error "invalid_router_snapshot" [] none)))
        ⊎ (run_executor (some execute) rounds snapshot request
            ≡ (zero_result, some (run_error "streaming_not_supported" [] none))))
      ⊎ (run_executor (some execute) rounds snapshot request
          ≡ run_eligible execute rounds snapshot request (filter eligible snapshot.destinations))
unfolding run_executor
executor-cases execute rounds snapshot request = ground arith
