-- ===== src/Router/Engine/Verdict.antt =====
-- What a run returns, against the attempts that it reports.
use modelcairn.Base.{
  ℕ, ◌+◌, String, true, Option, none, some, List, [], ◌∷◌, ◌++◌, ◌≡◌, ◌⊎◌, inl, inr, ap, arith,
}
use modelcairn.Chat.{Request}
use modelcairn.Fault.{Error}
use modelcairn.Router.{Attempt, RunResult, RunError, Destination, Snapshot, Round, zero_result}
use modelcairn.Router.Engine.Answer.{
  answer_attempt, answer-attempts, answer-success, answer-error, executor-cases,
}
use modelcairn.Router.Engine.{
  run_error, Executor, Engine, Flow, return, next, in_200s, proceed, run_head, run_turn, run_loop,
  run_eligible, run_executor, run,
}

-- A success reports, last, an attempt with the outcome "success" and a 2xx status, which is that of the
-- returned response.
abbrev pub IsSuccess : RunResult → Type 0
IsSuccess result =
    (before : List Attempt) × (a : Attempt) × (result.attempts ≡ before ++ a ∷ [])
    × (a.outcome ≡ "success")
    × (in_200s a.status_code ≡ true)
    × (a.status_code ≡ result.upstream.status_code)
    × ((a.error_class ≡ "provider_status")
        ⊎ (a.error_class ≡ "client_cancelled")
        ⊎ (a.error_class ≡ "total_timeout"))

record IsSound (out : RunResult × Option RunError) : Type 0 where
  success : out.1 ≡ none → IsSuccess out.0
  failure : (e : RunError) → out.1 ≡ some e → e.attempts ≡ out.0.attempts

record IsSoundFlow (out : RunResult × Flow) : Type 0 where
  success : out.1 ≡ return none → IsSuccess out.0
  failure : (e : RunError) → out.1 ≡ return (some e) → e.attempts ≡ out.0.attempts

proceed-IsSound :
    (result : RunResult) (flow : Flow) (rest : RunResult × Option RunError)
    → IsSoundFlow (result, flow)
    → IsSound rest
    → IsSound (proceed result flow rest)
proceed-IsSound result (return err) rest h k = record {
  success = λ e. h.success (ap return e);
  failure = λ x e. h.failure x (ap return e);
}
proceed-IsSound result next rest h k = k

module _ (execute : Executor) (rounds : ℕ → Round) (limit : ℕ) (alias : String)
    (request : Request) where
  head-IsSound :
      (round : Round) (index : ℕ) (d : Destination) (result : RunResult) (head : Option Error)
      → IsSoundFlow (run_head execute round limit alias request index d result head)
  unfolding run_head
  head-IsSound round index d result (some err) = record {
    success = λ e. cc;
    failure = λ x e. ground arith;
  }
  head-IsSound round index d result none =
      let answer = execute index d request alias in
      record {
        success = λ e. (
          result.attempts,
          answer_attempt index d round answer,
          answer-attempts limit index d round result answer,
          (answer-success limit index d round result answer e).0,
          (answer-success limit index d round result answer e).1,
          (answer-success limit index d round result answer e).2,
          (answer-success limit index d round result answer e).3,
        );
        failure = λ x e. answer-error limit index d round result answer x e;
      }

  run_loop-IsSound :
      (index : ℕ) (ds : List Destination) (result : RunResult)
      → IsSound (run_loop execute rounds limit alias request index ds result)
  unfolding run_loop run_turn
  run_loop-IsSound index [] result = record { success = λ e. cc; failure = λ x e. ground arith }
  run_loop-IsSound index (d ∷ ds) result =
      proceed-IsSound _ _ _ (head-IsSound (rounds index) index d result (rounds index).total_head)
        (run_loop-IsSound (index + 1) ds _)

early-IsSound :
    (code : String) (err : Option Error) → IsSound (zero_result, some (run_error code [] err))
early-IsSound code err = record { success = λ e. cc; failure = λ x e. ground arith }

eligible-IsSound :
    (execute : Executor) (rounds : ℕ → Round) (snapshot : Snapshot) (request : Request)
    (ds : List Destination)
    → IsSound (run_eligible execute rounds snapshot request ds)
unfolding run_eligible
eligible-IsSound execute rounds snapshot request [] = early-IsSound _ _
eligible-IsSound execute rounds snapshot request (d ∷ ds) =
    run_loop-IsSound execute rounds _ snapshot.alias request 0 _ zero_result

executor-IsSound :
    (executor : Option Executor) (rounds : ℕ → Round) (snapshot : Snapshot) (request : Request)
    → IsSound (run_executor executor rounds snapshot request)
executor-IsSound none rounds snapshot request = unfold run_executor in early-IsSound _ _
executor-IsSound (some execute) rounds snapshot request =
    elim (executor-cases execute rounds snapshot request) [
      | inl (inl e) ↦ rw e (early-IsSound _ _)
      | inl (inr e) ↦ rw e (early-IsSound _ _)
      | inr e ↦ rw e (eligible-IsSound execute rounds snapshot request _)
    ]

run-IsSound :
    (engine : Option Engine) (snapshot : Snapshot) (request : Request)
    → IsSound (run engine snapshot request)
unfolding run
run-IsSound none snapshot request = early-IsSound _ _
run-IsSound (some e) snapshot request = executor-IsSound e.executor e.rounds snapshot request

-- A run that returns no error reports, last, an attempt with the outcome "success" and a 2xx status, and
-- that status is the returned response's. The attempt keeps an error class all the same.
pub run-IsSuccess :
    (engine : Option Engine) (snapshot : Snapshot) (request : Request)
    → (run engine snapshot request).1 ≡ none
    → IsSuccess (run engine snapshot request).0
run-IsSuccess engine snapshot request h = (run-IsSound engine snapshot request).success h

-- A run that fails hands the caller, in its error, all the attempts of its result.
pub run-failure :
    (engine : Option Engine) (snapshot : Snapshot) (request : Request) (e : RunError)
    → (run engine snapshot request).1 ≡ some e
    → e.attempts ≡ (run engine snapshot request).0.attempts
run-failure engine snapshot request e h = (run-IsSound engine snapshot request).failure e h
