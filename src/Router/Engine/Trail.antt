-- ===== src/Router/Engine/Trail.antt =====
-- The attempts that `Engine.Run` makes, and in which order.
use modelcairn.Base.{
  ℕ, ◌+◌, ◌≤◌, String, true, Option, none, some, List, [], ◌∷◌, ◌++◌, ◌≡◌, refl, sym, ap, ◌∙◌,
  arith, length, take, filter, append-nil, append_assoc, inl, inr, take-min, length-take,
}
use mathlib.Core.Path.{subst}
use modelcairn.Chat.{Request}
use modelcairn.Fault.{Error}
use modelcairn.Router.{
  Attempt, RunResult, RunError, Destination, eligible, Snapshot, Round, zero_result,
}
use modelcairn.Router.Engine.Answer.{
  answer_attempt, answer-attempts, answer-sequence, answer-destination_id, answer-next,
  executor-cases,
}
use modelcairn.Router.Trail.{IsTrail, length-IsTrail, followed}
use modelcairn.Router.Engine.{
  Executor, Engine, Flow, return, next, proceed, run_head, run_turn, run_eligible, run_executor,
  run_loop, run,
}

-- `out` has added to `result` attempts that are a trail over `ds`.
IsRun : ℕ → List Destination → RunResult → RunResult × Option RunError → Type 0
IsRun index ds result out =
    (added : List Attempt) × (out.0.attempts ≡ result.attempts ++ added) × IsTrail index ds added

proceed-IsRun :
    (index : ℕ) (d : Destination) (ds : List Destination) (a : Attempt) (result result' : RunResult)
    (flow : Flow) (rest : RunResult × Option RunError)
    → result'.attempts ≡ result.attempts ++ a ∷ []
    → a.sequence ≡ index + 1
    → a.destination_id ≡ d.id
    → (flow ≡ next → (a.retryable ≡ true) × (a.outcome ≡ "error"))
    → IsRun (index + 1) ds result' rest
    → IsRun index (d ∷ ds) result (proceed result' flow rest)
unfolding IsRun
proceed-IsRun index d ds a result result' (return err) rest e s i f h = (a ∷ [], e, (s, i, tt, tt))
proceed-IsRun index d ds a result result' next rest e s i f (added, e', t) = (
  a ∷ added,
  e' ∙ ap (λ l. l ++ added) e ∙ append_assoc result.attempts (a ∷ []) added,
  (s, i, followed a added (f refl), t),
)

IsRun-zero :
    (ds : List Destination) (out : RunResult × Option RunError)
    → IsRun 0 ds zero_result out
    → IsTrail 0 ds out.0.attempts
unfolding IsRun
IsRun-zero ds out (added, e, t) = subst (IsTrail 0 ds) (sym e) t

module _ (execute : Executor) (rounds : ℕ → Round) (limit : ℕ) (alias : String)
    (request : Request) where
  head-IsRun :
      (round : Round) (index : ℕ) (d : Destination) (ds : List Destination) (result : RunResult)
      (head : Option Error) (rest : RunResult → RunResult × Option RunError)
      → ((r : RunResult) → IsRun (index + 1) ds r (rest r))
      → let (result', flow) = run_head execute round limit alias request index d result head in
        IsRun index (d ∷ ds) result (proceed result' flow (rest result'))
  unfolding IsRun run_head
  head-IsRun round index d ds result (some err) rest h = ([], sym (append-nil _), tt)
  head-IsRun round index d ds result none rest h =
      let answer = execute index d request alias in
      proceed-IsRun index d ds (answer_attempt index d round answer) result _ _ _
        (answer-attempts limit index d round result answer)
        (answer-sequence limit index d round result answer)
        (answer-destination_id limit index d round result answer)
        (answer-next limit index d round result answer) (h _)

  run_loop-IsRun :
      (index : ℕ) (ds : List Destination) (result : RunResult)
      → IsRun index ds result (run_loop execute rounds limit alias request index ds result)
  unfolding run_loop IsRun run_turn
  run_loop-IsRun index [] result = ([], sym (append-nil _), tt)
  run_loop-IsRun index (d ∷ ds) result =
      head-IsRun (rounds index) index d ds result (rounds index).total_head
        (λ r. run_loop execute rounds limit alias request (index + 1) ds r)
        (λ r. run_loop-IsRun (index + 1) ds r)

-- The attempts of `out` are a trail over the first `max_attempts` of `ds`.
IsTrailOf : Snapshot → List Destination → RunResult × Option RunError → Type 0
IsTrailOf snapshot ds out = IsTrail 0 (take snapshot.max_attempts ds) out.0.attempts

eligible-trail :
    (execute : Executor) (rounds : ℕ → Round) (snapshot : Snapshot) (request : Request)
    (ds : List Destination)
    → IsTrailOf snapshot ds (run_eligible execute rounds snapshot request ds)
unfolding run_eligible IsTrailOf
eligible-trail execute rounds snapshot request [] = tt
eligible-trail execute rounds snapshot request (d ∷ ds) =
    rw (← take-min snapshot.max_attempts (d ∷ ds))
      (IsRun-zero _ _ (run_loop-IsRun execute rounds _ snapshot.alias request 0 _ zero_result))

executor-trail :
    (executor : Option Executor) (rounds : ℕ → Round) (snapshot : Snapshot) (request : Request)
    → IsTrailOf snapshot
        (filter eligible snapshot.destinations)
        (run_executor executor rounds snapshot request)
unfolding IsTrailOf
executor-trail none rounds snapshot request = unfold run_executor in tt
executor-trail (some execute) rounds snapshot request =
    elim (executor-cases execute rounds snapshot request) [
      | inl (inl e) ↦ rw e tt
      | inl (inr e) ↦ rw e tt
      | inr e ↦ rw e (eligible-trail execute rounds snapshot request _)
    ]

-- The attempts of a run are numbered from 1 and went to the first `max_attempts` eligible destinations
-- in their order; every attempt but the last was classified retryable and ended in error.
pub run-IsTrail :
    (engine : Option Engine) (snapshot : Snapshot) (request : Request)
    → IsTrail 0
        (take snapshot.max_attempts (filter eligible snapshot.destinations))
        (run engine snapshot request).0.attempts
unfolding run IsTrailOf
run-IsTrail none snapshot request = tt
run-IsTrail (some e) snapshot request = executor-trail e.executor e.rounds snapshot request

-- A run makes no more attempts than `max_attempts`, and no more than there are eligible destinations.
pub length-run :
    (engine : Option Engine) (snapshot : Snapshot) (request : Request)
    → (length (run engine snapshot request).0.attempts ≤ snapshot.max_attempts)
      × (length (run engine snapshot request).0.attempts
          ≤ length (filter eligible snapshot.destinations))
length-run engine snapshot request =
    let t = length-IsTrail 0 _ _ (run-IsTrail engine snapshot request) in
    let l = length-take snapshot.max_attempts (filter eligible snapshot.destinations) in
    (omega arith, omega arith)
