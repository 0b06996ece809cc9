-- ===== src/Router/Engine/Decision.antt =====
-- The runs in which no context ends, against a reading of the answers alone.
use modelcairn.Base.{
  ℕ, ◌+◌, String, false, Option, none, some, List, [], ◌∷◌, ◌≡◌, refl, arith, ◌&&◌, not,
  if◌then◌else◌, is_some, length, min, take, filter, take-min, length-take, ◌≢◌, ◌<◌, ap, ◌∙◌,
  str_eq,
}
use modelcairn.Chat.{Request}
use modelcairn.Fault.{Error, classified, deadline_exceeded}
use modelcairn.Router.{
  UpstreamResult, RunResult, RunError, Destination, eligible, Snapshot, Round, zero_result,
}
use modelcairn.Router.Classify.{classify_attempt}
use modelcairn.Router.Classify.Retry.{may_retry}
use modelcairn.Router.Engine.{
  Executor, Flow, return, next, in_200s, proceed, run_head, run_turn, run_answer, run_loop,
  run_eligible, run_executor, run,
}

-- No context ends in the turn.
pub record IsQuiet (round : Round) : Type 0 where
  pub head : round.total_head ≡ none
  pub parent : round.parent_done ≡ false
  pub total : round.total_done ≡ false

-- The code under which an answer that is neither a success nor retried ends the run.
abbrev pub final_code : Option Error → String
final_code none = "provider_error"
final_code (some (classified code written)) =
    if str_eq code "transport_error" then "indeterminate_upstream" else code
final_code (some deadline_exceeded) = "indeterminate_upstream"
final_code (some _) = "upstream_error"

-- The first answer that is not to be retried decides: `none` for a success, or its code. If there is
-- none, every destination has been tried.
abbrev pub decide : List (UpstreamResult × Option Error) → Option String
decide [] = some "fallback_exhausted"
decide ((upstream, err) ∷ rest) =
    let later = decide rest in
    if not (is_some err) && in_200s upstream.status_code
    then none
    else if may_retry err upstream.status_code
    then later
    else some (final_code err)

-- The answers that the executor has for destinations tried from turn `index` on.
abbrev pub answers :
    Executor → String → Request → ℕ → List Destination → List (UpstreamResult × Option Error)
answers execute alias request index [] = []
answers execute alias request index (d ∷ ds) =
    execute index d request alias ∷ answers execute alias request (index + 1) ds

abbrev pub code_of : Option RunError → Option String
code_of none = none
code_of (some e) = some e.code

-- The code of a turn that is followed by `later`.
abbrev flow_code : Flow → Option String → Option String
flow_code (return e) later = code_of e
flow_code next later = later

abbrev chosen : UpstreamResult × Option Error → Option String → Option String
chosen (upstream, err) later =
    if not (is_some err) && in_200s upstream.status_code
    then none
    else if may_retry err upstream.status_code
    then later
    else some (final_code err)

answer-chosen :
    (limit index : ℕ) (d : Destination) (round : Round) (result : RunResult)
    (upstream : UpstreamResult) (err : Option Error) (later : Option String)
    → IsQuiet round
    → (index + 1 ≡ limit → later ≡ some "fallback_exhausted")
    → flow_code (run_answer limit index d round result (upstream, err)).1 later
      ≡ chosen (upstream, err) later
unfolding run_answer classify_attempt
answer-chosen limit index d round result upstream none later q h = ground arith
answer-chosen limit index d round result upstream (some (classified code written)) later q h =
    ground arith
answer-chosen limit index d round result upstream (some _) later q h = ground arith

code_of-proceed :
    (result : RunResult) (flow : Flow) (rest : RunResult × Option RunError)
    → code_of (proceed result flow rest).1 ≡ flow_code flow (code_of rest.1)
code_of-proceed result (return e) rest = refl
code_of-proceed result next rest = refl

last_decide :
    (execute : Executor) (alias : String) (request : Request) (index limit : ℕ)
    (ds : List Destination)
    → limit ≡ index + 1 + length ds
    → index + 1 ≡ limit
    → decide (answers execute alias request (index + 1) ds) ≡ some "fallback_exhausted"
last_decide execute alias request index limit [] e h = refl
last_decide execute alias request index limit (d ∷ ds) e h = absurd (omega arith)

module _ (execute : Executor) (rounds : ℕ → Round) (quiet : (i : ℕ) → IsQuiet (rounds i))
    (limit : ℕ) (alias : String) (request : Request) where
  turn-chosen :
      (index : ℕ) (d : Destination) (result : RunResult) (later : Option String)
      → (index + 1 ≡ limit → later ≡ some "fallback_exhausted")
      → flow_code (run_turn execute rounds limit alias request index d result).1 later
        ≡ chosen (execute index d request alias) later
  unfolding run_turn run_head
  turn-chosen index d result later h =
      ap
        (λ head.
          flow_code (run_head execute (rounds index) limit alias request index d result head).1
            later)
        (quiet index).head
      ∙ answer-chosen limit index d (rounds index) result (execute index d request alias).0
          (execute index d request alias).1 later (quiet index) h

  loop-decide :
      (index : ℕ) (ds : List Destination) (result : RunResult)
      → limit ≡ index + length ds
      → code_of (run_loop execute rounds limit alias request index ds result).1
        ≡ decide (answers execute alias request index ds)
  unfolding run_loop
  loop-decide index [] result e = refl
  loop-decide index (d ∷ ds) result e =
      let (result', flow) = run_turn execute rounds limit alias request index d result in
      code_of-proceed result' flow _
      ∙ ap (flow_code flow) (loop-decide (index + 1) ds result' (omega arith))
      ∙ turn-chosen index d result _
          (last_decide execute alias request index limit ds (omega arith))

-- The destinations that a run may try.
abbrev pub tried : Snapshot → List Destination
tried snapshot = take snapshot.max_attempts (filter eligible snapshot.destinations)

eligible-decide :
    (execute : Executor) (rounds : ℕ → Round) (snapshot : Snapshot) (request : Request)
    (ds : List Destination)
    → ((i : ℕ) → IsQuiet (rounds i))
    → ds ≢ []
    → code_of (run_eligible execute rounds snapshot request ds).1
      ≡ decide (answers execute snapshot.alias request 0 (take snapshot.max_attempts ds))
unfolding run_eligible
eligible-decide execute rounds snapshot request [] quiet h = absurd (h refl)
eligible-decide execute rounds snapshot request (d ∷ ds) quiet h =
    loop-decide execute rounds quiet _ snapshot.alias request 0 _ zero_result
      (omega (arith, length-take (min snapshot.max_attempts (length (d ∷ ds))) (d ∷ ds)))
    ∙ ap (λ l. decide (answers execute snapshot.alias request 0 l))
        (take-min snapshot.max_attempts (d ∷ ds))

-- A snapshot and a request that the loop is entered with.
pub record IsRunnable (snapshot : Snapshot) (request : Request) : Type 0 where
  pub attempts : 0 < snapshot.max_attempts
  pub attempt_time : 0 < snapshot.attempt_timeout
  pub total_time : 0 < snapshot.total_timeout
  pub whole : request.stream ≡ false
  pub some_eligible : filter eligible snapshot.destinations ≢ []

entered :
    (execute : Executor) (rounds : ℕ → Round) (snapshot : Snapshot) (request : Request)
    → IsRunnable snapshot request
    → run_executor (some execute) rounds snapshot request
      ≡ run_eligible execute rounds snapshot request (filter eligible snapshot.destinations)
unfolding run_executor
entered execute rounds snapshot request h = ground arith

-- While no context ends, a run of an engine over a usable snapshot returns what the first answer that is
-- not to be retried decides, among the answers for the first `max_attempts` eligible destinations: no
-- error for a success, else that answer's code, or "fallback_exhausted" if every answer is retried.
pub run-eq-decide :
    (execute : Executor) (rounds : ℕ → Round) (snapshot : Snapshot) (request : Request)
    → ((i : ℕ) → IsQuiet (rounds i))
    → IsRunnable snapshot request
    → code_of (run (some (record { executor = some execute; rounds = rounds })) snapshot request).1
      ≡ decide (answers execute snapshot.alias request 0 (tried snapshot))
unfolding run
run-eq-decide execute rounds snapshot request quiet h =
    ap (λ (out : RunResult × Option RunError). code_of out.1)
      (entered execute rounds snapshot request h)
    ∙ eligible-decide execute rounds snapshot request _ quiet h.some_eligible
