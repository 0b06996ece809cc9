-- ===== src/Tests/RouterTests.antt =====
-- The engine over three destinations, one of them excluded, as in internal/router/engine_test.go.
use modelcairn.Base.{
  ℕ, zero, suc, String, true, false, none, some, List, [], ◌∷◌, ◌≡◌, refl, arith, ◌&&◌, not, take,
  filter, length,
}
use modelcairn.Fault.{classified}
use modelcairn.Chat.{Request}
use modelcairn.Router.{
  UpstreamResult, Attempt, RunError, Destination, eligible, Snapshot, zero_upstream, Round,
}
use modelcairn.Router.Classify.{classify_attempt}
use modelcairn.Router.Classify.Retry.{may_retry, classify-retry}
use modelcairn.Router.Trail.{IsTrail}
use modelcairn.Router.Engine.{Executor, Engine, new_attempt, run_turn, run_loop, run}
use modelcairn.Router.Engine.Trail.{run-IsTrail}
use modelcairn.Router.Engine.Verdict.{IsSuccess, run-IsSuccess, run-failure}
use modelcairn.Router.Engine.Decision.{
  IsQuiet, IsRunnable, code_of, decide, answers, tried, run-eq-decide,
}

abbrev pub destination : String → List String → Destination
destination id reasons = record {
  id = id;
  name = id;
  model_id = "m";
  provider_model_id = "pm";
  connection_id = "c";
  base_url = "https://provider.example";
  adapter = "openai-chat-v1";
  allow_private_network = false;
  credential_id = "k";
  secret_id = "s";
  secret_name = "secret";
  egress_id = "e";
  egress_type = "direct";
  weight = 1;
  capabilities = "text" ∷ [];
  exclusion_reasons = reasons;
}

abbrev pub snapshot : Snapshot
snapshot = record {
  config_revision = 1;
  route_id = "r";
  alias = "assistant";
  strategy_id = "st";
  strategy_version_id = "v";
  strategy_version = 1;
  max_attempts = 3;
  attempt_timeout = 1000000000;
  total_timeout = 3000000000;
  destinations =
      destination "excluded" ("cooldown_active" ∷ [])
      ∷ destination "one" []
      ∷ destination "two" []
      ∷ destination "three" []
      ∷ [];
}

abbrev pub request : Request
request = record {
  model = "assistant";
  messages = [];
  stream = false;
  stream_options = none;
  tools = [];
  tool_choice = none;
  parallel_tool_calls = none;
  temperature = none;
  top_p = none;
  max_tokens = none;
  max_completion_tokens = none;
}

abbrev pub quiet_round : Round
quiet_round = record {
  total_head = none;
  parent_head = false;
  started = 5;
  completed = 8;
  parent_done = false;
  total_done = false;
}

abbrev upstream : ℕ → UpstreamResult
upstream status = record zero_upstream { status_code = status }

-- 429, then 503, then 200
abbrev pub falls_back : Executor
falls_back zero d r alias = (upstream 429, none)
falls_back (suc zero) d r alias = (upstream 503, none)
falls_back (suc (suc n)) d r alias = (upstream 200, none)

-- A transport failure after the request was written.
abbrev written_failure : Executor
written_failure n d r alias = (zero_upstream, some (classified "transport_error" true))

abbrev pub engine : Executor → Engine
engine execute = record { executor = some execute; rounds = λ i. quiet_round }

abbrev fallback_run : List Attempt
fallback_run = (run (some (engine falls_back)) snapshot request).0.attempts

third_succeeds :
    ((run (some (engine falls_back)) snapshot request).1 ≡ none)
    × (length (run (some (engine falls_back)) snapshot request).0.attempts ≡ 3)
unfolding run run_loop run_turn classify_attempt eligible
third_succeeds = (refl, refl)

abbrev stopped : RunError
stopped = record {
  code = "indeterminate_upstream";
  attempts = (run (some (engine written_failure)) snapshot request).0.attempts;
  cause = some (classified "transport_error" true);
}

written_stops : (run (some (engine written_failure)) snapshot request).1 ≡ some stopped
unfolding run run_loop run_turn classify_attempt eligible
written_stops = refl

one_attempt : length (run (some (engine written_failure)) snapshot request).0.attempts ≡ 1
unfolding run run_loop run_turn classify_attempt eligible
one_attempt = refl

all-IsQuiet : (i : ℕ) → IsQuiet quiet_round
all-IsQuiet i = record { head = refl; parent = refl; total = refl }

runnable : IsRunnable snapshot request
unfolding eligible
runnable = record {
  attempts = omega arith;
  attempt_time = omega arith;
  total_time = omega arith;
  whole = refl;
  some_eligible = λ e. cc;
}

run-eq-decide_example :
    code_of (run (some (engine falls_back)) snapshot request).1
    ≡ decide (answers falls_back "assistant" request 0 (tried snapshot))
run-eq-decide_example =
    run-eq-decide falls_back (λ i. quiet_round) snapshot request all-IsQuiet runnable

run-IsTrail_example :
    IsTrail 0
      (take 3 (filter eligible snapshot.destinations))
      (run (some (engine falls_back)) snapshot request).0.attempts
run-IsTrail_example = run-IsTrail (some (engine falls_back)) snapshot request

run-IsSuccess_example : IsSuccess (run (some (engine falls_back)) snapshot request).0
run-IsSuccess_example = run-IsSuccess (some (engine falls_back)) snapshot request third_succeeds.0

run-failure_example :
    stopped.attempts ≡ (run (some (engine written_failure)) snapshot request).0.attempts
run-failure_example =
    run-failure (some (engine written_failure)) snapshot request stopped written_stops

classify-retry_example :
    let a = new_attempt 0 (destination "one" []) (upstream 503) quiet_round in
    let c = classify_attempt false false none 503 a in
    (c.retry ≡ (not false && (not false && may_retry none 503))) × (c.attempt.retryable ≡ c.retry)
classify-retry_example =
    classify-retry false false none 503
      (new_attempt 0 (destination "one" []) (upstream 503) quiet_round) refl
