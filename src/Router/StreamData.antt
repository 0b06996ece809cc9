-- ===== src/Router/StreamData.antt =====
-- The data of internal/router/stream_engine.go: what a stream run reads, and the state of its loop.
use modelcairn.Base.{
  ℕ, ◌+◌, String, Bool, true, false, Option, none, some, List, [], ◌∷◌, ◌++◌, sub_ℕ,
}
use modelcairn.Fault.{Error, context_canceled, deadline_exceeded}
use modelcairn.Chat.{Request}
use modelcairn.Streaming.{Client}
use modelcairn.Streaming.Normalize.{Codec}
use modelcairn.Streaming.Relay.{Tick, Relay}
use modelcairn.Router.{Attempt, RunError, Destination, Round}
use modelcairn.Router.Engine.{Flow, return, run_error}

-- The body is the bytes that the upstream sends, and the error of the read that follows them.
pub record StreamUpstream : Type 0 where
  pub status_code : ℕ
  pub content_type : String
  pub retry_after : String
  pub provider_request_id : String
  pub body : List ℕ
  pub finish : Error

pub record StreamRunResult : Type 0 where
  pub attempts : List Attempt
  pub committed : Bool
  pub completed : Bool
  pub bytes : ℕ
  pub events : ℕ
  pub input_tokens : Option ℕ
  pub output_tokens : Option ℕ
  pub first_event_at : ℕ

abbrev pub zero_stream : StreamRunResult
zero_stream = record {
  attempts = [];
  committed = false;
  completed = false;
  bytes = 0;
  events = 0;
  input_tokens = none;
  output_tokens = none;
  first_event_at = 0;
}

-- What `OpenStream` answers in turn `index` of the loop.
abbrev pub StreamExecutor : Type 0
StreamExecutor = ℕ → Destination → Request → StreamUpstream × Option Error

-- The executor, if it can stream; what the turns of the loop observe, and those of each turn's relay.
pub record StreamEngine : Type 0 where
  pub executor : Option StreamExecutor
  pub rounds : ℕ → Round
  pub ticks : ℕ → ℕ → Tick
  pub codec : Codec

-- The state of the loop: the result so far, and the client.
pub record StreamState : Type 0 where
  pub result : StreamRunResult
  pub client : Client

abbrev pub StreamOut : Type 0
StreamOut = StreamState × Option RunError

abbrev pub with_attempt : StreamState → Attempt → StreamState
with_attempt s a = record s {
  result = record (s.result) { attempts = s.result.attempts ++ a ∷ [] };
}

-- `return result, &RunError{Code: code, ...}`
abbrev pub fail : String → Option Error → StreamState → StreamState × Flow
fail code cause s = (s, return (some (run_error code s.result.attempts cause)))

abbrev pub stream_attempt : ℕ → Destination → StreamUpstream → String → Round → Attempt
stream_attempt index d upstream retry_after round = record {
  sequence = index + 1;
  destination_id = d.id;
  status_code = upstream.status_code;
  error_class = "";
  retryable = false;
  fallback_reason = "";
  outcome = "error";
  provider_request_id = upstream.provider_request_id;
  retry_after = retry_after;
  started_at = round.started;
  completed_at = round.completed;
  duration = sub_ℕ round.completed round.started;
}

-- The fields of the result that a relay sets.
unfoldable pub after_relay : Relay → StreamState → StreamState
after_relay r s = record {
  result = record {
    attempts = s.result.attempts;
    committed = r.result.committed;
    completed = r.result.completed;
    bytes = r.result.bytes;
    events = r.result.events;
    input_tokens = r.result.input_tokens;
    output_tokens = r.result.output_tokens;
    first_event_at = r.result.first_event_at;
  };
  client = r.client;
}

abbrev pub ended : String → String → Attempt → Attempt
ended class outcome a = record a { error_class = class; outcome = outcome }

abbrev pub is_context_error : Error → Bool
is_context_error context_canceled = true
is_context_error deadline_exceeded = true
is_context_error _ = false
