-- ===== src/Router/Stream.antt =====
-- `Engine.RunStream` of internal/router/stream_engine.go.
pub mod Entry
pub mod Safety
pub mod Trail
pub mod Total
use modelcairn.Base.{
  ℕ, ◌+◌, min, String, Bool, true, false, Option, none, some, List, [], ◌∷◌, ◌||◌, ltb, ◌==◌, not,
  is_some, if◌then◌else◌, length, take, filter,
}
use modelcairn.Fault.{Error, classified}
use modelcairn.Chat.{Request}
use modelcairn.Streaming.{Client}
use modelcairn.Streaming.Lines.{fragments}
use modelcairn.Streaming.Relay.{Relay, relay_chat_completions}
use modelcairn.Router.{Attempt, RunError, Destination, eligible, Snapshot, Round}
use modelcairn.Router.Classify.{classify_attempt}
use modelcairn.Router.Engine.{Flow, return, next, run_error, in_200s, terminal_context_error}
use modelcairn.Router.StreamData.{
  StreamUpstream, StreamExecutor, StreamEngine, StreamState, StreamOut, zero_stream, with_attempt,
  fail, stream_attempt, after_relay, ended, is_context_error,
}

-- The classification of an attempt that did not commit, and what follows from it.
pub stream_retry :
    ℕ → ℕ → Round → Option Error → Option Error → ℕ → Attempt → StreamState → StreamState × Flow
stream_retry limit index round err cause status attempt s =
    let c = classify_attempt round.parent_done round.total_done err status attempt in
    let s' = with_attempt s c.attempt in
    if not c.retry
    then fail c.code cause s'
    else if index + 1 == limit
    then fail "fallback_exhausted" cause s'
    else (s', next)

-- The stream was not opened, or not with a 2xx status.
pub stream_refused :
    ℕ → ℕ → Destination → Round → StreamUpstream → Option Error → StreamState → StreamState × Flow
unfolding stream_retry
stream_refused limit index d round upstream open_err s =
    stream_retry limit index round open_err open_err upstream.status_code
      (stream_attempt index d upstream upstream.retry_after round) s

-- The relay's error, after the commitment or before it. A failure before it counts as an invalid
-- response of a request that was written, unless a context ended.
pub relay_failed : ℕ → ℕ → Round → ℕ → Bool → Error → Attempt → StreamState → StreamState × Flow
unfolding stream_retry
relay_failed limit index round status committed err a s =
    if committed
    then (if round.parent_done
        then fail "request_cancelled" (some err)
            (with_attempt s (ended "client_cancelled" "cancelled" a))
        else fail "stream_interrupted" (some err)
            (with_attempt s (ended "stream_interrupted" "partial" a)))
    else if is_context_error err
    then (if round.parent_done
        then fail "request_cancelled" (some err)
            (with_attempt s (ended "client_cancelled" "cancelled" a))
        else fail "indeterminate_upstream" (some err)
            (with_attempt s (ended "indeterminate_stream" "indeterminate" a)))
    else stream_retry limit index round (some (classified "invalid_response" true)) (some err)
        status a s

pub relay_ended :
    ℕ
    → ℕ
    → Destination
    → Round
    → StreamUpstream
    → StreamState
    → Relay
    → Option Error
    → StreamState × Flow
unfolding relay_failed after_relay
relay_ended limit index d round upstream s r none = (
  with_attempt (after_relay r s)
      (record (stream_attempt index d upstream "" round) { outcome = "success" }),
  return none,
)
relay_ended limit index d round upstream s r (some err) =
    relay_failed limit index round upstream.status_code r.result.committed err
      (stream_attempt index d upstream "" round) (after_relay r s)

-- One turn; `none` is a relay that ran out of fuel.
module _ (engine : StreamEngine) (alias : String) (request : Request) (limit : ℕ) where
  pub stream_relayed :
      ℕ
      → Destination
      → StreamUpstream
      → StreamState
      → Option (Relay × Option Error)
      → Option (StreamState × Flow)
  unfolding relay_ended
  stream_relayed index d upstream s none = none
  stream_relayed index d upstream s (some (r, err)) =
      some (relay_ended limit index d (engine.rounds index) upstream s r err)

  pub stream_opened :
      ℕ → Destination → StreamUpstream → Option Error → StreamState → Option (StreamState × Flow)
  unfolding stream_refused stream_relayed
  stream_opened index d upstream open_err s =
      if is_some open_err || not (in_200s upstream.status_code)
      then some (stream_refused limit index d (engine.rounds index) upstream open_err s)
      else stream_relayed index d upstream s (
          relay_chat_completions engine.codec alias upstream.finish (engine.ticks index)
            (fragments [] upstream.body) s.client)

  pub stream_head :
      StreamExecutor → ℕ → Destination → StreamState → Option Error → Option (StreamState × Flow)
  unfolding stream_opened terminal_context_error
  stream_head open_stream index d s (some err) = some (
    s,
    return (some (terminal_context_error (engine.rounds index).parent_head err s.result.attempts)),
  )
  stream_head open_stream index d s none =
      let (upstream, open_err) = open_stream index d request in
      stream_opened index d upstream open_err s

  abbrev pub stream_proceed :
      Option (StreamState × Flow) → (StreamState → Option StreamOut) → Option StreamOut
  stream_proceed none rest = none
  stream_proceed (some (s, return err)) rest = some (s, err)
  stream_proceed (some (s, next)) rest = rest s

  unfoldable pub stream_loop :
      StreamExecutor → ℕ → List Destination → StreamState → Option StreamOut
  unfolding stream_head
  stream_loop open_stream index [] s =
      some (s, some (run_error "fallback_exhausted" s.result.attempts none))
  stream_loop open_stream index (d ∷ ds) s =
      stream_proceed (stream_head open_stream index d s (engine.rounds index).total_head)
        (λ s'. stream_loop open_stream (index + 1) ds s')

module _ (engine : StreamEngine) (snapshot : Snapshot) (request : Request) (client : Client) where
  abbrev pub stream_start : StreamState
  stream_start = record { result = zero_stream; client = client }

  abbrev pub early : String → Option StreamOut
  early code = some (stream_start, some (run_error code [] none))

  pub stream_eligible : StreamExecutor → List Destination → Option StreamOut
  unfolding stream_loop
  stream_eligible open_stream [] = early "no_eligible_destination"
  stream_eligible open_stream (d ∷ ds) =
      let limit = min snapshot.max_attempts (length (d ∷ ds)) in
      stream_loop engine snapshot.alias request limit open_stream 0 (take limit (d ∷ ds))
        stream_start

  pub stream_executor : Option StreamExecutor → Option StreamOut
  unfolding stream_eligible
  stream_executor none = early "streaming_not_supported"
  stream_executor (some open_stream) =
      if ltb snapshot.max_attempts 1 || snapshot.attempt_timeout == 0 || snapshot.total_timeout == 0
      then early "streaming_not_supported"
      else if not request.stream
      then early "streaming_required"
      else stream_eligible open_stream (filter eligible snapshot.destinations)

-- `none` for the engine is a nil engine.
unfoldable pub run_stream : Option StreamEngine → Snapshot → Request → Client → Option StreamOut
unfolding stream_executor
run_stream none snapshot request client = some (
  record { result = zero_stream; client = client },
  some (run_error "streaming_not_supported" [] none),
)
run_stream (some engine) snapshot request client =
    stream_executor engine snapshot request client engine.executor
