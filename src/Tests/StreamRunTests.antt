-- ===== src/Tests/StreamRunTests.antt =====
-- A stream run that falls back once, and then streams.
use modelcairn.Base.{ℕ, zero, suc, Bool, true, Option, none, some, ◌≡◌, refl, take, filter, length}
use modelcairn.Fault.{eof}
use modelcairn.Chat.{Request}
use modelcairn.Streaming.{commit, write}
use modelcairn.Streaming.Lines.{fragments}
use modelcairn.Streaming.Sse.{read_sse_data}
use modelcairn.Streaming.Normalize.{normalize_chunk}
use modelcairn.Streaming.Relay.{relay_step, relay_loop, relay_chat_completions}
use modelcairn.Router.{eligible}
use modelcairn.Router.Classify.{classify_attempt}
use modelcairn.Router.Trail.{IsTrail}
use modelcairn.Router.StreamData.{
  StreamUpstream, StreamExecutor, StreamEngine, StreamOut, after_relay,
}
use modelcairn.Router.Stream.{stream_loop, run_stream}
use modelcairn.Router.Stream.Safety.{IsStreamSafe, run_stream-IsStreamSafe}
use modelcairn.Router.Stream.Trail.{run_stream-IsTrail}
use modelcairn.Router.Stream.Total.{run_stream-total}
use modelcairn.Tests.RouterTests.{snapshot, request, quiet_round}
use modelcairn.Tests.StreamTests.{codec, body, client, ticks}

abbrev stream_request : Request
stream_request = record request { stream = true }

abbrev opened : ℕ → StreamUpstream
opened status = record {
  status_code = status;
  content_type = "text/event-stream";
  retry_after = "";
  provider_request_id = "";
  body = body;
  finish = eof;
}

abbrev second_streams : StreamExecutor
second_streams zero d r = (opened 503, none)
second_streams (suc n) d r = (opened 200, none)

abbrev engine : StreamEngine
engine = record {
  executor = some second_streams;
  rounds = λ i. quiet_round;
  ticks = λ i. ticks;
  codec = codec;
}

-- The state that the run ends in.
abbrev streamed : StreamOut
streamed = (run_stream-total (some engine) snapshot stream_request client).0

abbrev run_streams :
    run_stream (some engine) snapshot stream_request client ≡ some (streamed.0, streamed.1)
run_streams = (run_stream-total (some engine) snapshot stream_request client).1

run_stream-IsStreamSafe_example : IsStreamSafe client streamed.0 streamed.1
run_stream-IsStreamSafe_example =
    run_stream-IsStreamSafe client (some engine) snapshot stream_request streamed.0 streamed.1
      run_streams

run_stream-IsTrail_example :
    IsTrail 0 (take 3 (filter eligible snapshot.destinations)) streamed.0.result.attempts
run_stream-IsTrail_example =
    run_stream-IsTrail (some engine) snapshot stream_request client streamed.0 streamed.1
      run_streams

abbrev attempts_and_end : Option StreamOut → Option (ℕ × Bool × Bool)
attempts_and_end none = none
attempts_and_end (some (s, err)) =
    some (length s.result.attempts, s.result.committed, s.result.completed)

falls_back_then_streams :
    attempts_and_end (run_stream (some engine) snapshot stream_request client)
    ≡ some (2, true, true)
unfolding run_stream stream_loop classify_attempt eligible after_relay relay_chat_completions
    relay_loop relay_step read_sse_data fragments normalize_chunk write commit
falls_back_then_streams = refl
