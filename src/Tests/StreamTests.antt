-- ===== src/Tests/StreamTests.antt =====
-- A stream of one chunk and the final event, relayed on its own and by a run.
use Prim.Native.Char.{code}
use modelcairn.Base.{
  ℕ, ◌≤◌, ◌<◌, String, true, false, Option, none, some, List, [], ◌∷◌, ◌++◌, ◌≡◌, refl, str_eq,
  length, pos,
}
use modelcairn.Fault.{Error, eof}
use modelcairn.Json.{Json, str, obj, arr, int, nil, cons, end, field}
use modelcairn.Streaming.{Client, commit, write, max_sse_event_bytes}
use modelcairn.Streaming.Lines.{Fragment, fragments}
use modelcairn.Streaming.Sse.{event, read_sse_data}
use modelcairn.Streaming.Sse.Bounds.{read_sse_data-bounds}
use modelcairn.Streaming.Normalize.{Codec, Normalized, normalize_chunk}
use modelcairn.Streaming.Normalize.Alias.{IsAliased, normalize_chunk-IsAliased}
use modelcairn.Streaming.Relay.{Tick, Relay, relay_step, relay_chat_completions}
use modelcairn.Streaming.Relay.Safety.{IsSafeEnd, relay-IsSafe}
use modelcairn.Streaming.Relay.Total.{relay-total}
use modelcairn.Streaming.Relay.Frames.{IsFramed, relay-IsFramed}

abbrev pub codes : String → List ℕ
codes String.[] = []
codes (String.◌∷◌ c s) = code c ∷ codes s

-- The decoded chunk: the provider's own model name, one choice with a delta, and a usage.
abbrev chunk : Json
chunk = obj (
    field "id" (str "x") (
      field "object" (str "chat.completion.chunk") (
        field "model" (str "provider-model") (
          field "choices"
            (arr (
              cons
                (obj (
                  field "index" (int (pos 0))
                    (field "delta" (obj (field "content" (str "hi") end)) end)))
                nil))
            (field "usage"
              (obj
                (field "prompt_tokens" (int (pos 3)) (field "completion_tokens" (int (pos 4)) end)))
              end)))))

-- A codec that reads every text as that chunk, and writes "{}".
abbrev pub codec : Codec
codec = record {
  decode = λ text. some chunk;
  encode = λ object. b'{' ∷ b'}' ∷ [];
  same_key = str_eq;
}

abbrev pub body : List ℕ
body = codes "data: {}" ++ (10 ∷ 10 ∷ codes "data: [DONE]" ++ (10 ∷ 10 ∷ []))

abbrev pub client : Client
client = record {
  flushes = true;
  accept = λ n frame. (length frame, none);
  status = none;
  headers = [];
  writes = 0;
  received = [];
}

abbrev pub ticks : ℕ → Tick
ticks i = record { before = none; after = none; now = 7 }

abbrev pub relayed : Relay
relayed = record {
  result = record {
    committed = true;
    completed = true;
    bytes = 24;
    events = 1;
    input_tokens = some 3;
    output_tokens = some 4;
    first_event_at = 7;
  };
  client = record client {
    status = some 200;
    headers =
        ("Content-Type", "text/event-stream")
        ∷ ("Cache-Control", "no-cache")
        ∷ ("X-Accel-Buffering", "no")
        ∷ [];
    writes = 2;
    received = body;
  };
  source = [];
}

relay_runs :
    relay_chat_completions codec "assistant" eof ticks (fragments [] body) client
    ≡ some (relayed, none)
unfolding relay_chat_completions relay_step read_sse_data fragments normalize_chunk write commit
relay_runs = refl

relay-IsSafe_example : IsSafeEnd client relayed none
relay-IsSafe_example =
    relay-IsSafe codec "assistant" client eof ticks (fragments [] body) relayed none relay_runs

relay-IsFramed_example : IsFramed codec "assistant" client relayed
relay-IsFramed_example =
    relay-IsFramed codec "assistant" client eof ticks (fragments [] body) relayed none
      (λ n frame. refl) relay_runs

relay-total_example :
    (out : Relay × Option Error) × (relay_chat_completions codec "assistant" eof ticks
        (fragments [] body)
        client
      ≡ some out)
relay-total_example = relay-total codec "assistant" eof ticks (fragments [] body) client

-- Two data lines are one event.
abbrev two_lines : List Fragment
two_lines =
    record { bytes = codes ": note"; prefix = false }
    ∷ record { bytes = codes "data: a"; prefix = false }
    ∷ record { bytes = codes "data:b"; prefix = false }
    ∷ record { bytes = []; prefix = false }
    ∷ record { bytes = codes "data: c"; prefix = false }
    ∷ []

abbrev after_two : List Fragment
after_two = record { bytes = codes "data: c"; prefix = false } ∷ []

two_lines_read : read_sse_data eof two_lines ≡ event (b'a' ∷ 10 ∷ b'b' ∷ []) after_two
unfolding read_sse_data
two_lines_read = refl

read_sse_data-bounds_example :
    (length {A = ℕ} (b'a' ∷ 10 ∷ b'b' ∷ []) ≤ max_sse_event_bytes)
    × (length after_two < length two_lines)
read_sse_data-bounds_example =
    read_sse_data-bounds eof two_lines (b'a' ∷ 10 ∷ b'b' ∷ []) after_two two_lines_read

abbrev passed_on : Normalized
passed_on = record { payload = b'{' ∷ b'}' ∷ []; input_tokens = some 3; output_tokens = some 4 }

chunk_passes : normalize_chunk codec (codes "{}") "assistant" ≡ some passed_on
unfolding normalize_chunk
chunk_passes = refl

normalize_chunk-IsAliased_example : IsAliased codec "assistant" passed_on.payload
normalize_chunk-IsAliased_example =
    normalize_chunk-IsAliased codec (codes "{}") "assistant" passed_on chunk_passes
