-- ===== src/Streaming.antt =====
-- The data of internal/streaming, and the client that a stream is relayed to.
pub mod Lines
pub mod Sse
pub mod Normalize
pub mod Relay
pub mod Raw
use modelcairn.Base.{
  ℕ, ◌+◌, String, Bool, true, false, Option, none, some, List, [], ◌∷◌, ◌++◌, ◌==◌, if◌then◌else◌,
  length, take,
}
use modelcairn.Fault.{Error, other}

-- internal/streaming/relay.go and chat.go
abbrev pub read_buffer_size : ℕ
read_buffer_size = 32768

abbrev pub max_sse_event_bytes : ℕ
max_sse_event_bytes = 1048576

abbrev pub err_invalid_sse : Error
err_invalid_sse = other "invalid upstream SSE"

abbrev pub err_incomplete_stream : Error
err_incomplete_stream = other "upstream SSE ended without DONE"

abbrev pub err_empty_upstream : Error
err_empty_upstream = other "upstream stream ended before commitment"

abbrev pub err_streaming_unsupported : Error
err_streaming_unsupported = other "response writer does not support streaming"

abbrev pub err_short_write : Error
err_short_write = other "short write"

abbrev pub err_no_progress : Error
err_no_progress = other "multiple Read calls return no data or error"

-- The response writer: whether it can flush, how many bytes of its n-th write it accepts, with the error
-- of that write; and what it has been given: the status that was sent, and the accepted bytes.
pub record Client : Type 0 where
  pub flushes : Bool
  pub accept : ℕ → List ℕ → ℕ × Option Error
  pub status : Option ℕ
  pub headers : List (String × String)
  pub writes : ℕ
  pub received : List ℕ

-- `WriteHeader(http.StatusOK)` under the three headers of a stream
unfoldable pub commit : Client → Client
commit c = record c {
  status = some 200;
  headers =
      ("Content-Type", "text/event-stream")
      ∷ ("Cache-Control", "no-cache")
      ∷ ("X-Accel-Buffering", "no")
      ∷ [];
}

pub record ChatResult : Type 0 where
  pub committed : Bool
  pub completed : Bool
  pub bytes : ℕ
  pub events : ℕ
  pub input_tokens : Option ℕ
  pub output_tokens : Option ℕ
  pub first_event_at : ℕ

abbrev pub zero_chat : ChatResult
zero_chat = record {
  committed = false;
  completed = false;
  bytes = 0;
  events = 0;
  input_tokens = none;
  output_tokens = none;
  first_event_at = 0;
}

-- The error of a write: the writer's own, or a short count.
abbrev pub write_error : ℕ → ℕ → Option Error → Option Error
write_error written size (some err) = some err
write_error written size none = if written == size then none else some err_short_write

-- `destination.Write(frame)`, with the flush that follows it
unfoldable pub write : Client → List ℕ → Client × ℕ × Option Error
write c frame =
    let (written, err) = c.accept c.writes frame in
    (
      record c { writes = c.writes + 1; received = c.received ++ take written frame },
      written,
      write_error written (length frame) err,
    )
