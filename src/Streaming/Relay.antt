-- ===== src/Streaming/Relay.antt =====
-- `RelayChatCompletions` and `writeChatFrame` of internal/streaming/chat.go.
pub mod Rule
pub mod Safety
pub mod Total
pub mod Frames
use modelcairn.Base.{
  ℕ, zero, suc, ◌+◌, String, Bool, true, false, Option, none, some, List, [], ◌∷◌, ◌++◌,
  if◌then◌else◌, length, ◌==◌, ◌&&◌,
}
use modelcairn.Fault.{Error, eof}
use modelcairn.Streaming.{
  err_invalid_sse, err_incomplete_stream, err_empty_upstream, err_streaming_unsupported, Client,
  commit, ChatResult, zero_chat, write,
}
use modelcairn.Streaming.Lines.{Fragment}
use modelcairn.Streaming.Sse.{Read, event, failed, read_sse_data}
use modelcairn.Streaming.Normalize.{Codec, Normalized, normalize_chunk}

-- What a turn of the loop observes of its context and clock: `ctx.Err()` before and after the read, and
-- the time at which the stream is committed.
pub record Tick : Type 0 where
  pub before : Option Error
  pub after : Option Error
  pub now : ℕ

-- The state that a turn changes: the result so far, the client, and what is left of the upstream.
pub record Relay : Type 0 where
  pub result : ChatResult
  pub client : Client
  pub source : List Fragment

-- `none` is a nil error.
pub data Step : Type 0 where
  done : Option Error → Relay → Step
  more : Relay → Step

-- "data: ", the final payload and the empty line that ends a frame
abbrev pub data_prefix : List ℕ
data_prefix = b'd' ∷ b'a' ∷ b't' ∷ b'a' ∷ b':' ∷ b' ' ∷ []

abbrev pub done_payload : List ℕ
done_payload = b'[' ∷ b'D' ∷ b'O' ∷ b'N' ∷ b'E' ∷ b']' ∷ []

abbrev pub frame_of : List ℕ → List ℕ
frame_of payload = data_prefix ++ (payload ++ 10 ∷ 10 ∷ [])

pub is_done : List ℕ → Bool
is_done (a ∷ b ∷ c ∷ d ∷ e ∷ f ∷ []) =
    a == b'[' && b == b'D' && c == b'O' && d == b'N' && e == b'E' && f == b']'
is_done _ = false

-- `writeChatFrame`: the bytes are counted whatever the error.
pub write_chat_frame : List ℕ → Relay → Option Error × Relay
write_chat_frame frame r =
    let (client, written, err) = write r.client frame in
    (
      err,
      record r { client = client; result = record (r.result) { bytes = r.result.bytes + written } },
    )

abbrev or_keep : Option ℕ → Option ℕ → Option ℕ
or_keep none old = old
or_keep (some n) old = some n

pub after_done : Option Error × Relay → Step
after_done (some err, r) = done (some err) r
after_done (none, r) = done none (record r { result = record (r.result) { completed = true } })

pub after_chunk : Normalized → Option Error × Relay → Step
after_chunk n (some err, r) = done (some err) r
after_chunk n (none, r) = more (record r {
  result = record (r.result) {
    events = r.result.events + 1;
    input_tokens = or_keep n.input_tokens r.result.input_tokens;
    output_tokens = or_keep n.output_tokens r.result.output_tokens;
  };
})

-- The headers and the status go out once, with the first chunk that passes.
pub commit_relay : ℕ → Relay → Relay
commit_relay now r = if r.result.committed then r else record r {
  client = commit r.client;
  result = record (r.result) { committed = true; first_event_at = now };
}

-- A step that is done ends the loop.
abbrev pub follow : Step → (Relay → Option (Relay × Option Error)) → Option (Relay × Option Error)
follow (done err r) next = some (r, err)
follow (more r) next = next r

module _ (codec : Codec) (alias : String) where
  pub relay_chunk : ℕ → Option Normalized → Relay → Step
  unfolding commit_relay write_chat_frame after_chunk
  relay_chunk now none r = done (some err_invalid_sse) r
  relay_chunk now (some n) r =
      after_chunk n (write_chat_frame (frame_of n.payload) (commit_relay now r))

  pub relay_event : ℕ → List ℕ → Relay → Step
  unfolding relay_chunk after_done write_chat_frame is_done
  relay_event now payload r =
      if is_done payload
      then (if r.result.committed
          then after_done (write_chat_frame (frame_of payload) r)
          else done (some err_invalid_sse) r)
      else relay_chunk now (normalize_chunk codec payload alias) r

  pub relay_read : ℕ → Read → Relay → Step
  unfolding relay_event
  relay_read now (failed eof) r =
      done (some (if r.result.committed then err_incomplete_stream else err_empty_upstream)) r
  relay_read now (failed err) r = done (some err) r
  relay_read now (event payload rest) r = relay_event now payload (record r { source = rest })

  -- `ctx.Err()` is looked at before the read, and again after it.
  pub relay_after : Tick → Option Error → Read → Relay → Step
  unfolding relay_read
  relay_after tick (some err) read r = done (some err) r
  relay_after tick none read r = relay_read tick.now read r

  pub relay_before : Error → Tick → Option Error → Relay → Step
  unfolding relay_after
  relay_before finish tick (some err) r = done (some err) r
  relay_before finish tick none r = relay_after tick tick.after (read_sse_data finish r.source) r

  unfoldable pub relay_step : Error → Tick → Relay → Step
  unfolding relay_before
  relay_step finish tick r = relay_before finish tick tick.before r

  -- The loop, on fuel; `none` is fuel that ran out.
  unfoldable pub relay_loop : Error → (ℕ → Tick) → ℕ → ℕ → Relay → Option (Relay × Option Error)
  relay_loop finish ticks zero turn r = none
  relay_loop finish ticks (suc fuel) turn r =
      follow (relay_step finish (ticks turn) r) (λ r'. relay_loop finish ticks fuel (turn + 1) r')

  -- A call on an upstream that will return `source` and then `finish`. Every turn but the last reads at
  -- least one fragment, so the fuel is enough.
  unfoldable pub relay_chat_completions :
      Error → (ℕ → Tick) → List Fragment → Client → Option (Relay × Option Error)
  unfolding relay_loop
  relay_chat_completions finish ticks source client =
      let start : Relay = record { result = zero_chat; client = client; source = source } in
      if client.flushes
      then relay_loop finish ticks (length source + 1) 0 start
      else some (start, some err_streaming_unsupported)
