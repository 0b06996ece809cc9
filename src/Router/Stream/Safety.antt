-- ===== src/Router/Stream/Safety.antt =====
-- What the client of a stream run has received when the run ends.
use modelcairn.Base.{
  ℕ, ◌+◌, String, Bool, true, false, Option, none, some, List, [], ◌∷◌, ◌≡◌, refl, arith,
  if◌then◌else◌,
}
use mathlib.Core.Path.{subst}
use modelcairn.Fault.{Error}
use modelcairn.Chat.{Request}
use modelcairn.Streaming.{Client}
use modelcairn.Streaming.Lines.{fragments}
use modelcairn.Streaming.Relay.{Relay, relay_chat_completions}
use modelcairn.Streaming.Relay.Safety.{IsSafeEnd, relay-IsSafe}
use modelcairn.Router.{Attempt, RunError, Destination, Snapshot, Round}
use modelcairn.Router.Engine.{Flow, return, next}
use modelcairn.Router.StreamData.{
  StreamUpstream, StreamExecutor, StreamEngine, StreamState, StreamOut, zero_stream, after_relay,
}
use modelcairn.Router.Stream.Entry.{run_stream_elim}
use modelcairn.Router.Stream.{
  stream_retry, stream_refused, relay_failed, relay_ended, stream_relayed, stream_opened,
  stream_head, stream_proceed, stream_loop, stream_eligible, run_stream,
}

-- Nothing has been sent to the client.
record IsUntouched (start : Client) (s : StreamState) : Type 0 where
  client : s.client ≡ start
  uncommitted : s.result.committed ≡ false
  incomplete : s.result.completed ≡ false

-- Nothing has been sent to the client unless the result says so; then it was sent the status. A run
-- that returns no error is complete, and one that is complete returns none.
pub record IsStreamSafe (start : Client) (s : StreamState) (err : Option RunError) : Type 0 where
  pub untouched : s.result.committed ≡ false → s.client ≡ start
  pub sent : s.result.committed ≡ true → s.client.status ≡ some 200
  pub complete : err ≡ none → (s.result.completed ≡ true) × (s.result.committed ≡ true)
  pub incomplete : (e : RunError) → err ≡ some e → s.result.completed ≡ false

module _ (start : Client) where
  abbrev Safe : StreamState × Flow → Type 0
  Safe (s, return err) = IsStreamSafe start s err
  Safe (s, next) = IsUntouched start s

  fail-IsStreamSafe :
      (s : StreamState) (e : RunError) → IsUntouched start s → IsStreamSafe start s (some e)
  fail-IsStreamSafe s e h = ground arith

  retry-Safe :
      (limit index : ℕ) (round : Round) (err cause : Option Error) (status : ℕ) (a : Attempt)
      (s : StreamState)
      → IsUntouched start s
      → Safe (stream_retry limit index round err cause status a s)
  unfolding stream_retry
  retry-Safe limit index round err cause status a s h = ground arith

  failed-Safe :
      (limit index : ℕ) (round : Round) (status : ℕ) (committed : Bool) (err : Error) (a : Attempt)
      (s : StreamState)
      → s.result.committed ≡ committed
      → s.result.completed ≡ false
      → (s.result.committed ≡ false → s.client ≡ start)
      → (s.result.committed ≡ true → s.client.status ≡ some 200)
      → Safe (relay_failed limit index round status committed err a s)
  unfolding relay_failed stream_retry
  failed-Safe limit index round status true err a s c d u t = ground arith
  failed-Safe limit index round status false err a s c d u t = ground arith

  ended-Safe :
      (limit index : ℕ) (d : Destination) (round : Round) (upstream : StreamUpstream)
      (s : StreamState) (r : Relay) (err : Option Error)
      → IsUntouched start s
      → IsSafeEnd start r err
      → Safe (relay_ended limit index d round upstream s r err)
  unfolding relay_ended after_relay
  ended-Safe limit index d round upstream s r none h k = ground arith
  ended-Safe limit index d round upstream s r (some err) h k =
      failed-Safe limit index round upstream.status_code r.result.committed err _ (after_relay r s)
        refl (k.incomplete err refl) k.safe.untouched k.safe.sent

  abbrev SafeTurn : Option (StreamState × Flow) → Type 0
  SafeTurn none = Unit
  SafeTurn (some out) = Safe out

  abbrev SafeOut : Option StreamOut → Type 0
  SafeOut none = Unit
  SafeOut (some (s, err)) = IsStreamSafe start s err

  module _ (engine : StreamEngine) (alias : String) (request : Request) (limit : ℕ) where
    relayed-SafeTurn :
        (index : ℕ) (d : Destination) (upstream : StreamUpstream) (s : StreamState)
        (out : Option (Relay × Option Error))
        → ((r : Relay) (err : Option Error) → out ≡ some (r, err) → IsSafeEnd start r err)
        → IsUntouched start s
        → SafeTurn (stream_relayed engine alias request limit index d upstream s out)
    unfolding stream_relayed
    relayed-SafeTurn index d upstream s none k h = tt
    relayed-SafeTurn index d upstream s (some (r, err)) k h =
        ended-Safe limit index d (engine.rounds index) upstream s r err h (k r err refl)

    if-SafeTurn :
        (b : Bool) (x y : Option (StreamState × Flow))
        → SafeTurn x
        → SafeTurn y
        → SafeTurn (if b then x else y)
    if-SafeTurn true x y h k = h
    if-SafeTurn false x y h k = k

    opened-SafeTurn :
        (index : ℕ) (d : Destination) (upstream : StreamUpstream) (open_err : Option Error)
        (s : StreamState)
        → IsUntouched start s
        → SafeTurn (stream_opened engine alias request limit index d upstream open_err s)
    unfolding stream_opened
    opened-SafeTurn index d upstream open_err s h =
        if-SafeTurn _
          (some (stream_refused limit index d (engine.rounds index) upstream open_err s)) _
          (unfold stream_refused in
            retry-Safe limit index (engine.rounds index) open_err open_err upstream.status_code _ s
              h)
          (relayed-SafeTurn index d upstream s _
            (λ r err e.
              relay-IsSafe engine.codec alias start upstream.finish (engine.ticks index) _ r err (
                subst
                  (λ (c : Client).
                    relay_chat_completions engine.codec alias upstream.finish (engine.ticks index)
                      (fragments [] upstream.body) c
                    ≡ some (r, err))
                  h.client e))
            h)

    head-SafeTurn :
        (open_stream : StreamExecutor) (index : ℕ) (d : Destination) (s : StreamState)
        (head : Option Error)
        → IsUntouched start s
        → SafeTurn (stream_head engine alias request limit open_stream index d s head)
    unfolding stream_head
    head-SafeTurn open_stream index d s (some err) h = fail-IsStreamSafe s _ h
    head-SafeTurn open_stream index d s none h =
        opened-SafeTurn index d (open_stream index d request).0 (open_stream index d request).1 s h

    proceed-SafeOut :
        (turn : Option (StreamState × Flow)) (rest : StreamState → Option StreamOut)
        → SafeTurn turn
        → ((s : StreamState) → IsUntouched start s → SafeOut (rest s))
        → SafeOut (stream_proceed engine alias request limit turn rest)
    proceed-SafeOut none rest h k = tt
    proceed-SafeOut (some (s, return err)) rest h k = h
    proceed-SafeOut (some (s, next)) rest h k = k s h

    loop-SafeOut :
        (open_stream : StreamExecutor) (index : ℕ) (ds : List Destination) (s : StreamState)
        → IsUntouched start s
        → SafeOut (stream_loop engine alias request limit open_stream index ds s)
    unfolding stream_loop
    loop-SafeOut open_stream index [] s h = fail-IsStreamSafe s _ h
    loop-SafeOut open_stream index (d ∷ ds) s h =
        proceed-SafeOut
          (stream_head engine alias request limit open_stream index d s
            (engine.rounds index).total_head)
          _ (head-SafeTurn open_stream index d s (engine.rounds index).total_head h)
          (λ s' h'. loop-SafeOut open_stream (index + 1) ds s' h')

  start-IsUntouched : IsUntouched start (record { result = zero_stream; client = start })
  start-IsUntouched = ground arith

  early-IsStreamSafe :
      (e : RunError) → IsStreamSafe start (record { result = zero_stream; client = start }) (some e)
  early-IsStreamSafe e = fail-IsStreamSafe _ e start-IsUntouched

  eligible-SafeOut :
      (engine : StreamEngine) (snapshot : Snapshot) (request : Request)
      (open_stream : StreamExecutor) (ds : List Destination)
      → SafeOut (stream_eligible engine snapshot request start open_stream ds)
  unfolding stream_eligible
  eligible-SafeOut engine snapshot request open_stream [] = early-IsStreamSafe _
  eligible-SafeOut engine snapshot request open_stream (d ∷ ds) =
      loop-SafeOut engine snapshot.alias request _ open_stream 0 _ _ start-IsUntouched

  run_stream-SafeOut :
      (engine : Option StreamEngine) (snapshot : Snapshot) (request : Request)
      → SafeOut (run_stream engine snapshot request start)
  run_stream-SafeOut engine snapshot request =
      run_stream_elim SafeOut engine snapshot request start (λ code. early-IsStreamSafe _)
        (λ e open_stream. eligible-SafeOut e snapshot request open_stream _)

  -- Whatever the destinations, their streams and the contexts do: a stream run that ends before a
  -- commitment has sent the client nothing, one that ends after it has sent the status 200, and it returns
  -- no error exactly if a stream was committed and completed.
  pub run_stream-IsStreamSafe :
      (engine : Option StreamEngine) (snapshot : Snapshot) (request : Request) (s : StreamState)
      (err : Option RunError)
      → run_stream engine snapshot request start ≡ some (s, err)
      → IsStreamSafe start s err
  run_stream-IsStreamSafe engine snapshot request s err h =
      subst SafeOut h (run_stream-SafeOut engine snapshot request)
