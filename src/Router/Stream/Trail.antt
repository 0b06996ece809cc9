-- ===== src/Router/Stream/Trail.antt =====
-- The attempts of a stream run.
use modelcairn.Base.{
  ℕ, ◌+◌, String, Bool, true, false, Option, none, some, List, [], ◌∷◌, ◌++◌, ◌≡◌, refl, sym, ap,
  ◌∙◌, arith, filter, take, take-min, append-nil, append_assoc, if◌then◌else◌, is_some, ◌||◌, not,
}
use mathlib.Core.Path.{subst}
use modelcairn.Fault.{Error, classified}
use modelcairn.Chat.{Request}
use modelcairn.Streaming.{Client}
use modelcairn.Streaming.Lines.{fragments}
use modelcairn.Streaming.Relay.{Relay, relay_chat_completions}
use modelcairn.Router.{Attempt, RunError, Destination, eligible, Snapshot, Round}
use modelcairn.Router.Classify.{classify_attempt}
use modelcairn.Router.Trail.{IsTrail, followed}
use modelcairn.Router.Engine.{Flow, return, next, in_200s}
use modelcairn.Router.StreamData.{
  StreamUpstream, StreamExecutor, StreamEngine, StreamState, StreamOut, stream_attempt, after_relay,
  ended, is_context_error,
}
use modelcairn.Router.Stream.Entry.{run_stream_elim}
use modelcairn.Router.Stream.{
  stream_retry, stream_refused, relay_failed, relay_ended, stream_relayed, stream_opened,
  stream_head, stream_proceed, stream_loop, stream_eligible, run_stream,
}

-- A turn has recorded one attempt on `d`, which was retryable if the loop goes on.
abbrev Adds : ℕ → Destination → List Attempt → StreamState × Flow → Type 0
Adds index d before out =
    (a : Attempt) × (out.0.result.attempts ≡ before ++ a ∷ [])
    × (a.sequence ≡ index + 1)
    × (a.destination_id ≡ d.id)
    × (out.1 ≡ next → (a.retryable ≡ true) × (a.outcome ≡ "error"))

-- The attempt that a failed relay records.
failed_attempt : Round → ℕ → Bool → Error → Attempt → Attempt
failed_attempt round status committed err a =
    if committed
    then (if round.parent_done
        then ended "client_cancelled" "cancelled" a
        else ended "stream_interrupted" "partial" a)
    else if is_context_error err
    then (if round.parent_done
        then ended "client_cancelled" "cancelled" a
        else ended "indeterminate_stream" "indeterminate" a)
    else (classify_attempt round.parent_done round.total_done
        (some (classified "invalid_response" true)) status a).attempt

module _ (limit index : ℕ) (d : Destination) (round : Round) (upstream : StreamUpstream)
    (retry_after : String) (s : StreamState) where
  retry-Adds :
      (err cause : Option Error)
      → Adds index d s.result.attempts (
          stream_retry limit index round err cause upstream.status_code
            (stream_attempt index d upstream retry_after round)
            s)
  unfolding stream_retry classify_attempt
  retry-Adds err cause = (
    (classify_attempt round.parent_done round.total_done err upstream.status_code
        (stream_attempt index d upstream retry_after round)).attempt,
    ground arith,
    ground arith,
    ground arith,
    ground arith,
  )

  failed-Adds :
      (committed : Bool) (err : Error)
      → Adds index d s.result.attempts (
          relay_failed limit index round upstream.status_code committed err
            (stream_attempt index d upstream retry_after round)
            s)
  unfolding relay_failed stream_retry failed_attempt classify_attempt
  failed-Adds committed err = (
    failed_attempt round upstream.status_code committed err
        (stream_attempt index d upstream retry_after round),
    ground arith,
    ground arith,
    ground arith,
    ground arith,
  )

-- The attempts of `s` followed by a trail over `ds`.
abbrev Trails : ℕ → List Destination → List Attempt → Option StreamOut → Type 0
Trails index ds before none = Unit
Trails index ds before (some (s, err)) =
    (added : List Attempt) × (s.result.attempts ≡ before ++ added) × IsTrail index ds added

abbrev AddsTurn : ℕ → Destination → List Attempt → Option (StreamState × Flow) → Type 0
AddsTurn index d before none = Unit
AddsTurn index d before (some out) = Adds index d before out

module _ (engine : StreamEngine) (alias : String) (request : Request) (limit : ℕ) where
  relayed-AddsTurn :
      (index : ℕ) (d : Destination) (upstream : StreamUpstream) (s : StreamState)
      (out : Option (Relay × Option Error))
      → AddsTurn index d s.result.attempts
          (stream_relayed engine alias request limit index d upstream s out)
  unfolding stream_relayed relay_ended after_relay
  relayed-AddsTurn index d upstream s none = tt
  relayed-AddsTurn index d upstream s (some (r, none)) = (
    record (stream_attempt index d upstream "" (engine.rounds index)) { outcome = "success" },
    refl,
    refl,
    refl,
    λ e. cc,
  )
  relayed-AddsTurn index d upstream s (some (r, some err)) =
      failed-Adds limit index d (engine.rounds index) upstream "" (after_relay r s)
        r.result.committed err

  if-AddsTurn :
      (index : ℕ) (d : Destination) (before : List Attempt) (b : Bool)
      (x y : Option (StreamState × Flow))
      → AddsTurn index d before x
      → AddsTurn index d before y
      → AddsTurn index d before (if b then x else y)
  if-AddsTurn index d before true x y h k = h
  if-AddsTurn index d before false x y h k = k

  opened-AddsTurn :
      (index : ℕ) (d : Destination) (upstream : StreamUpstream) (open_err : Option Error)
      (s : StreamState)
      → AddsTurn index d s.result.attempts
          (stream_opened engine alias request limit index d upstream open_err s)
  unfolding stream_opened
  opened-AddsTurn index d upstream open_err s =
      let relayed =
        relay_chat_completions engine.codec alias upstream.finish (engine.ticks index)
          (fragments [] upstream.body) s.client in
      if-AddsTurn index d s.result.attempts (is_some open_err || not (in_200s upstream.status_code))
        (some (stream_refused limit index d (engine.rounds index) upstream open_err s))
        (stream_relayed engine alias request limit index d upstream s relayed)
        (unfold stream_refused in
          retry-Adds limit index d (engine.rounds index) upstream upstream.retry_after s open_err
            open_err)
        (relayed-AddsTurn index d upstream s relayed)

  proceed-Trails :
      (index : ℕ) (d : Destination) (ds : List Destination) (before : List Attempt)
      (turn : Option (StreamState × Flow)) (rest : StreamState → Option StreamOut)
      → AddsTurn index d before turn
      → ((s : StreamState) → Trails (index + 1) ds s.result.attempts (rest s))
      → Trails index (d ∷ ds) before (stream_proceed engine alias request limit turn rest)
  proceed-Trails index d ds before none rest h k = tt
  proceed-Trails index d ds before (some (s, return err)) rest (a, e, q, i, f) k =
      (a ∷ [], e, (q, i, tt, tt))
  proceed-Trails index d ds before (some (s, next)) rest (a, e, q, i, f) k = extend (rest s) (k s)
    where
      extend :
          (out : Option StreamOut)
          → Trails (index + 1) ds s.result.attempts out
          → Trails index (d ∷ ds) before out
      extend none t = tt
      extend (some (s', err)) (added, e', t) = (
        a ∷ added,
        e' ∙ ap (λ l. l ++ added) e ∙ append_assoc before (a ∷ []) added,
        (q, i, followed a added (f refl), t),
      )

  head-Trails :
      (open_stream : StreamExecutor) (index : ℕ) (d : Destination) (ds : List Destination)
      (s : StreamState) (head : Option Error) (rest : StreamState → Option StreamOut)
      → ((s' : StreamState) → Trails (index + 1) ds s'.result.attempts (rest s'))
      → Trails index (d ∷ ds) s.result.attempts (
          stream_proceed engine alias request limit
            (stream_head engine alias request limit open_stream index d s head)
            rest)
  unfolding stream_head
  head-Trails open_stream index d ds s (some err) rest k = ([], sym (append-nil _), tt)
  head-Trails open_stream index d ds s none rest k =
      proceed-Trails index d ds s.result.attempts _ rest
        (opened-AddsTurn index d (open_stream index d request).0 (open_stream index d request).1 s)
        k

  loop-Trails :
      (open_stream : StreamExecutor) (index : ℕ) (ds : List Destination) (s : StreamState)
      → Trails index ds s.result.attempts
          (stream_loop engine alias request limit open_stream index ds s)
  unfolding stream_loop
  loop-Trails open_stream index [] s = ([], sym (append-nil _), tt)
  loop-Trails open_stream index (d ∷ ds) s =
      head-Trails open_stream index d ds s (engine.rounds index).total_head _
        (λ s'. loop-Trails open_stream (index + 1) ds s')

-- A run's attempts are a trail over `ds`.
abbrev TrailOf : List Destination → Option StreamOut → Type 0
TrailOf ds none = Unit
TrailOf ds (some (s, err)) = IsTrail 0 ds s.result.attempts

TrailOf-Trails :
    (ds : List Destination) (out : Option StreamOut) → Trails 0 ds [] out → TrailOf ds out
TrailOf-Trails ds none h = tt
TrailOf-Trails ds (some (s, err)) (added, e, t) = subst (IsTrail 0 ds) (sym e) t

eligible-TrailOf :
    (engine : StreamEngine) (snapshot : Snapshot) (request : Request) (client : Client)
    (open_stream : StreamExecutor) (ds : List Destination)
    → TrailOf
        (take snapshot.max_attempts ds)
        (stream_eligible engine snapshot request client open_stream ds)
unfolding stream_eligible
eligible-TrailOf engine snapshot request client open_stream [] = tt
eligible-TrailOf engine snapshot request client open_stream (d ∷ ds) =
    rw (← take-min snapshot.max_attempts (d ∷ ds))
      (TrailOf-Trails _ _ (loop-Trails engine snapshot.alias request _ open_stream 0 _ _))

-- The attempts of a stream run are numbered from 1 and went to the first `max_attempts` eligible
-- destinations in their order; every attempt but the last was classified retryable and ended in error.
pub run_stream-IsTrail :
    (engine : Option StreamEngine) (snapshot : Snapshot) (request : Request) (client : Client)
    (s : StreamState) (err : Option RunError)
    → run_stream engine snapshot request client ≡ some (s, err)
    → IsTrail 0
        (take snapshot.max_attempts (filter eligible snapshot.destinations))
        s.result.attempts
run_stream-IsTrail engine snapshot request client s err h =
    let tried = take snapshot.max_attempts (filter eligible snapshot.destinations) in
    subst (TrailOf tried) h (
      run_stream_elim (TrailOf tried) engine snapshot request client (λ code. tt)
        (λ e open_stream. eligible-TrailOf e snapshot request client open_stream _))
