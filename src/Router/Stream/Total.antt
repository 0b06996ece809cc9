-- ===== src/Router/Stream/Total.antt =====
-- A stream run returns.
use modelcairn.Base.{
  ℕ, ◌+◌, String, Bool, true, false, Option, none, some, List, [], ◌∷◌, ◌≡◌, refl, sym, is_some,
  ◌||◌, not, if◌then◌else◌,
}
use mathlib.Core.Path.{subst}
use modelcairn.Fault.{Error}
use modelcairn.Chat.{Request}
use modelcairn.Streaming.{Client}
use modelcairn.Streaming.Lines.{fragments}
use modelcairn.Streaming.Relay.{Relay, relay_chat_completions}
use modelcairn.Streaming.Relay.Total.{relay-total}
use modelcairn.Router.{Destination, Snapshot}
use modelcairn.Router.Engine.{Flow, return, next, in_200s}
use modelcairn.Router.StreamData.{
  StreamUpstream, StreamExecutor, StreamEngine, StreamState, StreamOut,
}
use modelcairn.Router.Stream.{
  stream_refused, stream_relayed, stream_opened, stream_head, stream_proceed, stream_loop,
  stream_eligible, run_stream,
}
use modelcairn.Router.Stream.Entry.{run_stream_elim}

abbrev Returns : {A : Type 0} → Option A → Type 0
Returns none = ⊥
Returns (some a) = Unit

returned : {A : Type 0} (o : Option A) → Returns o → (a : A) × (o ≡ some a)
returned none h = absurd h
returned (some a) h = (a, refl)

if-Returns :
    {A : Type 0} (b : Bool) (x y : Option A) → Returns x → Returns y → Returns (if b then x else y)
if-Returns true x y h k = h
if-Returns false x y h k = k

module _ (engine : StreamEngine) (alias : String) (request : Request) (limit : ℕ) where
  relayed-Returns :
      (index : ℕ) (d : Destination) (upstream : StreamUpstream) (s : StreamState)
      (out : Option (Relay × Option Error))
      → Returns out
      → Returns (stream_relayed engine alias request limit index d upstream s out)
  unfolding stream_relayed
  relayed-Returns index d upstream s none h = h
  relayed-Returns index d upstream s (some (r, err)) h = tt

  opened-Returns :
      (index : ℕ) (d : Destination) (upstream : StreamUpstream) (open_err : Option Error)
      (s : StreamState)
      → Returns (stream_opened engine alias request limit index d upstream open_err s)
  unfolding stream_opened
  opened-Returns index d upstream open_err s =
      let relayed =
        relay_chat_completions engine.codec alias upstream.finish (engine.ticks index)
          (fragments [] upstream.body) s.client in
      if-Returns (is_some open_err || not (in_200s upstream.status_code))
        (some (stream_refused limit index d (engine.rounds index) upstream open_err s))
        (stream_relayed engine alias request limit index d upstream s relayed) tt
        (relayed-Returns index d upstream s relayed (
          subst Returns
            (sym (relay-total engine.codec alias upstream.finish (engine.ticks index) _ s.client).1)
            tt))

  proceed-Returns :
      (turn : Option (StreamState × Flow)) (rest : StreamState → Option StreamOut)
      → Returns turn
      → ((s : StreamState) → Returns (rest s))
      → Returns (stream_proceed engine alias request limit turn rest)
  proceed-Returns none rest h k = h
  proceed-Returns (some (s, return err)) rest h k = tt
  proceed-Returns (some (s, next)) rest h k = k s

  head-Returns :
      (open_stream : StreamExecutor) (index : ℕ) (d : Destination) (s : StreamState)
      (head : Option Error)
      → Returns (stream_head engine alias request limit open_stream index d s head)
  unfolding stream_head
  head-Returns open_stream index d s (some err) = tt
  head-Returns open_stream index d s none =
      opened-Returns index d (open_stream index d request).0 (open_stream index d request).1 s

  loop-Returns :
      (open_stream : StreamExecutor) (index : ℕ) (ds : List Destination) (s : StreamState)
      → Returns (stream_loop engine alias request limit open_stream index ds s)
  unfolding stream_loop
  loop-Returns open_stream index [] s = tt
  loop-Returns open_stream index (d ∷ ds) s =
      proceed-Returns
        (stream_head engine alias request limit open_stream index d s
          (engine.rounds index).total_head)
        _ (head-Returns open_stream index d s (engine.rounds index).total_head)
        (λ s'. loop-Returns open_stream (index + 1) ds s')

eligible-Returns :
    (engine : StreamEngine) (snapshot : Snapshot) (request : Request) (client : Client)
    (open_stream : StreamExecutor) (ds : List Destination)
    → Returns (stream_eligible engine snapshot request client open_stream ds)
unfolding stream_eligible
eligible-Returns engine snapshot request client open_stream [] = tt
eligible-Returns engine snapshot request client open_stream (d ∷ ds) =
    loop-Returns engine snapshot.alias request _ open_stream 0 _ _

-- A stream run returns, whatever its destinations stream.
pub run_stream-total :
    (engine : Option StreamEngine) (snapshot : Snapshot) (request : Request) (client : Client)
    → (out : StreamOut) × (run_stream engine snapshot request client ≡ some out)
run_stream-total engine snapshot request client = returned _ (
    run_stream_elim Returns engine snapshot request client (λ code. tt)
      (λ e open_stream. eligible-Returns e snapshot request client open_stream _))
