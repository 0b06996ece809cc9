-- ===== src/Router/Stream/Entry.antt =====
-- The early returns of a stream run.
use modelcairn.Base.{String, Option, none, some, [], ◌≡◌, ◌⊎◌, inl, inr, arith, filter}
use modelcairn.Chat.{Request}
use modelcairn.Streaming.{Client}
use modelcairn.Router.{eligible, Snapshot}
use modelcairn.Router.Engine.{run_error}
use modelcairn.Router.StreamData.{StreamExecutor, StreamEngine, StreamOut, zero_stream}
use modelcairn.Router.Stream.{early, stream_eligible, stream_executor, run_stream}

module _ (engine : StreamEngine) (snapshot : Snapshot) (request : Request) (client : Client) where
  executor-cases :
      (open_stream : StreamExecutor)
      → ((stream_executor engine snapshot request client (some open_stream)
            ≡ early engine snapshot request client "streaming_not_supported")
          ⊎ (stream_executor engine snapshot request client (some open_stream)
              ≡ early engine snapshot request client "streaming_required"))
        ⊎ (stream_executor engine snapshot request client (some open_stream)
            ≡ stream_eligible engine snapshot request client open_stream
                (filter eligible snapshot.destinations))
  unfolding stream_executor
  executor-cases open_stream = ground arith

-- A property of what a run returns holds if it holds of every early return and of the loop.
pub run_stream_elim :
    (P : Option StreamOut → Type 0) (engine : Option StreamEngine) (snapshot : Snapshot)
    (request : Request) (client : Client)
    → ((code : String)
        → P (
            some (record { result = zero_stream; client = client }, some (run_error code [] none))))
    → ((e : StreamEngine) (open_stream : StreamExecutor)
        → P (
            stream_eligible e snapshot request client open_stream
              (filter eligible snapshot.destinations)))
    → P (run_stream engine snapshot request client)
run_stream_elim P none snapshot request client h k =
    unfold run_stream in h "streaming_not_supported"
run_stream_elim P (some e) snapshot request client h k = unfold run_stream in go e.executor
  where
    go : (executor : Option StreamExecutor) → P (stream_executor e snapshot request client executor)
    go none = unfold stream_executor in h "streaming_not_supported"
    go (some open_stream) = elim (executor-cases e snapshot request client open_stream) [
      | inl (inl q) ↦ rw q (h "streaming_not_supported")
      | inl (inr q) ↦ rw q (h "streaming_required")
      | inr q ↦ rw q (k e open_stream)
    ]
