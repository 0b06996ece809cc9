-- ===== src/Streaming/Relay/Safety.antt =====
-- What the client of a relay has received when the relay ends.
use modelcairn.Base.{ℕ, String, true, false, Option, none, some, List, ◌≡◌, arith}
use mathlib.Core.Path.{subst}
use modelcairn.Fault.{Error}
use modelcairn.Streaming.{Client, commit, zero_chat, write}
use modelcairn.Streaming.Lines.{Fragment}
use modelcairn.Streaming.Normalize.{Codec, Normalized}
use modelcairn.Streaming.Relay.{
  Tick, Relay, Step, commit_relay, after_chunk, write_chat_frame, after_done, is_done, frame_of,
  relay_chat_completions,
}
use modelcairn.Streaming.Relay.Rule.{After, Ends, event-After, relay-Ends}

-- Before the commitment the client is as it was at the start and nothing is counted; after it the
-- status has been sent.
pub record IsSafe (start : Client) (r : Relay) : Type 0 where
  pub untouched : r.result.committed ≡ false → r.client ≡ start
  pub uncounted : r.result.committed ≡ false → (r.result.bytes ≡ 0) × (r.result.events ≡ 0)
  pub sent : r.result.committed ≡ true → r.client.status ≡ some 200

-- A relay that ends, with its error, is safe, and it is complete exactly if there is no error.
pub record IsSafeEnd (start : Client) (r : Relay) (err : Option Error) : Type 0 where
  pub safe : IsSafe start r
  pub complete : err ≡ none → (r.result.completed ≡ true) × (r.result.committed ≡ true)
  pub incomplete : (e : Error) → err ≡ some e → r.result.completed ≡ false

-- A relay under way is safe and not complete.
record IsSafeSoFar (start : Client) (r : Relay) : Type 0 where
  safe : IsSafe start r
  incomplete : r.result.completed ≡ false

module _ (start : Client) where
  abbrev Keeps : Step → Type 0
  Keeps s = After (IsSafeSoFar start) (IsSafeEnd start) s

  stop-IsSafe : (r : Relay) (e : Error) → IsSafeSoFar start r → IsSafeEnd start r (some e)
  stop-IsSafe r e h = ground arith

  commit-IsSafe :
      (now : ℕ) (r : Relay)
      → IsSafeSoFar start r
      → IsSafeSoFar start (commit_relay now r) × ((commit_relay now r).result.committed ≡ true)
  unfolding commit_relay commit
  commit-IsSafe now r h = ground arith

  write-IsSafe :
      (frame : List ℕ) (r : Relay)
      → IsSafeSoFar start r
      → r.result.committed ≡ true
      → IsSafeSoFar start (write_chat_frame frame r).1
        × ((write_chat_frame frame r).1.result.committed ≡ true)
  unfolding write_chat_frame write
  write-IsSafe frame r h c = ground arith

  after_done-IsSafe :
      (err : Option Error) (r : Relay)
      → IsSafeSoFar start r
      → r.result.committed ≡ true
      → Keeps (after_done (err, r))
  unfolding after_done
  after_done-IsSafe none r h c = ground arith
  after_done-IsSafe (some e) r h c = stop-IsSafe r e h

  after_chunk-IsSafe :
      (n : Normalized) (err : Option Error) (r : Relay)
      → IsSafeSoFar start r
      → r.result.committed ≡ true
      → Keeps (after_chunk n (err, r))
  unfolding after_chunk
  after_chunk-IsSafe n none r h c = ground arith
  after_chunk-IsSafe n (some e) r h c = stop-IsSafe r e h

  source-IsSafe :
      (rest : List Fragment) (r : Relay)
      → IsSafeSoFar start r
      → IsSafeSoFar start (record r { source = rest })
  source-IsSafe rest r h = ground arith

  start-IsSafe :
      (source : List Fragment)
      → IsSafeSoFar start (record { result = zero_chat; client = start; source = source })
  start-IsSafe source = ground arith

  done-IsSafe :
      (payload : List ℕ) (r : Relay)
      → is_done payload ≡ true
      → r.result.committed ≡ true
      → IsSafeSoFar start r
      → Keeps (after_done (write_chat_frame (frame_of payload) r))
  done-IsSafe payload r d c h =
      let (h', c') = write-IsSafe (frame_of payload) r h c in after_done-IsSafe _ _ h' c'

  chunk-IsSafe :
      (now : ℕ) (n : Normalized) (r : Relay)
      → IsSafeSoFar start r
      → Keeps (after_chunk n (write_chat_frame (frame_of n.payload) (commit_relay now r)))
  chunk-IsSafe now n r h =
      let (h', c') = commit-IsSafe now r h in
      let (h'', c'') = write-IsSafe (frame_of n.payload) _ h' c' in after_chunk-IsSafe n _ _ h'' c''

module _ (codec : Codec) (alias : String) (start : Client) (finish : Error) where
  -- However the upstream, the context and the writer behave: a relay that ends before the commitment has
  -- sent the client nothing, one that ends after it has sent the status, and it reports completion exactly
  -- if it returns no error.
  pub relay-IsSafe :
      (ticks : ℕ → Tick) (source : List Fragment) (r : Relay) (err : Option Error)
      → relay_chat_completions codec alias finish ticks source start ≡ some (r, err)
      → IsSafeEnd start r err
  relay-IsSafe ticks source r err h = subst (Ends (IsSafeSoFar start) (IsSafeEnd start)) h (
      relay-Ends (IsSafeSoFar start) (IsSafeEnd start) codec alias finish (stop-IsSafe start)
        (source-IsSafe start)
        (event-After (IsSafeSoFar start) (IsSafeEnd start) codec alias (stop-IsSafe start)
          (done-IsSafe start) (λ now payload n r e h'. chunk-IsSafe start now n r h'))
        ticks source start (start-IsSafe start source))
