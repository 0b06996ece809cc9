-- ===== src/Streaming/Relay/Rule.antt =====
-- The rule of the relay's loop: an invariant, and what a step that ends the loop establishes.
use modelcairn.Base.{
  ℕ, zero, suc, ◌+◌, String, Bool, true, false, Option, none, some, List, ◌≡◌, refl, if◌then◌else◌,
}
use modelcairn.Fault.{Error, eof}
use modelcairn.Streaming.{Client, zero_chat, err_invalid_sse}
use modelcairn.Streaming.Lines.{Fragment}
use modelcairn.Streaming.Sse.{Read, event, failed}
use modelcairn.Streaming.Normalize.{Codec, Normalized, normalize_chunk}
use modelcairn.Streaming.Relay.{
  Tick, Relay, Step, done, more, follow, is_done, frame_of, write_chat_frame, after_done,
  after_chunk, commit_relay, relay_chunk, relay_event, relay_read, relay_after, relay_before,
  relay_step, relay_loop, relay_chat_completions,
}

module _ (P : Relay → Type 0) (Q : Relay → Option Error → Type 0) where
  -- `P` if the loop goes on, `Q` if it ends.
  abbrev pub After : Step → Type 0
  After (done err r) = Q r err
  After (more r) = P r

  abbrev pub Ends : Option (Relay × Option Error) → Type 0
  Ends none = Unit
  Ends (some (r, err)) = Q r err

  Ends-follow :
      (s : Step) (next : Relay → Option (Relay × Option Error))
      → After s
      → ((r : Relay) → P r → Ends (next r))
      → Ends (follow s next)
  Ends-follow (done err r) next h k = h
  Ends-follow (more r) next h k = k r h

  -- An invariant that survives every stop, every event and the reading of the source holds at the end.
  module _ (codec : Codec) (alias : String) (finish : Error)
      (stop : (r : Relay) (e : Error) → P r → Q r (some e))
      (reads : (rest : List Fragment) (r : Relay) → P r → P (record r { source = rest }))
      (events : (now : ℕ) (payload : List ℕ) (r : Relay)
        → P r
        → After (relay_event codec alias now payload r)) where
    read-After :
        (now : ℕ) (read : Read) (r : Relay) → P r → After (relay_read codec alias now read r)
    unfolding relay_read
    read-After now (event payload rest) r h = events now payload _ (reads rest r h)
    read-After now (failed eof) r h = stop r _ h
    read-After now (failed _) r h = stop r _ h

    relay_after-After :
        (tick : Tick) (ctx : Option Error) (read : Read) (r : Relay)
        → P r
        → After (relay_after codec alias tick ctx read r)
    unfolding relay_after
    relay_after-After tick none read r h = read-After tick.now read r h
    relay_after-After tick (some e) read r h = stop r e h

    before-After :
        (tick : Tick) (ctx : Option Error) (r : Relay)
        → P r
        → After (relay_before codec alias finish tick ctx r)
    unfolding relay_before
    before-After tick none r h = relay_after-After tick tick.after _ r h
    before-After tick (some e) r h = stop r e h

    step-After : (tick : Tick) (r : Relay) → P r → After (relay_step codec alias finish tick r)
    unfolding relay_step
    step-After tick r h = before-After tick tick.before r h

    relay_loop-Ends :
        (ticks : ℕ → Tick) (fuel turn : ℕ) (r : Relay)
        → P r
        → Ends (relay_loop codec alias finish ticks fuel turn r)
    unfolding relay_loop
    relay_loop-Ends ticks zero turn r h = tt
    relay_loop-Ends ticks (suc fuel) turn r h =
        Ends-follow (relay_step codec alias finish (ticks turn) r) _ (step-After (ticks turn) r h)
          (λ r' h'. relay_loop-Ends ticks fuel (turn + 1) r' h')

    pub relay-Ends :
        (ticks : ℕ → Tick) (source : List Fragment) (client : Client)
        → P (record { result = zero_chat; client = client; source = source })
        → Ends (relay_chat_completions codec alias finish ticks source client)
    relay-Ends ticks source client h = go client.flushes refl
      where
        go :
            (b : Bool)
            → client.flushes ≡ b
            → Ends (relay_chat_completions codec alias finish ticks source client)
        go true e = unfold relay_chat_completions in simp e (relay_loop-Ends ticks _ 0 _ h)
        go false e = unfold relay_chat_completions in simp e (stop _ _ h)

-- An event's step, by what it is: the end of the stream, committed or not, or a chunk.
module _ (P : Relay → Type 0) (Q : Relay → Option Error → Type 0) (codec : Codec) (alias : String)
    (stop : (r : Relay) (e : Error) → P r → Q r (some e))
    (ends : (payload : List ℕ) (r : Relay)
      → is_done payload ≡ true
      → r.result.committed ≡ true
      → P r
      → After P Q (after_done (write_chat_frame (frame_of payload) r)))
    (chunks : (now : ℕ) (payload : List ℕ) (n : Normalized) (r : Relay)
      → normalize_chunk codec payload alias ≡ some n
      → P r
      → After P Q
          (after_chunk n (write_chat_frame (frame_of n.payload) (commit_relay now r)))) where
  chunk-After :
      (now : ℕ) (payload : List ℕ) (o : Option Normalized) (r : Relay)
      → normalize_chunk codec payload alias ≡ o
      → P r
      → After P Q (relay_chunk codec alias now o r)
  unfolding relay_chunk
  chunk-After now payload none r e h = stop r _ h
  chunk-After now payload (some n) r e h = chunks now payload n r e h

  end-After :
      (payload : List ℕ) (r : Relay) (committed : Bool)
      → is_done payload ≡ true
      → r.result.committed ≡ committed
      → P r
      → After P Q (
          if committed
          then after_done (write_chat_frame (frame_of payload) r)
          else done (some err_invalid_sse) r)
  end-After payload r true d c h = ends payload r d c h
  end-After payload r false d c h = stop r _ h

  pub event-After :
      (now : ℕ) (payload : List ℕ) (r : Relay)
      → P r
      → After P Q (relay_event codec alias now payload r)
  event-After now payload r h = go (is_done payload) refl
    where
      go : (b : Bool) → is_done payload ≡ b → After P Q (relay_event codec alias now payload r)
      go true e = unfold relay_event in rw e (end-After payload r r.result.committed e refl h)
      go false e =
          unfold relay_event in
          rw e (chunk-After now payload (normalize_chunk codec payload alias) r refl h)
