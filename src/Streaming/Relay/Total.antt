-- ===== src/Streaming/Relay/Total.antt =====
-- The relay ends on every upstream: each turn that goes on has read from it.
use modelcairn.Base.{
  ℕ, zero, suc, ◌+◌, ◌<◌, String, Option, none, some, List, ◌≡◌, refl, arith, length, Bool-cases,
  inl, inr,
}
use modelcairn.Fault.{Error, eof}
use modelcairn.Streaming.{zero_chat, Client, write, commit}
use modelcairn.Streaming.Lines.{Fragment}
use modelcairn.Streaming.Sse.{Read, event, failed, read_sse_data}
use modelcairn.Streaming.Sse.Bounds.{read_sse_data-bounds}
use modelcairn.Streaming.Normalize.{Codec}
use modelcairn.Streaming.Relay.{
  Tick, Relay, Step, done, more, relay_event, relay_read, relay_after, relay_before, relay_step,
  relay_loop, follow, relay_chat_completions,
}

module _ (codec : Codec) (alias : String) where
  event-source :
      (now : ℕ) (payload : List ℕ) (r r' : Relay)
      → relay_event codec alias now payload r ≡ more r'
      → r'.source ≡ r.source
  unfolding relay_event write commit
  event-source now payload r r' h = ground arith

  read-source :
      (now : ℕ) (finish : Error) (source : List Fragment) (read : Read) (r r' : Relay)
      → read_sse_data finish source ≡ read
      → relay_read codec alias now read r ≡ more r'
      → length r'.source < length source
  unfolding relay_read
  read-source now finish source (event payload rest) r r' e h = ground (
    arith,
    event-source now payload (record r { source = rest }) r' h,
    read_sse_data-bounds finish source payload rest e,
  )
  read-source now finish source (failed eof) r r' e h = cc
  read-source now finish source (failed _) r r' e h = cc

  after-source :
      (tick : Tick) (finish : Error) (ctx : Option Error) (r r' : Relay)
      → relay_after codec alias tick ctx (read_sse_data finish r.source) r ≡ more r'
      → length r'.source < length r.source
  unfolding relay_after
  after-source tick finish none r r' h = read-source tick.now finish r.source _ r r' refl h
  after-source tick finish (some e) r r' h = cc

  before-source :
      (tick : Tick) (finish : Error) (ctx : Option Error) (r r' : Relay)
      → relay_before codec alias finish tick ctx r ≡ more r'
      → length r'.source < length r.source
  unfolding relay_before
  before-source tick finish none r r' h = after-source tick finish tick.after r r' h
  before-source tick finish (some e) r r' h = cc

  step-source :
      (tick : Tick) (finish : Error) (r r' : Relay)
      → relay_step codec alias finish tick r ≡ more r'
      → length r'.source < length r.source
  unfolding relay_step
  step-source tick finish r r' h = before-source tick finish tick.before r r' h

  follow-total :
      (s : Step) (next : Relay → Option (Relay × Option Error))
      → ((r : Relay) → s ≡ more r → (out : Relay × Option Error) × (next r ≡ some out))
      → (out : Relay × Option Error) × (follow s next ≡ some out)
  follow-total (done err r) next h = ((r, err), refl)
  follow-total (more r) next h = h r refl

  loop-total :
      (finish : Error) (ticks : ℕ → Tick) (fuel turn : ℕ) (r : Relay)
      → length r.source < fuel
      → (out : Relay × Option Error) × (relay_loop codec alias finish ticks fuel turn r ≡ some out)
  unfolding relay_loop
  loop-total finish ticks zero turn r h = absurd (omega arith)
  loop-total finish ticks (suc fuel) turn r h =
      follow-total (relay_step codec alias finish (ticks turn) r) _ (λ r' e.
        loop-total finish ticks fuel (turn + 1) r'
          (omega (arith, step-source (ticks turn) finish r r' e)))

  -- The relay returns on every upstream, whatever its context, its client and the chunks are.
  pub relay-total :
      (finish : Error) (ticks : ℕ → Tick) (source : List Fragment) (client : Client)
      → (out : Relay × Option Error) × (relay_chat_completions codec alias finish ticks source
            client
          ≡ some out)
  relay-total finish ticks source client = elim (Bool-cases client.flushes) [
    | inl e ↦
        unfold relay_chat_completions in
        simp e (
          loop-total finish ticks (length source + 1) 0
            (record { result = zero_chat; client = client; source = source }) (omega arith))
    | inr e ↦ unfold relay_chat_completions in simp e (_, refl)
  ]
