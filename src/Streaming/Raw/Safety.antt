-- ===== src/Streaming/Raw/Safety.antt =====
-- What the client of a raw relay has received when it ends.
use modelcairn.Base.{
  ℕ, true, false, Option, none, some, List, [], ◌∷◌, ◌≡◌, ◌≢◌, refl, arith, if_elim,
}
use modelcairn.Fault.{Error, eof}
use modelcairn.Streaming.{Client, commit, write, err_empty_upstream, err_streaming_unsupported}
use modelcairn.Streaming.Raw.{
  RawRead, RawRelay, RawOut, write_and_flush, write_some, read_ended, written_end, read_turn,
  raw_loop, nothing_read, first_written, first_read, first_turn, relay_reads, relay_sse,
}

-- An answer under whose commitment the status 200 was sent, and before it nothing.
pub record IsRawSafe (start : Client) (out : RawOut) : Type 0 where
  pub untouched :
      out.0.committed ≡ false → (out.0.client ≡ start) × (out.0.bytes ≡ 0) × (out.1 ≢ none)
  pub sent : out.0.committed ≡ true → out.0.client.status ≡ some 200

abbrev IsOpen : RawRelay → Type 0
IsOpen r = (r.committed ≡ true) × (r.client.status ≡ some 200)

write-IsOpen : (chunk : List ℕ) (r : RawRelay) → IsOpen r → IsOpen ((write_and_flush chunk r).1)
unfolding write_and_flush write
write-IsOpen chunk r h = h

some-IsOpen : (chunk : List ℕ) (r : RawRelay) → IsOpen r → IsOpen ((write_some chunk r).1)
unfolding write_some
some-IsOpen [] r h = h
some-IsOpen (b ∷ bs) r h = write-IsOpen (b ∷ bs) r h

ended-IsOpen :
    (chunk : List ℕ) (err : Option Error) (r : RawRelay) (next : RawOut)
    → IsOpen r
    → IsOpen next.0
    → IsOpen ((read_ended chunk err r next).0)
unfolding read_ended
ended-IsOpen chunk (some eof) r next h k = h
ended-IsOpen chunk (some _) r next h k = h
ended-IsOpen [] none r next h k = h
ended-IsOpen (b ∷ bs) none r next h k = k

written-IsOpen :
    (chunk : List ℕ) (err : Option Error) (w : Option Error × RawRelay) (next : RawRelay → RawOut)
    → IsOpen w.1
    → ((r : RawRelay) → IsOpen r → IsOpen (next r).0)
    → IsOpen ((written_end chunk err w next).0)
unfolding written_end
written-IsOpen chunk err (some e, r) next h k = h
written-IsOpen chunk err (none, r) next h k = ended-IsOpen chunk err r (next r) h (k r h)

turn-IsOpen :
    (read : RawRead) (before after : Option Error) (r : RawRelay) (next : RawRelay → RawOut)
    → IsOpen r
    → ((r : RawRelay) → IsOpen r → IsOpen (next r).0)
    → IsOpen ((read_turn read before after r next).0)
unfolding read_turn
turn-IsOpen read (some e) after r next h k = h
turn-IsOpen read none (some e) r next h k = h
turn-IsOpen read none none r next h k =
    written-IsOpen read.chunk read.err (write_some read.chunk r) next (some-IsOpen read.chunk r h) k

loop-IsOpen : (reads : List RawRead) (r : RawRelay) → IsOpen r → IsOpen ((raw_loop reads r).0)
unfolding raw_loop
loop-IsOpen [] r h = h
loop-IsOpen (read ∷ reads) r h =
    turn-IsOpen read read.before read.after r (raw_loop reads) h (loop-IsOpen reads)

open-IsRawSafe : (start : Client) (out : RawOut) → IsOpen out.0 → IsRawSafe start out
open-IsRawSafe start out h = record { untouched = λ e. ground arith; sent = λ e. h.1 }

first_written-IsOpen :
    (chunk : List ℕ) (err : Option Error) (w : Option Error × RawRelay) (reads : List RawRead)
    → IsOpen w.1
    → IsOpen ((first_written chunk err w reads).0)
unfolding first_written
first_written-IsOpen chunk err (some e, r) reads h = h
first_written-IsOpen chunk (some eof) (none, r) reads h = h
first_written-IsOpen chunk (some _) (none, r) reads h = h
first_written-IsOpen chunk none (none, r) reads h = loop-IsOpen reads r h

some≢none : (e : Error) → some e ≢ none
some≢none e h = ground arith

closed-IsRawSafe :
    (start : Client) (e : Error)
    → IsRawSafe start (record { committed = false; bytes = 0; client = start }, some e)
closed-IsRawSafe start e = record {
  untouched = λ h. (refl, refl, some≢none e);
  sent = λ h. ground arith;
}

read-IsRawSafe :
    (start : Client) (chunk : List ℕ) (err late : Option Error) (reads : List RawRead)
    → IsRawSafe start (first_read chunk err late start reads)
unfolding first_read commit
read-IsRawSafe start [] err late reads = closed-IsRawSafe start (nothing_read late err)
read-IsRawSafe start (b ∷ bs) err late reads = open-IsRawSafe start _ (
    first_written-IsOpen (b ∷ bs) err
      (write_and_flush (b ∷ bs) (record { committed = true; bytes = 0; client = commit start }))
      reads
      (write-IsOpen (b ∷ bs) (record { committed = true; bytes = 0; client = commit start })
        (refl, committed start)))
  where
    committed : (c : Client) → (commit c).status ≡ some 200
    committed c = refl

turn-IsRawSafe :
    (start : Client) (read : RawRead) (before after : Option Error) (reads : List RawRead)
    → IsRawSafe start (first_turn read before after start reads)
unfolding first_turn
turn-IsRawSafe start read (some e) after reads = closed-IsRawSafe start e
turn-IsRawSafe start read none (some e) reads = closed-IsRawSafe start e
turn-IsRawSafe start read none none reads = read-IsRawSafe start read.chunk read.err read.late reads

reads-IsRawSafe :
    (start : Client) (reads : List RawRead) → IsRawSafe start (relay_reads reads start)
unfolding relay_reads
reads-IsRawSafe start [] = closed-IsRawSafe start err_empty_upstream
reads-IsRawSafe start (read ∷ reads) = turn-IsRawSafe start read read.before read.after reads

-- However the upstream, the context and the writer behave: a raw relay that ends before the commitment returns an
-- error and has sent the client nothing, and one that ends after it has sent the status 200.
pub relay_sse-IsRawSafe :
    (reads : List RawRead) (start : Client) → IsRawSafe start (relay_sse reads start)
unfolding relay_sse
relay_sse-IsRawSafe reads start =
    if_elim (IsRawSafe start) start.flushes {x = relay_reads reads start}
      {y = (
        record { committed = false; bytes = 0; client = start },
        some err_streaming_unsupported,
      )}
      (λ h. reads-IsRawSafe start reads) (λ h. closed-IsRawSafe start err_streaming_unsupported)
