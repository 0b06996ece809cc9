-- ===== src/Streaming/Raw/Copy.antt =====
-- The bytes that a raw relay passes on.
use mathlib.Core.Path.{subst}
use modelcairn.Base.{
  ℕ, ◌+◌, true, false, Option, none, some, List, [], ◌∷◌, ◌++◌, length, length-append, append-nil,
  append_assoc, ◌≡◌, refl, sym, ◌∙◌, arith, if_elim,
}
use modelcairn.Fault.{Error, eof}
use modelcairn.Streaming.{Client, commit, write, err_streaming_unsupported}
use modelcairn.Streaming.Relay.Frames.{IsHonest, take_all}
use modelcairn.Streaming.Raw.{
  RawRead, RawRelay, RawOut, write_and_flush, write_some, read_ended, written_end, read_turn,
  raw_loop, first_written, first_read, first_turn, relay_reads, relay_sse,
}

-- The bytes of the reads, up to the first that reports an error.
abbrev pub copied_after : Option Error → List ℕ → List ℕ
copied_after none rest = rest
copied_after (some e) rest = []

abbrev pub copied : List RawRead → List ℕ
copied [] = []
copied (read ∷ reads) = read.chunk ++ copied_after read.err (copied reads)

-- An answer without an error has added the text to the bytes received and counted.
abbrev IsCopied : List ℕ → ℕ → List ℕ → RawOut → Type 0
IsCopied base n text out =
    (out.1 ≡ none → (out.0.client.received ≡ base ++ text) × (out.0.bytes ≡ n + length text))

abbrev wrote : List ℕ → RawRelay → RawRelay
wrote chunk r = record r {
  client = record (r.client) {
    writes = r.client.writes + 1;
    received = r.client.received ++ chunk;
  };
  bytes = r.bytes + length chunk;
}

write_honest :
    (chunk : List ℕ) (r : RawRelay)
    → IsHonest r.client
    → write_and_flush chunk r ≡ (none, wrote chunk r)
unfolding write_and_flush write
write_honest chunk r h = ground (arith, h r.client.writes chunk, take_all chunk)

ended-IsCopied :
    (b : ℕ) (bs : List ℕ) (err : Option Error) (r : RawRelay) (next : RawOut) (text : List ℕ)
    → IsCopied (r.client.received ++ b ∷ bs) (r.bytes + length (b ∷ bs)) text next
    → IsCopied r.client.received r.bytes
        ((b ∷ bs) ++ copied_after err text)
        (read_ended (b ∷ bs) err (wrote (b ∷ bs) r) next)
unfolding read_ended
ended-IsCopied b bs (some eof) r next text k h = (rw (append-nil bs) refl, rw (append-nil bs) refl)
ended-IsCopied b bs (some _) r next text k h = ground arith
ended-IsCopied b bs none r next text k h =
    let c = k h in
    (c.0 ∙ append_assoc r.client.received (b ∷ bs) text, omega (arith, c.1, length-append bs text))

blank-IsCopied :
    (err : Option Error) (r : RawRelay) (next : RawOut) (text : List ℕ)
    → IsCopied r.client.received r.bytes (copied_after err text) (read_ended [] err r next)
unfolding read_ended
blank-IsCopied (some eof) r next text h = (rw (append-nil r.client.received) refl, omega arith)
blank-IsCopied (some _) r next text h = ground arith
blank-IsCopied none r next text h = ground arith

-- What the turns after this one do, on every client that takes all writes.
Copies : (RawRelay → RawOut) → List ℕ → Type 0
Copies next text =
    (r : RawRelay) → IsHonest r.client → IsCopied r.client.received r.bytes text (next r)

written-IsCopied :
    (chunk : List ℕ) (err : Option Error) (r : RawRelay) (next : RawRelay → RawOut) (text : List ℕ)
    → IsHonest r.client
    → Copies next text
    → IsCopied r.client.received r.bytes
        (chunk ++ copied_after err text)
        (written_end chunk err (write_some chunk r) next)
unfolding written_end write_some Copies
written-IsCopied [] err r next text h k = blank-IsCopied err r (next r) text
written-IsCopied (b ∷ bs) err r next text h k =
    rw (write_honest (b ∷ bs) r h)
      (ended-IsCopied b bs err r (next (wrote (b ∷ bs) r)) text (k (wrote (b ∷ bs) r) h))

turn-IsCopied :
    (read : RawRead) (before after : Option Error) (r : RawRelay) (next : RawRelay → RawOut)
    (text : List ℕ)
    → IsHonest r.client
    → Copies next text
    → IsCopied r.client.received r.bytes
        (read.chunk ++ copied_after read.err text)
        (read_turn read before after r next)
unfolding read_turn
turn-IsCopied read (some e) after r next text h k e' = ground arith
turn-IsCopied read none (some e) r next text h k e' = ground arith
turn-IsCopied read none none r next text h k e' =
    written-IsCopied read.chunk read.err r next text h k e'

loop-Copies : (reads : List RawRead) → Copies (raw_loop reads) (copied reads)
unfolding raw_loop Copies
loop-Copies [] r h e = (rw (append-nil r.client.received) refl, omega arith)
loop-Copies (read ∷ reads) r h e =
    turn-IsCopied read read.before read.after r (raw_loop reads) (copied reads) h
      (loop-Copies reads) e

first_written-IsCopied :
    (b : ℕ) (bs : List ℕ) (err : Option Error) (r : RawRelay) (reads : List RawRead)
    → IsHonest r.client
    → IsCopied r.client.received r.bytes
        ((b ∷ bs) ++ copied_after err (copied reads))
        (first_written (b ∷ bs) err (none, wrote (b ∷ bs) r) reads)
unfolding first_written Copies
first_written-IsCopied b bs (some eof) r reads h e =
    (rw (append-nil bs) refl, rw (append-nil bs) refl)
first_written-IsCopied b bs (some _) r reads h e = ground arith
first_written-IsCopied b bs none r reads h e =
    let c = loop-Copies reads (wrote (b ∷ bs) r) h e in
    (
      c.0 ∙ append_assoc r.client.received (b ∷ bs) (copied reads),
      omega (arith, c.1, length-append bs (copied reads)),
    )

first_read-IsCopied :
    (chunk : List ℕ) (err late : Option Error) (start : Client) (reads : List RawRead)
    → IsHonest start
    → IsCopied start.received 0
        (chunk ++ copied_after err (copied reads))
        (first_read chunk err late start reads)
unfolding first_read commit
first_read-IsCopied [] err late start reads h e = ground arith
first_read-IsCopied (b ∷ bs) err late start reads h e =
    subst
      (λ (w : Option Error × RawRelay).
        IsCopied start.received 0 ((b ∷ bs) ++ copied_after err (copied reads))
          (first_written (b ∷ bs) err w reads))
      (sym
        (write_honest (b ∷ bs) (record { committed = true; bytes = 0; client = commit start }) h))
      (first_written-IsCopied b bs err
        (record { committed = true; bytes = 0; client = commit start }) reads h)
      e

first_turn-IsCopied :
    (read : RawRead) (before after : Option Error) (start : Client) (reads : List RawRead)
    → IsHonest start
    → IsCopied start.received 0 (copied (read ∷ reads)) (first_turn read before after start reads)
unfolding first_turn
first_turn-IsCopied read (some e) after start reads h k = ground arith
first_turn-IsCopied read none (some e) start reads h k = ground arith
first_turn-IsCopied read none none start reads h k =
    first_read-IsCopied read.chunk read.err read.late start reads h k

reads-IsCopied :
    (reads : List RawRead) (start : Client)
    → IsHonest start
    → IsCopied start.received 0 (copied reads) (relay_reads reads start)
unfolding relay_reads
reads-IsCopied [] start h e = ground arith
reads-IsCopied (read ∷ reads) start h e =
    first_turn-IsCopied read read.before read.after start reads h e

sse-IsCopied :
    (reads : List RawRead) (start : Client)
    → IsHonest start
    → IsCopied start.received 0 (copied reads) (relay_sse reads start)
unfolding relay_sse
sse-IsCopied reads start h =
    if_elim (IsCopied start.received 0 (copied reads)) start.flushes {x = relay_reads reads start}
      {y = (
        record { committed = false; bytes = 0; client = start },
        some err_streaming_unsupported,
      )}
      (λ f. reads-IsCopied reads start h) (λ f e. ground arith)

-- A raw relay to a client that takes every write, if it returns no error, has sent the bytes of the reads
-- unchanged and in order, up to the end of the stream, and counted them.
pub relay_sse-copied :
    (reads : List RawRead) (start : Client)
    → IsHonest start
    → (relay_sse reads start).1 ≡ none
    → ((relay_sse reads start).0.client.received ≡ start.received ++ copied reads)
      × ((relay_sse reads start).0.bytes ≡ length (copied reads))
relay_sse-copied reads start h e = let c = sse-IsCopied reads start h e in (c.0, omega (arith, c.1))
