-- ===== src/Streaming/Raw.antt =====
-- internal/streaming/relay.go: `RelaySSE`, which copies a stream without looking into it. An error that is
-- wrapped with `%w` stands for itself.
pub mod Safety
pub mod Copy
use modelcairn.Base.{
  ℕ, suc, ◌+◌, Bool, true, false, Option, none, some, List, [], ◌∷◌, ◌++◌, if◌then◌else◌,
}
use modelcairn.Fault.{Error, eof}
use modelcairn.Streaming.{
  Client, commit, write, err_empty_upstream, err_streaming_unsupported, err_no_progress,
}

-- What a call of the upstream's `Read` returns, with `ctx.Err()` before and after it, and once more after
-- a first read that returns no data.
pub record RawRead : Type 0 where
  pub before : Option Error
  pub chunk : List ℕ
  pub err : Option Error
  pub after : Option Error
  pub late : Option Error

-- The result, and the client.
pub record RawRelay : Type 0 where
  pub committed : Bool
  pub bytes : ℕ
  pub client : Client

abbrev pub RawOut : Type 0
RawOut = RawRelay × Option Error

-- `writeAndFlush`
unfoldable pub write_and_flush : List ℕ → RawRelay → Option Error × RawRelay
unfolding write
write_and_flush chunk r =
    let (client, written, err) = write r.client chunk in
    (err, record r { client = client; bytes = r.bytes + written })

-- `if read > 0 { ... }`
unfoldable pub write_some : List ℕ → RawRelay → Option Error × RawRelay
unfolding write_and_flush
write_some [] r = (none, r)
write_some (b ∷ bs) r = write_and_flush (b ∷ bs) r

-- The end of a turn, after the data is written. `next` is what the turns after it return.
unfoldable pub read_ended : List ℕ → Option Error → RawRelay → RawOut → RawOut
read_ended chunk (some eof) r next = (r, none)
read_ended chunk (some e) r next = (r, some e)
read_ended [] none r next = (r, some err_no_progress)
read_ended (b ∷ bs) none r next = next

unfoldable pub written_end :
    List ℕ → Option Error → Option Error × RawRelay → (RawRelay → RawOut) → RawOut
unfolding read_ended
written_end chunk err (some e, r) next = (r, some e)
written_end chunk err (none, r) next = read_ended chunk err r (next r)

-- A turn, by what `ctx.Err()` is before and after the read.
unfoldable pub read_turn :
    RawRead → Option Error → Option Error → RawRelay → (RawRelay → RawOut) → RawOut
unfolding written_end write_some
read_turn read (some e) after r next = (r, some e)
read_turn read none (some e) r next = (r, some e)
read_turn read none none r next = written_end read.chunk read.err (write_some read.chunk r) next

-- The loop over the reads. The upstream is at its end after those of the list.
unfoldable pub raw_loop : List RawRead → RawRelay → RawOut
unfolding read_turn
raw_loop [] r = (r, none)
raw_loop (read ∷ reads) r = read_turn read read.before read.after r (raw_loop reads)

-- The first read, if it returns no data.
unfoldable pub nothing_read : Option Error → Option Error → Error
nothing_read (some late) err = late
nothing_read none none = err_no_progress
nothing_read none (some eof) = err_empty_upstream
nothing_read none (some e) = e

-- After the first data: the status is sent, and the data is written.
unfoldable pub first_written :
    List ℕ → Option Error → Option Error × RawRelay → List RawRead → RawOut
unfolding raw_loop
first_written chunk err (some e, r) reads = (r, some e)
first_written chunk (some eof) (none, r) reads = (r, none)
first_written chunk (some e) (none, r) reads = (r, some e)
first_written chunk none (none, r) reads = raw_loop reads r

unfoldable pub first_read : List ℕ → Option Error → Option Error → Client → List RawRead → RawOut
unfolding commit nothing_read write_and_flush first_written
first_read [] err late client reads =
    (record { committed = false; bytes = 0; client = client }, some (nothing_read late err))
first_read (b ∷ bs) err late client reads =
    first_written (b ∷ bs) err
      (write_and_flush (b ∷ bs) (record { committed = true; bytes = 0; client = commit client }))
      reads

unfoldable pub first_turn : RawRead → Option Error → Option Error → Client → List RawRead → RawOut
unfolding first_read
first_turn read (some e) after client reads =
    (record { committed = false; bytes = 0; client = client }, some e)
first_turn read none (some e) client reads =
    (record { committed = false; bytes = 0; client = client }, some e)
first_turn read none none client reads = first_read read.chunk read.err read.late client reads

unfoldable pub relay_reads : List RawRead → Client → RawOut
unfolding first_turn
relay_reads [] client =
    (record { committed = false; bytes = 0; client = client }, some err_empty_upstream)
relay_reads (read ∷ reads) client = first_turn read read.before read.after client reads

-- `RelaySSE`, on an upstream that makes these reads.
unfoldable pub relay_sse : List RawRead → Client → RawOut
unfolding relay_reads
relay_sse reads client =
    if client.flushes
    then relay_reads reads client
    else (record { committed = false; bytes = 0; client = client }, some err_streaming_unsupported)
