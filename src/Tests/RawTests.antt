-- ===== src/Tests/RawTests.antt =====
-- A raw relay of two reads.
use modelcairn.Base.{none, some, List, [], ◌∷◌, ◌++◌, length, ◌≡◌, refl}
use modelcairn.Fault.{eof}
use modelcairn.Streaming.{commit, write}
use modelcairn.Streaming.Raw.{
  RawRead, write_and_flush, write_some, read_ended, written_end, read_turn, raw_loop, nothing_read,
  first_written, first_read, first_turn, relay_reads, relay_sse,
}
use modelcairn.Streaming.Raw.Safety.{IsRawSafe, relay_sse-IsRawSafe}
use modelcairn.Streaming.Raw.Copy.{copied, relay_sse-copied}
use modelcairn.Tests.StreamTests.{client}

abbrev reads : List RawRead
reads =
    record { before = none; chunk = 100 ∷ 97 ∷ []; err = none; after = none; late = none }
    ∷ record { before = none; chunk = 10 ∷ []; err = some eof; after = none; late = none }
    ∷ []

raw_ends : (relay_sse reads client).1 ≡ none
unfolding commit write write_and_flush write_some read_ended written_end read_turn raw_loop
    nothing_read first_written first_read first_turn relay_reads relay_sse
raw_ends = refl

relay_sse-IsRawSafe_example : IsRawSafe client (relay_sse reads client)
relay_sse-IsRawSafe_example = relay_sse-IsRawSafe reads client

relay_sse-copied_example :
    ((relay_sse reads client).0.client.received ≡ client.received ++ copied reads)
    × ((relay_sse reads client).0.bytes ≡ length (copied reads))
relay_sse-copied_example = relay_sse-copied reads client (λ n frame. refl) raw_ends
