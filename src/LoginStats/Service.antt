-- ===== src/LoginStats/Service.antt =====
-- The service: its critical sections, and the batches that are on their way to the table between them.
use mathlib.Core.Option
use modelcairn.Base.{
  ℕ, zero, suc, ◌-◌, ◌%◌, String, Bool, true, false, Option, none, some, List, [], ◌∷◌, ◌++◌, ◌&&◌,
  ltb, ◌==◌, if◌then◌else◌,
}
use modelcairn.LoginStats.Counts.{Counts, valid_login_reason, bump, requeue}
use modelcairn.LoginStats.Table.{Row, flush}

-- The fields under `s.mu`, and `closed`.
pub record Service : Type 0 where
  pub retention_seconds : ℕ
  pub minute : ℕ
  pub counts : Counts
  pub closed : Bool

-- A call of `s.persist` that has been made and not yet returned. `requeues` tells whether the caller
-- puts the counts back if the call fails.
pub record Batch : Type 0 where
  pub minute : ℕ
  pub counts : Counts
  pub now : ℕ
  pub requeues : Bool

pub record World : Type 0 where
  pub service : Service
  pub flight : List Batch
  pub rows : List Row

abbrev pub no_counts : Counts → Bool
no_counts [] = true
no_counts (c ∷ rest) = false

abbrev pub batch_of : ℕ → Counts → ℕ → List Batch
batch_of minute [] now = []
batch_of minute (c ∷ rest) now =
    record { minute = minute; counts = c ∷ rest; now = now; requeues = true } ∷ []

-- The new minute starts with the reason alone, and hands over what there was.
unfoldable pub hand_over : Bool → ℕ → ℕ → String → Service → Service × List Batch
hand_over true first minute reason s =
    (record s { minute = minute; counts = bump reason [] }, batch_of first s.counts minute)
hand_over false first minute reason s =
    (record s { minute = first; counts = bump reason s.counts }, [])

-- The section under `s.mu` of `record`, at the minute `minute`.
unfoldable pub count_reason : String → ℕ → Service → Service × List Batch
unfolding hand_over
count_reason reason minute s =
    let first = if s.minute == 0 then minute else s.minute in
    let minute' = if ltb minute first then first else minute in
    hand_over (ltb first minute') first minute' reason s

-- `record` of a valid reason up to its call of `s.persist`. After `closeAndFlush` the single count is
-- persisted on its own.
unfoldable pub record_valid : Bool → String → ℕ → World → World
unfolding count_reason
record_valid true reason minute w = record w {
  flight =
      w.flight
      ++ record { minute = minute; counts = (reason, 1) ∷ []; now = minute; requeues = false } ∷ [];
}
record_valid false reason minute w =
    let (s, batch) = count_reason reason minute w.service in
    record w { service = s; flight = w.flight ++ batch }

-- `now` is the wall clock in seconds.
unfoldable pub record_reason : String → ℕ → World → World
unfolding record_valid
record_reason reason now w =
    if valid_login_reason reason then record_valid w.service.closed reason (now - now % 60) w else w

-- The counts that a flush takes, on their way to the table.
abbrev pub taken : Service → ℕ → Bool → List Batch
taken s now requeues =
    record { minute = s.minute; counts = s.counts; now = now; requeues = requeues } ∷ []

-- `flushCurrent` up to its call of `s.persist`, which is not made for nothing.
unfoldable pub flush_taken : Bool → ℕ → World → World
flush_taken true now w = record w { service = record (w.service) { counts = [] } }
flush_taken false now w = record w {
  service = record (w.service) { counts = [] };
  flight = w.flight ++ taken w.service now true;
}

unfoldable pub flush_current : ℕ → World → World
unfolding flush_taken
flush_current now w =
    flush_taken (no_counts w.service.counts && w.service.retention_seconds == 0) now w

-- The last part of `closeAndFlush`, up to its call of `s.persist`, whose error is dropped.
unfoldable pub close_taken : Bool → ℕ → World → World
close_taken true now w = record w { service = record (w.service) { counts = []; closed = true } }
close_taken false now w = record w {
  service = record (w.service) { counts = []; closed = true };
  flight = w.flight ++ taken w.service now false;
}

unfoldable pub close_last : ℕ → World → World
unfolding close_taken
close_last now w = close_taken (no_counts w.service.counts) now w

-- `s.lifecycleMu` section of `closeAndFlush`
unfoldable pub close : World → World
close w = record w { service = record (w.service) { closed = true } }

-- The call at `index`, and the others; calls may return in any order.
unfoldable pub pick : ℕ → List Batch → Option (Batch × List Batch)
pick index [] = none
pick zero (b ∷ bs) = some (b, bs)
pick (suc index) (b ∷ bs) = Option.map (λ (p : Batch × List Batch). (p.0, b ∷ p.1)) (pick index bs)

-- A call of `s.persist` returns nil: its transaction has committed.
unfoldable pub commit_batch : Option (Batch × List Batch) → World → World
commit_batch none w = w
commit_batch (some (b, rest)) w = record w {
  flight = rest;
  rows = flush w.service.retention_seconds b.minute b.counts b.now w.rows;
}

-- It returns an error: nothing was written, and the counts go back or are dropped.
unfoldable pub return_batch : Option (Batch × List Batch) → World → World
return_batch none w = w
return_batch (some (b, rest)) w =
    let s = w.service in
    record w {
      flight = rest;
      service = if b.requeues then record s { counts = requeue b.counts s.counts } else s;
    }

-- What can happen next: a login fails, the ticker fires, the service closes, a transaction ends.
pub data Event : Type 0 where
  failed_login : String → ℕ → Event
  tick : ℕ → Event
  closing : Event
  closed_flush : ℕ → Event
  commit : ℕ → Event
  rollback : ℕ → Event

unfoldable pub step : Event → World → World
unfolding record_reason flush_current close_last close commit_batch return_batch
step (failed_login reason now) w = record_reason reason now w
step (tick now) w = flush_current now w
step closing w = close w
step (closed_flush now) w = close_last now w
step (commit index) w = commit_batch (pick index w.flight) w
step (rollback index) w = return_batch (pick index w.flight) w

unfoldable pub run : List Event → World → World
run [] w = w
run (e ∷ es) w = run es (step e w)
