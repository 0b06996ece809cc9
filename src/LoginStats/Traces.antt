-- ===== src/LoginStats/Traces.antt =====
-- The failed logins that are held after any sequence of events.
use modelcairn.Base.{
  ℕ, ◌+◌, ◌≤◌, String, Bool, true, false, Option, none, some, List, [], ◌∷◌, ◌++◌, ◌≡◌, refl, ap,
  arith, if◌then◌else◌, All, Bool-cases, inl, inr, ◌&&◌,
}
use modelcairn.LoginStats.Counts.{Counts, max_int64, valid_login_reason, total, AllValid}
use modelcairn.LoginStats.Table.{Row, insert_all, flush, total_rows}
use modelcairn.LoginStats.Service.{
  Service, Batch, World, no_counts, batch_of, taken, hand_over, count_reason, record_valid,
  record_reason, flush_taken, close_taken, flush_current, close_last, close, commit_batch,
  return_batch, Event, failed_login, tick, closing, closed_flush, commit, rollback, step, run,
}
use modelcairn.LoginStats.Conservation.{
  total-bump, total-requeue, total-insert_all, expire_zero, total_flight, grand_total, BatchValid,
  IsValid, AllValid-bump, AllValid-requeue,
}
use modelcairn.LoginStats.Picked.{
  recorded, dropped_batch, dropped, total_flight-append, All-append, IsPickedFrom, pick-IsPicked,
  Conserves,
}

module _ (w : World) (v : IsValid w) where
  -- The counts move from the service to the flight.
  moved :
      (s : Service) (bs : List Batch) (more : ℕ)
      → s.retention_seconds ≡ w.service.retention_seconds
      → AllValid s.counts
      → All BatchValid bs
      → total s.counts + total_flight bs ≡ total w.service.counts + more
      → Conserves w (record w { service = s; flight = w.flight ++ bs }) 0 more
  moved s bs more r c b e = record {
    valid = record {
      counts = c;
      flight = All-append w.flight bs v.flight b;
      no_retention = omega (arith, r, v.no_retention);
    };
    balance = omega (arith, e, total_flight-append w.flight bs);
  }

  batch_of-valid :
      (first minute : ℕ) (c : Counts)
      → AllValid c
      → All BatchValid (batch_of first c minute)
        × (total_flight (batch_of first c minute) ≡ total c)
  batch_of-valid first minute [] h = (tt, refl)
  batch_of-valid first minute (x ∷ c) h = ((h, tt), omega arith)

  hand_over-Conserves :
      (late : Bool) (first minute : ℕ) (reason : String)
      → valid_login_reason reason ≡ true
      → total w.service.counts + 1 ≤ max_int64
      → let (s, bs) = hand_over late first minute reason w.service in
        Conserves w (record w { service = s; flight = w.flight ++ bs }) 0 1
  unfolding hand_over
  hand_over-Conserves true first minute reason e h =
      let (valid, same) = batch_of-valid first minute w.service.counts v.counts in
      moved _ _ 1 refl (AllValid-bump reason [] e tt) valid
        (omega (arith, same, total-bump reason [] (omega arith)))
  hand_over-Conserves false first minute reason e h =
      moved _ [] 1 refl (AllValid-bump reason w.service.counts e v.counts) tt
        (omega (arith, total-bump reason w.service.counts h))

  valid-Conserves :
      (closed : Bool) (reason : String) (minute : ℕ)
      → valid_login_reason reason ≡ true
      → total w.service.counts + 1 ≤ max_int64
      → Conserves w (record_valid closed reason minute w) 0 1
  unfolding record_valid
  valid-Conserves true reason minute e h =
      moved w.service _ 1 refl v.counts ((e, tt), tt) (omega arith)
  valid-Conserves false reason minute e h =
      unfold count_reason in hand_over-Conserves _ _ _ reason e h

  same-Conserves : Conserves w w 0 0
  same-Conserves = record { valid = v; balance = refl }

  login-Conserves :
      (reason : String) (now : ℕ)
      → total w.service.counts + 1 ≤ max_int64
      → Conserves w (record_reason reason now w) 0 (if valid_login_reason reason then 1 else 0)
  login-Conserves reason now h = elim (Bool-cases (valid_login_reason reason)) [
    | inl e ↦ unfold record_reason in rw e (valid-Conserves w.service.closed reason _ e h)
    | inr e ↦ unfold record_reason in rw e same-Conserves
  ]

  nothing : (c : Counts) → no_counts c ≡ true → total c ≡ 0
  nothing [] h = refl
  nothing (x ∷ c) h = cc

  -- A flush takes the counts, or finds none.
  taken-Conserves :
      (closed requeues : Bool) (now : ℕ)
      → Conserves w
          (record w {
            service = record (w.service) { counts = []; closed = closed };
            flight = w.flight ++ taken w.service now requeues;
          })
          0
          0
  taken-Conserves closed requeues now = moved _ _ 0 refl tt (v.counts, tt) (omega arith)

  emptied-Conserves :
      (closed : Bool)
      → no_counts w.service.counts ≡ true
      → Conserves w (record w { service = record (w.service) { counts = []; closed = closed } }) 0 0
  emptied-Conserves closed h = record {
    valid = record { counts = tt; flight = v.flight; no_retention = v.no_retention };
    balance = omega (arith, nothing w.service.counts h);
  }

  flush-Conserves :
      (empty : Bool) (now : ℕ)
      → (empty ≡ true → no_counts w.service.counts ≡ true)
      → Conserves w (flush_taken empty now w) 0 0
  unfolding flush_taken
  flush-Conserves true now h = emptied-Conserves w.service.closed (h refl)
  flush-Conserves false now h = taken-Conserves w.service.closed true now

  close-Conserves :
      (empty : Bool) (now : ℕ)
      → (empty ≡ true → no_counts w.service.counts ≡ true)
      → Conserves w (close_taken empty now w) 0 0
  unfolding close_taken
  close-Conserves true now h = emptied-Conserves true (h refl)
  close-Conserves false now h = taken-Conserves true false now

  closed-Conserves : Conserves w (close w) 0 0
  unfolding close
  closed-Conserves = record {
    valid = record { counts = v.counts; flight = v.flight; no_retention = v.no_retention };
    balance = refl;
  }

  flush-eq :
      (minute : ℕ) (c : Counts) (now : ℕ) (rows : List Row)
      → flush w.service.retention_seconds minute c now rows ≡ insert_all minute c rows
  unfolding flush
  flush-eq minute c now rows = rw v.no_retention (expire_zero now (insert_all minute c rows))

  commit-Conserves :
      (o : Option (Batch × List Batch))
      → IsPickedFrom w.flight o
      → grand_total w ≤ max_int64
      → Conserves w (commit_batch o w) 0 0
  unfolding commit_batch IsPickedFrom
  commit-Conserves none p h = same-Conserves
  commit-Conserves (some (b, rest)) p h = record {
    valid = record { counts = v.counts; flight = p.others v.flight; no_retention = v.no_retention };
    balance = omega (
      arith,
      p.totals,
      ap total_rows (flush-eq b.minute b.counts b.now w.rows),
      total-insert_all b.minute b.counts w.rows (p.batch v.flight) (omega (arith, p.totals)),
    );
  }

  return-Conserves :
      (o : Option (Batch × List Batch))
      → IsPickedFrom w.flight o
      → grand_total w ≤ max_int64
      → Conserves w (return_batch o w) (dropped_batch o) 0
  unfolding return_batch IsPickedFrom
  return-Conserves none p h = same-Conserves
  return-Conserves (some (b, rest)) p h = elim (Bool-cases b.requeues) [
    | inl e ↦ simp e (record {
      valid = record {
        counts = AllValid-requeue b.counts w.service.counts (p.batch v.flight) v.counts;
        flight = p.others v.flight;
        no_retention = v.no_retention;
      };
      balance =
          omega
            (arith, p.totals, total-requeue b.counts w.service.counts (omega (arith, p.totals)));
    })
    | inr e ↦ simp e (record {
      valid = record {
        counts = v.counts;
        flight = p.others v.flight;
        no_retention = v.no_retention;
      };
      balance = omega (arith, p.totals);
    })
  ]

  both : (a b : Bool) → a && b ≡ true → a ≡ true
  both true b h = refl
  both false b h = cc

  step-Conserves :
      (e : Event)
      → grand_total w + recorded e ≤ max_int64
      → Conserves w (step e w) (dropped e w) (recorded e)
  unfolding step dropped
  step-Conserves (failed_login reason now) h = elim (Bool-cases (valid_login_reason reason)) [
    | inl e ↦ login-Conserves reason now (let k = rw e at h in omega arith)
    | inr e ↦ unfold record_reason in rw e same-Conserves
  ]
  step-Conserves (tick now) h = unfold flush_current in flush-Conserves _ now (both _ _)
  step-Conserves closing h = closed-Conserves
  step-Conserves (closed_flush now) h = unfold close_last in close-Conserves _ now (λ e. e)
  step-Conserves (commit index) h = commit-Conserves _ (pick-IsPicked index w.flight) (omega arith)
  step-Conserves (rollback index) h =
      return-Conserves _ (pick-IsPicked index w.flight) (omega arith)

-- The failed logins that a sequence of events records, and those that it gives up.
abbrev pub recorded_all : List Event → ℕ
recorded_all [] = 0
recorded_all (e ∷ es) = recorded e + recorded_all es

unfoldable pub dropped_all : List Event → World → ℕ
dropped_all [] w = 0
dropped_all (e ∷ es) w = dropped e w + dropped_all es (step e w)

-- Whatever the interleaving of failed logins, flushes, closing and transactions that commit or fail: the
-- failed logins held in memory, in calls under way and in the table are those held at the start and those
-- recorded, less those of batches that failed after the close, as long as the sum fits an int64 and
-- rows are kept.
pub run-conserves :
    (es : List Event) (w : World)
    → IsValid w
    → grand_total w + recorded_all es ≤ max_int64
    → grand_total (run es w) + dropped_all es w ≡ grand_total w + recorded_all es
unfolding run dropped_all
run-conserves [] w v h = refl
run-conserves (e ∷ es) w v h =
    let c = step-Conserves w v e (omega arith) in
    let b = c.balance in omega (arith, b, run-conserves es (step e w) c.valid (omega (arith, b)))
