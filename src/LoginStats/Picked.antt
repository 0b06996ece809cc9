-- ===== src/LoginStats/Picked.antt =====
-- What an event adds and gives up, and the parts of a flight from which a batch is picked.
use mathlib.Core.Option
use modelcairn.Base.{
  ℕ, zero, suc, ◌+◌, Option, none, some, List, [], ◌∷◌, ◌++◌, ◌≡◌, refl, arith, if◌then◌else◌, All,
}
use modelcairn.LoginStats.Counts.{valid_login_reason, total}
use modelcairn.LoginStats.Service.{Batch, World, pick, Event, failed_login, rollback}
use modelcairn.LoginStats.Conservation.{total_flight, grand_total, BatchValid, IsValid}

-- The failed logins that an event adds, and those that it gives up: a batch that fails after the close.
abbrev pub recorded : Event → ℕ
recorded (failed_login reason now) = if valid_login_reason reason then 1 else 0
recorded _ = 0

abbrev pub dropped_batch : Option (Batch × List Batch) → ℕ
dropped_batch none = 0
dropped_batch (some (b, rest)) = if b.requeues then 0 else total b.counts

unfoldable pub dropped : Event → World → ℕ
dropped (rollback index) w = dropped_batch (pick index w.flight)
dropped _ w = 0

pub total_flight-append :
    (a b : List Batch) → total_flight (a ++ b) ≡ total_flight a + total_flight b
total_flight-append [] b = omega arith
total_flight-append (x ∷ a) b = omega (arith, total_flight-append a b)

pub All-append : (a b : List Batch) → All BatchValid a → All BatchValid b → All BatchValid (a ++ b)
All-append [] b h k = k
All-append (x ∷ a) b h k = (h.0, All-append a b h.1 k)

-- The two parts of a flight from which a batch was picked.
pub record IsPicked (fl : List Batch) (b : Batch) (rest : List Batch) : Type 0 where
  pub totals : total_flight fl ≡ total b.counts + total_flight rest
  pub batch : All BatchValid fl → BatchValid b
  pub others : All BatchValid fl → All BatchValid rest

unfoldable pub IsPickedFrom : List Batch → Option (Batch × List Batch) → Type 0
IsPickedFrom fl none = Unit
IsPickedFrom fl (some (b, rest)) = IsPicked fl b rest

later_IsPicked :
    (x : Batch) (fl : List Batch) (o : Option (Batch × List Batch))
    → IsPickedFrom fl o
    → IsPickedFrom (x ∷ fl) (Option.map (λ (p : Batch × List Batch). (p.0, x ∷ p.1)) o)
unfolding IsPickedFrom
later_IsPicked x fl none h = tt
later_IsPicked x fl (some (b, rest)) h = record {
  totals = omega (arith, h.totals);
  batch = λ a. h.batch a.1;
  others = λ a. (a.0, h.others a.1);
}

pub pick-IsPicked : (index : ℕ) (fl : List Batch) → IsPickedFrom fl (pick index fl)
unfolding pick IsPickedFrom
pick-IsPicked index [] = tt
pick-IsPicked zero (b ∷ bs) = record { totals = refl; batch = λ a. a.0; others = λ a. a.1 }
pick-IsPicked (suc index) (b ∷ bs) = later_IsPicked b bs (pick index bs) (pick-IsPicked index bs)

-- The step from `w` to `w'` keeps what is held, but for `out` that is dropped and `more` that is new.
pub record Conserves (w w' : World) (out more : ℕ) : Type 0 where
  pub valid : IsValid w'
  pub balance : grand_total w' + out ≡ grand_total w + more
