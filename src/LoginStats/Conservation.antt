-- ===== src/LoginStats/Conservation.antt =====
-- The failed logins in memory, in calls under way and in the table, and what each operation does to them.
use modelcairn.Base.{
  ℕ, ◌+◌, ◌≤◌, String, true, List, [], ◌∷◌, ◌≡◌, refl, arith, str_eq, All, Bool-cases, inl, inr,
}
use modelcairn.LoginStats.Counts.{
  Counts, max_int64, valid_login_reason, bump, add_count, requeue, total, AllValid,
}
use modelcairn.LoginStats.Table.{Row, upsert, insert_one, insert_all, expire, total_rows}
use modelcairn.LoginStats.Service.{Batch, World}

pub total-bump :
    (reason : String) (c : Counts) → total c + 1 ≤ max_int64 → total (bump reason c) ≡ total c + 1
unfolding bump
total-bump reason [] h = omega arith
total-bump reason ((r, n) ∷ rest) h = ground (arith, total-bump reason rest)

total-add_count :
    (reason : String) (count : ℕ) (c : Counts)
    → total c + count ≤ max_int64
    → total (add_count reason count c) ≡ total c + count
unfolding add_count
total-add_count reason count [] h = ground arith
total-add_count reason count ((r, n) ∷ rest) h = ground (arith, total-add_count reason count rest)

pub total-requeue :
    (b c : Counts) → total c + total b ≤ max_int64 → total (requeue b c) ≡ total c + total b
unfolding requeue
total-requeue [] c h = omega arith
total-requeue ((reason, count) ∷ rest) c h =
    let e = total-add_count reason count c (omega arith) in
    omega (arith, e, total-requeue rest (add_count reason count c) (omega (arith, e)))

total-upsert :
    (minute : ℕ) (reason : String) (count : ℕ) (rows : List Row)
    → total_rows rows + count ≤ max_int64
    → total_rows (upsert minute reason count rows) ≡ total_rows rows + count
unfolding upsert
total-upsert minute reason count [] h = omega arith
total-upsert minute reason count (row ∷ rows) h =
    ground (arith, total-upsert minute reason count rows)

total-insert_one :
    (minute : ℕ) (reason : String) (count : ℕ) (rows : List Row)
    → valid_login_reason reason ≡ true
    → total_rows rows + count ≤ max_int64
    → total_rows (insert_one minute reason count rows) ≡ total_rows rows + count
total-insert_one minute reason count rows v h =
    unfold insert_one in rw v (ground (arith, total-upsert minute reason count rows h))

pub total-insert_all :
    (minute : ℕ) (c : Counts) (rows : List Row)
    → AllValid c
    → total_rows rows + total c ≤ max_int64
    → total_rows (insert_all minute c rows) ≡ total_rows rows + total c
unfolding insert_all
total-insert_all minute [] rows v h = omega arith
total-insert_all minute ((reason, count) ∷ rest) rows v h =
    let e = total-insert_one minute reason count rows v.0 (omega arith) in
    omega (
      arith,
      e,
      total-insert_all minute rest (insert_one minute reason count rows) v.1 (omega (arith, e)),
    )

-- Without a retention nothing is deleted.
pub expire_zero : (now : ℕ) (rows : List Row) → expire 0 now rows ≡ rows
unfolding expire
expire_zero now rows = refl

abbrev pub total_flight : List Batch → ℕ
total_flight [] = 0
total_flight (b ∷ bs) = total b.counts + total_flight bs

-- All the failed logins that memory, the calls under way and the table hold.
abbrev pub grand_total : World → ℕ
grand_total w = total w.service.counts + total_flight w.flight + total_rows w.rows

abbrev pub BatchValid : Batch → Type 0
BatchValid b = AllValid b.counts

-- Only valid reasons are held, and rows are kept forever.
pub record IsValid (w : World) : Type 0 where
  pub counts : AllValid w.service.counts
  pub flight : All BatchValid w.flight
  pub no_retention : w.service.retention_seconds ≡ 0

pub AllValid-bump :
    (reason : String) (c : Counts)
    → valid_login_reason reason ≡ true
    → AllValid c
    → AllValid (bump reason c)
unfolding bump
AllValid-bump reason [] v h = (v, tt)
AllValid-bump reason ((r, n) ∷ rest) v h = elim (Bool-cases (str_eq r reason)) [
  | inl e ↦ rw e h
  | inr e ↦ rw e (h.0, AllValid-bump reason rest v h.1)
]

AllValid-add_count :
    (reason : String) (count : ℕ) (c : Counts)
    → valid_login_reason reason ≡ true
    → AllValid c
    → AllValid (add_count reason count c)
unfolding add_count
AllValid-add_count reason count [] v h = (v, tt)
AllValid-add_count reason count ((r, n) ∷ rest) v h = elim (Bool-cases (str_eq r reason)) [
  | inl e ↦ rw e h
  | inr e ↦ rw e (h.0, AllValid-add_count reason count rest v h.1)
]

pub AllValid-requeue : (b c : Counts) → AllValid b → AllValid c → AllValid (requeue b c)
unfolding requeue
AllValid-requeue [] c v h = h
AllValid-requeue ((reason, count) ∷ rest) c v h =
    AllValid-requeue rest (add_count reason count c) v.1 (AllValid-add_count reason count c v.0 h)
