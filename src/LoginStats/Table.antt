-- ===== src/LoginStats/Table.antt =====
-- The table `failed_login_statistics`, and the transaction of `flush` on it.
use modelcairn.Base.{
  ℕ, ◌+◌, ◌-◌, ◌%◌, ℤ, pos, negsuc, sub_ℕ, String, Bool, false, List, [], ◌∷◌, ◌||◌, ◌&&◌, not, ltb,
  leb, ◌==◌, str_eq, if◌then◌else◌, filter,
}
use modelcairn.LoginStats.Counts.{Counts, saturate, valid_login_reason}

pub record Row : Type 0 where
  pub minute : ℕ
  pub reason : String
  pub count : ℕ

-- INSERT ... ON CONFLICT(minute_unix,reason) DO UPDATE, with a count that saturates
unfoldable pub upsert : ℕ → String → ℕ → List Row → List Row
upsert minute reason count [] = record { minute = minute; reason = reason; count = count } ∷ []
upsert minute reason count (row ∷ rows) =
    let rows' = upsert minute reason count rows in
    if row.minute == minute && str_eq row.reason reason
    then record row { count = saturate row.count count } ∷ rows
    else row ∷ rows'

-- One turn of the loop: a count below 1 and a reason that is not valid are skipped.
unfoldable pub insert_one : ℕ → String → ℕ → List Row → List Row
unfolding upsert
insert_one minute reason count rows =
    if ltb count 1 || not (valid_login_reason reason) then rows else upsert minute reason count rows

unfoldable pub insert_all : ℕ → Counts → List Row → List Row
unfolding insert_one
insert_all minute [] rows = rows
insert_all minute ((reason, count) ∷ rest) rows =
    insert_all minute rest (insert_one minute reason count rows)

-- `x -= x % 60`, where Go's remainder has the sign of x
abbrev pub floor_minute : ℤ → ℤ
floor_minute (pos n) = pos (n - n % 60)
floor_minute (negsuc n) = sub_ℕ 0 (n + 1 - (n + 1) % 60)

unfoldable pub cutoff : ℕ → ℕ → ℤ
cutoff now retention = floor_minute (sub_ℕ now retention)

abbrev pub at_most : ℕ → ℤ → Bool
at_most n (pos m) = leb n m
at_most n (negsuc m) = false

-- DELETE ... WHERE minute_unix <= cutoff, if there is a retention
unfoldable pub expire : ℕ → ℕ → List Row → List Row
unfolding cutoff
expire retention now rows =
    if ltb 0 retention
    then filter (λ row. not (at_most row.minute (cutoff now retention))) rows
    else rows

-- The rows after `flush` has committed.
unfoldable pub flush : ℕ → ℕ → Counts → ℕ → List Row → List Row
unfolding insert_all expire
flush retention minute counts now rows = expire retention now (insert_all minute counts rows)

abbrev pub total_rows : List Row → ℕ
total_rows [] = 0
total_rows (row ∷ rows) = row.count + total_rows rows
