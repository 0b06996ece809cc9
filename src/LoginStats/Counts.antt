-- ===== src/LoginStats/Counts.antt =====
-- The in-memory counters: a map from reasons to counts, as an association list.
use modelcairn.Base.{
  ℕ, ◌+◌, ◌-◌, ◌^◌, String, Bool, true, List, [], ◌∷◌, ◌≡◌, ◌||◌, ltb, str_eq, if◌then◌else◌,
}

abbrev pub max_int64 : ℕ
max_int64 = 2 ^ 63 - 1

abbrev pub Counts : Type 0
Counts = List (String × ℕ)

-- `LoginInvalidCredentials` and the other codes of internal/storage/admin_login.go
unfoldable pub valid_login_reason : String → Bool
valid_login_reason reason =
    str_eq reason "invalid_credentials"
    || (str_eq reason "throttled" || (str_eq reason "malformed" || str_eq reason "unavailable"))

-- `s.counts[reason]++`, unless it is at the largest int64
unfoldable pub bump : String → Counts → Counts
bump reason [] = (reason, 1) ∷ []
bump reason ((r, n) ∷ rest) =
    let rest' = bump reason rest in
    if str_eq r reason then (r, if ltb n max_int64 then n + 1 else n) ∷ rest else (r, n) ∷ rest'

-- a + b, or the largest int64
abbrev pub saturate : ℕ → ℕ → ℕ
saturate a b = if ltb (max_int64 - a) b then max_int64 else a + b

-- one turn of the loop of `requeue`
unfoldable pub add_count : String → ℕ → Counts → Counts
add_count reason count [] = (reason, saturate 0 count) ∷ []
add_count reason count ((r, n) ∷ rest) =
    let rest' = add_count reason count rest in
    if str_eq r reason then (r, saturate n count) ∷ rest else (r, n) ∷ rest'

unfoldable pub requeue : Counts → Counts → Counts
unfolding add_count
requeue [] counts = counts
requeue ((reason, count) ∷ rest) counts = requeue rest (add_count reason count counts)

abbrev pub total : Counts → ℕ
total [] = 0
total ((r, n) ∷ rest) = n + total rest

-- Every reason is one that the service records.
abbrev pub AllValid : Counts → Type 0
AllValid [] = Unit
AllValid ((r, n) ∷ rest) = (valid_login_reason r ≡ true) × AllValid rest
