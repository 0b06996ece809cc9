-- ===== src/LoginAdmission/Admissions.antt =====
-- Logins that internal/storage/admin_login.go admits, counted.
use modelcairn.Base.{
  ℕ, zero, suc, ◌+◌, ◌<◌, ◌≤◌, String, Bool, false, ◌&&◌, List, [], ◌∷◌, ◌≡◌, All, if◌then◌else◌,
  arith,
}
use modelcairn.LoginAdmission.{
  FloatOps, LoginBucket, LoginAdmission, Call, allowing, failing, succeeding, allow, run_call,
}
use modelcairn.LoginAdmission.Buckets.{IsOrdered, Fits}

module _ (F : FloatOps) where
  open F use {Float, of_int, sub, lt}

  -- A login is admitted, of an address that counts.
  abbrev pub grants : (String → Bool) → String → LoginAdmission F × ℕ × Bool → ℕ
  grants counts k out = if out.2 && counts k then 1 else 0

  abbrev pub admitted : (String → Bool) → Call F → LoginAdmission F → ℕ
  admitted counts (allowing k now) a = grants counts k (allow F k now a)
  admitted counts (failing k now) a = 0
  admitted counts (succeeding k now) a = 0

  -- How many logins of these addresses the calls admit.
  abbrev pub admissions : (String → Bool) → List (Call F) → LoginAdmission F → ℕ
  admissions counts [] a = 0
  admissions counts (c ∷ cs) a = admitted counts c a + admissions counts cs (run_call F c a)

  abbrev pub time_of : Call F → ℕ
  time_of (allowing k now) = now
  time_of (failing k now) = now
  time_of (succeeding k now) = now

  -- A bound on the admissions that drops with each of them.
  abbrev pub Leaves : (ℕ → LoginAdmission F → Type 0) → ℕ → ℕ → LoginAdmission F → Type 0
  Leaves P m granted a = (n : ℕ) × (granted + n ≤ m) × P n a

  pub admissions-bounded :
      (P : ℕ → LoginAdmission F → Type 0) (counts : String → Bool) (now : ℕ)
      → ((m : ℕ) (c : Call F) (a : LoginAdmission F)
          → time_of c ≡ now
          → P m a
          → Leaves P m (admitted counts c a) (run_call F c a))
      → (m : ℕ) (cs : List (Call F)) (a : LoginAdmission F) → All (λ c. time_of c ≡ now) cs
      → P m a
      → admissions counts cs a ≤ m
  admissions-bounded P counts now step m [] a at h = omega arith
  admissions-bounded P counts now step m (c ∷ cs) a at h =
      let s = step m c a at.0 h in
      let rest = admissions-bounded P counts now step s.0 cs (run_call F c a) at.1 s.2 in
      let spent = s.1 in omega (arith, rest, spent)

  -- One token is left by a bucket that has one.
  pub spend :
      (O : IsOrdered F) (m : ℕ) (bucket : LoginBucket F)
      → m < 9007199254740992
      → Fits F m bucket
      → lt bucket.tokens (of_int 1) ≡ false
      → (n : ℕ) × (1 + n ≤ m) × Fits F n (record bucket { tokens = sub bucket.tokens (of_int 1) })
  spend O zero bucket fits h one =
      let none_left = O.below_one bucket.tokens h in absurd (ground (arith, none_left, one))
  spend O (suc n) bucket fits h one = (n, omega arith, O.take_one n bucket.tokens (omega arith) h)
