-- ===== src/LoginAdmission/Buckets.antt =====
-- The token buckets of internal/storage/admin_login.go: what `refill` leaves in one.
use mathlib.Core.Path.{subst}
use modelcairn.Base.{ℕ, suc, ◌<◌, ◌≤◌, true, false, ◌≡◌, refl, sym, ltb, ◌==◌, if_elim, arith}
use modelcairn.LoginAdmission.{FloatOps, LoginBucket, refill}

-- What the code relies on of the finite values of float64, with integers below 2 ^ 53: the conversion keeps the order, and
-- one is taken from a value without an error that passes an integer.
pub record IsOrdered (F : FloatOps) : Type 0 where
  pub mono : (n m : ℕ) → n ≤ m → F.lt (F.of_int m) (F.of_int n) ≡ false
  pub below_one : (x : F.Float) → F.lt (F.of_int 0) x ≡ false → F.lt x (F.of_int 1) ≡ true
  pub take_one :
      (n : ℕ) (x : F.Float)
      → n < 9007199254740992
      → F.lt (F.of_int (suc n)) x ≡ false
      → F.lt (F.of_int n) (F.sub x (F.of_int 1)) ≡ false
  pub less :
      (n : ℕ) (x : F.Float)
      → F.lt (F.of_int n) x ≡ false
      → F.lt (F.of_int n) (F.sub x (F.of_int 1)) ≡ false

module _ (F : FloatOps) where
  open F use {Float, of_int, sub, lt}

  -- At most so many tokens.
  abbrev pub Fits : ℕ → LoginBucket F → Type 0
  Fits m bucket = lt (of_int m) bucket.tokens ≡ false

  -- Refilled at `now`, or later.
  abbrev pub IsSettled : ℕ → LoginBucket F → Type 0
  IsSettled now bucket = ((bucket.updated == 0) ≡ false) × (ltb bucket.updated now ≡ false)

  pub refill-Fits :
      (O : IsOrdered F) (bucket : LoginBucket F) (rate burst now : ℕ)
      → Fits burst bucket
      → Fits burst (refill F bucket rate burst now)
  unfolding refill
  refill-Fits O bucket rate burst now h =
      if_elim (Fits burst) (bucket.updated == 0) (λ e. O.mono burst burst (omega arith))
        (λ e.
          if_elim (Fits burst) (ltb bucket.updated now)
            (λ k.
              if_elim (λ x. lt (of_int burst) x ≡ false) (lt (of_int burst) _)
                (λ l. O.mono burst burst (omega arith)) (λ l. l))
            (λ k. h))

  pub refill-IsSettled :
      (bucket : LoginBucket F) (rate burst now : ℕ)
      → 0 < now
      → IsSettled now (refill F bucket rate burst now)
  unfolding refill
  refill-IsSettled bucket rate burst now h =
      if_elim (IsSettled now) (bucket.updated == 0) (λ e. (ground arith, ground arith))
        (λ e.
          if_elim (IsSettled now) (ltb bucket.updated now) (λ k. (ground arith, ground arith))
            (λ k. (e, k)))

  pub refill-settled :
      (bucket : LoginBucket F) (rate burst now : ℕ)
      → IsSettled now bucket
      → refill F bucket rate burst now ≡ bucket
  unfolding refill
  refill-settled bucket rate burst now h = rw (h.0, h.1) refl

  pub settled-Fits :
      (m : ℕ) (bucket : LoginBucket F) (rate burst now : ℕ)
      → IsSettled now bucket
      → Fits m bucket
      → Fits m (refill F bucket rate burst now)
  settled-Fits m bucket rate burst now h k =
      subst (Fits m) (sym (refill-settled bucket rate burst now h)) k
