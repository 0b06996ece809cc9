-- ===== src/AdminSettings/Ranges.antt =====
-- The numbers of settings that pass validation.
use modelcairn.Base.{
  ℕ, ◌≤◌, true, false, not, ◌||◌, none, ℤ, pos, negsuc, leb_ℤ, first-none, ◌≡◌, refl, arith,
  or-false, not-false,
}
use modelcairn.AdminSettings.{Resolved, Std}
use modelcairn.AdminSettings.Validate.{within, number_checks, validate_numbers}

-- A Go integer from `lo` to `hi`.
abbrev pub InRange : ℤ → ℕ → ℕ → Type 0
InRange z lo hi = (n : ℕ) × (z ≡ pos n) × (lo ≤ n) × (n ≤ hi)

pub record IsBounded (v : Resolved) : Type 0 where
  pub idle : InRange v.idle_seconds 300 86400
  pub absolute : InRange v.absolute_seconds 300 604800
  pub idle_first : leb_ℤ v.idle_seconds v.absolute_seconds ≡ true
  pub global_rate : InRange v.global_attempts_per_minute 1 120
  pub global_burst : InRange v.global_burst 1 20
  pub client_rate : InRange v.client_attempts_per_minute 1 30
  pub client_rate_le : leb_ℤ v.client_attempts_per_minute v.global_attempts_per_minute ≡ true
  pub client_burst : InRange v.client_burst 1 10
  pub client_burst_le : leb_ℤ v.client_burst v.global_burst ≡ true
  pub clients : InRange v.max_client_entries 64 4096
  pub client_idle : InRange v.client_idle_seconds 60 3600
  pub retention : InRange v.failed_login_retention_seconds 0 3155760000
  pub memory : InRange v.argon_memory_kib 19456 65536
  pub iterations : InRange v.argon_iterations 2 6

leb_ℤ-InRange :
    (z : ℤ) (lo hi : ℕ)
    → (not (leb_ℤ (pos lo) z) || not (leb_ℤ z (pos hi))) ≡ false
    → InRange z lo hi
leb_ℤ-InRange (pos n) lo hi h = (n, refl, ground arith, ground arith)
leb_ℤ-InRange (negsuc n) lo hi h = ground arith

within-InRange : (z : ℤ) (lo hi : ℕ) → not (within z lo hi) ≡ false → InRange z lo hi
unfolding within
within-InRange (pos n) lo hi h = (n, refl, ground arith, ground arith)
within-InRange (negsuc n) lo hi h = ground arith

module _ (S : Std) where
  pub numbers-IsBounded : (v : Resolved) → validate_numbers S v ≡ none → IsBounded v
  unfolding validate_numbers number_checks
  numbers-IsBounded v h =
      let f = first-none (number_checks S v) h in
      let client_rate =
        or-false (not (within v.client_attempts_per_minute 1 30))
          (not (leb_ℤ v.client_attempts_per_minute v.global_attempts_per_minute)) f.1.1.1.1.1.0 in
      let client_burst =
        or-false (not (within v.client_burst 1 10)) (not (leb_ℤ v.client_burst v.global_burst))
          f.1.1.1.1.1.1.0 in
      record {
        idle = leb_ℤ-InRange v.idle_seconds 300 86400 f.0;
        absolute = leb_ℤ-InRange v.absolute_seconds 300 604800 f.1.0;
        idle_first = not-false (leb_ℤ v.idle_seconds v.absolute_seconds) f.1.1.0;
        global_rate = within-InRange v.global_attempts_per_minute 1 120 f.1.1.1.0;
        global_burst = within-InRange v.global_burst 1 20 f.1.1.1.1.0;
        client_rate = within-InRange v.client_attempts_per_minute 1 30 client_rate.0;
        client_rate_le =
            not-false (leb_ℤ v.client_attempts_per_minute v.global_attempts_per_minute)
              client_rate.1;
        client_burst = within-InRange v.client_burst 1 10 client_burst.0;
        client_burst_le = not-false (leb_ℤ v.client_burst v.global_burst) client_burst.1;
        clients = within-InRange v.max_client_entries 64 4096 f.1.1.1.1.1.1.1.0;
        client_idle = within-InRange v.client_idle_seconds 60 3600 f.1.1.1.1.1.1.1.1.0;
        retention =
            leb_ℤ-InRange v.failed_login_retention_seconds 0 3155760000 f.1.1.1.1.1.1.1.1.1.0;
        memory = within-InRange v.argon_memory_kib 19456 65536 f.1.1.1.1.1.1.1.1.1.1.0;
        iterations = within-InRange v.argon_iterations 2 6 f.1.1.1.1.1.1.1.1.1.1.1.0;
      }
