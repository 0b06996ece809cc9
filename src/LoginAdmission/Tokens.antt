-- ===== src/LoginAdmission/Tokens.antt =====
-- What is left in the bucket of all clients of internal/storage/admin_login.go, at one instant.
use mathlib.Core.Path.{subst}
use modelcairn.Base.{
  ℕ, ◌<◌, String, Bool, true, Option, none, some, ◌≡◌, sym, leb, ltb, length, if_elim, arith,
}
use modelcairn.LoginAdmission.{
  FloatOps, LoginClient, LoginAdmission, Call, allowing, failing, succeeding, refill, prune,
  allow_client, new_client, allow_found, allow, fail_found, succeed_found, failed, succeeded,
  run_call,
}
use modelcairn.LoginAdmission.Admissions.{grants, admitted, time_of, Leaves, spend}
use modelcairn.LoginAdmission.Buckets.{IsOrdered, Fits, refill-IsSettled, settled-Fits}

module _ (F : FloatOps) (O : IsOrdered F) (now : ℕ) (started : 0 < now) where
  open F use {of_int, lt}

  -- The bucket of all clients, refilled at the instant.
  abbrev pub Global : ℕ → LoginAdmission F → Type 0
  Global m a =
      (m < 9007199254740992) × Fits F m (refill F a.global a.global_rate a.global_burst now)

  client-Global :
      (m : ℕ) (k : String) (c : LoginClient F) (a : LoginAdmission F)
      → Global m a
      → Leaves F Global m
          (grants F (λ i. true) k (allow_client F k c now a))
          ((allow_client F k c now a).0)
  unfolding allow_client
  client-Global m k c a h =
      let P =
        λ (o : LoginAdmission F × ℕ × Bool). Leaves F Global m (grants F (λ i. true) k o) (o.0) in
      let global = refill F a.global a.global_rate a.global_burst now in
      let bucket = refill F c.bucket a.client_rate a.client_burst now in
      let settled = refill-IsSettled F a.global a.global_rate a.global_burst now started in
      let kept = settled-Fits F m global a.global_rate a.global_burst now settled h.1 in
      if_elim P (ltb now c.blocked_until) (λ e. (m, omega arith, h))
        (λ e.
          if_elim P (lt global.tokens (of_int 1)) (λ e. (m, omega arith, (h.0, kept)))
            (λ one.
              if_elim P (lt bucket.tokens (of_int 1)) (λ e. (m, omega arith, (h.0, kept)))
                (λ e.
                  let s = spend F O m global h.0 h.1 one in
                  let fewer = s.1 in
                  (
                    s.0,
                    fewer,
                    (
                      omega (arith, fewer, h.0),
                      settled-Fits F s.0 _ a.global_rate a.global_burst now settled s.2,
                    ),
                  ))))

  found-Global :
      (m : ℕ) (k : String) (o : Option (LoginClient F)) (a : LoginAdmission F)
      → Global m a
      → Leaves F Global m
          (grants F (λ i. true) k (allow_found F k o now a))
          ((allow_found F k o now a).0)
  unfolding allow_found
  found-Global m k (some c) a h = client-Global m k c a h
  found-Global m k none a h =
      if_elim
        (λ (o : LoginAdmission F × ℕ × Bool). Leaves F Global m (grants F (λ i. true) k o) (o.0))
        (leb a.max_clients (length a.clients)) (λ e. (m, omega arith, h))
        (λ e. client-Global m k (new_client F a now) a h)

  fail-Global :
      (m : ℕ) (k : String) (o : Option (LoginClient F)) (a : LoginAdmission F)
      → Global m a
      → Global m (fail_found F k o now a)
  unfolding fail_found
  fail-Global m k none a h = h
  fail-Global m k (some c) a h = h

  succeed-Global :
      (m : ℕ) (k : String) (o : Option (LoginClient F)) (a : LoginAdmission F)
      → Global m a
      → Global m (succeed_found F k o now a)
  unfolding succeed_found
  succeed-Global m k none a h = h
  succeed-Global m k (some c) a h = h

  pub call-Global :
      (m : ℕ) (c : Call F) (a : LoginAdmission F)
      → time_of F c ≡ now
      → Global m a
      → Leaves F Global m (admitted F (λ i. true) c a) (run_call F c a)
  unfolding run_call allow failed succeeded prune
  call-Global m (allowing k t) a e h =
      subst (λ x. Leaves F Global m (grants F (λ i. true) k (allow F k x a)) ((allow F k x a).0))
        (sym e) (found-Global m k _ (prune F now a) h)
  call-Global m (failing k t) a e h =
      (m, omega arith, subst (λ x. Global m (failed F k x a)) (sym e) (fail-Global m k _ a h))
  call-Global m (succeeding k t) a e h =
      (m, omega arith, subst (λ x. Global m (succeeded F k x a)) (sym e) (succeed-Global m k _ a h))
