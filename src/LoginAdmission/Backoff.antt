-- ===== src/LoginAdmission/Backoff.antt =====
-- What `allow` answers after `failed`.
use modelcairn.Base.{
  ℕ, ◌+◌, ◌-◌, ◌*◌, ◌≤◌, ◌<◌, String, Bool, true, false, some, ◌≡◌, refl, ap, ltb, filter, if_elim,
  arith,
}
use modelcairn.LoginAdmission.{
  FloatOps, LoginClient, LoginAdmission, second, ceil_second, find, store, prune, allow_client,
  allow_found, allow, more_failures, delay_of, fail_client, fail_found, failed,
}
use modelcairn.LoginAdmission.Clients.{find-store, find-filter}

lt→ltb : (a b : ℕ) → a < b → ltb a b ≡ true
lt→ltb a b h = ground arith

ceil_second-bounds :
    (value : ℕ) → 0 < value → (value ≤ ceil_second value) × (ceil_second value < value + second)
unfolding ceil_second
ceil_second-bounds value h = ground arith

delay_of-bounds : (failures : ℕ) → delay_of failures ≤ 30 * second
unfolding delay_of
delay_of-bounds failures = ground arith

module _ (F : FloatOps) where
  -- The answer to a client that is blocked for another `remaining` nanoseconds.
  abbrev pub IsRefused : ℕ → LoginAdmission F × ℕ × Bool → Type 0
  IsRefused remaining out = (out.2 ≡ false) × (remaining ≤ out.1) × (out.1 < remaining + second)

  allow_client-IsRefused :
      (k : String) (c : LoginClient F) (now : ℕ) (a : LoginAdmission F)
      → now < c.blocked_until
      → IsRefused (c.blocked_until - now) (allow_client F k c now a)
  unfolding allow_client
  allow_client-IsRefused k c now a h =
      if_elim (IsRefused (c.blocked_until - now)) (ltb now c.blocked_until)
        {x = (
          record a { clients = store F k (record c { time_seen = now }) a.clients },
          ceil_second (c.blocked_until - now),
          false,
        )}
        (λ hb.
          let bounds = ceil_second-bounds (c.blocked_until - now) (omega arith) in
          (refl, bounds.0, bounds.1))
        (λ hb. ground arith)

  -- A client that was just put into the table, and is not idle, is found in it again by `allow`.
  store-allow :
      (k : String) (c : LoginClient F) (later : ℕ) (a : LoginAdmission F)
      → later < c.time_seen + a.client_idle
      → let a' = record a { clients = store F k c a.clients } in
        allow F k later a' ≡ allow_client F k c later (prune F later a')
  unfolding allow prune allow_found
  store-allow k c later a h =
      ap
        (λ o.
          allow_found F k o later (prune F later (record a { clients = store F k c a.clients })))
        found
    where
      found :
          find F k (
            filter
              (λ (p : String × LoginClient F). ltb later (p.1.time_seen + a.client_idle))
              (store F k c a.clients))
          ≡ some c
      found =
          find-filter F (λ (p : String × LoginClient F). ltb later (p.1.time_seen + a.client_idle))
            k c (store F k c a.clients) (λ j. lt→ltb later (c.time_seen + a.client_idle) h)
            (find-store F k c a.clients)

  -- A failure of a client that is in the table, followed by `allow` before the end of the delay that the
  -- failure brings, with the clock not turned back: the login is refused, and the time to retry after
  -- is the rest of the delay, rounded up by less than a second. Idle clients are kept for
  -- at least 30 seconds.
  pub failed-allow :
      (k : String) (c : LoginClient F) (now later : ℕ) (a : LoginAdmission F)
      → find F k a.clients ≡ some c
      → 30 * second ≤ a.client_idle
      → now ≤ later
      → later < now + delay_of (more_failures c.failures)
      → IsRefused
          (now + delay_of (more_failures c.failures) - later)
          (allow F k later (failed F k now a))
  unfolding failed fail_found fail_client
  failed-allow k c now later a e hi hn hl = rw e (
      rw
        (store-allow k (fail_client F now c) later a
          (omega (arith, delay_of-bounds (more_failures c.failures), hl, hi)))
        (allow_client-IsRefused k (fail_client F now c) later
          (prune F later (record a { clients = store F k (fail_client F now c) a.clients })) hl))
