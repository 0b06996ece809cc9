-- ===== src/LoginAdmission/Bursts.antt =====
-- How many logins internal/storage/admin_login.go admits at one instant, of each address and of all.
use mathlib.Core.Path.{subst}
use modelcairn.Base.{
  ℕ, ◌+◌, ◌<◌, ◌≤◌, String, Bool, true, false, ◌&&◌, Option, none, some, List, ◌≡◌, refl, sym, leb,
  ltb, length, str_eq, str_eq→≡, All, inl, inr, if◌then◌else◌, if_elim, Bool-cases, arith,
}
use modelcairn.LoginAdmission.{
  FloatOps, LoginClient, LoginAdmission, Call, allowing, failing, succeeding, refill, find, store,
  prune, allow_client, new_client, allow_found, allow, fail_client, fail_found, succeed_found,
  failed, succeeded, run_call, run_calls,
}
use modelcairn.LoginAdmission.Admissions.{
  grants, admitted, admissions, time_of, Leaves, admissions-bounded, spend,
}
use modelcairn.LoginAdmission.Tokens.{Global, call-Global}
use modelcairn.LoginAdmission.Buckets.{IsOrdered, Fits, refill-Fits, refill-IsSettled, settled-Fits}
use modelcairn.LoginAdmission.Capped.{IsCapped, run_calls-IsCapped}
use modelcairn.LoginAdmission.Held.{
  Has, Holds, HoldsFound, Holds-capped, Holds-filter, find-HoldsFound, store-Holds, store-other,
}

module _ (F : FloatOps) (O : IsOrdered F) (now : ℕ) (started : 0 < now) (k : String) where
  open F use {of_int, sub, lt}

  -- What the address holds at the instant, where its entries are kept.
  abbrev Client : ℕ → LoginAdmission F → Type 0
  Client m a =
      (m < 9007199254740992)
      × (0 < a.client_idle)
      × Holds F k a.client_rate a.client_burst a.client_idle now m a.clients

  abbrev of_address : String → Bool
  of_address i = str_eq i k

  kept_now : (seen idle : ℕ) → seen ≡ now → 0 < idle → ltb now (seen + idle) ≡ true
  kept_now seen idle e h = ground (arith, e, h)

  own-Holds :
      (m : ℕ) (j : String) (c : LoginClient F) (a : LoginAdmission F)
      → 0 < a.client_idle
      → str_eq j k ≡ true
      → Has F k a.client_rate a.client_burst a.client_idle now m c
      → c.time_seen ≡ now
      → Holds F k a.client_rate a.client_burst a.client_idle now m (store F j c a.clients)
  own-Holds m j c a idle e has seen =
      subst
        (λ i. Holds F k a.client_rate a.client_burst a.client_idle now m (store F i c a.clients))
        (sym (str_eq→≡ j k e))
        (store-Holds F k a.client_rate a.client_burst a.client_idle now m c a.clients has
          (kept_now c.time_seen a.client_idle seen idle))

  put-Holds :
      (m : ℕ) (j : String) (c : LoginClient F) (a : LoginAdmission F)
      → Client m a
      → (str_eq j k ≡ true → Has F k a.client_rate a.client_burst a.client_idle now m c)
      → c.time_seen ≡ now
      → Holds F k a.client_rate a.client_burst a.client_idle now m (store F j c a.clients)
  put-Holds m j c a h has seen = elim (Bool-cases (str_eq j k)) [
    | inl e ↦ own-Holds m j c a h.1 e (has e) seen
    | inr e ↦ store-other F k a.client_rate a.client_burst a.client_idle now m j c a.clients e h.2
  ]

  granted_other : (m : ℕ) (b : Bool) → b ≡ false → (if true && b then 1 else 0) + m ≤ m
  granted_other m b e = ground (arith, e)

  granted_own : (m n : ℕ) (b : Bool) → 1 + n ≤ m → (if true && b then 1 else 0) + n ≤ m
  granted_own m n b h = ground (arith, h)

  client-Client :
      (m : ℕ) (j : String) (c : LoginClient F) (a : LoginAdmission F)
      → Client m a
      → (str_eq j k ≡ true → Has F k a.client_rate a.client_burst a.client_idle now m c)
      → Leaves F Client m
          (grants F of_address j (allow_client F j c now a))
          ((allow_client F j c now a).0)
  unfolding allow_client
  client-Client m j c a h has =
      let P =
        λ (o : LoginAdmission F × ℕ × Bool). Leaves F Client m (grants F of_address j o) (o.0) in
      let global = refill F a.global a.global_rate a.global_burst now in
      let bucket = refill F c.bucket a.client_rate a.client_burst now in
      let settled = refill-IsSettled F c.bucket a.client_rate a.client_burst now started in
      let again = λ (e : str_eq j k ≡ true).
        settled-Fits F m bucket a.client_rate a.client_burst now settled (has e) in
      if_elim P (ltb now c.blocked_until)
        (λ e. (m, omega arith, (h.0, h.1, put-Holds m j _ a h has refl)))
        (λ e.
          if_elim P (lt global.tokens (of_int 1))
            (λ e. (m, omega arith, (h.0, h.1, put-Holds m j _ a h again refl)))
            (λ e.
              if_elim P (lt bucket.tokens (of_int 1))
                (λ e. (m, omega arith, (h.0, h.1, put-Holds m j _ a h again refl)))
                (λ one. elim (Bool-cases (str_eq j k)) [
                  | inl e ↦
                      let s = spend F O m bucket h.0 (has e) one in
                      let fewer = s.1 in
                      (
                        s.0,
                        granted_own m s.0 (str_eq j k) fewer,
                        (
                          omega (arith, fewer, h.0),
                          h.1,
                          own-Holds s.0 j _ a h.1 e
                              (settled-Fits F s.0 _ a.client_rate a.client_burst now settled s.2)
                              refl,
                        ),
                      )
                  | inr e ↦ (
                    m,
                    granted_other m (str_eq j k) e,
                    (
                      h.0,
                      h.1,
                      store-other F k a.client_rate a.client_burst a.client_idle now m j _ a.clients
                          e h.2,
                    ),
                  )
                ])))

  found-Client :
      (m : ℕ) (j : String) (a : LoginAdmission F)
      → Client m a
      → (o : Option (LoginClient F))
      → (str_eq j k ≡ true → HoldsFound F k a.client_rate a.client_burst a.client_idle now m o)
      → Leaves F Client m
          (grants F of_address j (allow_found F j o now a))
          ((allow_found F j o now a).0)
  unfolding allow_found
  found-Client m j a h (some c) has = client-Client m j c a h has
  found-Client m j a h none has =
      if_elim
        (λ (o : LoginAdmission F × ℕ × Bool). Leaves F Client m (grants F of_address j o) (o.0))
        (leb a.max_clients (length a.clients)) (λ e. (m, omega arith, h))
        (λ e. client-Client m j (new_client F a now) a h (λ e.
          settled-Fits F m (new_client F a now).bucket a.client_rate a.client_burst now
            (ground arith, ground arith) (O.mono a.client_burst m (has e))))

  found_here :
      (m : ℕ) (j : String) (a : LoginAdmission F)
      → Client m a
      → str_eq j k ≡ true
      → HoldsFound F k a.client_rate a.client_burst a.client_idle now m (find F j a.clients)
  found_here m j a h e =
      subst
        (λ i. HoldsFound F k a.client_rate a.client_burst a.client_idle now m (find F i a.clients))
        (sym (str_eq→≡ j k e))
        (find-HoldsFound F k a.client_rate a.client_burst a.client_idle now m a.clients h.2)

  prune-Client : (m : ℕ) (a : LoginAdmission F) → Client m a → Client m (prune F now a)
  unfolding prune
  prune-Client m a h =
      (h.0, h.1, Holds-filter F k a.client_rate a.client_burst a.client_idle now m a.clients h.2)

  fail-Client :
      (m : ℕ) (j : String) (a : LoginAdmission F)
      → Client m a
      → (o : Option (LoginClient F))
      → (str_eq j k ≡ true → HoldsFound F k a.client_rate a.client_burst a.client_idle now m o)
      → Client m (fail_found F j o now a)
  unfolding fail_found fail_client
  fail-Client m j a h none has = h
  fail-Client m j a h (some c) has = (h.0, h.1, put-Holds m j _ a h has refl)

  succeed-Client :
      (m : ℕ) (j : String) (a : LoginAdmission F)
      → Client m a
      → (o : Option (LoginClient F))
      → (str_eq j k ≡ true → HoldsFound F k a.client_rate a.client_burst a.client_idle now m o)
      → Client m (succeed_found F j o now a)
  unfolding succeed_found
  succeed-Client m j a h none has = h
  succeed-Client m j a h (some c) has = (h.0, h.1, put-Holds m j _ a h has refl)

  call-Client :
      (m : ℕ) (c : Call F) (a : LoginAdmission F)
      → time_of F c ≡ now
      → Client m a
      → Leaves F Client m (admitted F of_address c a) (run_call F c a)
  unfolding run_call allow failed succeeded
  call-Client m (allowing j t) a e h =
      let p = prune-Client m a h in
      subst (λ x. Leaves F Client m (grants F of_address j (allow F j x a)) ((allow F j x a).0))
        (sym e) (found-Client m j (prune F now a) p _ (found_here m j (prune F now a) p))
  call-Client m (failing j t) a e h = (
    m,
    omega arith,
    subst (λ x. Client m (failed F j x a)) (sym e) (fail-Client m j a h _ (found_here m j a h)),
  )
  call-Client m (succeeding j t) a e h = (
    m,
    omega arith,
    subst (λ x. Client m (succeeded F j x a)) (sym e)
        (succeed-Client m j a h _ (found_here m j a h)),
  )

-- Let float64 be ordered as `IsOrdered` says. Start with buckets that hold at most their bursts, which are below 2 ^ 53, and
-- with clients that are kept for some time, and let there be any calls of `allow`, `failed` and `succeeded`, with any
-- addresses and times. Then the calls that follow at one instant, other than the zero time, in any order, admit at most as
-- many logins as the burst of the bucket of all clients, and of each address at most as many as the burst of a client.
pub admissions-burst :
    (F : FloatOps) (O : IsOrdered F) (global_burst client_burst : ℕ) (a : LoginAdmission F)
    → IsCapped F O global_burst client_burst a
    → global_burst < 9007199254740992
    → client_burst < 9007199254740992
    → (earlier : List (Call F)) (now : ℕ) → 0 < now
    → (calls : List (Call F)) → All (λ c. time_of F c ≡ now) calls
    → let b = run_calls F earlier a in
      (admissions F (λ i. true) calls b ≤ global_burst)
      × ((k : String) → admissions F (λ i. str_eq i k) calls b ≤ client_burst)
admissions-burst F O g c a capped gl cl earlier now started calls at =
    let b = run_calls F earlier a in
    let h = run_calls-IsCapped F O g c earlier a capped in
    (
      admissions-bounded F (Global F O now started) (λ i. true) now (call-Global F O now started) g
          calls b at
          (
            gl,
            subst (λ n. Fits F n (refill F b.global b.global_rate b.global_burst now)) h.global_is
                (refill-Fits F O b.global b.global_rate b.global_burst now h.global),
          ),
      λ k.
          admissions-bounded F (Client F O now started k) (λ i. str_eq i k) now
            (call-Client F O now started k) c calls b at
            (
              cl,
              h.idle,
              subst (λ n. Holds F k b.client_rate b.client_burst b.client_idle now n b.clients)
                  h.client_is
                  (Holds-capped F k b.client_rate b.client_burst b.client_idle now O b.clients
                    h.clients),
            ),
    )
