-- ===== src/LoginAdmission/Clients.antt =====
-- The table of clients: what an address finds in it, and how many there are.
use modelcairn.Base.{
  ℕ, suc, ◌+◌, ◌≤◌, String, Bool, true, false, Option, none, some, List, [], ◌∷◌, ◌≡◌, refl, ap,
  leb, ltb, str_eq, if◌then◌else◌, length, filter, if_elim, arith, eq_iff,
}
use modelcairn.LoginAdmission.{
  FloatOps, LoginClient, LoginAdmission, Call, allowing, failing, succeeding, find, store, refill,
  prune, allow_client, new_client, allow_found, allow, fail_client, fail_found, succeed_found,
  failed, succeeded, run_call, run_calls,
}

pub str_eq_refl : (k : String) → str_eq k k ≡ true
str_eq_refl k = (eq_iff k k).1 refl

length-filter : {A : Type 0} (p : A → Bool) (xs : List A) → length (filter p xs) ≤ length xs
length-filter p [] = omega arith
length-filter p (x ∷ xs) =
    if_elim (λ l. length l ≤ suc (length xs)) (p x) {x = x ∷ filter p xs} {y = filter p xs}
      (λ h. omega (arith, length-filter p xs)) (λ h. omega (arith, length-filter p xs))

then_else-some :
    {A : Type 0} (b : Bool) (d c : A) (y y' : Option A)
    → (if b then some d else y) ≡ some c
    → (y ≡ some c → y' ≡ some c)
    → (if b then some d else y') ≡ some c
then_else-some true d c y y' h f = h
then_else-some false d c y y' h f = f h

else-some :
    {A : Type 0} (q : A → Bool) (b : Bool) (d c : A) (y y' : Option A)
    → q c ≡ true
    → q d ≡ false
    → (if b then some d else y) ≡ some c
    → (y ≡ some c → y' ≡ some c)
    → y' ≡ some c
else-some q true d c y y' keep hd h f = ground arith
else-some q false d c y y' keep hd h f = f h

le-not_leb : (m n l : ℕ) → leb m n ≡ false → l ≤ suc n → l ≤ m
le-not_leb m n l h hl = ground arith

length-if :
    {A B : Type 0} (b : Bool) (p q : A) (xs ys : List A) (x d : B) (o : Option B)
    → (if b then some x else o) ≡ some d
    → (o ≡ some d → length ys ≡ length xs)
    → length (if b then p ∷ xs else q ∷ ys) ≡ suc (length xs)
length-if true p q xs ys x d o h f = refl
length-if false p q xs ys x d o h f = ap suc (f h)

module _ (F : FloatOps) where
  pub find-store :
      (k : String) (c : LoginClient F) (cs : List (String × LoginClient F))
      → find F k (store F k c cs) ≡ some c
  unfolding find store
  find-store k c [] = rw (str_eq_refl k) refl
  find-store k c ((j, d) ∷ rest) =
      if_elim (λ l. find F k l ≡ some c) (str_eq j k) {x = (k, c) ∷ rest}
        {y = (j, d) ∷ store F k c rest} (λ h. rw (str_eq_refl k) refl)
        (λ h. rw h (find-store k c rest))

  -- A client that is found first stays the first when clients are dropped, if it is not dropped.
  pub find-filter :
      (p : String × LoginClient F → Bool) (k : String) (c : LoginClient F)
      (cs : List (String × LoginClient F))
      → ((j : String) → p (j, c) ≡ true)
      → find F k cs ≡ some c
      → find F k (filter p cs) ≡ some c
  unfolding find
  find-filter p k c [] keep h = h
  find-filter p k c ((j, d) ∷ rest) keep h =
      if_elim (λ l. find F k l ≡ some c) (p (j, d)) {x = (j, d) ∷ filter p rest} {y = filter p rest}
        (λ hp.
          then_else-some (str_eq j k) d c (find F k rest) (find F k (filter p rest)) h
            (λ e. find-filter p k c rest keep e))
        (λ hp.
          else-some (λ x. p (j, x)) (str_eq j k) d c (find F k rest) (find F k (filter p rest))
            (keep j) hp h (λ e. find-filter p k c rest keep e))

  length-store-some :
      (k : String) (c d : LoginClient F) (cs : List (String × LoginClient F))
      → find F k cs ≡ some d
      → length (store F k c cs) ≡ length cs
  unfolding find store
  length-store-some k c d [] h = ground arith
  length-store-some k c d ((j, x) ∷ rest) h =
      length-if (str_eq j k) (k, c) (j, x) rest (store F k c rest) x d (find F k rest) h
        (length-store-some k c d rest)

  length-store :
      (k : String) (c : LoginClient F) (cs : List (String × LoginClient F))
      → length (store F k c cs) ≤ suc (length cs)
  unfolding store
  length-store k c [] = omega arith
  length-store k c ((j, x) ∷ rest) =
      if_elim (λ l. length l ≤ suc (suc (length rest))) (str_eq j k) {x = (k, c) ∷ rest}
        {y = (j, x) ∷ store F k c rest} (λ h. omega arith)
        (λ h. omega (arith, length-store k c rest))

  abbrev pub IsBounded : ℕ → LoginAdmission F → Type 0
  IsBounded m a = (length a.clients ≤ m) × (a.max_clients ≡ m)

  prune-IsBounded :
      (m : ℕ) (now : ℕ) (a : LoginAdmission F) → IsBounded m a → IsBounded m (prune F now a)
  unfolding prune
  prune-IsBounded m now a h = (
    omega (
      arith,
      h.0,
      length-filter (λ (p : String × LoginClient F). ltb now (p.1.time_seen + a.client_idle))
          a.clients,
    ),
    h.1,
  )

  allow_client-IsBounded :
      (m : ℕ) (k : String) (c : LoginClient F) (now : ℕ) (a : LoginAdmission F)
      → ((d : LoginClient F) → length (store F k d a.clients) ≤ m)
      → a.max_clients ≡ m
      → IsBounded m ((allow_client F k c now a).0)
  unfolding allow_client
  allow_client-IsBounded m k c now a h e =
      let P = λ (o : LoginAdmission F × ℕ × Bool). IsBounded m (o.0) in
      let global = refill F a.global a.global_rate a.global_burst now in
      if_elim P (ltb now c.blocked_until) (λ hb. (h (record c { time_seen = now }), e))
        (λ hb.
          if_elim P (F.lt global.tokens (F.of_int 1)) (λ hg. (h _, e))
            (λ hg.
              if_elim P
                (F.lt ((refill F c.bucket a.client_rate a.client_burst now).tokens) (F.of_int 1))
                (λ hc. (h _, e)) (λ hc. (h _, e))))

  allow_found-IsBounded :
      (m : ℕ) (k : String) (now : ℕ) (a : LoginAdmission F) (o : Option (LoginClient F))
      → find F k a.clients ≡ o
      → IsBounded m a
      → IsBounded m ((allow_found F k o now a).0)
  unfolding allow_found
  allow_found-IsBounded m k now a none e h =
      if_elim (λ (o : LoginAdmission F × ℕ × Bool). IsBounded m (o.0))
        (leb a.max_clients (length a.clients)) {x = (a, a.client_idle, false)}
        {y = allow_client F k (new_client F a now) now a} (λ hl. h)
        (λ hl.
          allow_client-IsBounded m k (new_client F a now) now a
            (λ d. omega (
              arith,
              h.1,
              le-not_leb a.max_clients (length a.clients) (length (store F k d a.clients)) hl
                  (length-store k d a.clients),
            ))
            h.1)
  allow_found-IsBounded m k now a (some c) e h =
      allow_client-IsBounded m k c now a (λ d. rw (length-store-some k d c a.clients e) h.0) h.1

  allow-IsBounded :
      (m : ℕ) (k : String) (now : ℕ) (a : LoginAdmission F)
      → IsBounded m a
      → IsBounded m ((allow F k now a).0)
  unfolding allow
  allow-IsBounded m k now a h =
      allow_found-IsBounded m k now (prune F now a) (find F k ((prune F now a).clients)) refl
        (prune-IsBounded m now a h)

  fail_found-IsBounded :
      (m : ℕ) (k : String) (now : ℕ) (a : LoginAdmission F) (o : Option (LoginClient F))
      → find F k a.clients ≡ o
      → IsBounded m a
      → IsBounded m (fail_found F k o now a)
  unfolding fail_found
  fail_found-IsBounded m k now a none e h = h
  fail_found-IsBounded m k now a (some c) e h =
      (rw (length-store-some k (fail_client F now c) c a.clients e) h.0, h.1)

  succeed_found-IsBounded :
      (m : ℕ) (k : String) (now : ℕ) (a : LoginAdmission F) (o : Option (LoginClient F))
      → find F k a.clients ≡ o
      → IsBounded m a
      → IsBounded m (succeed_found F k o now a)
  unfolding succeed_found
  succeed_found-IsBounded m k now a none e h = h
  succeed_found-IsBounded m k now a (some c) e h = (
    rw
        (length-store-some k (record c { failures = 0; blocked_until = 0; time_seen = now }) c
          a.clients e)
        h.0,
    h.1,
  )

  run_call-IsBounded :
      (m : ℕ) (c : Call F) (a : LoginAdmission F) → IsBounded m a → IsBounded m (run_call F c a)
  unfolding run_call failed succeeded
  run_call-IsBounded m (allowing k now) a h = allow-IsBounded m k now a h
  run_call-IsBounded m (failing k now) a h =
      fail_found-IsBounded m k now a (find F k a.clients) refl h
  run_call-IsBounded m (succeeding k now) a h =
      succeed_found-IsBounded m k now a (find F k a.clients) refl h

  run_calls-IsBounded :
      (m : ℕ) (calls : List (Call F)) (a : LoginAdmission F)
      → IsBounded m a
      → IsBounded m (run_calls F calls a)
  unfolding run_calls
  run_calls-IsBounded m [] a h = h
  run_calls-IsBounded m (c ∷ cs) a h =
      run_calls-IsBounded m cs (run_call F c a) (run_call-IsBounded m c a h)

  -- If the table of clients has at most the configured number of entries, then it has after any calls of
  -- `allow`, `failed` and `succeeded`, with any addresses and times.
  pub run_calls-length :
      (calls : List (Call F)) (a : LoginAdmission F)
      → length a.clients ≤ a.max_clients
      → length ((run_calls F calls a).clients) ≤ a.max_clients
  run_calls-length calls a h = (run_calls-IsBounded a.max_clients calls a (h, refl)).0
