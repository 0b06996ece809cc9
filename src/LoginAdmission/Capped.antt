-- ===== src/LoginAdmission/Capped.antt =====
-- No bucket of internal/storage/admin_login.go holds more than its burst.
use modelcairn.Base.{
  ℕ, ◌<◌, String, Bool, Option, none, some, List, [], ◌∷◌, ◌≡◌, leb, ltb, length, str_eq, filter,
  All, if_elim, arith,
}
use modelcairn.LoginAdmission.{
  FloatOps, LoginBucket, LoginClient, LoginAdmission, Call, allowing, failing, succeeding, refill,
  find, store, prune, allow_client, new_client, allow_found, allow, fail_client, fail_found,
  succeed_found, failed, succeeded, run_call, run_calls,
}
use modelcairn.LoginAdmission.Buckets.{IsOrdered, Fits, refill-Fits}

All-filter :
    {A : Type 0} (P : A → Type 0) (p : A → Bool) (xs : List A) → All P xs → All P (filter p xs)
All-filter P p [] h = tt
All-filter P p (x ∷ xs) h =
    if_elim (All P) (p x) (λ k. (h.0, All-filter P p xs h.1)) (λ k. All-filter P p xs h.1)

module _ (F : FloatOps) (O : IsOrdered F) where
  open F use {of_int, lt}

  abbrev pub IsCappedClient : ℕ → String × LoginClient F → Type 0
  IsCappedClient burst p = Fits F burst (p.1.bucket)

  -- The settings, and buckets with at most as many tokens as they say.
  pub record IsCapped (global_burst client_burst : ℕ) (a : LoginAdmission F) : Type 0 where
    pub global_is : a.global_burst ≡ global_burst
    pub client_is : a.client_burst ≡ client_burst
    pub idle : 0 < a.client_idle
    pub global : Fits F a.global_burst a.global
    pub clients : All (IsCappedClient a.client_burst) a.clients

  All-store :
      (P : String × LoginClient F → Type 0) (k : String) (c : LoginClient F)
      (cs : List (String × LoginClient F))
      → P (k, c)
      → All P cs
      → All P (store F k c cs)
  unfolding store
  All-store P k c [] h hs = (h, tt)
  All-store P k c ((j, d) ∷ rest) h hs =
      if_elim (All P) (str_eq j k) (λ e. (h, hs.1)) (λ e. (hs.0, All-store P k c rest h hs.1))

  abbrev FitsFound : ℕ → Option (LoginClient F) → Type 0
  FitsFound burst none = Unit
  FitsFound burst (some c) = Fits F burst c.bucket

  find-Fits :
      (burst : ℕ) (k : String) (cs : List (String × LoginClient F))
      → All (IsCappedClient burst) cs
      → FitsFound burst (find F k cs)
  unfolding find
  find-Fits burst k [] h = tt
  find-Fits burst k ((j, c) ∷ rest) h =
      if_elim (FitsFound burst) (str_eq j k) (λ e. h.0) (λ e. find-Fits burst k rest h.1)

  module _ (g b : ℕ) where
    state-IsCapped :
        (a : LoginAdmission F) (global : LoginBucket F) (clients : List (String × LoginClient F))
        → IsCapped g b a
        → Fits F a.global_burst global
        → All (IsCappedClient a.client_burst) clients
        → IsCapped g b (record a { global = global; clients = clients })
    state-IsCapped a global clients h gf cf = record {
      global_is = h.global_is;
      client_is = h.client_is;
      idle = h.idle;
      global = gf;
      clients = cf;
    }

    put-IsCapped :
        (k : String) (c : LoginClient F) (a : LoginAdmission F)
        → Fits F a.client_burst c.bucket
        → IsCapped g b a
        → IsCapped g b (record a { clients = store F k c a.clients })
    put-IsCapped k c a f h =
        state-IsCapped a a.global (store F k c a.clients) h h.global
          (All-store (IsCappedClient a.client_burst) k c a.clients f h.clients)

    allow_client-IsCapped :
        (k : String) (c : LoginClient F) (now : ℕ) (a : LoginAdmission F)
        → Fits F a.client_burst c.bucket
        → IsCapped g b a
        → IsCapped g b ((allow_client F k c now a).0)
    unfolding allow_client
    allow_client-IsCapped k c now a f h =
        let P = λ (o : LoginAdmission F × ℕ × Bool). IsCapped g b (o.0) in
        let global = refill F a.global a.global_rate a.global_burst now in
        let bucket = refill F c.bucket a.client_rate a.client_burst now in
        let gf = refill-Fits F O a.global a.global_rate a.global_burst now h.global in
        let bf = refill-Fits F O c.bucket a.client_rate a.client_burst now f in
        let put = All-store (IsCappedClient a.client_burst) k in
        if_elim P (ltb now c.blocked_until) (λ e. put-IsCapped k _ a f h)
          (λ e.
            if_elim P (lt global.tokens (of_int 1))
              (λ e. state-IsCapped a global _ h gf (put _ a.clients bf h.clients))
              (λ e.
                if_elim P (lt bucket.tokens (of_int 1))
                  (λ e. state-IsCapped a global _ h gf (put _ a.clients bf h.clients))
                  (λ e.
                    state-IsCapped a _ _ h (O.less a.global_burst _ gf)
                      (put _ a.clients (O.less a.client_burst _ bf) h.clients))))

    allow_found-IsCapped :
        (k : String) (o : Option (LoginClient F)) (now : ℕ) (a : LoginAdmission F)
        → FitsFound a.client_burst o
        → IsCapped g b a
        → IsCapped g b ((allow_found F k o now a).0)
    unfolding allow_found
    allow_found-IsCapped k (some c) now a f h = allow_client-IsCapped k c now a f h
    allow_found-IsCapped k none now a f h =
        if_elim (λ (o : LoginAdmission F × ℕ × Bool). IsCapped g b (o.0))
          (leb a.max_clients (length a.clients)) (λ e. h)
          (λ e.
            allow_client-IsCapped k (new_client F a now) now a
              (O.mono a.client_burst a.client_burst (omega arith)) h)

    prune-IsCapped :
        (now : ℕ) (a : LoginAdmission F) → IsCapped g b a → IsCapped g b (prune F now a)
    unfolding prune
    prune-IsCapped now a h = record {
      global_is = h.global_is;
      client_is = h.client_is;
      idle = h.idle;
      global = h.global;
      clients = All-filter (IsCappedClient a.client_burst) _ a.clients h.clients;
    }

    failed-IsCapped :
        (k : String) (o : Option (LoginClient F)) (now : ℕ) (a : LoginAdmission F)
        → FitsFound a.client_burst o
        → IsCapped g b a
        → IsCapped g b (fail_found F k o now a)
    unfolding fail_found fail_client
    failed-IsCapped k none now a f h = h
    failed-IsCapped k (some c) now a f h = put-IsCapped k _ a f h

    succeeded-IsCapped :
        (k : String) (o : Option (LoginClient F)) (now : ℕ) (a : LoginAdmission F)
        → FitsFound a.client_burst o
        → IsCapped g b a
        → IsCapped g b (succeed_found F k o now a)
    unfolding succeed_found
    succeeded-IsCapped k none now a f h = h
    succeeded-IsCapped k (some c) now a f h = put-IsCapped k _ a f h

    run_call-IsCapped :
        (c : Call F) (a : LoginAdmission F) → IsCapped g b a → IsCapped g b (run_call F c a)
    unfolding run_call allow failed succeeded
    run_call-IsCapped (allowing k now) a h =
        let p = prune-IsCapped now a h in
        allow_found-IsCapped k _ now (prune F now a)
          (find-Fits _ k ((prune F now a).clients) p.clients) p
    run_call-IsCapped (failing k now) a h =
        failed-IsCapped k _ now a (find-Fits _ k a.clients h.clients) h
    run_call-IsCapped (succeeding k now) a h =
        succeeded-IsCapped k _ now a (find-Fits _ k a.clients h.clients) h

    pub run_calls-IsCapped :
        (calls : List (Call F)) (a : LoginAdmission F)
        → IsCapped g b a
        → IsCapped g b (run_calls F calls a)
    unfolding run_calls
    run_calls-IsCapped [] a h = h
    run_calls-IsCapped (c ∷ cs) a h =
        run_calls-IsCapped cs (run_call F c a) (run_call-IsCapped c a h)
