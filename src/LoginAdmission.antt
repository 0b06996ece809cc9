-- ===== src/LoginAdmission.antt =====
-- The admission of login attempts in internal/storage/admin_login.go: token buckets for all clients and
-- for each, and a delay after failures. Times and durations are nanoseconds; the zero time is 0.
pub mod Clients
pub mod Buckets
pub mod Capped
pub mod Held
pub mod Admissions
pub mod Bursts
pub mod Backoff
pub mod Tokens
use modelcairn.Base.{
  ℕ, suc, ◌+◌, ◌-◌, ◌*◌, ◌/◌, ◌^◌, String, Bool, true, false, ◌≡◌, Option, none, some, List, [],
  ◌∷◌, ltb, leb, ◌==◌, not, str_eq, if◌then◌else◌, length, filter,
}

-- float64, which the buckets count in: conversions, arithmetic and comparison. `minutes` is
-- `Duration.Minutes`, and `retry_duration m r` the conversion of `m / float64(r) * float64(time.Minute)`.
pub record FloatOps : Type 1 where
  pub Float : Type 0
  pub of_int : ℕ → Float
  pub add : Float → Float → Float
  pub sub : Float → Float → Float
  pub mul : Float → Float → Float
  pub lt : Float → Float → Bool
  pub minutes : ℕ → Float
  pub retry_duration : Float → ℕ → ℕ

abbrev pub second : ℕ
second = 1000000000

abbrev pub minute : ℕ
minute = 60000000000

-- the largest multiple of a second that is needed; at least one
unfoldable pub ceil_second : ℕ → ℕ
ceil_second value = if value == 0 then second else (value + second - 1) / second * second

-- One more failure, of which six are counted, and the delay that follows it.
abbrev pub more_failures : ℕ → ℕ
more_failures failures = if ltb failures 6 then failures + 1 else failures

unfoldable pub delay_of : ℕ → ℕ
delay_of failures =
    let delay = second * 2 ^ (failures - 1) in
    if ltb (30 * second) delay then 30 * second else delay

module _ (F : FloatOps) where
  open F use {Float, of_int, add, sub, mul, lt, minutes, retry_duration}

  pub record LoginBucket : Type 0 where
    pub tokens : Float
    pub updated : ℕ

  pub record LoginClient : Type 0 where
    pub bucket : LoginBucket
    pub failures : ℕ
    pub blocked_until : ℕ
    pub time_seen : ℕ

  pub record LoginAdmission : Type 0 where
    pub global : LoginBucket
    pub clients : List (String × LoginClient)
    pub global_rate : ℕ
    pub global_burst : ℕ
    pub client_rate : ℕ
    pub client_burst : ℕ
    pub max_clients : ℕ
    pub client_idle : ℕ

  -- `bucket` at `now`: what `refill` leaves of it.
  unfoldable pub refill : LoginBucket → ℕ → ℕ → ℕ → LoginBucket
  refill bucket rate burst now =
      let tokens = add bucket.tokens (mul (minutes (now - bucket.updated)) (of_int rate)) in
      if bucket.updated == 0
      then record { tokens = of_int burst; updated = now }
      else if ltb bucket.updated now
      then record {
        tokens = if lt (of_int burst) tokens then of_int burst else tokens;
        updated = now;
      }
      else bucket

  unfoldable pub token_retry : LoginBucket → ℕ → ℕ
  unfolding ceil_second
  token_retry bucket rate =
      if ltb rate 1
      then minute
      else ceil_second (retry_duration (sub (of_int 1) bucket.tokens) rate)

  unfoldable pub find : String → List (String × LoginClient) → Option LoginClient
  find k [] = none
  find k ((j, c) ∷ rest) = if str_eq j k then some c else find k rest

  -- `a.clients[k] = c`
  unfoldable pub store :
      String → LoginClient → List (String × LoginClient) → List (String × LoginClient)
  store k c [] = (k, c) ∷ []
  store k c ((j, d) ∷ rest) =
      let rest' = store k c rest in if str_eq j k then (k, c) ∷ rest else (j, d) ∷ rest'

  unfoldable pub prune : ℕ → LoginAdmission → LoginAdmission
  prune now a = record a {
    clients =
        filter (λ (p : String × LoginClient). ltb now (p.1.time_seen + a.client_idle)) a.clients;
  }

  -- `allow` for a client that is known, or has just been made: the answer and the new state.
  unfoldable pub allow_client :
      String → LoginClient → ℕ → LoginAdmission → LoginAdmission × ℕ × Bool
  allow_client k found now a =
      let seen : LoginClient = record found { time_seen = now } in
      let global = refill a.global a.global_rate a.global_burst now in
      let bucket = refill seen.bucket a.client_rate a.client_burst now in
      let client : LoginClient = record seen { bucket = bucket } in
      let filled : LoginAdmission = record a {
        global = global;
        clients = store k client a.clients;
      } in
      if ltb now seen.blocked_until
      then (
        record a { clients = store k seen a.clients },
        ceil_second (seen.blocked_until - now),
        false,
      )
      else if lt global.tokens (of_int 1)
      then (filled, token_retry global a.global_rate, false)
      else if lt bucket.tokens (of_int 1)
      then (filled, token_retry bucket a.client_rate, false)
      else (
        record a {
          global = record global { tokens = sub global.tokens (of_int 1) };
          clients =
              store k
                (record client { bucket = record bucket { tokens = sub bucket.tokens (of_int 1) } })
                a.clients;
        },
        0,
        true,
      )

  abbrev pub new_client : LoginAdmission → ℕ → LoginClient
  new_client a now = record {
    bucket = record { tokens = of_int a.client_burst; updated = now };
    failures = 0;
    blocked_until = 0;
    time_seen = 0;
  }

  -- `allow` on the pruned state, by what it finds under the address.
  unfoldable pub allow_found :
      String → Option LoginClient → ℕ → LoginAdmission → LoginAdmission × ℕ × Bool
  unfolding allow_client
  allow_found k (some c) now a = allow_client k c now a
  allow_found k none now a =
      if leb a.max_clients (length a.clients)
      then (a, a.client_idle, false)
      else allow_client k (new_client a now) now a

  -- `k` is the address as `Unmap` leaves it.
  unfoldable pub allow : String → ℕ → LoginAdmission → LoginAdmission × ℕ × Bool
  unfolding allow_found prune
  allow k now a = let a' = prune now a in allow_found k (find k a'.clients) now a'

  unfoldable pub fail_client : ℕ → LoginClient → LoginClient
  unfolding delay_of
  fail_client now c =
      let failures = more_failures c.failures in
      record c { failures = failures; blocked_until = now + delay_of failures; time_seen = now }

  -- `failed` and `succeeded` by what they find under the address.
  unfoldable pub fail_found : String → Option (LoginClient) → ℕ → LoginAdmission → LoginAdmission
  unfolding fail_client
  fail_found k none now a = a
  fail_found k (some c) now a = record a { clients = store k (fail_client now c) a.clients }

  unfoldable pub failed : String → ℕ → LoginAdmission → LoginAdmission
  unfolding fail_found
  failed k now a = fail_found k (find k a.clients) now a

  unfoldable pub succeed_found : String → Option (LoginClient) → ℕ → LoginAdmission → LoginAdmission
  succeed_found k none now a = a
  succeed_found k (some c) now a = record a {
    clients = store k (record c { failures = 0; blocked_until = 0; time_seen = now }) a.clients;
  }

  unfoldable pub succeeded : String → ℕ → LoginAdmission → LoginAdmission
  unfolding succeed_found
  succeeded k now a = succeed_found k (find k a.clients) now a

  -- The calls that the login service makes, under `a.mu` one after the other.
  pub data Call : Type 0 where
    allowing : String → ℕ → Call
    failing : String → ℕ → Call
    succeeding : String → ℕ → Call

  unfoldable pub run_call : Call → LoginAdmission → LoginAdmission
  unfolding allow failed succeeded
  run_call (allowing k now) a = (allow k now a).0
  run_call (failing k now) a = failed k now a
  run_call (succeeding k now) a = succeeded k now a

  unfoldable pub run_calls : List Call → LoginAdmission → LoginAdmission
  run_calls [] a = a
  run_calls (c ∷ cs) a = run_calls cs (run_call c a)
