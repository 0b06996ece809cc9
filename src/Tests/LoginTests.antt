-- ===== src/Tests/LoginTests.antt =====
-- Login attempts of one client, and failed logins that are counted and flushed.
use modelcairn.Base.{
  String, str_eq, true, ℕ, ◌+◌, ◌-◌, ◌*◌, ◌/◌, ◌≤◌, ◌<◌, false, some, List, [], ◌∷◌, ◌≡◌, refl, ltb,
  length, arith,
}
use modelcairn.LoginAdmission.{
  FloatOps, LoginClient, LoginAdmission, second, find, store, refill, prune, allow_client,
  allow_found, allow, failed, delay_of, Call, allowing, failing, succeeding, run_calls, run_call,
  succeeded, fail_client, fail_found, succeed_found,
}
use modelcairn.LoginAdmission.Clients.{run_calls-length}
use modelcairn.LoginAdmission.Buckets.{IsOrdered}
use modelcairn.LoginAdmission.Capped.{IsCapped}
use modelcairn.LoginAdmission.Admissions.{admissions}
use modelcairn.LoginAdmission.Bursts.{admissions-burst}
use modelcairn.LoginAdmission.Backoff.{IsRefused, failed-allow}
use modelcairn.LoginStats.Service.{
  World, Event, failed_login, tick, closed_flush, commit, rollback, run,
}
use modelcairn.LoginStats.Conservation.{grand_total, IsValid}
use modelcairn.LoginStats.Traces.{recorded_all, dropped_all, run-conserves}

-- Numbers of thousandths.
abbrev thousandths : FloatOps
thousandths = record {
  Float = ℕ;
  of_int = λ n. n * 1000;
  add = λ a b. a + b;
  sub = λ a b. a - b;
  mul = λ a b. a * b / 1000;
  lt = ltb;
  minutes = λ ns. ns / 60000000;
  retry_duration = λ missing rate. missing * 60000000 / rate;
}

abbrev client : LoginClient thousandths
client = record {
  bucket = record { tokens = 3000; updated = 1000 };
  failures = 1;
  blocked_until = 0;
  time_seen = 1000;
}

abbrev admission : LoginAdmission thousandths
admission = record {
  global = record { tokens = 5000; updated = 1000 };
  clients = ("10.0.0.1", client) ∷ [];
  global_rate = 30;
  global_burst = 5;
  client_rate = 5;
  client_burst = 3;
  max_clients = 64;
  client_idle = 900 * second;
}

abbrev calls : List (Call thousandths)
calls = allowing "10.0.0.2" 2000 ∷ failing "10.0.0.2" 2100 ∷ succeeding "10.0.0.1" 2200 ∷ []

run_calls-length_example : length ((run_calls thousandths calls admission).clients) ≤ 64
run_calls-length_example = run_calls-length thousandths calls admission (omega arith)

client_found : find thousandths "10.0.0.1" admission.clients ≡ some client
unfolding find
client_found = refl

one_delay : 2000 + second < 2000 + delay_of 2
unfolding delay_of
one_delay = ground arith

failed-allow_example :
    IsRefused thousandths
      (2000 + delay_of 2 - (2000 + second))
      (allow thousandths "10.0.0.1" (2000 + second) (failed thousandths "10.0.0.1" 2000 admission))
failed-allow_example =
    failed-allow thousandths "10.0.0.1" client 2000 (2000 + second) admission client_found
      (omega arith) (omega arith) one_delay

thousandths-IsOrdered : IsOrdered thousandths
thousandths-IsOrdered = record {
  mono = λ n m h. ground arith;
  below_one = λ x h. ground arith;
  take_one = λ n x b h. ground arith;
  less = λ n x h. ground arith;
}

admission-IsCapped : IsCapped thousandths thousandths-IsOrdered 5 3 admission
admission-IsCapped = record {
  global_is = refl;
  client_is = refl;
  idle = omega arith;
  global = refl;
  clients = (refl, tt);
}

-- Four logins of one address and one of another, at the same instant.
abbrev burst : List (Call thousandths)
burst =
    allowing "10.0.0.3" 9000
    ∷ allowing "10.0.0.3" 9000
    ∷ allowing "10.0.0.3" 9000
    ∷ allowing "10.0.0.3" 9000
    ∷ allowing "10.0.0.4" 9000
    ∷ []

three_admitted :
    admissions thousandths (λ k. str_eq k "10.0.0.3") burst (run_calls thousandths calls admission)
    ≡ 3
unfolding find store refill prune allow_client allow_found allow failed succeeded run_call run_calls
    fail_client fail_found succeed_found
three_admitted = refl

admissions-burst_example :
    (admissions thousandths (λ k. true) burst (run_calls thousandths calls admission) ≤ 5)
    × ((k : String)
        → admissions thousandths (λ j. str_eq j k) burst (run_calls thousandths calls admission)
          ≤ 3)
admissions-burst_example =
    admissions-burst thousandths thousandths-IsOrdered 5 3 admission admission-IsCapped
      (omega arith) (omega arith) calls 9000 (omega arith) burst
      (refl, (refl, (refl, (refl, (refl, tt)))))

abbrev world : World
world = record {
  service = record { retention_seconds = 0; minute = 0; counts = []; closed = false };
  flight = [];
  rows = [];
}

abbrev events : List Event
events =
    failed_login "throttled" 65
    ∷ failed_login "malformed" 66
    ∷ tick 70
    ∷ rollback 0
    ∷ failed_login "throttled" 130
    ∷ commit 0
    ∷ closed_flush 140
    ∷ rollback 0
    ∷ []

world-IsValid : IsValid world
world-IsValid = record { counts = tt; flight = tt; no_retention = refl }

run-conserves_example :
    grand_total (run events world) + dropped_all events world
    ≡ grand_total world + recorded_all events
run-conserves_example = run-conserves events world world-IsValid (ground arith)
