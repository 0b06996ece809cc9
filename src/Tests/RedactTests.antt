-- ===== src/Tests/RedactTests.antt =====
-- A secret that is registered twice and released once, and one that is released by both functions.
use modelcairn.Base.{true, List, [], ◌∷◌, ◌≡◌, refl, arith}
use modelcairn.Base.Sort.{sort}
use modelcairn.Plan.Base64.{Bytes}
use modelcairn.Plan.Token.{eq_bytes}
use modelcairn.Redact.{
  new, find, delete, set_refs, remove, values, registered, invalid_value, register, release, World,
  Event, registers, releases, handle_at, mark, step, run,
}
use modelcairn.Redact.Counts.{IsCounted}
use modelcairn.Redact.Runs.{new-IsCounted, run-IsCounted}
use modelcairn.Redact.Listed.{contains}
use modelcairn.Redact.Redacted.{new-IsSound, register-contains}

abbrev start : World
start = record { redactor = new; handles = [] }

-- A toy hash, which keeps every byte.
abbrev hash : Bytes → Bytes
hash value = value

abbrev secret : Bytes
secret = 1 ∷ 2 ∷ 3 ∷ 4 ∷ 5 ∷ 6 ∷ 7 ∷ 8 ∷ []

abbrev longer_secret : Bytes
longer_secret = 9 ∷ secret

abbrev once_released : List Event
once_released = registers secret ∷ registers longer_secret ∷ releases 1 ∷ releases 1 ∷ []

longest_first :
    values (run hash start (registers secret ∷ registers longer_secret ∷ [])).redactor
    ≡ longer_secret ∷ secret ∷ []
unfolding run register find sort eq_bytes
longest_first = refl

both_released :
    values
      (run hash start (registers secret ∷ registers secret ∷ releases 0 ∷ releases 1 ∷ [])).redactor
    ≡ []
unfolding run register release find set_refs delete remove handle_at mark sort eq_bytes
both_released = refl

short_refused : register hash new (1 ∷ 2 ∷ []) ≡ invalid_value
unfolding register
short_refused = refl

accepted_first : register hash new secret ≡ registered (step hash start (registers secret)).redactor
unfolding register find sort
accepted_first = refl

run-IsCounted_example : IsCounted (run hash start once_released)
run-IsCounted_example = run-IsCounted hash start once_released new-IsCounted

register-contains_example :
    contains secret (values (run hash (step hash start (registers secret)) once_released).redactor)
    ≡ true
register-contains_example =
    register-contains hash start secret (step hash start (registers secret)).redactor once_released
      new-IsSound accepted_first (tt, (tt, (λ e. ground arith, (λ e. ground arith, tt))))
