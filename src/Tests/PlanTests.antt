-- ===== src/Tests/PlanTests.antt =====
-- A plan for two resources: issued, verified on the resources in another order, and executed twice.
use mathlib.Core.List.{Permᴰ}
use mathlib.Core.Path.{subst}
use modelcairn.Plan.Issued.{IsMac, IsReadBack}
use modelcairn.Plan.Outcomes.{IsRolledBack, execute-IsRolledBack}
use modelcairn.Base.{
  ℕ, arith, some-inj, true, false, none, some, [], ◌∷◌, ◌≡◌, refl, pos, ◌≢◌, ltb, leb, ◌+◌, All,
  if◌then◌else◌,
}
use modelcairn.Plan.Base64.{Bytes, IsByte, char, encode, decode}
use modelcairn.Plan.Order.{ObservedResource, less, same_key}
use modelcairn.Base.Text.{str_lt}
use modelcairn.Plan.Binding.{
  PlanBinding, failing, invalid_plan, plan_expired, Result, ok, fail, sorted, canonical_binding,
  bad_items, invalid_item, bad_digest,
}
use modelcairn.Plan.Canonical.{canonical_binding-order}
use modelcairn.Plan.Token.{
  PlanClaims, Crypto, Keys, plan_purpose, claims_for, cut, eq_bytes, check_claims, issue,
  authenticate, valid_plan_purpose, plan_mac_for_purpose,
}
use modelcairn.Plan.Verify.{verify}
use modelcairn.Plan.RoundTrip.{authenticate-issue, verify-issue}
use modelcairn.Plan.Execute.{Store, Db, Request, execute, is_consumed}
use modelcairn.Plan.Create.{create_plan_token, execute-create}
use modelcairn.Plan.Applied.{IsApplied, execute-IsApplied}
use modelcairn.Plan.SingleUse.{same, waited, changed, pruned, execute-single_use}
use modelcairn.Config.Patterns.{is_name}
use modelcairn.Base.Sort.{sort}

abbrev zeros : Bytes
zeros =
    0 ∷ 0 ∷ 0 ∷ 0 ∷ 0 ∷ 0 ∷ 0 ∷ 0 ∷ 0 ∷ 0 ∷ 0 ∷ 0 ∷ 0 ∷ 0 ∷ 0 ∷ 0 ∷ 0 ∷ 0 ∷ 0 ∷ 0 ∷ 0 ∷ 0 ∷ 0 ∷ 0
    ∷ 0 ∷ 0 ∷ 0 ∷ 0 ∷ 0 ∷ 0 ∷ 0 ∷ 0 ∷ []

-- 32 bytes of 0
abbrev digest : Bytes
digest =
    65 ∷ 65 ∷ 65 ∷ 65 ∷ 65 ∷ 65 ∷ 65 ∷ 65 ∷ 65 ∷ 65 ∷ 65 ∷ 65 ∷ 65 ∷ 65 ∷ 65 ∷ 65 ∷ 65 ∷ 65 ∷ 65
    ∷ 65 ∷ 65 ∷ 65 ∷ 65 ∷ 65 ∷ 65 ∷ 65 ∷ 65 ∷ 65 ∷ 65 ∷ 65 ∷ 65 ∷ 65 ∷ 65 ∷ 65 ∷ 65 ∷ 65 ∷ 65 ∷ 65
    ∷ 65 ∷ 65 ∷ 65 ∷ 65 ∷ 65 ∷ []

abbrev present : ObservedResource
present = record { kind = "Provider"; name = "acme"; id = "p-1"; version = pos 3 }

abbrev missing : ObservedResource
missing = record { kind = "Model"; name = "large"; id = ""; version = pos 0 }

abbrev binding : PlanBinding
binding = record { revision = pos 7; digest = digest; observed = present ∷ missing ∷ [] }

abbrev keys : Keys
keys = record {
  installation_id = "here";
  active_key_version = pos 1;
  active_key = zeros;
  unavailable = false;
}

abbrev claims : PlanClaims
claims = record {
  version = pos 1;
  purpose = plan_purpose;
  installation_id = "here";
  key_version = pos 1;
  binding = record { revision = pos 7; digest = digest; observed = missing ∷ present ∷ [] };
  nonce = digest;
  issued_at = pos 1000;
  expires_at = pos 1600;
}

-- Every text is the same one, and it is read as the claims above.
abbrev toy : Crypto
toy = record {
  hkdf_key = λ key installation purpose. some key;
  hmac = λ key message. zeros;
  sha256 = λ bytes. bytes;
  marshal = λ c. some (123 ∷ 125 ∷ []);
  unmarshal = λ bytes. some claims;
  marshal_binding = λ b. some (123 ∷ 125 ∷ []);
}

digest_decodes : encode zeros ≡ digest
unfolding encode char
digest_decodes = refl

abbrev token : Bytes
token = 101 ∷ 51 ∷ 48 ∷ 46 ∷ digest

issued : issue toy keys plan_purpose binding (pos 1000) (some zeros) ≡ ok token
unfolding issue canonical_binding bad_items invalid_item bad_digest encode char decode less str_lt
    is_name valid_plan_purpose sort same_key plan_mac_for_purpose
issued = refl

zeros_are_bytes : All IsByte zeros
zeros_are_bytes = omega arith

reordered : Permᴰ (present ∷ missing ∷ []) (missing ∷ present ∷ [])
reordered = Permᴰ.swap refl refl

canonical_binding-order_example :
    canonical_binding binding
    ≡ canonical_binding (record binding { observed = missing ∷ present ∷ [] })
canonical_binding-order_example = canonical_binding-order binding (missing ∷ present ∷ []) reordered

macs : IsMac toy
macs key message = (refl, zeros_are_bytes)

reads_back : IsReadBack toy (claims_for toy keys plan_purpose (sorted binding) (pos 1000) zeros)
unfolding sort less str_lt encode char
reads_back payload h =
    (refl, subst (All IsByte) (some-inj (123 ∷ 125 ∷ []) payload h) (omega arith))

authenticate-issue_example : authenticate toy keys plan_purpose token (pos 1600) ≡ (
    if ltb (1600 + 30) 1000
    then fail invalid_plan
    else if leb (1000 + 600) 1600
    then fail plan_expired
    else ok (claims_for toy keys plan_purpose (sorted binding) (pos 1000) zeros))
authenticate-issue_example =
    authenticate-issue toy macs keys plan_purpose binding 1000 1600 zeros token reads_back refl refl
      zeros_are_bytes issued

verify-issue_example :
    verify toy keys plan_purpose token
      (record binding { observed = missing ∷ present ∷ [] })
      (pos 1599)
    ≡ (claims_for toy keys plan_purpose (sorted binding) (pos 1000) zeros, none)
verify-issue_example =
    verify-issue toy macs keys plan_purpose binding 1000 1599 zeros token (missing ∷ present ∷ [])
      reads_back refl refl zeros_are_bytes issued reordered (omega arith) (omega arith)

-- The database reports nothing.
abbrev quiet : Db
quiet = record {
  begin_error = none;
  query_error = none;
  insert_error = none;
  commit_error = none;
  durable = true;
}

abbrev before : Store ℕ
before = record { keys = keys; consumed = []; content = 4 }

abbrev observe : ℕ → Result PlanBinding
observe n = ok binding

abbrev observe_later : ℕ → Result PlanBinding
observe_later n = ok (record binding { observed = missing ∷ present ∷ [] })

abbrev change : ℕ → Result ℕ
change n = ok (n + 1)

abbrev request : Request ℕ
request = record {
  purpose = plan_purpose;
  token = token;
  now = pos 1200;
  snapshot = some observe_later;
  apply = some change;
}

created :
    create_plan_token toy quiet before plan_purpose (pos 1000) (some zeros) (some observe)
    ≡ ok token
unfolding create_plan_token issue canonical_binding bad_items invalid_item bad_digest encode char
    decode less str_lt is_name valid_plan_purpose sort same_key plan_mac_for_purpose
created = refl

execute-create_example :
    execute toy quiet request before ≡ (none, record before { consumed = zeros ∷ []; content = 5 })
unfolding is_consumed
execute-create_example =
    execute-create toy macs quiet quiet before before plan_purpose 1000 1200 zeros token observe
      observe_later change binding (missing ∷ present ∷ []) 5 reads_back refl refl zeros_are_bytes
      refl created refl refl reordered refl refl (refl, refl, refl) (omega arith) (omega arith)

applied_once :
    execute toy quiet request before ≡ (none, record before { consumed = zeros ∷ []; content = 5 })
unfolding is_consumed execute verify authenticate cut eq_bytes check_claims canonical_binding
    bad_items invalid_item bad_digest encode char decode less str_lt is_name valid_plan_purpose sort
    same_key plan_mac_for_purpose
applied_once = refl

execute-IsApplied_example :
    IsApplied toy quiet request before (record before { consumed = zeros ∷ []; content = 5 })
execute-IsApplied_example =
    execute-IsApplied toy quiet request before
      (record before { consumed = zeros ∷ []; content = 5 }) applied_once

-- The database fails at the commit, after the change.
abbrev torn : Db
torn = record quiet { commit_error = some (failing "disk") }

execute-IsRolledBack_example :
    IsRolledBack toy torn request before (execute toy torn request before)
execute-IsRolledBack_example = execute-IsRolledBack toy torn request before

abbrev again : Request ℕ
again = record request { now = pos 1500 }

execute-single_use_example :
    (execute toy quiet again (record before { consumed = zeros ∷ []; content = 9 })).0 ≢ none
execute-single_use_example =
    execute-single_use toy quiet request before
      (record before { consumed = zeros ∷ []; content = 5 }) applied_once quiet again refl
      (record before { consumed = zeros ∷ []; content = 9 })
      (pruned (zeros ∷ []) (λ c nonce r d f kept. kept)
        (changed keys 9 (waited (pos 1500) refl same)))
