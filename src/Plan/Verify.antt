-- ===== src/Plan/Verify.antt =====
-- internal/storage/plan_token.go: the claims of a token are compared with the binding of the present snapshot.
use modelcairn.Base.{String, not, Option, none, some, [], pos, if◌then◌else◌, ℤ}
use modelcairn.Plan.Base64.{Bytes}
use modelcairn.Plan.Binding.{
  PlanBinding, PlanError, invalid_plan, repository, Result, ok, fail, canonical_binding,
}
use modelcairn.Plan.Token.{PlanClaims, Crypto, Keys, eq_bytes, authenticate}

-- `planClaims{}`
abbrev pub no_claims : PlanClaims
no_claims = record {
  version = pos 0;
  purpose = "";
  installation_id = "";
  key_version = pos 0;
  binding = record { revision = pos 0; digest = []; observed = [] };
  nonce = [];
  issued_at = pos 0;
  expires_at = pos 0;
}

-- What a caller that ignores the error reads.
abbrev pub or_nil : Option Bytes → Bytes
or_nil none = []
or_nil (some bytes) = bytes

module _ (S : Crypto) where
  abbrev pub compare_bindings :
      PlanClaims → Result PlanBinding → Result PlanBinding → PlanClaims × Option PlanError
  compare_bindings c (fail e) actual = (no_claims, some e)
  compare_bindings c (ok binding) (fail e) = (no_claims, some e)
  compare_bindings c (ok binding) (ok actual) =
      if not (eq_bytes actual.digest binding.digest)
      then (c, some invalid_plan)
      else if not
          (eq_bytes (or_nil (S.marshal_binding binding)) (or_nil (S.marshal_binding actual)))
      then (c, some (repository "version_conflict"))
      else (c, none)

  unfoldable pub verify_plan_binding : PlanClaims → PlanBinding → PlanClaims × Option PlanError
  verify_plan_binding c binding =
      compare_bindings c (canonical_binding binding) (canonical_binding c.binding)

  abbrev pub verify_claims : Result PlanClaims → PlanBinding → PlanClaims × Option PlanError
  verify_claims (fail e) binding = (no_claims, some e)
  verify_claims (ok c) binding = verify_plan_binding c binding

  -- `verifyPlanTokenForPurposeLocked`
  unfoldable pub verify : Keys → String → Bytes → PlanBinding → ℤ → PlanClaims × Option PlanError
  unfolding verify_plan_binding
  verify s purpose token binding now = verify_claims (authenticate S s purpose token now) binding
