-- ===== src/Plan/RoundTrip.antt =====
-- A token that was issued is accepted for the time that it is valid, on the snapshot that it was issued for.
use mathlib.Core.List.{Permᴰ}
use modelcairn.Base.{
  ℕ, ◌+◌, ◌≤◌, ◌<◌, String, false, none, some, List, ltb, leb, length, pos, ◌≡◌, refl, sym, ◌∙◌,
  arith, All, if◌then◌else◌,
}
use modelcairn.Plan.Base64.{Bytes, IsByte}
use modelcairn.Plan.Order.{ObservedResource}
use modelcairn.Plan.Binding.{
  PlanBinding, invalid_plan, plan_expired, ok, fail, canonical_binding, sorted,
}
use modelcairn.Plan.Canonical.{canonical_binding-order, canonical_binding_idem}
use modelcairn.Plan.Token.{PlanClaims, Crypto, Keys, claims_for, authenticate, issue}
use modelcairn.Plan.Verify.{or_nil, verify_plan_binding, verify}
use modelcairn.Plan.Issued.{
  IsMac, IsReadBack, issue-IsIssue, eq_bytes_refl, check_claims-issued, authenticate-IsIssue,
}

-- Let a token be issued at the second `t`, with a nonce of 32 bytes, by a store whose keys are available, and let
-- the codes of crypto/hmac have 32 bytes and encoding/json read back what it writes of claims. The same store
-- authenticates the token for the same purpose, with the claims that were signed, from 30 seconds before `t` until
-- 600 seconds after it; from then on the answer is that the plan has expired, and before that it is invalid.
pub authenticate-issue :
    (S : Crypto) (law : IsMac S) (s : Keys) (purpose : String) (b : PlanBinding) (t u : ℕ)
    (nonce token : Bytes)
    → IsReadBack S (claims_for S s purpose (sorted b) (pos t) nonce)
    → s.unavailable ≡ false
    → length nonce ≡ 32
    → All IsByte nonce
    → issue S s purpose b (pos t) (some nonce) ≡ ok token
    → authenticate S s purpose token (pos u) ≡ (
        if ltb (u + 30) t
        then fail invalid_plan
        else if leb (t + 600) u
        then fail plan_expired
        else ok (claims_for S s purpose (sorted b) (pos t) nonce))
authenticate-issue S law s purpose b t u nonce token json available hl hb h =
    authenticate-IsIssue S law s purpose b (pos t) (pos u) nonce token json
      (issue-IsIssue S s purpose b (pos t) nonce token h) available
    ∙ check_claims-issued S s purpose (sorted b) t u nonce hl hb

not_before : (n t : ℕ) → t ≤ n → ltb n t ≡ false
not_before n t h = ground arith

not_over : (n u : ℕ) → u < n → leb n u ≡ false
not_over n u h = ground arith

same_binding :
    (S : Crypto) (c : PlanClaims) (b d : PlanBinding)
    → canonical_binding b ≡ ok d
    → canonical_binding (c.binding) ≡ ok d
    → verify_plan_binding S c b ≡ (c, none)
unfolding verify_plan_binding
same_binding S c b d h k =
    rw (h, k, eq_bytes_refl d.digest, eq_bytes_refl (or_nil (S.marshal_binding d))) refl

-- Under the conditions of `authenticate-issue`, and while the token is valid, its verification succeeds with the
-- claims that were signed, on a binding with the revision and the digest that it was issued for, and with the same observed resources in
-- any order.
pub verify-issue :
    (S : Crypto) (law : IsMac S) (s : Keys) (purpose : String) (b : PlanBinding) (t u : ℕ)
    (nonce token : Bytes) (observed : List ObservedResource)
    → IsReadBack S (claims_for S s purpose (sorted b) (pos t) nonce)
    → s.unavailable ≡ false
    → length nonce ≡ 32
    → All IsByte nonce
    → issue S s purpose b (pos t) (some nonce) ≡ ok token
    → Permᴰ b.observed observed
    → t ≤ u + 30
    → u < t + 600
    → verify S s purpose token (record b { observed = observed }) (pos u)
      ≡ (claims_for S s purpose (sorted b) (pos t) nonce, none)
unfolding verify
verify-issue S law s purpose b t u nonce token observed json available hl hb h p early late =
    let issued = issue-IsIssue S s purpose b (pos t) nonce token h in
    rw
      (
        authenticate-issue S law s purpose b t u nonce token json available hl hb h,
        not_before (u + 30) t early,
        not_over (t + 600) u late,
      )
      (same_binding S (claims_for S s purpose (sorted b) (pos t) nonce)
        (record b { observed = observed }) (sorted b)
        (sym (canonical_binding-order b observed p) ∙ issued.canonical)
        (canonical_binding_idem b (sorted b) issued.canonical))
