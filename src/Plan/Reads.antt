-- ===== src/Plan/Reads.antt =====
-- The claims that stand in a token, which a verification of internal/storage/plan_token.go returns.
use mathlib.Core.Path.{subst}
use modelcairn.Base.{
  ℤ, String, false, ◌||◌, not, Option, none, some, ◌≡◌, refl, ◌∙◌, ap, arith, if_elim, ltb, length,
  ◌==◌, leb_ℤ,
}
use modelcairn.Plan.Base64.{Bytes, decode}
use modelcairn.Plan.Binding.{PlanBinding, PlanError, Result, ok, ok-inj, fail, canonical_binding}
use modelcairn.Plan.Token.{
  PlanClaims, Crypto, Keys, valid_plan_purpose, max_plan_token_bytes, eq_bytes, cut,
  plan_mac_for_purpose, foreign, bad_nonce, bad_times, check_claims, check_canonical, check_parsed,
  check_payload, check_mac, check_parts, authenticate,
}
use modelcairn.Plan.Verify.{or_nil, compare_bindings, verify_plan_binding, verify_claims, verify}

module _ (S : Crypto) where
  abbrev payload_claims : Option Bytes → Option PlanClaims
  payload_claims none = none
  payload_claims (some payload) = S.unmarshal payload

  abbrev part_claims : Option (Bytes × Bytes) → Option PlanClaims
  part_claims none = none
  part_claims (some parts) = payload_claims (decode parts.0)

  -- The claims that stand in a token, whatever its signature.
  abbrev pub token_claims : Bytes → Option PlanClaims
  token_claims token = part_claims (cut token)

  module _ (s : Keys) (purpose : String) (now : ℤ) (c : PlanClaims) where
    -- The claims that are read, which have not expired.
    abbrev pub IsRead : Option PlanClaims → Type 0
    IsRead o = (o ≡ some c) × (leb_ℤ c.expires_at now ≡ false)

    check_claims-same : (d : PlanClaims) → check_claims S s purpose now d ≡ ok c → IsRead (some d)
    unfolding check_claims
    check_claims-same d =
        if_elim (λ r. r ≡ ok c → IsRead (some d))
          (foreign S s purpose d || bad_nonce S (decode d.nonce) || bad_times S d now)
          (λ k h. ground arith)
          (λ k.
            if_elim (λ r. r ≡ ok c → IsRead (some d)) (leb_ℤ d.expires_at now) (λ m h. ground arith)
              (λ m h.
                let e = ok-inj d c h in
                (ap some e, subst (λ (x : PlanClaims). leb_ℤ x.expires_at now ≡ false) e m)))

    check_canonical-same :
        (payload : Bytes) (d : PlanClaims) (canonical : Option Bytes)
        → check_canonical S s purpose now payload d canonical ≡ ok c
        → IsRead (some d)
    check_canonical-same payload d none h = ground arith
    check_canonical-same payload d (some canonical) h =
        if_elim (λ r. r ≡ ok c → IsRead (some d)) (eq_bytes payload canonical)
          (λ k m. check_claims-same d m) (λ k m. ground arith) h

    check_parsed-same :
        (payload : Bytes) (d : Option PlanClaims)
        → check_parsed S s purpose now payload d ≡ ok c
        → IsRead d
    check_parsed-same payload none h = ground arith
    check_parsed-same payload (some d) h = check_canonical-same payload d (S.marshal d) h

    check_payload-same :
        (payload : Option Bytes)
        → check_payload S s purpose now payload ≡ ok c
        → IsRead (payload_claims payload)
    check_payload-same none h = ground arith
    check_payload-same (some payload) h = check_parsed-same payload (S.unmarshal payload) h

    check_mac-same :
        (encoded : Bytes) (mac : Result Bytes) (provided : Option Bytes)
        → check_mac S s purpose now encoded mac provided ≡ ok c
        → IsRead (payload_claims (decode encoded))
    check_mac-same encoded (fail e) provided h = ground arith
    check_mac-same encoded (ok mac) none h = ground arith
    check_mac-same encoded (ok mac) (some provided) h =
        if_elim (λ r. r ≡ ok c → IsRead (payload_claims (decode encoded))) (eq_bytes mac provided)
          (λ k m. check_payload-same (decode encoded) m) (λ k m. ground arith) h

    check_parts-same :
        (parts : Option (Bytes × Bytes))
        → check_parts S s purpose now parts ≡ ok c
        → IsRead (part_claims parts)
    check_parts-same none h = ground arith
    check_parts-same (some (encoded, signature)) h =
        if_elim (λ r. r ≡ ok c → IsRead (payload_claims (decode encoded)))
          (not (length signature == 43)) (λ k m. ground arith)
          (λ k m.
            check_mac-same encoded (plan_mac_for_purpose S s purpose encoded) (decode signature) m)
          h

    authenticate-claims :
        (token : Bytes) → authenticate S s purpose token now ≡ ok c → IsRead (token_claims token)
    unfolding authenticate
    authenticate-claims token =
        if_elim (λ r. r ≡ ok c → IsRead (token_claims token)) (not (valid_plan_purpose purpose))
          (λ k h. ground arith)
          (λ k.
            if_elim (λ r. r ≡ ok c → IsRead (token_claims token)) s.unavailable
              (λ k h. ground arith)
              (λ k.
                if_elim (λ r. r ≡ ok c → IsRead (token_claims token))
                  (ltb max_plan_token_bytes (length token)) (λ k h. ground arith)
                  (λ k h. check_parts-same (cut token) h)))

    compare-same :
        (d : PlanClaims) (x y : Result PlanBinding) → compare_bindings S d x y ≡ (c, none) → d ≡ c
    compare-same d (fail e) y = λ h. ground arith
    compare-same d (ok x) (fail e) = λ h. ground arith
    compare-same d (ok x) (ok y) =
        let P = λ (r : PlanClaims × Option PlanError). r ≡ (c, none) → d ≡ c in
        if_elim P (not (eq_bytes y.digest x.digest)) (λ k h. ap (λ r. r.0) h)
          (λ k.
            if_elim P (not (eq_bytes (or_nil (S.marshal_binding x)) (or_nil (S.marshal_binding y))))
              (λ m h. ap (λ r. r.0) h) (λ m h. ap (λ r. r.0) h))

    verify-same :
        (token : Bytes) (binding : PlanBinding) (d : Result PlanClaims)
        → authenticate S s purpose token now ≡ d
        → verify_claims S d binding ≡ (c, none)
        → IsRead (token_claims token)
    unfolding verify_plan_binding
    verify-same token binding (fail e) ha h = ground arith
    verify-same token binding (ok d) ha h =
        authenticate-claims token
          (ha ∙ ap ok (compare-same d (canonical_binding binding) (canonical_binding d.binding) h))

    pub verify-claims :
        (token : Bytes) (binding : PlanBinding)
        → verify S s purpose token binding now ≡ (c, none)
        → IsRead (token_claims token)
    unfolding verify
    verify-claims token binding h =
        verify-same token binding (authenticate S s purpose token now) refl h
