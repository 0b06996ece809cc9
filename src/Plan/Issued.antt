-- ===== src/Plan/Issued.antt =====
-- What a token that was issued holds, and what its authentication comes down to.
use mathlib.Core.Path.{subst}
use modelcairn.Base.{
  ℕ, ◌+◌, String, true, false, not, Option, none, some, [], ◌∷◌, ◌++◌, ltb, leb, length, ℤ, pos,
  ◌≡◌, refl, sym, arith, All, if_elim, not-false, if◌then◌else◌, eq_ℤ_refl, eq_iff, length-append,
}
use modelcairn.Plan.Base64.{
  Bytes, IsByte, IsCode, encode, decode-encode, length-encode, encode-IsCode,
}
use modelcairn.Plan.Binding.{
  PlanBinding, invalid_plan, plan_expired, Result, ok, ok-inj, fail, canonical_binding, sorted,
}
use modelcairn.Plan.Canonical.{canonical_binding-sorted}
use modelcairn.Plan.Token.{
  PlanClaims, Crypto, Keys, eq_bytes, cut, claims_for, bad_times, check_claims, check_parts,
  authenticate, issue, plan_mac_for_purpose, with_mac, max_plan_token_bytes, valid_plan_purpose,
  keyed, signed, with_nonce, issue_canonical,
}

pub eq_bytes_refl : (xs : Bytes) → eq_bytes xs xs ≡ true
unfolding eq_bytes
eq_bytes_refl [] = refl
eq_bytes_refl (x ∷ xs) = ground (arith, eq_bytes_refl xs)

cut-append : (xs ys : Bytes) → All IsCode xs → cut (xs ++ 46 ∷ ys) ≡ some (xs, ys)
unfolding cut
cut-append [] ys h = refl
cut-append (x ∷ xs) ys h = rw (cut-append xs ys h.1) (ground (arith, h.0.1))

-- What crypto/hmac documents: a code of SHA-256 has 32 bytes.
abbrev pub IsMac : Crypto → Type 0
IsMac S =
    (key message : Bytes) → (length (S.hmac key message) ≡ 32) × All IsByte (S.hmac key message)

-- What encoding/json documents of claims: `json.Marshal` writes bytes that `json.Unmarshal` reads back.
abbrev pub IsReadBack : Crypto → PlanClaims → Type 0
IsReadBack S c =
    (payload : Bytes)
    → S.marshal c ≡ some payload
    → (S.unmarshal payload ≡ some c) × All IsByte payload

module _ (S : Crypto) where
  -- How a token was issued.
  pub record IsIssue (s : Keys) (purpose : String) (b : PlanBinding) (now : ℤ) (nonce : Bytes)
      (token : Bytes) : Type 0 where
    pub payload : Bytes
    pub mac : Bytes
    pub valid : valid_plan_purpose purpose ≡ true
    pub canonical : canonical_binding b ≡ ok (sorted b)
    pub marshals : S.marshal (claims_for S s purpose (sorted b) now nonce) ≡ some payload
    pub fits : ltb max_plan_token_bytes (length (encode payload) + 44) ≡ false
    pub macs : plan_mac_for_purpose S s purpose (encode payload) ≡ ok mac
    pub writes : token ≡ encode payload ++ 46 ∷ encode mac

  module _ (s : Keys) (purpose : String) (b : PlanBinding) (now : ℤ) (nonce token : Bytes)
      (valid : valid_plan_purpose purpose ≡ true)
      (canonical : canonical_binding b ≡ ok (sorted b)) where
    from_mac :
        (payload : Bytes) (mac : Result Bytes)
        → S.marshal (claims_for S s purpose (sorted b) now nonce) ≡ some payload
        → ltb max_plan_token_bytes (length (encode payload) + 44) ≡ false
        → plan_mac_for_purpose S s purpose (encode payload) ≡ mac
        → with_mac S (encode payload) mac ≡ ok token
        → IsIssue s purpose b now nonce token
    from_mac payload (fail e) hp hf hm h = ground arith
    from_mac payload (ok mac) hp hf hm h = record {
      payload = payload;
      mac = mac;
      valid = valid;
      canonical = canonical;
      marshals = hp;
      fits = hf;
      macs = hm;
      writes = sym (ok-inj (encode payload ++ 46 ∷ encode mac) token h);
    }

    from_payload :
        (payload : Option Bytes)
        → S.marshal (claims_for S s purpose (sorted b) now nonce) ≡ payload
        → signed S s purpose payload ≡ ok token
        → IsIssue s purpose b now nonce token
    from_payload none hp h = ground arith
    from_payload (some payload) hp h =
        if_elim (λ r. r ≡ ok token → IsIssue s purpose b now nonce token)
          (ltb max_plan_token_bytes (length (encode payload) + 44)) (λ k h. ground arith)
          (λ k m. from_mac payload (plan_mac_for_purpose S s purpose (encode payload)) hp k refl m)
          h

  from_binding :
      (s : Keys) (purpose : String) (b : PlanBinding) (now : ℤ) (nonce token : Bytes)
      (c : Result PlanBinding)
      → valid_plan_purpose purpose ≡ true
      → canonical_binding b ≡ c
      → issue_canonical S s purpose now (some nonce) c ≡ ok token
      → IsIssue s purpose b now nonce token
  from_binding s purpose b now nonce token (fail e) hv hc h = ground arith
  from_binding s purpose b now nonce token (ok c) hv hc h =
      let e = canonical_binding-sorted b c hc in
      from_payload s purpose b now nonce token hv (rw (canonical_binding-sorted b c hc) hc)
        (S.marshal (claims_for S s purpose (sorted b) now nonce)) refl
        (subst (λ x. with_nonce S s purpose x now (some nonce) ≡ ok token) (sym e) h)

  pub issue-IsIssue :
      (s : Keys) (purpose : String) (b : PlanBinding) (now : ℤ) (nonce token : Bytes)
      → issue S s purpose b now (some nonce) ≡ ok token
      → IsIssue s purpose b now nonce token
  unfolding issue
  issue-IsIssue s purpose b now nonce token =
      if_elim (λ r. r ≡ ok token → IsIssue s purpose b now nonce token)
        (not (valid_plan_purpose purpose)) (λ k h. ground arith)
        (λ k h.
          from_binding s purpose b now nonce token (canonical_binding b)
            (not-false (valid_plan_purpose purpose) k) refl h)

  bad_times-issued :
      (s : Keys) (purpose : String) (b : PlanBinding) (t u : ℕ) (nonce : Bytes)
      → bad_times S (claims_for S s purpose b (pos t) nonce) (pos u) ≡ ltb (u + 30) t
  bad_times-issued s purpose b t u nonce = ground arith

  pub check_claims-issued :
      (s : Keys) (purpose : String) (b : PlanBinding) (t u : ℕ) (nonce : Bytes)
      → length nonce ≡ 32
      → All IsByte nonce
      → check_claims S s purpose (pos u) (claims_for S s purpose b (pos t) nonce) ≡ (
          if ltb (u + 30) t
          then fail invalid_plan
          else if leb (t + 600) u
          then fail plan_expired
          else ok (claims_for S s purpose b (pos t) nonce))
  unfolding check_claims
  check_claims-issued s purpose b t u nonce hl hb =
      rw
        (
          decode-encode nonce hb,
          hl,
          (eq_iff purpose purpose).1 refl,
          (eq_iff s.installation_id s.installation_id).1 refl,
          eq_ℤ_refl s.active_key_version,
          bad_times-issued s purpose b t u nonce,
        )
        refl

  keyed-hmac :
      (law : IsMac S) (encoded : Bytes) (key : Option Bytes) (mac : Bytes)
      → keyed S encoded key ≡ ok mac
      → (length mac ≡ 32) × All IsByte mac
  keyed-hmac law encoded none mac h = ground arith
  keyed-hmac law encoded (some key) mac h =
      subst (λ m. (length m ≡ 32) × All IsByte m) (ok-inj (S.hmac key encoded) mac h)
        (law key encoded)

  plan_mac-hmac :
      (law : IsMac S) (s : Keys) (purpose : String) (encoded mac : Bytes)
      → plan_mac_for_purpose S s purpose encoded ≡ ok mac
      → (length mac ≡ 32) × All IsByte mac
  unfolding plan_mac_for_purpose
  plan_mac-hmac law s purpose encoded mac =
      if_elim (λ r. r ≡ ok mac → (length mac ≡ 32) × All IsByte mac)
        (not (valid_plan_purpose purpose)) (λ k h. ground arith)
        (λ k h. keyed-hmac law encoded (S.hkdf_key s.active_key s.installation_id purpose) mac h)

  check_parts-issued :
      (law : IsMac S) (s : Keys) (purpose : String) (b : PlanBinding) (now time : ℤ)
      (nonce token : Bytes) (json : IsReadBack S (claims_for S s purpose (sorted b) now nonce))
      (issued : IsIssue s purpose b now nonce token)
      → check_parts S s purpose time (some (encode issued.payload, encode issued.mac))
        ≡ check_claims S s purpose time (claims_for S s purpose (sorted b) now nonce)
  check_parts-issued law s purpose b now time nonce token json issued =
      let mac = plan_mac-hmac law s purpose (encode issued.payload) issued.mac issued.macs in
      let json = json issued.payload issued.marshals in
      rw
        (
          length-encode issued.mac,
          mac.0,
          issued.macs,
          decode-encode issued.mac mac.1,
          eq_bytes_refl issued.mac,
          decode-encode issued.payload json.1,
          json.0,
          issued.marshals,
          eq_bytes_refl issued.payload,
        )
        refl

  fits :
      (law : IsMac S) (s : Keys) (purpose : String) (b : PlanBinding) (now : ℤ)
      (nonce token : Bytes)
      → IsIssue s purpose b now nonce token
      → ltb max_plan_token_bytes (length token) ≡ false
  fits law s purpose b now nonce token issued =
      let mac = plan_mac-hmac law s purpose (encode issued.payload) issued.mac issued.macs in
      rw
        (
          issued.writes,
          length-append (encode issued.payload) (46 ∷ encode issued.mac),
          length-encode issued.mac,
          mac.0,
        )
        issued.fits

  pub authenticate-IsIssue :
      (law : IsMac S) (s : Keys) (purpose : String) (b : PlanBinding) (now time : ℤ)
      (nonce token : Bytes) (json : IsReadBack S (claims_for S s purpose (sorted b) now nonce))
      → IsIssue s purpose b now nonce token
      → s.unavailable ≡ false
      → authenticate S s purpose token time
        ≡ check_claims S s purpose time (claims_for S s purpose (sorted b) now nonce)
  unfolding authenticate check_claims plan_mac_for_purpose
  authenticate-IsIssue law s purpose b now time nonce token json issued available =
      let mac = plan_mac-hmac law s purpose (encode issued.payload) issued.mac issued.macs in
      rw
        (
          issued.valid,
          available,
          fits law s purpose b now nonce token issued,
          issued.writes,
          cut-append (encode issued.payload) (encode issued.mac) (encode-IsCode issued.payload),
        )
        (check_parts-issued law s purpose b now time nonce token json issued)
