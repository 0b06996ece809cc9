-- ===== src/Plan/Token.antt =====
-- internal/storage/plan_token.go: a plan token is issued, authenticated, and compared with the binding of the
-- snapshot that it is used on.
use modelcairn.Base.{
  ℕ, ◌+◌, String, str_eq, Bool, true, false, ◌&&◌, ◌||◌, not, Option, none, some, [], ◌∷◌, ◌++◌,
  ltb, ◌==◌, length, ℤ, pos, is_neg, leb_ℤ, eq_ℤ, add_ℕ, if◌then◌else◌,
}
use modelcairn.Plan.Base64.{Bytes, encode, decode}
use modelcairn.Plan.Binding.{
  PlanBinding, invalid_plan, plan_expired, key_material_unavailable, failing, Result, ok, fail,
  canonical_binding,
}

pub record PlanClaims : Type 0 where
  pub version : ℤ
  pub purpose : String
  pub installation_id : String
  pub key_version : ℤ
  pub binding : PlanBinding
  pub nonce : Bytes
  pub issued_at : ℤ
  pub expires_at : ℤ

-- What is called of crypto/hkdf, crypto/hmac, crypto/sha256 and encoding/json.
pub record Crypto : Type 0 where
  pub hkdf_key : Bytes → String → String → Option Bytes
  pub hmac : Bytes → Bytes → Bytes
  pub sha256 : Bytes → Bytes
  pub marshal : PlanClaims → Option Bytes
  pub unmarshal : Bytes → Option PlanClaims
  pub marshal_binding : PlanBinding → Option Bytes

-- The fields of `SecretStore` that plans use.
pub record Keys : Type 0 where
  pub installation_id : String
  pub active_key_version : ℤ
  pub active_key : Bytes
  pub unavailable : Bool

abbrev pub plan_purpose : String
plan_purpose = "modelcairn/plan-token/v1"

abbrev pub settings_plan_purpose : String
settings_plan_purpose = "modelcairn/admin-settings-plan/v1"

-- 8 << 20
abbrev pub max_plan_token_bytes : ℕ
max_plan_token_bytes = 8388608

unfoldable pub valid_plan_purpose : String → Bool
valid_plan_purpose purpose = str_eq purpose plan_purpose || str_eq purpose settings_plan_purpose

-- `bytes.Equal` and `hmac.Equal`
unfoldable pub eq_bytes : Bytes → Bytes → Bool
eq_bytes [] [] = true
eq_bytes [] (y ∷ ys) = false
eq_bytes (x ∷ xs) [] = false
eq_bytes (x ∷ xs) (y ∷ ys) = let rest = eq_bytes xs ys in x == y && rest

abbrev pub in_front : ℕ → Option (Bytes × Bytes) → Option (Bytes × Bytes)
in_front c none = none
in_front c (some parts) = some (c ∷ parts.0, parts.1)

-- `strings.Cut(token, ".")`
unfoldable pub cut : Bytes → Option (Bytes × Bytes)
cut [] = none
cut (c ∷ cs) = let rest = in_front c (cut cs) in if c == 46 then some ([], cs) else rest

module _ (S : Crypto) where
  abbrev pub keyed : Bytes → Option Bytes → Result Bytes
  keyed encoded none = fail invalid_plan
  keyed encoded (some key) = ok (S.hmac key encoded)

  unfoldable pub plan_mac_for_purpose : Keys → String → Bytes → Result Bytes
  plan_mac_for_purpose s purpose encoded =
      if not (valid_plan_purpose purpose)
      then fail invalid_plan
      else keyed encoded (S.hkdf_key s.active_key s.installation_id purpose)

  abbrev pub claims_for : Keys → String → PlanBinding → ℤ → Bytes → PlanClaims
  claims_for s purpose binding now nonce = record {
    version = pos 1;
    purpose = purpose;
    installation_id = s.installation_id;
    key_version = s.active_key_version;
    binding = binding;
    nonce = encode nonce;
    issued_at = now;
    expires_at = add_ℕ now 600;
  }

  abbrev pub with_mac : Bytes → Result Bytes → Result Bytes
  with_mac encoded (fail e) = fail e
  with_mac encoded (ok mac) = ok (encoded ++ 46 ∷ encode mac)

  abbrev pub signed : Keys → String → Option Bytes → Result Bytes
  signed s purpose none = fail invalid_plan
  signed s purpose (some payload) =
      let encoded = encode payload in
      if ltb max_plan_token_bytes (length encoded + 44)
      then fail invalid_plan
      else with_mac encoded (plan_mac_for_purpose s purpose encoded)

  abbrev pub with_nonce : Keys → String → PlanBinding → ℤ → Option Bytes → Result Bytes
  with_nonce s purpose binding now none = fail (failing "plan_randomness_unavailable")
  with_nonce s purpose binding now (some nonce) =
      signed s purpose (S.marshal (claims_for s purpose binding now nonce))

  abbrev pub issue_canonical : Keys → String → ℤ → Option Bytes → Result PlanBinding → Result Bytes
  issue_canonical s purpose now random (fail e) = fail e
  issue_canonical s purpose now random (ok binding) = with_nonce s purpose binding now random

  -- `issuePlanTokenForPurposeLocked`: `now` counts seconds, and `nonce` is what the random source gives.
  unfoldable pub issue : Keys → String → PlanBinding → ℤ → Option Bytes → Result Bytes
  issue s purpose binding now nonce =
      if not (valid_plan_purpose purpose)
      then fail invalid_plan
      else issue_canonical s purpose now nonce (canonical_binding binding)

  abbrev pub bad_nonce : Option Bytes → Bool
  bad_nonce none = true
  bad_nonce (some nonce) = not (length nonce == 32)

  -- The token is of another issuer, purpose or key.
  abbrev pub foreign : Keys → String → PlanClaims → Bool
  foreign s purpose c =
      not (eq_ℤ c.version (pos 1))
      || not (str_eq c.purpose purpose)
      || not (str_eq c.installation_id s.installation_id)
      || not (eq_ℤ c.key_version s.active_key_version)

  abbrev pub bad_times : PlanClaims → ℤ → Bool
  bad_times c now =
      not (leb_ℤ c.issued_at (add_ℕ now 30))
      || is_neg c.issued_at
      || leb_ℤ c.expires_at c.issued_at
      || not (eq_ℤ c.expires_at (add_ℕ c.issued_at 600))

  unfoldable pub check_claims : Keys → String → ℤ → PlanClaims → Result PlanClaims
  check_claims s purpose now c =
      if foreign s purpose c || bad_nonce (decode c.nonce) || bad_times c now
      then fail invalid_plan
      else if leb_ℤ c.expires_at now
      then fail plan_expired
      else ok c

  abbrev pub check_canonical :
      Keys → String → ℤ → Bytes → PlanClaims → Option Bytes → Result PlanClaims
  check_canonical s purpose now payload c none = fail invalid_plan
  check_canonical s purpose now payload c (some canonical) =
      if eq_bytes payload canonical then check_claims s purpose now c else fail invalid_plan

  abbrev pub check_parsed : Keys → String → ℤ → Bytes → Option PlanClaims → Result PlanClaims
  check_parsed s purpose now payload none = fail invalid_plan
  check_parsed s purpose now payload (some c) =
      check_canonical s purpose now payload c (S.marshal c)

  abbrev pub check_payload : Keys → String → ℤ → Option Bytes → Result PlanClaims
  check_payload s purpose now none = fail invalid_plan
  check_payload s purpose now (some payload) =
      check_parsed s purpose now payload (S.unmarshal payload)

  abbrev pub check_mac : Keys → String → ℤ → Bytes → Result Bytes → Option Bytes → Result PlanClaims
  check_mac s purpose now encoded (fail e) provided = fail e
  check_mac s purpose now encoded (ok mac) none = fail invalid_plan
  check_mac s purpose now encoded (ok mac) (some provided) =
      if eq_bytes mac provided
      then check_payload s purpose now (decode encoded)
      else fail invalid_plan

  abbrev pub check_parts : Keys → String → ℤ → Option (Bytes × Bytes) → Result PlanClaims
  check_parts s purpose now none = fail invalid_plan
  check_parts s purpose now (some (encoded, signature)) =
      if not (length signature == 43)
      then fail invalid_plan
      else check_mac s purpose now encoded (plan_mac_for_purpose s purpose encoded)
          (decode signature)

  -- `authenticatePlanTokenForPurposeLocked`
  unfoldable pub authenticate : Keys → String → Bytes → ℤ → Result PlanClaims
  authenticate s purpose token now =
      if not (valid_plan_purpose purpose)
      then fail invalid_plan
      else if s.unavailable
      then fail key_material_unavailable
      else if ltb max_plan_token_bytes (length token)
      then fail invalid_plan
      else check_parts s purpose now (cut token)
