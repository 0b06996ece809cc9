-- ===== src/Plan/Create.antt =====
-- internal/storage/plan_token.go: a token for the snapshot of the present content, and that its plan can be applied.
use mathlib.Core.List.{Permᴰ}
use modelcairn.Base.{
  ℕ, ◌+◌, ◌≤◌, ◌<◌, String, true, false, Option, none, some, List, ◌∷◌, ℤ, pos, add_ℕ, length, All,
  ◌≡◌, refl, ap, ◌∙◌, arith, if_elim, if◌then◌else◌,
}
use modelcairn.Plan.Base64.{Bytes, IsByte, decode, decode-encode}
use modelcairn.Plan.Order.{ObservedResource}
use modelcairn.Plan.Binding.{
  PlanBinding, PlanError, invalid_plan, key_material_unavailable, Result, ok, fail, sorted,
}
use modelcairn.Plan.Token.{
  Crypto, Keys, PlanClaims, claims_for, issue, valid_plan_purpose, settings_plan_purpose,
}
use modelcairn.Plan.Issued.{IsMac, IsReadBack, issue-IsIssue}
use modelcairn.Plan.RoundTrip.{verify-issue}
use modelcairn.Plan.Verify.{verify}
use modelcairn.Plan.Execute.{Store, Db, Request, is_consumed, execute}

-- The result of `CreateSettingsPlan`.
pub record IssuedSettingsPlan : Type 0 where
  pub token : Bytes
  pub expires_at : ℤ

-- The database reports no error.
abbrev pub IsQuiet : Db → Type 0
IsQuiet db = (db.begin_error ≡ none) × (db.insert_error ≡ none) × (db.commit_error ≡ none)

abbrev pub with_expiry : ℤ → Result Bytes → Result IssuedSettingsPlan
with_expiry now (fail e) = fail e
with_expiry now (ok token) = ok (record { token = token; expires_at = add_ℕ now 600 })

module _ (S : Crypto) where
  abbrev pub issue_snapshot : Keys → String → ℤ → Option Bytes → Result PlanBinding → Result Bytes
  issue_snapshot s purpose now random (fail e) = fail e
  issue_snapshot s purpose now random (ok binding) = issue S s purpose binding now random

  abbrev pub create_begun :
      Keys → String → ℤ → Option Bytes → Result PlanBinding → Option PlanError → Result Bytes
  create_begun s purpose now random binding (some e) = fail e
  create_begun s purpose now random binding none = issue_snapshot s purpose now random binding

  -- `createPlanTokenForPurpose`
  unfoldable pub create_plan_token :
      {D : Type 0}
      → Db
      → Store D
      → String
      → ℤ
      → Option Bytes
      → Option (D → Result PlanBinding)
      → Result Bytes
  create_plan_token db w purpose now random none = fail invalid_plan
  create_plan_token db w purpose now random (some snapshot) =
      if w.keys.unavailable
      then fail key_material_unavailable
      else create_begun w.keys purpose now random (snapshot w.content) db.begin_error

  -- `CreateSettingsPlan`
  unfoldable pub create_settings_plan :
      {D : Type 0}
      → Db
      → Store D
      → ℤ
      → Option Bytes
      → Option (D → Result PlanBinding)
      → Result IssuedSettingsPlan
  unfolding create_plan_token
  create_settings_plan db w now random snapshot =
      with_expiry now (create_plan_token db w settings_plan_purpose now random snapshot)

  snapshot-issue :
      (s : Keys) (purpose : String) (now : ℤ) (random : Option Bytes) (b : PlanBinding)
      (token : Bytes) (x : Result PlanBinding) (e : Option PlanError)
      → x ≡ ok b
      → create_begun s purpose now random x e ≡ ok token
      → issue S s purpose b now random ≡ ok token
  snapshot-issue s purpose now random b token x (some e) hx h = ground arith
  snapshot-issue s purpose now random b token x none hx h = rw (hx) at h

  pub create-issue :
      {D : Type 0} (db : Db) (w : Store D) (purpose : String) (now : ℤ) (random : Option Bytes)
      (snapshot : D → Result PlanBinding) (b : PlanBinding) (token : Bytes)
      → snapshot w.content ≡ ok b
      → create_plan_token db w purpose now random (some snapshot) ≡ ok token
      → issue S w.keys purpose b now random ≡ ok token
  unfolding create_plan_token
  create-issue db w purpose now random snapshot b token hb =
      if_elim (λ r. r ≡ ok token → issue S w.keys purpose b now random ≡ ok token)
        w.keys.unavailable (λ k h. ground arith)
        (λ k h.
          snapshot-issue w.keys purpose now random b token (snapshot w.content) db.begin_error hb h)

  execute-verified :
      {D : Type 0} (db : Db) (r : Request D) (w : Store D) (snapshot : D → Result PlanBinding)
      (apply : D → Result D) (binding : PlanBinding) (c : PlanClaims) (nonce : Bytes) (content : D)
      → IsQuiet db
      → valid_plan_purpose r.purpose ≡ true
      → w.keys.unavailable ≡ false
      → r.snapshot ≡ some snapshot
      → r.apply ≡ some apply
      → snapshot w.content ≡ ok binding
      → verify S w.keys r.purpose r.token binding r.now ≡ (c, none)
      → decode c.nonce ≡ some nonce
      → is_consumed (S.sha256 nonce) w.consumed ≡ false
      → apply w.content ≡ ok content
      → execute S db r w
        ≡ (none, record w { consumed = S.sha256 nonce ∷ w.consumed; content = content })
  unfolding execute
  execute-verified db r w snapshot apply binding c nonce content q hp hu hs ha hb hv hn hf hc =
      simp (hp, hs, ha, hu, q.0, hb, hv, hn, q.1, hf, hc, q.2) refl

  -- Let a plan be created at the second `t` for the binding that `snapshot` gives of the content, by a store whose
  -- keys are available, with a nonce of 32 bytes. Let a later store have the same keys, and content of which a
  -- snapshot gives the same revision and digest and the same resources in any order; let the nonce not be
  -- consumed, the change apply, and the database report no error. Then the plan's execution, from 30 seconds
  -- before `t` until 600 seconds after it, reports no error, consumes the nonce and stores the changed content.
  pub execute-create :
      {D : Type 0} (mac : IsMac S) (db db' : Db) (w v : Store D) (purpose : String) (t u : ℕ)
      (nonce token : Bytes) (snapshot snapshot' : D → Result PlanBinding) (apply : D → Result D)
      (b : PlanBinding) (observed : List ObservedResource) (content : D)
      → IsReadBack S (claims_for S w.keys purpose (sorted b) (pos t) nonce)
      → w.keys.unavailable ≡ false
      → length nonce ≡ 32
      → All IsByte nonce
      → snapshot w.content ≡ ok b
      → create_plan_token db w purpose (pos t) (some nonce) (some snapshot) ≡ ok token
      → v.keys ≡ w.keys
      → snapshot' v.content ≡ ok (record b { observed = observed })
      → Permᴰ b.observed observed
      → is_consumed (S.sha256 nonce) v.consumed ≡ false
      → apply v.content ≡ ok content
      → IsQuiet db'
      → t ≤ u + 30
      → u < t + 600
      → execute S db'
          (record {
            purpose = purpose;
            token = token;
            now = pos u;
            snapshot = some snapshot';
            apply = some apply;
          })
          v
        ≡ (none, record v { consumed = S.sha256 nonce ∷ v.consumed; content = content })
  execute-create mac db db' w v purpose t u nonce token snapshot snapshot' apply b observed content
        json ha hl hb hs h keys hs' hp hf hc quiet early late =
      let issued = create-issue db w purpose (pos t) (some nonce) snapshot b token hs h in
      execute-verified db'
        (record {
          purpose = purpose;
          token = token;
          now = pos u;
          snapshot = some snapshot';
          apply = some apply;
        })
        v snapshot' apply (record b { observed = observed })
        (claims_for S w.keys purpose (sorted b) (pos t) nonce) nonce content quiet
        (issue-IsIssue S w.keys purpose b (pos t) nonce token issued).valid
        (ap (λ k. k.unavailable) keys ∙ ha) refl refl hs'
        (ap (λ k. verify S k purpose token (record b { observed = observed }) (pos u)) keys
          ∙ verify-issue S mac w.keys purpose b t u nonce token observed json ha hl hb issued hp
              early late)
        (decode-encode nonce hb) hf hc
