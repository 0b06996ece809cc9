-- ===== src/Plan/Outcomes.antt =====
-- The ways in which an execution ends.
use modelcairn.Base.{true, not, Option, none, some, ◌≡◌, refl, arith, if_elim, ◌⊎◌, inl, inr}
use modelcairn.Plan.Base64.{Bytes, decode}
use modelcairn.Plan.Binding.{
  PlanBinding, PlanError, invalid_plan, plan_already_used, key_material_unavailable, Result, ok,
  fail,
}
use modelcairn.Plan.Token.{PlanClaims, Crypto, valid_plan_purpose}
use modelcairn.Plan.Verify.{verify}
use modelcairn.Plan.Execute.{
  Store, Db, Request, is_consumed, commit, applied, insert_hash, consume, verified, with_snapshot,
  begun, with_callbacks, execute, snapshot_error, verify_error,
}

module _ (S : Crypto) {D : Type 0} (db : Db) (r : Request D) (w : Store D)
    (P : Option PlanError × Store D → Type 0) (refused : (e : PlanError) → P (some e, w))
    (committed : (hash : Bytes) (content : D)
      → P (commit S db w hash content db.commit_error)) where
  applied-cases : (hash : Bytes) (c : Result D) → P (applied S db w hash c)
  applied-cases hash (fail e) = refused e
  applied-cases hash (ok content) = committed hash content

  insert-cases :
      (apply : D → Result D) (hash : Bytes) (e : Option PlanError)
      → P (insert_hash S db apply w hash e)
  insert-cases apply hash (some e) = refused e
  insert-cases apply hash none =
      if_elim P (is_consumed hash w.consumed) (λ h. refused plan_already_used)
        (λ h. applied-cases hash (apply w.content))

  consume-cases : (apply : D → Result D) (nonce : Option Bytes) → P (consume S db apply w nonce)
  consume-cases apply none = refused invalid_plan
  consume-cases apply (some nonce) = insert-cases apply (S.sha256 nonce) db.insert_error

  verified-cases :
      (apply : D → Result D) (v : PlanClaims × Option PlanError) → P (verified S db apply w v)
  verified-cases apply (c, some e) = refused (verify_error S db w c e)
  verified-cases apply (c, none) = consume-cases apply (decode c.nonce)

  snapshot-cases :
      (apply : D → Result D) (b : Result PlanBinding) → P (with_snapshot S db r apply w b)
  snapshot-cases apply (fail e) = refused (snapshot_error S db r w e)
  snapshot-cases apply (ok binding) =
      verified-cases apply (verify S w.keys r.purpose r.token binding r.now)

  begun-cases :
      (snapshot : D → Result PlanBinding) (apply : D → Result D) (e : Option PlanError)
      → P (begun S db r w snapshot apply e)
  begun-cases snapshot apply (some e) = refused e
  begun-cases snapshot apply none = snapshot-cases apply (snapshot w.content)

  callbacks-cases :
      (snapshot : Option (D → Result PlanBinding)) (apply : Option (D → Result D))
      → P (with_callbacks S db r w snapshot apply)
  callbacks-cases none apply = refused invalid_plan
  callbacks-cases (some snapshot) none = refused invalid_plan
  callbacks-cases (some snapshot) (some apply) =
      if_elim P w.keys.unavailable (λ h. refused key_material_unavailable)
        (λ h. begun-cases snapshot apply db.begin_error)

  -- A property of every refusal, which leaves the store, and of every commit is one of the execution.
  pub execute-cases : P (execute S db r w)
  unfolding execute
  execute-cases =
      if_elim P (not (valid_plan_purpose r.purpose)) (λ h. refused invalid_plan)
        (λ h. callbacks-cases r.snapshot r.apply)

module _ (S : Crypto) {D : Type 0} (db : Db) (r : Request D) (w : Store D) where
  abbrev pub IsRolledBack : Option PlanError × Store D → Type 0
  IsRolledBack (none, after) = Unit
  IsRolledBack (some e, after) =
      (after ≡ w) ⊎ ((db.commit_error ≡ some e) × (after.keys.unavailable ≡ true))

  commit-IsRolledBack :
      (hash : Bytes) (content : D) (e : Option PlanError)
      → db.commit_error ≡ e
      → IsRolledBack (commit S db w hash content e)
  commit-IsRolledBack hash content none h = tt
  commit-IsRolledBack hash content (some e) h = inr (h, refl)

  -- An execution that reports an error leaves the store as it was, unless the error is that of the commit;
  -- after that one the keys are unavailable.
  pub execute-IsRolledBack : IsRolledBack (execute S db r w)
  execute-IsRolledBack =
      execute-cases S db r w IsRolledBack (λ e. inl refl)
        (λ hash content. commit-IsRolledBack hash content db.commit_error refl)

  kept :
      (hash fresh : Bytes) (content : D) (e : Option PlanError)
      → is_consumed hash w.consumed ≡ true
      → is_consumed hash (commit S db w fresh content e).1.consumed ≡ true
  unfolding is_consumed
  kept hash fresh content none h = ground (arith, h)
  kept hash fresh content (some e) h = ground (arith, h)

  -- No execution gives a consumed nonce back.
  pub execute-consumed :
      (hash : Bytes)
      → is_consumed hash w.consumed ≡ true
      → is_consumed hash (execute S db r w).1.consumed ≡ true
  execute-consumed hash h =
      execute-cases S db r w (λ x. is_consumed hash x.1.consumed ≡ true) (λ e. h)
        (λ fresh content. kept hash fresh content db.commit_error h)
