-- ===== src/Plan/Applied.antt =====
-- What an execution that succeeds has done, and what one that fails leaves.
use modelcairn.Base.{
  true, false, not, Option, none, some, ◌∷◌, ◌≡◌, refl, ap, arith, if_elim, not-false,
}
use modelcairn.Plan.Base64.{Bytes, decode}
use modelcairn.Plan.Binding.{PlanBinding, PlanError, Result, ok, fail}
use modelcairn.Plan.Token.{PlanClaims, Crypto, valid_plan_purpose}
use modelcairn.Plan.Verify.{verify}
use modelcairn.Plan.Execute.{
  Store, Db, Request, is_consumed, commit, applied, insert_hash, consume, verified, with_snapshot,
  begun, with_callbacks, execute,
}

-- The outcome of an execution: a certain failure changes nothing, and all else is a change.
module _ (S : Crypto) {D : Type 0} (db : Db) (r : Request D) (w : Store D) where
  -- The nonce's hash was fresh, and is consumed together with the change that `apply` made.
  pub record IsApplied (after : Store D) : Type 0 where
    pub snapshot : D → Result PlanBinding
    pub apply : D → Result D
    pub binding : PlanBinding
    pub claims : PlanClaims
    pub nonce : Bytes
    pub content : D
    pub purpose_valid : valid_plan_purpose r.purpose ≡ true
    pub available : w.keys.unavailable ≡ false
    pub snapshots : r.snapshot ≡ some snapshot
    pub applies : r.apply ≡ some apply
    pub binds : snapshot w.content ≡ ok binding
    pub verifies : verify S w.keys r.purpose r.token binding r.now ≡ (claims, none)
    pub decodes : decode claims.nonce ≡ some nonce
    pub fresh : is_consumed (S.sha256 nonce) w.consumed ≡ false
    pub changes : apply w.content ≡ ok content
    pub stored : record w { consumed = S.sha256 nonce ∷ w.consumed; content = content } ≡ after

  -- The last steps of an execution that succeeds.
  module _ (after : Store D) where
    abbrev IsConsumed : (D → Result D) → Bytes → Type 0
    IsConsumed apply nonce =
        (is_consumed (S.sha256 nonce) w.consumed ≡ false)
        × (content : D) × (apply w.content ≡ ok content)
        × (record w { consumed = S.sha256 nonce ∷ w.consumed; content = content } ≡ after)

    commit-step :
        (hash : Bytes) (content : D) (e : Option PlanError)
        → commit S db w hash content e ≡ (none, after)
        → record w { consumed = hash ∷ w.consumed; content = content } ≡ after
    commit-step hash content none h = ap (λ x. x.1) h
    commit-step hash content (some e) h = ground arith

    applied-step :
        (apply : D → Result D) (nonce : Bytes) (c : Result D)
        → is_consumed (S.sha256 nonce) w.consumed ≡ false
        → apply w.content ≡ c
        → applied S db w (S.sha256 nonce) c ≡ (none, after)
        → IsConsumed apply nonce
    applied-step apply nonce (fail e) hf hc h = ground arith
    applied-step apply nonce (ok content) hf hc h =
        (hf, content, hc, commit-step (S.sha256 nonce) content db.commit_error h)

    insert-step :
        (apply : D → Result D) (nonce : Bytes) (e : Option PlanError)
        → insert_hash S db apply w (S.sha256 nonce) e ≡ (none, after)
        → IsConsumed apply nonce
    insert-step apply nonce (some e) h = ground arith
    insert-step apply nonce none h =
        if_elim (λ x. x ≡ (none, after) → IsConsumed apply nonce)
          (is_consumed (S.sha256 nonce) w.consumed) (λ k m. ground arith)
          (λ k m. applied-step apply nonce (apply w.content) k refl m) h

    consume-step :
        (apply : D → Result D) (nonce : Option Bytes)
        → consume S db apply w nonce ≡ (none, after)
        → (n : Bytes) × (nonce ≡ some n) × IsConsumed apply n
    consume-step apply none h = ground arith
    consume-step apply (some n) h = (n, refl, insert-step apply n db.insert_error h)

    verified-step :
        (apply : D → Result D) (v : PlanClaims × Option PlanError)
        → verified S db apply w v ≡ (none, after)
        → (c : PlanClaims) × (v ≡ (c, none))
          × (n : Bytes) × (decode c.nonce ≡ some n)
          × IsConsumed apply n
    verified-step apply (c, some e) h = ground arith
    verified-step apply (c, none) h =
        let x = consume-step apply (decode c.nonce) h in (c, refl, x.0, x.1, x.2)

    abbrev Verified : (D → Result D) → PlanBinding → Type 0
    Verified apply binding =
        (c : PlanClaims) × (verify S w.keys r.purpose r.token binding r.now ≡ (c, none))
        × (n : Bytes) × (decode c.nonce ≡ some n)
        × IsConsumed apply n

    snapshot-step :
        (apply : D → Result D) (b : Result PlanBinding)
        → with_snapshot S db r apply w b ≡ (none, after)
        → (binding : PlanBinding) × (b ≡ ok binding) × Verified apply binding
    snapshot-step apply (fail e) h = ground arith
    snapshot-step apply (ok binding) h =
        (binding, refl, verified-step apply (verify S w.keys r.purpose r.token binding r.now) h)

    begun-step :
        (snapshot : D → Result PlanBinding) (apply : D → Result D) (e : Option PlanError)
        → begun S db r w snapshot apply e ≡ (none, after)
        → (binding : PlanBinding) × (snapshot w.content ≡ ok binding) × Verified apply binding
    begun-step snapshot apply (some e) h = ground arith
    begun-step snapshot apply none h = snapshot-step apply (snapshot w.content) h

    callbacks-step :
        (snapshot : Option (D → Result PlanBinding)) (apply : Option (D → Result D))
        → valid_plan_purpose r.purpose ≡ true
        → r.snapshot ≡ snapshot
        → r.apply ≡ apply
        → with_callbacks S db r w snapshot apply ≡ (none, after)
        → IsApplied after
    callbacks-step none apply hv hs ha h = ground arith
    callbacks-step (some snapshot) none hv hs ha h = ground arith
    callbacks-step (some snapshot) (some apply) hv hs ha h =
        if_elim (λ x. x ≡ (none, after) → IsApplied after) (w.keys.unavailable)
          (λ k m. ground arith)
          (λ k m.
            let x = begun-step snapshot apply db.begin_error m in
            record {
              snapshot = snapshot;
              apply = apply;
              binding = x.0;
              claims = x.2.0;
              nonce = x.2.2;
              content = x.2.4.1;
              purpose_valid = hv;
              available = k;
              snapshots = hs;
              applies = ha;
              binds = x.1;
              verifies = x.2.1;
              decodes = x.2.3;
              fresh = x.2.4.0;
              changes = x.2.4.2;
              stored = x.2.4.3;
            })
          h

  -- An execution that reports no error has verified the token against the snapshot's binding at the present content,
  -- with keys that are available; the nonce of the token was not consumed before; and the store afterwards
  -- differs in that the nonce's hash is consumed and in the content that `apply` returned, and in nothing else.
  pub execute-IsApplied : (after : Store D) → execute S db r w ≡ (none, after) → IsApplied after
  unfolding execute
  execute-IsApplied after =
      if_elim (λ x. x ≡ (none, after) → IsApplied after) (not (valid_plan_purpose r.purpose))
        (λ k h. ground arith)
        (λ k h.
          callbacks-step after r.snapshot r.apply (not-false (valid_plan_purpose r.purpose) k) refl
            refl h)
