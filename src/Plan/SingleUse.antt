-- ===== src/Plan/SingleUse.antt =====
-- A token of internal/storage/plan_token.go is applied at most once.
use mathlib.Core.Path.{subst}
use modelcairn.Plan.Issued.{eq_bytes_refl}
use modelcairn.Base.{
  ℤ, pos, negsuc, true, false, none, some, List, ◌∷◌, ◌≡◌, ◌≢◌, refl, sym, ◌∙◌, ap, arith, some-inj,
  leb_ℤ,
}
use modelcairn.Plan.Base64.{Bytes, decode}
use modelcairn.Plan.Token.{PlanClaims, Crypto, Keys}
use modelcairn.Plan.Execute.{Store, Db, Request, is_consumed, execute}
use modelcairn.Plan.Reads.{token_claims, IsRead, verify-claims}
use modelcairn.Plan.Applied.{IsApplied, execute-IsApplied}
use modelcairn.Plan.Outcomes.{execute-consumed}

-- A store later on, and the time then: after more executions, any change of the keys and of the other tables, and rows that
-- are pruned. As long as the claims of this token have not expired, the row of its nonce is kept.
pub data Later (S : Crypto) (token : Bytes) {D : Type 0} (start : ℤ) (w : Store D)
    : ℤ → Store D → Type 0 where
  same : Later S token start w start w
  waited :
      {t : ℤ} {v : Store D} (u : ℤ)
      → leb_ℤ t u ≡ true
      → Later S token start w t v
      → Later S token start w u v
  executed :
      {t : ℤ} {v : Store D} (db : Db) (r : Request D)
      → Later S token start w t v
      → Later S token start w t (execute S db r v).1
  changed :
      {t : ℤ} {v : Store D} (keys : Keys) (content : D)
      → Later S token start w t v
      → Later S token start w t (record v { keys = keys; content = content })
  pruned :
      {t : ℤ} {v : Store D} (kept : List Bytes)
      → ((c : PlanClaims) (nonce : Bytes)
          → token_claims S token ≡ some c
          → decode c.nonce ≡ some nonce
          → leb_ℤ c.expires_at t ≡ false
          → is_consumed (S.sha256 nonce) v.consumed ≡ true
          → is_consumed (S.sha256 nonce) kept ≡ true)
      → Later S token start w t v
      → Later S token start w t (record v { consumed = kept })

own : (hash : Bytes) (hs : List Bytes) → is_consumed hash (hash ∷ hs) ≡ true
unfolding is_consumed
own hash hs = rw (eq_bytes_refl hash) refl

leb_ℤ-earlier : (e t u : ℤ) → leb_ℤ t u ≡ true → leb_ℤ e u ≡ false → leb_ℤ e t ≡ false
leb_ℤ-earlier (pos e) (pos t) (pos u) h k = ground arith
leb_ℤ-earlier (pos e) (pos t) (negsuc u) h k = ground arith
leb_ℤ-earlier (pos e) (negsuc t) u h k = refl
leb_ℤ-earlier (negsuc e) t (pos u) h k = ground arith
leb_ℤ-earlier (negsuc e) (pos t) (negsuc u) h k = ground arith
leb_ℤ-earlier (negsuc e) (negsuc t) (negsuc u) h k = ground arith

module _ (S : Crypto) {D : Type 0} where
  Later-consumed :
      (token : Bytes) (c : PlanClaims) (nonce : Bytes) {start : ℤ} {w : Store D} {t : ℤ}
      {v : Store D}
      → token_claims S token ≡ some c
      → decode c.nonce ≡ some nonce
      → Later S token start w t v
      → leb_ℤ c.expires_at t ≡ false
      → is_consumed (S.sha256 nonce) w.consumed ≡ true
      → is_consumed (S.sha256 nonce) v.consumed ≡ true
  Later-consumed token c nonce a b same fresh h = h
  Later-consumed token c nonce a b (waited {t = t} u le l) fresh h =
      Later-consumed token c nonce a b l (leb_ℤ-earlier c.expires_at t u le fresh) h
  Later-consumed token c nonce a b (executed {v = v} db r l) fresh h =
      execute-consumed S db r v (S.sha256 nonce) (Later-consumed token c nonce a b l fresh h)
  Later-consumed token c nonce a b (changed keys content l) fresh h =
      Later-consumed token c nonce a b l fresh h
  Later-consumed token c nonce a b (pruned kept keeps l) fresh h =
      keeps c nonce a b fresh (Later-consumed token c nonce a b l fresh h)

  IsApplied-consumed :
      (db : Db) (r : Request D) (w after : Store D) (a : IsApplied S db r w after)
      → is_consumed (S.sha256 a.nonce) after.consumed ≡ true
  IsApplied-consumed db r w after a =
      subst (λ v. is_consumed (S.sha256 a.nonce) v.consumed ≡ true) a.stored
        (own (S.sha256 a.nonce) w.consumed)

  IsApplied-claims :
      (db : Db) (r : Request D) (w after : Store D) (a : IsApplied S db r w after)
      → IsRead S w.keys r.purpose r.now a.claims (token_claims S r.token)
  IsApplied-claims db r w after a =
      verify-claims S w.keys r.purpose r.now a.claims r.token a.binding a.verifies

  -- Let an execution report no error. Then no later execution of the same token, for any purpose, reports no error, whatever
  -- other executions, changes of the keys and of the other tables, and prunings have happened in between: the clock is not
  -- turned back, and the row of the token's nonce is not deleted before the token has expired.
  pub execute-single_use :
      (db : Db) (r : Request D) (w after : Store D)
      → execute S db r w ≡ (none, after)
      → (db' : Db) (r' : Request D) → r'.token ≡ r.token
      → (v : Store D) → Later S r.token r.now after r'.now v
      → (execute S db' r' v).0 ≢ none
  execute-single_use db r w after h db' r' token v later success =
      let a = execute-IsApplied S db r w after h in
      let b =
        execute-IsApplied S db' r' v (execute S db' r' v).1
          (ap (λ o. (o, (execute S db' r' v).1)) success) in
      let read = IsApplied-claims db r w after a in
      let again = IsApplied-claims db' r' v (execute S db' r' v).1 b in
      let same_claims =
        some-inj a.claims b.claims (sym read.0 ∙ ap (token_claims S) (sym token) ∙ again.0) in
      let one =
        some-inj a.nonce b.nonce
          (sym a.decodes ∙ ap (λ (c : PlanClaims). decode c.nonce) same_claims ∙ b.decodes) in
      let unexpired =
        subst (λ (c : PlanClaims). leb_ℤ c.expires_at r'.now ≡ false) (sym same_claims) again.1 in
      let used =
        Later-consumed r.token a.claims a.nonce read.0 a.decodes later unexpired
          (IsApplied-consumed db r w after a) in
      let fresh = subst (λ n. is_consumed (S.sha256 n) v.consumed ≡ false) (sym one) b.fresh in
      ground (arith, used, fresh)
