-- ===== src/AdminSettings/Reapply.antt =====
-- Updates that are applied twice, and what an accepted update leads to.
use mathlib.Core.Path.{subst}
use modelcairn.Base.{
  String, Bool, true, false, Option, none, some, List, is_some, if◌then◌else◌, ◌≡◌, refl, sym, ap,
  ◌∙◌, arith,
}
use modelcairn.AdminSettings.{
  Patch, Document, Resolved, zero_resolved, Diagnostic, invalid_structure, Std,
}
use modelcairn.AdminSettings.Origins.{Origin, normalized_origin}
use modelcairn.AdminSettings.Validate.{validate, validate_patch_structure}
use modelcairn.AdminSettings.Resolve.{
  over, copy_items, apply, set_origin, finish, resolve_patch, no_version, resolve_update,
}
use modelcairn.AdminSettings.Admissible.{IsAdmissible, validate-IsAdmissible}

over_again {ℓ} : {A : Type ℓ} (o : Option A) (v : A) → over o (over o v) ≡ over o v
over_again none v = refl
over_again (some x) v = refl

copy_again :
    (p v : Option (List String))
    → let c = copy_items (if is_some p then p else v) in copy_items (if is_some p then p else c) ≡ c
copy_again none none = refl
copy_again none (some v) = refl
copy_again (some p) v = refl

-- A patch changes nothing that it has set before, the origin aside.
apply-apply :
    (v : Resolved) (p : Patch) (x : String)
    → apply (record (apply v p) { public_origin = x }) p
      ≡ record (apply v p) { public_origin = over p.public_origin x }
unfolding apply
apply-apply v p x = simp (
  over_again p.listen v.listen,
  over_again p.transport v.transport,
  copy_again p.trusted_proxy_cidrs v.trusted_proxy_cidrs,
  over_again p.tls_certificate_path v.tls_certificate_path,
  over_again p.tls_private_key_path v.tls_private_key_path,
  over_again p.idle_seconds v.idle_seconds,
  over_again p.absolute_seconds v.absolute_seconds,
  over_again p.global_attempts_per_minute v.global_attempts_per_minute,
  over_again p.global_burst v.global_burst,
  over_again p.client_attempts_per_minute v.client_attempts_per_minute,
  over_again p.client_burst v.client_burst,
  over_again p.max_client_entries v.max_client_entries,
  over_again p.client_idle_seconds v.client_idle_seconds,
  over_again p.argon_memory_kib v.argon_memory_kib,
  over_again p.argon_iterations v.argon_iterations,
  over_again p.failed_login_retention_seconds v.failed_login_retention_seconds,
)

module _ (S : Std) where
  spelled :
      (m : Option String) (x : String) (b a : Origin S)
      → normalized_origin S (over m x) ≡ some b
      → normalized_origin S b.canonical ≡ some a
      → b.canonical ≡ a.canonical
      → (c : Origin S) × (normalized_origin S (over m b.canonical) ≡ some c)
        × (c.canonical ≡ b.canonical)
  spelled none x b a h ha hc = (a, ha, sym hc)
  spelled (some y) x b a h ha hc = (b, h, refl)

  -- The patch on the settings `r` that it has led to, whose origin is canonical.
  reapply :
      (v : Resolved) (p : Patch) (q : Option (Origin S)) (a : Origin S)
      → let w = apply v p in
        let r = set_origin S w q in
        normalized_origin S w.public_origin ≡ q
        → normalized_origin S r.public_origin ≡ some a
        → r.public_origin ≡ a.canonical
        → set_origin S (apply r p) (normalized_origin S ((apply r p).public_origin)) ≡ r
  unfolding apply
  reapply v p none a h ha hc = ground arith
  reapply v p (some b) a h ha hc =
      let w = apply v p in
      let c = spelled p.public_origin v.public_origin b a h ha hc in
      let reset = λ (u : Resolved). set_origin S u (normalized_origin S u.public_origin) in
      ap reset (apply-apply v p b.canonical)
      ∙ ap (set_origin S (record w { public_origin = over p.public_origin b.canonical })) c.1
      ∙ ap (λ (x : String). record w { public_origin = x }) c.2

  patch-inv :
      (e : Option Diagnostic) (v r : Resolved) (p : Patch)
      → resolve_patch S e v p ≡ (r, none)
      → (e ≡ none) × (finish S (apply v p) ≡ (r, none))
  unfolding resolve_patch
  patch-inv none v r p h = (refl, h)
  patch-inv (some e) v r p h = ground arith

  update-inv :
      (b : Bool) (d : Document) (v r : Resolved)
      → (if b
          then (zero_resolved, some (invalid_structure "$.resourceVersion"))
          else resolve_patch S (validate_patch_structure S d.spec) v d.spec)
        ≡ (r, none)
      → (b ≡ false)
        × (validate_patch_structure S d.spec ≡ none)
        × (finish S (apply v d.spec) ≡ (r, none))
  update-inv true d v r h = ground arith
  update-inv false d v r h =
      let i = patch-inv (validate_patch_structure S d.spec) v r d.spec h in (refl, i.0, i.1)

  -- What `finish` accepts is accepted again after the same patch.
  finish-again :
      (v r : Resolved) (p : Patch)
      → finish S (apply v p) ≡ (r, none)
      → IsAdmissible S r × (finish S (apply r p) ≡ (r, none))
  unfolding finish
  finish-again v r p h =
      let set = ap (λ (x : Resolved × Option Diagnostic). x.0) h in
      let valid : validate S r ≡ none =
        ap (validate S) (sym set) ∙ ap (λ (x : Resolved × Option Diagnostic). x.1) h in
      let good = validate-IsAdmissible S r valid in
      let q = normalized_origin S ((apply v p).public_origin) in
      let again : set_origin S (apply r p) (normalized_origin S ((apply r p).public_origin)) ≡ r =
        go set good in
      (
        good,
        ap (λ (x : Resolved). (x, validate S x)) again
            ∙ ap (λ (o : Option Diagnostic). (r, o)) valid,
      )
    where
      go :
          set_origin S (apply v p) (normalized_origin S ((apply v p).public_origin)) ≡ r
          → IsAdmissible S r
          → set_origin S (apply r p) (normalized_origin S ((apply r p).public_origin)) ≡ r
      go set good =
          let T = λ (x : Resolved).
            normalized_origin S x.public_origin ≡ some good.origin
            → x.public_origin ≡ good.origin.canonical
            → set_origin S (apply x p) (normalized_origin S ((apply x p).public_origin)) ≡ x in
          subst T set
            (reapply v p (normalized_origin S ((apply v p).public_origin)) good.origin refl)
            good.spelled good.canonical

  -- An update that is accepted leads to admissible settings, and the same document is accepted on these
  -- and leaves them as they are.
  pub resolve_update-again :
      (d : Document) (v r : Resolved)
      → resolve_update S (some d) v ≡ (r, none)
      → IsAdmissible S r × (resolve_update S (some d) r ≡ (r, none))
  unfolding resolve_update resolve_patch
  resolve_update-again d v r h =
      let i = update-inv (no_version S d.resource_version) d v r h in
      let f = finish-again v r d.spec i.2 in (f.0, rw (i.0, i.1) f.1)
