-- ===== src/Config/Mutation/Versions.antt =====
-- When a change of one resource is let through.
use mathlib.Core.Path.{subst}
use modelcairn.Base.{
  String, str_eq, Bool, true, false, not, ◌&&◌, ◌||◌, Option, none, some, ℤ, pos, negsuc, leb_ℤ,
  eq_ℤ, is_some, ◌orelse◌, reject, if_elim, orelse-none, reject-none, or-false, or-false₃,
  not-false, same, str_eq→≡, ◌≡◌, refl, ap, ◌⊎◌, inl, inr, arith,
}
use modelcairn.Config.{Resource}
use modelcairn.Config.Mutation.{
  Stored, Found, found, not_found, failing, MutationInput, Target, refused, target, version_differs,
  operation_error, absent_resource, metadata_differs, resource_error, refuse_or, given_target,
  operation_target, mutation_target,
}

-- The stored resource is the one that the caller has seen.
abbrev pub IsCurrent : MutationInput → Option Stored → Type 0
IsCurrent input current =
    (s : Stored) × (current ≡ some s)
    × (s.resource_version ≡ input.expected_version)
    × (leb_ℤ (pos 1) input.expected_version ≡ true)

abbrev pub IsOperation : MutationInput → Option Stored → Resource → Type 0
IsOperation input current r =
    ((input.operation ≡ "create")
      × (current ≡ none)
      × (input.expected_version ≡ pos 0)
      × (r.state ≡ "present"))
    ⊎ ((input.operation ≡ "update")
        × IsCurrent input current
        × (r.state ≡ "present")
        × (metadata_differs r.metadata current ≡ false))
    ⊎ ((input.operation ≡ "delete") × IsCurrent input current × (r ≡ absent_resource input))

abbrev pub stored_of : Found → Option Stored
stored_of (found s) = some s
stored_of not_found = none
stored_of (failing code) = none

eq_ℤ→≡ : (m n : ℤ) → not (eq_ℤ m n) ≡ false → m ≡ n
eq_ℤ→≡ (pos m) (pos n) h = ground arith
eq_ℤ→≡ (negsuc m) (negsuc n) h = ground arith
eq_ℤ→≡ (pos m) (negsuc n) h = ground arith
eq_ℤ→≡ (negsuc m) (pos n) h = ground arith

no_stored : (o : Option Stored) → is_some o ≡ false → o ≡ none
no_stored none h = refl
no_stored (some s) h = ground arith

versions-IsCurrent :
    (input : MutationInput) (o : Option Stored)
    → version_differs input.expected_version o ≡ false
    → IsCurrent input o
versions-IsCurrent input none h = ground arith
versions-IsCurrent input (some s) h =
    let both =
      or-false (not (leb_ℤ (pos 1) input.expected_version))
        (not (eq_ℤ s.resource_version input.expected_version)) h in
    (
      s,
      refl,
      eq_ℤ→≡ s.resource_version input.expected_version both.1,
      not-false (leb_ℤ (pos 1) input.expected_version) both.0,
    )

-- What the checks of the operation have found out.
IsChecked : MutationInput → Option Stored → Type 0
IsChecked input o =
    ((input.operation ≡ "create") × (o ≡ none) × (input.expected_version ≡ pos 0))
    ⊎ (((input.operation ≡ "update") ⊎ (input.operation ≡ "delete")) × IsCurrent input o)

either : (a b : Bool) → (a || b) ≡ true → (a ≡ true) ⊎ (b ≡ true)
either true b h = inl refl
either false b h = inr h

operation-IsChecked :
    (input : MutationInput) (o : Option Stored) → operation_error input o ≡ none → IsChecked input o
unfolding operation_error IsChecked
operation-IsChecked input o =
    let T = λ (e : Option String). e ≡ none → IsChecked input o in
    let create = str_eq input.operation "create" in
    let update = str_eq input.operation "update" in
    let delete = str_eq input.operation "delete" in
    if_elim T create
      (λ c h.
        let bad = not (eq_ℤ input.expected_version (pos 0)) || not (is_some input.resource) in
        let both =
          orelse-none (reject (is_some o) "already_exists") (reject bad "invalid_resource") h in
        inl (
          str_eq→≡ input.operation "create" c,
          no_stored o (reject-none (is_some o) "already_exists" both.0),
          eq_ℤ→≡ input.expected_version (pos 0)
              (or-false (not (eq_ℤ input.expected_version (pos 0))) (not (is_some input.resource))
                (reject-none bad "invalid_resource" both.1)).0,
        ))
      (λ c.
        if_elim T (update || delete)
          (λ u h.
            let versions = reject (version_differs input.expected_version o) "version_conflict" in
            let missing = reject (update && not (is_some input.resource)) "invalid_resource" in
            let a =
              orelse-none (reject (not (is_some o)) "not_found") (versions orelse missing) h in
            let b = orelse-none versions missing a.1 in
            inr (
              elim (either update delete u) [
                | inl e ↦ inl (str_eq→≡ input.operation "update" e)
                | inr e ↦ inr (str_eq→≡ input.operation "delete" e)
              ],
              versions-IsCurrent input o
                  (reject-none (version_differs input.expected_version o) "version_conflict" b.0),
            ))
          (λ u h. ground arith))

IsGiven : MutationInput → Option Stored → Resource → Type 0
IsGiven input o r =
    (r.state ≡ "present")
    × (r.kind ≡ input.kind)
    × (r.metadata.name ≡ input.name)
    × ((str_eq input.operation "update" && metadata_differs r.metadata o) ≡ false)

resource-IsGiven :
    (input : MutationInput) (o : Option Stored) (r : Resource)
    → resource_error input o r ≡ none
    → IsGiven input o r
unfolding resource_error IsGiven
resource-IsGiven input o r h =
    let other =
      not (str_eq r.state "present")
      || not (str_eq r.kind input.kind)
      || not (str_eq r.metadata.name input.name) in
    let pinned = str_eq input.operation "update" && metadata_differs r.metadata o in
    let both = orelse-none (reject other "invalid_resource") (reject pinned "version_conflict") h in
    let a =
      or-false₃ (not (str_eq r.state "present")) (not (str_eq r.kind input.kind))
        (not (str_eq r.metadata.name input.name)) (reject-none other "invalid_resource" both.0) in
    (
      same r.state "present" a.0,
      same r.kind input.kind a.1,
      same r.metadata.name input.name a.2,
      reject-none pinned "version_conflict" both.1,
    )

and-false : (a b : Bool) → a ≡ true → (a && b) ≡ false → b ≡ false
and-false a b h k = ground arith

given-IsOperation :
    (input : MutationInput) (o : Option Stored) (r : Resource)
    → str_eq input.operation "delete" ≡ false
    → IsChecked input o
    → IsGiven input o r
    → IsOperation input o r
unfolding IsChecked IsGiven
given-IsOperation input o r d (inl c) g = inl (c.0, c.1, c.2, g.0)
given-IsOperation input o r d (inr (inl e, c)) g = inr (
    inl (
      e,
      c,
      g.0,
      and-false (str_eq input.operation "update") (metadata_differs r.metadata o)
          (ap (λ s. str_eq s "update") e) g.3,
    ))
given-IsOperation input o r d (inr (inr e, c)) g =
    clash (str_eq input.operation "delete") (ap (λ s. str_eq s "delete") e) d
  where
    clash : (b : Bool) → b ≡ true → b ≡ false → IsOperation input o r
    clash b t f = ground arith

abbrev IsAllowed : MutationInput → Option Stored → Resource → Type 0
IsAllowed input o r = (r.kind ≡ input.kind) × (r.metadata.name ≡ input.name) × IsOperation input o r

-- What a target says of the mutation that it is let through for.
Allows : MutationInput → Option Stored → Target → Type 0
Allows input o (target r) = IsAllowed input o r
Allows input o (refused code) = Unit

refuse_or-Allows :
    (input : MutationInput) (o : Option Stored) (r : Resource) (e : Option String)
    → (e ≡ none → IsAllowed input o r)
    → Allows input o (refuse_or e r)
unfolding Allows
refuse_or-Allows input o r none h = h refl
refuse_or-Allows input o r (some code) h = tt

given-Allows :
    (input : MutationInput) (o : Option Stored) (r : Option Resource)
    → str_eq input.operation "delete" ≡ false
    → IsChecked input o
    → Allows input o (given_target input o r)
unfolding given_target Allows IsGiven
given-Allows input o none d c = tt
given-Allows input o (some r) d c =
    refuse_or-Allows input o r (resource_error input o r)
      (λ h. let g = resource-IsGiven input o r h in (g.1, g.2, given-IsOperation input o r d c g))

deleted-IsAllowed :
    (input : MutationInput) (o : Option Stored)
    → input.operation ≡ "delete"
    → IsChecked input o
    → IsAllowed input o (absent_resource input)
unfolding IsChecked
deleted-IsAllowed input o d (inl c) =
    clash (ap (λ s. str_eq s "create") d) (ap (λ s. str_eq s "create") c.0)
  where
    clash :
        str_eq input.operation "create" ≡ false
        → str_eq input.operation "create" ≡ true
        → IsAllowed input o (absent_resource input)
    clash f t = ground arith
deleted-IsAllowed input o d (inr (u, c)) = (refl, refl, inr (inr (d, c, refl)))

operation-Allows :
    (input : MutationInput) (o : Option Stored) (e : Option String)
    → operation_error input o ≡ e
    → Allows input o (operation_target e input o)
unfolding operation_target Allows
operation-Allows input o (some code) h = tt
operation-Allows input o none h =
    let c = operation-IsChecked input o h in
    if_elim (Allows input o) (str_eq input.operation "delete")
      (λ d. deleted-IsAllowed input o (str_eq→≡ input.operation "delete" d) c)
      (λ d. given-Allows input o input.resource d c)

mutation-Allows :
    (input : MutationInput) (f : Found) → Allows input (stored_of f) (mutation_target input f)
unfolding mutation_target Allows
mutation-Allows input (found s) =
    operation-Allows input (some s) (operation_error input (some s)) refl
mutation-Allows input not_found = operation-Allows input none (operation_error input none) refl
mutation-Allows input (failing code) = tt

-- A mutation that is let through prepares a resource of the kind and name that were asked for. A creation found
-- none stored and expected version 0. An update or a deletion found one whose version is the expected one,
-- which is positive; an update pins no other identifier or version, and a deletion marks the resource absent.
pub mutation_target-versions :
    (input : MutationInput) (f : Found) (r : Resource)
    → mutation_target input f ≡ target r
    → (r.kind ≡ input.kind) × (r.metadata.name ≡ input.name) × IsOperation input (stored_of f) r
unfolding Allows
mutation_target-versions input f r h =
    subst (Allows input (stored_of f)) h (mutation-Allows input f)
