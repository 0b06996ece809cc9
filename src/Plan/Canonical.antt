-- ===== src/Plan/Canonical.antt =====
-- The canonical form of a binding forgets the order in which the resources were observed.
use mathlib.Core.List.{Permᴰ}
use mathlib.Core.List.Permᴰ
use mathlib.Core.Path.{subst}
use modelcairn.Base.{
  true, false, ◌||◌, not, none, some, List, [], ◌∷◌, ◌≡◌, refl, sym, ◌∙◌, arith, All, inl, inr,
  Bool-cases, or-false₃, leb_ℤ, pos, if_elim,
}
use modelcairn.Base.Sort.{
  sort, IsDistinct, IsSorted, sort-IsSorted, sort-Permᴰ, sort_distinct, IsDistinct-Permᴰ, All-map,
}
use modelcairn.Plan.Base64.{decode}
use modelcairn.Plan.Order.{ObservedResource, less, less-asym, less-cotrans, same_key, less-tri}
use modelcairn.Plan.Binding.{
  PlanBinding, bad_items, bad_digest, invalid_item, ok, ok-inj, sorted, canonical_binding,
}

abbrev AreDistinct : List ObservedResource → Type 0
AreDistinct = IsDistinct less less-asym less-cotrans

less_trans : (a b c : ObservedResource) → less a b ≡ true → less b c ≡ true → less a c ≡ true
less_trans a b c h k = ground (arith, less-cotrans a c b h, less-asym b c k)

apart : (a b : ObservedResource) → less b a ≡ false → same_key b a ≡ false → less a b ≡ true
apart a b h k = elim (Bool-cases (less a b)) [
  | inl m ↦ m
  | inr m ↦ ground (arith, k, less-tri a b m h)
]

rising :
    (x : ObservedResource) (xs : List ObservedResource)
    → IsSorted less less-asym less-cotrans (x ∷ xs)
    → bad_items (some x) xs ≡ false
    → All (λ y. less x y ≡ true) xs × AreDistinct xs
unfolding bad_items
rising x [] s h = (tt, tt)
rising x (y ∷ ys) s h =
    let checks = or-false₃ (invalid_item y) (same_key y x) (bad_items (some y) ys) h in
    let rest = rising y ys s.1 checks.2 in
    let first = apart x y s.0.0 checks.1 in
    (
      (first, All-map (λ z. less_trans x y z first) ys rest.0),
      (All-map (λ z k. ground (arith, k)) ys rest.0, rest.1),
    )

all_apart :
    (xs : List ObservedResource)
    → IsSorted less less-asym less-cotrans xs
    → bad_items none xs ≡ false
    → AreDistinct xs
unfolding bad_items
all_apart [] s h = tt
all_apart (x ∷ xs) s h =
    let r = rising x xs s (or-false₃ (invalid_item x) false (bad_items (some x) xs) h).2 in
    (All-map (λ z k. ground (arith, k)) xs r.0, r.1)

pub bad_items-sort-Distinct :
    (xs : List ObservedResource) → bad_items none (sort less xs) ≡ false → AreDistinct xs
bad_items-sort-Distinct xs h =
    IsDistinct-Permᴰ less less-asym less-cotrans (sort-Permᴰ less less-asym less-cotrans xs)
      (all_apart (sort less xs) (sort-IsSorted less less-asym less-cotrans xs) h)

same_observed :
    (xs ys : List ObservedResource)
    → Permᴰ xs ys
    → bad_items none (sort less xs) ≡ false
    → sort less xs ≡ sort less ys
same_observed xs ys p h = sort_distinct less less-asym less-cotrans p (bad_items-sort-Distinct xs h)

-- Two bindings with the same revision and digest, whose observed resources are a rearrangement of each other,
-- have the same canonical form, or are refused with the same error.
pub canonical_binding-order :
    (b : PlanBinding) (ys : List ObservedResource)
    → Permᴰ b.observed ys
    → canonical_binding b ≡ canonical_binding (record b { observed = ys })
unfolding canonical_binding
canonical_binding-order b ys p = elim (Bool-cases (bad_items none (sort less b.observed))) [
  | inl h ↦ elim (Bool-cases (bad_items none (sort less ys))) [
    | inl k ↦ rw (h, k) (ground arith)
    | inr k ↦ rw (same_observed ys b.observed (Permᴰ.symm p) k) refl
  ]
  | inr h ↦ rw (same_observed b.observed ys p h) refl
]

pub canonical_binding-sorted : (b c : PlanBinding) → canonical_binding b ≡ ok c → sorted b ≡ c
unfolding canonical_binding
canonical_binding-sorted b c =
    if_elim (λ r. r ≡ ok c → sorted b ≡ c)
      (bad_digest (decode b.digest)
        || not (leb_ℤ (pos 1) b.revision)
        || bad_items none (sort less b.observed))
      (λ h k. ground arith) (λ h k. ok-inj (sorted b) c k)

-- The canonical form of a binding is its own canonical form.
pub canonical_binding_idem :
    (b c : PlanBinding) → canonical_binding b ≡ ok c → canonical_binding c ≡ ok c
canonical_binding_idem b c h =
    subst (λ x. canonical_binding x ≡ ok c) (canonical_binding-sorted b c h)
      (sym (
          canonical_binding-order b (sort less b.observed)
            (Permᴰ.symm (sort-Permᴰ less less-asym less-cotrans b.observed)))
        ∙ h)
