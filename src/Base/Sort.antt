-- ===== src/Base/Sort.antt =====
-- `sort.Slice` and `sort.SliceStable` of the standard library, as an insertion sort that keeps the order of
-- elements that compare as equal.
use mathlib.Core.Path.{◌≡◌, refl, sym, subst, ◌∙◌}
use mathlib.Core.Bool.{Bool, true, false, ◌||◌}
use mathlib.Core.List.{List, [], ◌∷◌}
use mathlib.Core.List.Permᴰ
use mathlib.Core.List.{Permᴰ}
use native.Mathlib.Omega.{arith}
use modelcairn.Base.Tests.{if◌then◌else◌, if_elim}
use modelcairn.Base.Lists.{All}

module _ {ℓ} {A : Type ℓ} where
  unfoldable pub insert : (A → A → Bool) → A → List A → List A
  insert less x [] = x ∷ []
  insert less x (y ∷ ys) = let rest = insert less x ys in if less y x then y ∷ rest else x ∷ y ∷ ys

  unfoldable pub sort : (A → A → Bool) → List A → List A
  unfolding insert
  sort less [] = []
  sort less (x ∷ xs) = insert less x (sort less xs)

  pub All-Permᴰ {κ} : (P : A → Type κ) {xs ys : List A} → Permᴰ xs ys → All P xs → All P ys
  All-Permᴰ P Permᴰ.nil h = tt
  All-Permᴰ P (Permᴰ.cons e d) h = (subst P e h.0, All-Permᴰ P d h.1)
  All-Permᴰ P (Permᴰ.swap e f) h = (subst P f h.1.0, (subst P e h.0, h.1.1))
  All-Permᴰ P (Permᴰ.trans d e) h = All-Permᴰ P e (All-Permᴰ P d h)

  pub All-map {κ μ} :
      {P : A → Type κ} {Q : A → Type μ} (f : (x : A) → P x → Q x) (xs : List A)
      → All P xs
      → All Q xs
  All-map f [] h = tt
  All-map f (x ∷ xs) h = (f x h.0, All-map f xs h.1)

module _ {ℓ} {A : Type ℓ} (less : A → A → Bool)
    (asym : (a b : A) → less a b ≡ true → less b a ≡ false)
    (cotrans : (a b c : A) → less a c ≡ true → (less a b || less b c) ≡ true) where
  abbrev pub IsApart : A → A → Type 0
  IsApart a b = (less a b || less b a) ≡ true

  -- No two elements compare as equal.
  abbrev pub IsDistinct : List A → Type 0
  IsDistinct [] = Unit
  IsDistinct (x ∷ xs) = All (IsApart x) xs × IsDistinct xs

  -- No element is before one that precedes it.
  abbrev pub IsSorted : List A → Type 0
  IsSorted [] = Unit
  IsSorted (x ∷ xs) = All (λ y. less y x ≡ false) xs × IsSorted xs

  IsApart-sym : (a b : A) → IsApart a b → IsApart b a
  IsApart-sym a b h = ground (arith, h)

  pub insert-Permᴰ : (x : A) (ys : List A) → Permᴰ (insert less x ys) (x ∷ ys)
  unfolding insert
  insert-Permᴰ x [] = Permᴰ.refl (x ∷ [])
  insert-Permᴰ x (y ∷ ys) =
      if_elim (λ l. Permᴰ l (x ∷ y ∷ ys)) (less y x)
        (λ h. Permᴰ.trans (Permᴰ.cons refl (insert-Permᴰ x ys)) (Permᴰ.swap refl refl))
        (λ h. Permᴰ.refl (x ∷ y ∷ ys))

  pub sort-Permᴰ : (xs : List A) → Permᴰ (sort less xs) xs
  unfolding sort
  sort-Permᴰ [] = Permᴰ.nil
  sort-Permᴰ (x ∷ xs) =
      Permᴰ.trans (insert-Permᴰ x (sort less xs)) (Permᴰ.cons refl (sort-Permᴰ xs))

  after : (x y z : A) → less y x ≡ false → less z y ≡ false → less z x ≡ false
  after x y z h k = ground (arith, h, k, cotrans z y x)

  insert-IsSorted : (x : A) (ys : List A) → IsSorted ys → IsSorted (insert less x ys)
  unfolding insert
  insert-IsSorted x [] h = (tt, tt)
  insert-IsSorted x (y ∷ ys) h =
      if_elim IsSorted (less y x)
        (λ b. (
          All-Permᴰ (λ z. less z y ≡ false) (Permᴰ.symm (insert-Permᴰ x ys)) (asym y x b, h.0),
          insert-IsSorted x ys h.1,
        ))
        (λ b. ((b, All-map (λ z. after x y z b) ys h.0), h))

  pub sort-IsSorted : (xs : List A) → IsSorted (sort less xs)
  unfolding sort
  sort-IsSorted [] = tt
  sort-IsSorted (x ∷ xs) = insert-IsSorted x (sort less xs) (sort-IsSorted xs)

  pub IsDistinct-Permᴰ : {xs ys : List A} → Permᴰ xs ys → IsDistinct xs → IsDistinct ys
  IsDistinct-Permᴰ Permᴰ.nil h = tt
  IsDistinct-Permᴰ (Permᴰ.cons {b = b} {l₂ = ys} e d) h =
      (subst (λ x. All (IsApart x) ys) e (All-Permᴰ _ d h.0), IsDistinct-Permᴰ d h.1)
  IsDistinct-Permᴰ (Permᴰ.swap {a = a} {b = b} {b' = b'} {l = l} e f) h =
      subst (λ x. IsDistinct (x ∷ b' ∷ l)) f
        (subst (λ y. IsDistinct (b ∷ y ∷ l)) e ((IsApart-sym a b h.0.0, h.1.0), (h.0.1, h.1.1)))
  IsDistinct-Permᴰ (Permᴰ.trans d e) h = IsDistinct-Permᴰ e (IsDistinct-Permᴰ d h)

  insert_comm :
      (x y : A) (l : List A)
      → IsApart x y
      → insert less x (insert less y l) ≡ insert less y (insert less x l)
  unfolding insert
  insert_comm x y [] h = ground (arith, h, asym x y)
  insert_comm x y (z ∷ l) h =
      ground (arith, h, asym x y, insert_comm x y l h, cotrans z x y, cotrans z y x)

  pub sort_distinct : {xs ys : List A} → Permᴰ xs ys → IsDistinct xs → sort less xs ≡ sort less ys
  unfolding sort
  sort_distinct Permᴰ.nil h = refl
  sort_distinct (Permᴰ.cons e d) h = rw (e, sort_distinct d h.1) refl
  sort_distinct (Permᴰ.swap {a = a} {b = b} {l = l} e f) h =
      rw (sym e, sym f) (insert_comm a b (sort less l) h.0.0)
  sort_distinct (Permᴰ.trans d e) h = sort_distinct d h ∙ sort_distinct e (IsDistinct-Permᴰ d h)
