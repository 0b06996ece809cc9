-- ===== src/Base/Text.antt =====
-- The order of strings by their characters' numbers, which is the order of their bytes.
use Prim.Native.Char.{code}
use Prim.Native.Nat.{ℕ}
use Prim.Native.String.{String}
use mathlib.Core.Path.{◌≡◌, refl}
use mathlib.Core.Logic.{inl, inr}
use mathlib.Core.Bool.{Bool, true, false, ◌&&◌, ◌||◌, not}
use mathlib.Core.List.{List, [], ◌∷◌}
use native.Mathlib.Omega.{arith}
use text.Mathlib.Text.{◌==◌ as str_eq}
use text.Mathlib.TextEquality.{codes_equal, eq_iff}
use text.Mathlib.TextPositions.{compare_self, eq_refl}
use modelcairn.Base.Tests.{ltb, ◌==◌, if◌then◌else◌, Bool-cases}
use modelcairn.Base.Failure.{str_eq→≡}

-- The characters of a string, by number.
unfoldable pub codes : String → List ℕ
codes String.[] = []
codes (String.◌∷◌ c s) = code c ∷ codes s

abbrev lex : List ℕ → List ℕ → Bool
lex [] [] = false
lex [] (y ∷ ys) = true
lex (x ∷ xs) [] = false
lex (x ∷ xs) (y ∷ ys) = let rest = lex xs ys in ltb x y || x == y && rest

-- a < b on strings
unfoldable pub str_lt : String → String → Bool
unfolding codes
str_lt a b = lex (codes a) (codes b)

lex-asym : (xs ys : List ℕ) → lex xs ys ≡ true → lex ys xs ≡ false
lex-asym [] [] h = refl
lex-asym [] (y ∷ ys) h = refl
lex-asym (x ∷ xs) [] h = ground arith
lex-asym (x ∷ xs) (y ∷ ys) h = ground (arith, lex-asym xs ys)

lex-cotrans : (xs ys zs : List ℕ) → lex xs zs ≡ true → (lex xs ys || lex ys zs) ≡ true
lex-cotrans [] ys [] h = ground arith
lex-cotrans [] [] (z ∷ zs) h = refl
lex-cotrans [] (y ∷ ys) (z ∷ zs) h = refl
lex-cotrans (x ∷ xs) ys [] h = ground arith
lex-cotrans (x ∷ xs) [] (z ∷ zs) h = refl
lex-cotrans (x ∷ xs) (y ∷ ys) (z ∷ zs) h = ground (arith, lex-cotrans xs ys zs)

pub str_lt-asym : (a b : String) → str_lt a b ≡ true → str_lt b a ≡ false
unfolding str_lt
str_lt-asym a b h = lex-asym (codes a) (codes b) h

pub str_lt-cotrans : (a b c : String) → str_lt a c ≡ true → (str_lt a b || str_lt b c) ≡ true
unfolding str_lt
str_lt-cotrans a b c h = lex-cotrans (codes a) (codes b) (codes c) h

heads_equal :
    (c d : ℕ) (s t : List ℕ)
    → lex (c ∷ s) (d ∷ t) ≡ false
    → lex (d ∷ t) (c ∷ s) ≡ false
    → (c ≡ d) × ((lex s t ≡ false) × (lex t s ≡ false))
heads_equal c d s t h k = ground arith

-- Strings that are not in order either way are equal.
pub str_lt-tri : (a b : String) → str_lt a b ≡ false → str_lt b a ≡ false → a ≡ b
unfolding str_lt codes
str_lt-tri String.[] String.[] h k = refl
str_lt-tri String.[] (String.◌∷◌ d t) h k = ground arith
str_lt-tri (String.◌∷◌ c s) String.[] h k = ground arith
str_lt-tri (String.◌∷◌ c s) (String.◌∷◌ d t) h k =
    let same = heads_equal (code c) (code d) (codes s) (codes t) h k in
    λ i.
      String.◌∷◌ (codes_equal c d (rw same.0 (compare_self (code d))) i)
        (str_lt-tri s t same.1.0 same.1.1 i)

str_lt_irrefl : (a : String) → str_lt a a ≡ false
str_lt_irrefl a = elim (Bool-cases (str_lt a a)) [ inl h ↦ str_lt-asym a a h | inr h ↦ h ]

pub str_eq_lt : (a b : String) → str_eq a b ≡ (if str_lt a b then false else not (str_lt b a))
str_eq_lt a b = elim (Bool-cases (str_eq a b)) [
  | inl h ↦ rw (str_eq→≡ a b h, str_lt_irrefl b) (eq_refl b)
  | inr h ↦ elim (Bool-cases (str_lt a b)) [
    | inl k ↦ rw (h, k) refl
    | inr k ↦ elim (Bool-cases (str_lt b a)) [
      | inl m ↦ rw (h, k, m) refl
      | inr m ↦ ground (arith, (eq_iff a b).1 (str_lt-tri a b k m))
    ]
  ]
]
