-- ===== src/Base/Failure.antt =====
-- Checks in sequence, as in `if bad { return failure(code, path) }`: the first failure is the answer.
use mathlib.Core.Path.{◌≡◌, refl, ap}
use Prim.Native.Nat.{ℕ, ◌≤◌}
use mathlib.Core.Bool.{Bool, true, false, ◌||◌, not}
use mathlib.Core.Option.{Option, none, some}
use mathlib.Core.List.{List, [], ◌∷◌}
use modelcairn.Base.Tests.{ltb}
use modelcairn.Base.Lists.{All}
use Prim.Native.String.{String}
use text.Mathlib.Text.{◌==◌ as str_eq}
use text.Mathlib.TextEquality.{eq_iff}
use native.Mathlib.Omega.{arith}

infix 5 ◌orelse◌
abbrev pub ◌orelse◌ {ℓ} : {A : Type ℓ} → Option A → Option A → Option A
none orelse y = y
some x orelse y = some x

-- The failure `e`, if the test holds.
abbrev pub reject {ℓ} : {A : Type ℓ} → Bool → A → Option A
reject true e = some e
reject false e = none

module _ {ℓ} {A : Type ℓ} where
  pub orelse-none : (x y : Option A) → (x orelse y) ≡ none → (x ≡ none) × (y ≡ none)
  orelse-none none y h = (refl, h)
  orelse-none (some x) y h = ground arith

  pub reject-none : (b : Bool) (e : A) → reject b e ≡ none → b ≡ false
  reject-none true e h = ground arith
  reject-none false e h = refl

  -- The failure of the first test that holds.
  abbrev pub first : List (Bool × A) → Option A
  first [] = none
  first ((b, e) ∷ checks) = reject b e orelse first checks

  pub first-none :
      (checks : List (Bool × A)) → first checks ≡ none → All (λ (c : Bool × A). c.0 ≡ false) checks
  first-none [] h = tt
  first-none ((b, e) ∷ checks) h =
      let both = orelse-none (reject b e) (first checks) h in
      (reject-none b e both.0, first-none checks both.1)

pub not_ltb→le : (m n : ℕ) → ltb m n ≡ false → n ≤ m
not_ltb→le m n h = ground arith

pub over_default : {A : Type 0} → A → Option A → A
over_default d none = d
over_default d (some x) = x

pub some-inj : {A : Type 0} (x y : A) → some x ≡ some y → x ≡ y
unfolding over_default
some-inj x y h = ap (over_default x) h

pub or-false : (a b : Bool) → (a || b) ≡ false → (a ≡ false) × (b ≡ false)
or-false a b h = ground arith

pub not-false : (a : Bool) → not a ≡ false → a ≡ true
not-false a h = ground arith

pub or-false₃ : (a b c : Bool) → (a || b || c) ≡ false → (a ≡ false) × (b ≡ false) × (c ≡ false)
or-false₃ a b c h = ground arith

pub or-false₄ :
    (a b c d : Bool)
    → (a || b || c || d) ≡ false
    → (a ≡ false) × (b ≡ false) × (c ≡ false) × (d ≡ false)
or-false₄ a b c d h = ground arith

pub same : (a b : String) → not (str_eq a b) ≡ false → a ≡ b
same a b h = (eq_iff a b).0 (not-false (str_eq a b) h)

pub str_eq→≡ : (a b : String) → str_eq a b ≡ true → a ≡ b
str_eq→≡ a b h = (eq_iff a b).0 h
