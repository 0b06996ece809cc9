-- ===== src/Backup/Digits.antt =====
-- The decimal digits that internal/backupmcb1/mcb1.go has encoding/json write for a size.
use modelcairn.Base.{
  ℕ, zero, suc, ◌+◌, ◌/◌, ◌≤◌, ◌<◌, arith, ltb, if◌then◌else◌, Bool-cases, inl, inr,
}

-- How many decimal digits a number has, which is at most the fuel.
abbrev digits_within : ℕ → ℕ → ℕ
digits_within zero n = 0
digits_within (suc k) n = let rest = digits_within k (n / 10) in if ltb n 10 then 1 else 1 + rest

unfoldable pub digits : ℕ → ℕ
digits n = digits_within 20 n

digits_bounded : (k n : ℕ) → digits_within k n ≤ k
digits_bounded zero n = omega arith
digits_bounded (suc k) n = ground (arith, digits_bounded k (n / 10))

digits_mono : (k a b : ℕ) → a ≤ b → digits_within k a ≤ digits_within k b
digits_mono zero a b h = omega arith
digits_mono (suc k) a b h = ground (arith, digits_mono k (a / 10) (b / 10) (omega arith))

digits_small : (k n : ℕ) → n < 10 → digits_within k n ≤ 1
digits_small zero n h = omega arith
digits_small (suc k) n h = ground arith

digits_near : (k a b : ℕ) → b ≤ a + 40 → digits_within k b ≤ digits_within k a + 2
digits_near zero a b h = omega arith
digits_near (suc k) a b h = elim (Bool-cases (ltb a 10)) [
  | inl e ↦ let small = digits_small k (b / 10) (ground (arith, e)) in ground (arith, e, small)
  | inr e ↦ let near = digits_near k (a / 10) (b / 10) (omega arith) in ground (arith, e, near)
]

pub digits_cap : (n : ℕ) → digits n ≤ 20
unfolding digits
digits_cap n = digits_bounded 20 n

pub digits_le : (a b : ℕ) → a ≤ b → digits a ≤ digits b
unfolding digits
digits_le a b h = digits_mono 20 a b h

pub digits_close : (a b : ℕ) → b ≤ a + 40 → digits b ≤ digits a + 2
unfolding digits
digits_close a b h = digits_near 20 a b h
