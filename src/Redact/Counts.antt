-- ===== src/Redact/Counts.antt =====
-- The count of an entry is the number of its registrations that have not been released.
use modelcairn.Base.{
  ℕ, zero, suc, ◌+◌, ◌≤◌, true, false, ◌&&◌, not, Option, none, some, List, [], ◌∷◌, ◌++◌, ◌≡◌,
  refl, sym, ap, ◌∙◌, arith, if_elim, Bool-cases, inl, inr, some-inj, if◌then◌else◌,
}
use modelcairn.Plan.Base64.{Bytes}
use modelcairn.Plan.Token.{eq_bytes}
use modelcairn.Plan.Issued.{eq_bytes_refl}
use modelcairn.Redact.{Item, find, delete, set_refs, Handle, World, handle_at, mark}

pub eq_bytes→≡ : (xs ys : Bytes) → eq_bytes xs ys ≡ true → xs ≡ ys
unfolding eq_bytes
eq_bytes→≡ [] [] h = refl
eq_bytes→≡ [] (y ∷ ys) h = ground arith
eq_bytes→≡ (x ∷ xs) [] h = ground arith
eq_bytes→≡ (x ∷ xs) (y ∷ ys) h = ground (arith, eq_bytes→≡ xs ys)

abbrev pub refs_or : Option Item → ℕ
refs_or none = 0
refs_or (some item) = item.refs

-- The count of a digest, 0 where it has no entry.
abbrev pub refs_of : Bytes → List Item → ℕ
refs_of d items = refs_or (find d items)

-- The registrations of a digest that have not been released.
unfoldable pub live : Bytes → List Handle → ℕ
live d [] = 0
live d (h ∷ hs) = (if eq_bytes h.digest d && not h.done then 1 else 0) + live d hs

pub eq_bytes_sub : (a b c : Bytes) → eq_bytes a b ≡ true → eq_bytes a c ≡ eq_bytes b c
eq_bytes_sub a b c h = ap (λ x. eq_bytes x c) (eq_bytes→≡ a b h)

eq_bytes_meet : (a b c : Bytes) → eq_bytes a c ≡ true → eq_bytes b c ≡ true → eq_bytes a b ≡ true
eq_bytes_meet a b c h k =
    ap (λ x. eq_bytes x b) (eq_bytes→≡ a c h ∙ sym (eq_bytes→≡ b c k)) ∙ eq_bytes_refl b

abbrev pub with_refs : ℕ → Option Item → Option Item
with_refs n none = none
with_refs n (some item) = some (record item { refs = n })

pub find-delete :
    (d e : Bytes) (items : List Item)
    → find e (delete d items) ≡ (if eq_bytes d e then none else find e items)
unfolding find delete
find-delete d e [] = ground arith
find-delete d e (x ∷ items) =
    if_elim
      (λ l.
        find e l
        ≡ (if eq_bytes d e then none else if eq_bytes x.digest e then some x else find e items))
      (eq_bytes x.digest d)
      (λ h. ground (arith, find-delete d e items, eq_bytes_sub x.digest d e h))
      (λ h. ground (arith, h, find-delete d e items, eq_bytes_meet x.digest d e))

apart_from : (a d e : Bytes) → eq_bytes a d ≡ false → eq_bytes a e ≡ true → eq_bytes d e ≡ false
apart_from a d e h k = ground (arith, h, k, eq_bytes_meet a d e)

pub find-set_refs :
    (d e : Bytes) (n : ℕ) (items : List Item)
    → find e (set_refs d n items)
      ≡ (if eq_bytes d e then with_refs n (find e items) else find e items)
unfolding find set_refs
find-set_refs d e n [] = ground arith
find-set_refs d e n (x ∷ items) = elim (Bool-cases (eq_bytes x.digest d)) [
  | inl h ↦ elim (Bool-cases (eq_bytes x.digest e)) [
    | inl k ↦ rw (h, k, sym (eq_bytes_sub x.digest d e h) ∙ k) refl
    | inr k ↦
        let m = sym (eq_bytes_sub x.digest d e h) ∙ k in
        rw (h, k, m) (find-set_refs d e n items ∙ rw (m) refl)
  ]
  | inr h ↦ elim (Bool-cases (eq_bytes x.digest e)) [
    | inl k ↦ rw (h, k, apart_from x.digest d e h k) refl
    | inr k ↦ rw (h, k) (find-set_refs d e n items)
  ]
]

pub live-append :
    (d : Bytes) (hs : List Handle) (h : Handle)
    → live d (hs ++ h ∷ []) ≡ live d hs + (if eq_bytes h.digest d && not h.done then 1 else 0)
unfolding live
live-append d [] h = omega arith
live-append d (x ∷ hs) h = omega (arith, live-append d hs h)

pub live-mark :
    (d : Bytes) (i : ℕ) (hs : List Handle) (h : Handle)
    → handle_at i hs ≡ some h
    → h.done ≡ false
    → live d hs ≡ live d (mark i hs) + (if eq_bytes h.digest d then 1 else 0)
unfolding live mark handle_at
live-mark d i [] h hi hd = ground arith
live-mark d zero (x ∷ hs) h hi hd = rw (some-inj x h hi, hd) (ground arith)
live-mark d (suc i) (x ∷ hs) h hi hd = omega (arith, live-mark d i hs h hi hd)

-- The count of each digest is that of its registrations, and no entry has a count of 0.
pub record IsCounted (w : World) : Type 0 where
  pub counted : (d : Bytes) → refs_of d w.redactor.entries ≡ live d w.handles
  pub positive : (d : Bytes) (item : Item) → find d w.redactor.entries ≡ some item → 1 ≤ item.refs
