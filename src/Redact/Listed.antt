-- ===== src/Redact/Listed.antt =====
-- Each entry has one pointer in `ordered`.
use mathlib.Core.List.{Permᴰ}
use modelcairn.Base.{
  ℕ, ◌+◌, ◌-◌, ◌≤◌, Bool, true, false, ◌||◌, not, Option, none, some, List, [], ◌∷◌, ◌++◌, map, ltb,
  length, ◌≡◌, refl, sym, ap, ◌∙◌, arith, if_elim, Bool-cases, inl, inr, is_some, if◌then◌else◌,
}
use modelcairn.Base.Sort.{sort-Permᴰ}
use modelcairn.Plan.Base64.{Bytes}
use modelcairn.Plan.Token.{eq_bytes}
use modelcairn.Plan.Issued.{eq_bytes_refl}
use modelcairn.Redact.{
  Item, Redactor, find, delete, set_refs, remove, longer, add_entry, register_found, register,
  release_found, release, Handle, World, Event, registers, releases, hold, handle_at, call_once,
  step,
}
use modelcairn.Redact.Counts.{eq_bytes→≡, eq_bytes_sub, with_refs, find-delete, find-set_refs}
use modelcairn.Redact.Runs.{find_same}

abbrev pub one_if : Bool → ℕ
one_if true = 1
one_if false = 0

-- How often a pointer occurs.
unfoldable pub occurrences : Bytes → List Bytes → ℕ
occurrences d [] = 0
occurrences d (e ∷ es) = one_if (eq_bytes e d) + occurrences d es

occurrences-append :
    (d : Bytes) (xs ys : List Bytes)
    → occurrences d (xs ++ ys) ≡ occurrences d xs + occurrences d ys
unfolding occurrences
occurrences-append d [] ys = omega arith
occurrences-append d (x ∷ xs) ys = omega (arith, occurrences-append d xs ys)

occurrences-Permᴰ :
    (d : Bytes) {xs ys : List Bytes} → Permᴰ xs ys → occurrences d xs ≡ occurrences d ys
unfolding occurrences
occurrences-Permᴰ d Permᴰ.nil = refl
occurrences-Permᴰ d (Permᴰ.cons e p) = rw (e, occurrences-Permᴰ d p) refl
occurrences-Permᴰ d (Permᴰ.swap e f) = rw (sym e, sym f) (omega arith)
occurrences-Permᴰ d (Permᴰ.trans p q) = occurrences-Permᴰ d p ∙ occurrences-Permᴰ d q

occurrences-remove :
    (d e : Bytes) (es : List Bytes)
    → 1 ≤ occurrences d es
    → occurrences e es ≡ occurrences e (remove d es) + one_if (eq_bytes d e)
unfolding occurrences remove
occurrences-remove d e [] h = absurd (omega (arith, h))
occurrences-remove d e (x ∷ es) h = elim (Bool-cases (eq_bytes x d)) [
  | inl k ↦ rw (k, eq_bytes_sub x d e k) (omega arith)
  | inr k ↦ let m = occurrences-remove d e es (ground (arith, h, k)) in rw (k) (omega (arith, m))
]

longer-asym : (items : List Item) (a b : Bytes) → longer items a b ≡ true → longer items b a ≡ false
longer-asym items a b h = ground (arith, h)

longer-cotrans :
    (items : List Item) (a b c : Bytes)
    → longer items a c ≡ true
    → (longer items a b || longer items b c) ≡ true
longer-cotrans items a b c h = ground (arith, h)

-- `ordered` has one pointer to each entry, and no other.
abbrev pub IsListed : Redactor → Type 0
IsListed r = (d : Bytes) → occurrences d r.ordered ≡ one_if (is_some (find d r.entries))

abbrev new_entry : Redactor → Bytes → Bytes → List Item
new_entry r value d = record { digest = d; value = value; refs = 1 } ∷ r.entries

one_added :
    (b : Bool) (item : Item) (found : Option Item) (n : ℕ)
    → n ≡ one_if (is_some found)
    → (b ≡ true → found ≡ none)
    → n + (one_if b + 0) ≡ one_if (is_some (if b then some item else found))
one_added true item found n h k = rw (h, k refl) refl
one_added false item found n h k = omega (arith, h)

one_gone :
    (b : Bool) (found : Option Item) (n m : ℕ)
    → n ≡ one_if (is_some found)
    → n ≡ m + one_if b
    → (b ≡ true → is_some found ≡ true)
    → m ≡ one_if (is_some (if b then none else found))
one_gone true found n m h k i = let one = h ∙ ap one_if (i refl) in omega (arith, one, k)
one_gone false found n m h k i = omega (arith, h, k)

still :
    (b : Bool) (n : ℕ) (found : Option Item)
    → is_some (if b then with_refs n found else found) ≡ is_some found
still true n none = refl
still true n (some item) = refl
still false n found = refl

add-IsListed :
    (r : Redactor) (value d : Bytes)
    → IsListed r
    → find d r.entries ≡ none
    → IsListed (add_entry r value d)
unfolding find occurrences
add-IsListed r value d l h e =
    occurrences-Permᴰ e (
      sort-Permᴰ (longer (new_entry r value d)) (longer-asym (new_entry r value d))
        (longer-cotrans (new_entry r value d)) (r.ordered ++ d ∷ []))
    ∙ occurrences-append e r.ordered (d ∷ [])
    ∙ one_added (eq_bytes d e) (record { digest = d; value = value; refs = 1 }) (find e r.entries)
        (occurrences e r.ordered) (l e) (λ k. find_same d e r.entries k ∙ h)

set-IsListed :
    (r : Redactor) (d : Bytes) (n : ℕ)
    → IsListed r
    → IsListed (record r { entries = set_refs d n r.entries })
set-IsListed r d n l e =
    l e
    ∙ ap one_if (
        sym
          (ap is_some (find-set_refs d e n r.entries) ∙ still (eq_bytes d e) n (find e r.entries)))

delete-IsListed :
    (r : Redactor) (d : Bytes) (item : Item)
    → IsListed r
    → find d r.entries ≡ some item
    → IsListed (record { entries = delete d r.entries; ordered = remove d r.ordered })
delete-IsListed r d item l h e =
    one_gone (eq_bytes d e) (find e r.entries) (occurrences e r.ordered)
      (occurrences e (remove d r.ordered)) (l e)
      (occurrences-remove d e r.ordered (rw (l d, h) (omega arith)))
      (λ k. ap is_some (find_same d e r.entries k ∙ h))
    ∙ ap (λ x. one_if (is_some x)) (sym (find-delete d e r.entries))

found-IsListed :
    (w : World) (value d : Bytes) (found : Option Item)
    → IsListed w.redactor
    → find d w.redactor.entries ≡ found
    → IsListed (hold w d (register_found w.redactor value d found)).redactor
found-IsListed w value d none l h = add-IsListed w.redactor value d l h
found-IsListed w value d (some item) l h =
    if_elim (λ r. IsListed (hold w d r).redactor) (not (eq_bytes item.value value)) (λ k. l)
      (λ k. set-IsListed w.redactor d (item.refs + 1) l)

released-IsListed :
    (r : Redactor) (d : Bytes) (found : Option Item)
    → IsListed r
    → find d r.entries ≡ found
    → IsListed (release_found r d found)
released-IsListed r d none l h = l
released-IsListed r d (some item) l h =
    if_elim IsListed (ltb 0 (item.refs - 1)) (λ k. set-IsListed r d (item.refs - 1) l)
      (λ k. delete-IsListed r d item l h)

called-IsListed :
    (w : World) (i : ℕ) (x : Option Handle)
    → IsListed w.redactor
    → IsListed (call_once w i x).redactor
unfolding release
called-IsListed w i none l = l
called-IsListed w i (some x) l =
    if_elim (λ (v : World). IsListed v.redactor) x.done (λ k. l)
      (λ k. released-IsListed w.redactor x.digest (find x.digest w.redactor.entries) l refl)

pub step-IsListed :
    (sha256 : Bytes → Bytes) (w : World) (e : Event)
    → IsListed w.redactor
    → IsListed (step sha256 w e).redactor
unfolding register
step-IsListed sha256 w (registers value) l =
    if_elim (λ r. IsListed (hold w (sha256 value) r).redactor)
      (ltb (length value) 8 || ltb 16384 (length value)) (λ k. l)
      (λ k. found-IsListed w value (sha256 value) (find (sha256 value) w.redactor.entries) l refl)
step-IsListed sha256 w (releases i) l = called-IsListed w i (handle_at i w.handles) l

-- A value among others.
unfoldable pub contains : Bytes → List Bytes → Bool
contains v [] = false
contains v (x ∷ xs) = eq_bytes x v || contains v xs

pub listed-contains :
    (d : Bytes) (f : Bytes → Bytes) (es : List Bytes)
    → 1 ≤ occurrences d es
    → contains (f d) (map f es) ≡ true
unfolding occurrences contains
listed-contains d f [] h = absurd (omega (arith, h))
listed-contains d f (e ∷ es) h = elim (Bool-cases (eq_bytes e d)) [
  | inl k ↦ rw (ap (λ x. eq_bytes (f x) (f d)) (eq_bytes→≡ e d k) ∙ eq_bytes_refl (f d)) refl
  | inr k ↦ let m = listed-contains d f es (ground (arith, h, k)) in ground (arith, m)
]
