-- ===== src/Redact/Held.antt =====
-- A registered value is replaced until its own removal function is called.
use modelcairn.Base.{
  ℕ, ◌+◌, ◌-◌, Bool, true, false, ◌||◌, not, Option, none, some, List, [], ◌∷◌, ltb, length, ◌≡◌,
  ◌≢◌, refl, sym, ap, ◌∙◌, arith, if_elim, some-inj, if◌then◌else◌,
}
use modelcairn.Plan.Base64.{Bytes}
use modelcairn.Plan.Token.{eq_bytes}
use modelcairn.Redact.{
  Item, Redactor, find, delete, set_refs, remove, add_entry, register_found, register,
  release_found, release, Handle, World, Event, registers, releases, hold, handle_at, call_once,
  step,
}
use modelcairn.Redact.Counts.{with_refs, find-delete, find-set_refs}
use modelcairn.Redact.Runs.{find_same}

-- An entry that was there before and is there afterwards has kept its value.
abbrev pub IsKept : Bytes → Redactor → Redactor → Type 0
IsKept d r after =
    (x y : Item) → find d r.entries ≡ some x → find d after.entries ≡ some y → y.value ≡ x.value

same-IsKept : (d : Bytes) (r : Redactor) → IsKept d r r
same-IsKept d r x y h k = ap (λ i. i.value) (some-inj y x (sym k ∙ h))

set-value :
    (b : Bool) (n : ℕ) (found : Option Item) (x y : Item)
    → found ≡ some x
    → (if b then with_refs n found else found) ≡ some y
    → y.value ≡ x.value
set-value b n none x y h k = ground arith
set-value true n (some z) x y h k =
    sym (ap (λ i. i.value) (some-inj (record z { refs = n }) y k))
    ∙ ap (λ i. i.value) (some-inj z x h)
set-value false n (some z) x y h k =
    sym (ap (λ i. i.value) (some-inj z y k)) ∙ ap (λ i. i.value) (some-inj z x h)

set-IsKept :
    (d e : Bytes) (n : ℕ) (r : Redactor)
    → IsKept e r (record r { entries = set_refs d n r.entries })
set-IsKept d e n r x y h k =
    set-value (eq_bytes d e) n (find e r.entries) x y h (sym (find-set_refs d e n r.entries) ∙ k)

delete-value :
    (b : Bool) (found : Option Item) (x y : Item)
    → found ≡ some x
    → (if b then none else found) ≡ some y
    → y.value ≡ x.value
delete-value true found x y h k = ground arith
delete-value false found x y h k = ap (λ i. i.value) (some-inj y x (sym k ∙ h))

delete-IsKept :
    (d e : Bytes) (r : Redactor) (ordered : List Bytes)
    → IsKept e r (record { entries = delete d r.entries; ordered = ordered })
delete-IsKept d e r ordered x y h k =
    delete-value (eq_bytes d e) (find e r.entries) x y h (sym (find-delete d e r.entries) ∙ k)

add-value :
    (b : Bool) (new_item : Item) (found : Option Item) (x y : Item)
    → (b ≡ true → found ≡ none)
    → found ≡ some x
    → (if b then some new_item else found) ≡ some y
    → y.value ≡ x.value
add-value true new_item found x y a h k = ground (arith, a refl, h)
add-value false new_item found x y a h k = ap (λ i. i.value) (some-inj y x (sym k ∙ h))

add-IsKept :
    (r : Redactor) (value d e : Bytes) → find d r.entries ≡ none → IsKept e r (add_entry r value d)
unfolding find
add-IsKept r value d e a x y h k =
    add-value (eq_bytes d e) (record { digest = d; value = value; refs = 1 }) (find e r.entries) x y
      (λ b. find_same d e r.entries b ∙ a) h k

found-IsKept :
    (w : World) (value d e : Bytes) (found : Option Item)
    → find d w.redactor.entries ≡ found
    → IsKept e w.redactor (hold w d (register_found w.redactor value d found)).redactor
found-IsKept w value d e none h = add-IsKept w.redactor value d e h
found-IsKept w value d e (some item) h =
    if_elim (λ r. IsKept e w.redactor (hold w d r).redactor) (not (eq_bytes item.value value))
      (λ k. same-IsKept e w.redactor) (λ k. set-IsKept d e (item.refs + 1) w.redactor)

released-IsKept :
    (r : Redactor) (d e : Bytes) (found : Option Item) → IsKept e r (release_found r d found)
released-IsKept r d e none = same-IsKept e r
released-IsKept r d e (some item) =
    if_elim (IsKept e r) (ltb 0 (item.refs - 1)) (λ k. set-IsKept d e (item.refs - 1) r)
      (λ k. delete-IsKept d e r (remove d r.ordered))

called-IsKept :
    (w : World) (e : Bytes) (i : ℕ) (x : Option Handle)
    → IsKept e w.redactor (call_once w i x).redactor
unfolding release
called-IsKept w e i none = same-IsKept e w.redactor
called-IsKept w e i (some x) =
    if_elim (λ (v : World). IsKept e w.redactor v.redactor) x.done (λ k. same-IsKept e w.redactor)
      (λ k. released-IsKept w.redactor x.digest e (find x.digest w.redactor.entries))

pub step-IsKept :
    (sha256 : Bytes → Bytes) (w : World) (ev : Event) (e : Bytes)
    → IsKept e w.redactor (step sha256 w ev).redactor
unfolding register
step-IsKept sha256 w (registers value) e =
    if_elim (λ r. IsKept e w.redactor (hold w (sha256 value) r).redactor)
      (ltb (length value) 8 || ltb 16384 (length value)) (λ k. same-IsKept e w.redactor)
      (λ k. found-IsKept w value (sha256 value) e (find (sha256 value) w.redactor.entries) refl)
step-IsKept sha256 w (releases i) e = called-IsKept w e i (handle_at i w.handles)

-- The handle with an index has not been called, and the entry of its digest has the value.
pub record IsHeld (w : World) (d : Bytes) (i : ℕ) (v : Bytes) : Type 0 where
  pub handle : handle_at i w.handles ≡ some (record { digest = d; done = false })
  pub item : Item
  pub entry : find d w.redactor.entries ≡ some item
  pub value : item.value ≡ v

abbrev pub IsOther : ℕ → Event → Type 0
IsOther i (registers value) = Unit
IsOther i (releases j) = j ≢ i

-- No event calls the removal function with an index.
abbrev pub AreOthers : ℕ → List Event → Type 0
AreOthers i [] = Unit
AreOthers i (e ∷ es) = IsOther i e × AreOthers i es
