-- ===== src/Redact/Runs.antt =====
-- Registrations and releases, in any order, keep the counts.
use mathlib.Core.Path.{subst}
use modelcairn.Base.{
  ℕ, ◌+◌, ◌-◌, ◌≤◌, Bool, true, false, ◌||◌, not, Option, none, some, List, [], ◌∷◌, ◌++◌, ltb,
  length, ◌≡◌, refl, sym, ap, ◌∙◌, arith, if_elim, some-inj, if◌then◌else◌,
}
use modelcairn.Plan.Base64.{Bytes}
use modelcairn.Plan.Token.{eq_bytes}
use modelcairn.Redact.{
  Item, new, find, set_refs, register_found, register, release_found, release, Handle, World, Event,
  registers, releases, hold, handle_at, mark, call_once, step, run,
}
use modelcairn.Redact.Counts.{
  eq_bytes→≡, refs_or, live, with_refs, find-delete, find-set_refs, live-append, live-mark,
  IsCounted,
}

pub find_same :
    (d e : Bytes) (items : List Item) → eq_bytes d e ≡ true → find e items ≡ find d items
find_same d e items h = ap (λ x. find x items) (sym (eq_bytes→≡ d e h))

same_test :
    {A : Type 0} (b : Bool) {x y : A} (z : A)
    → (b ≡ true → x ≡ y)
    → (if b then x else z) ≡ (if b then y else z)
same_test true z h = h refl
same_test false z h = refl

itself : {A : Type 0} (b : Bool) (x : A) → (if b then x else x) ≡ x
itself true x = refl
itself false x = refl

not_more : (n : ℕ) → ltb 0 (n - 1) ≡ false → n - 1 ≡ 0
not_more n h = ground arith

module _ (w : World) (c : IsCounted w) where
  -- The entries are changed at one digest only.
  at_digest :
      (d : Bytes) (entries : List Item) (ordered : List Bytes) (handles : List Handle)
      (found : Option Item)
      → ((e : Bytes) → find e entries ≡ (if eq_bytes d e then found else find e w.redactor.entries))
      → ((e : Bytes) → (if eq_bytes d e then refs_or found else live e w.handles) ≡ live e handles)
      → ((item : Item) → found ≡ some item → 1 ≤ item.refs)
      → IsCounted
          (record { redactor = record { entries = entries; ordered = ordered }; handles = handles })
  at_digest d entries ordered handles found hf hl hp = record {
    counted = λ e. ap refs_or (hf e) ∙ branch (eq_bytes d e) e ∙ hl e;
    positive = λ e item h. positive_at (eq_bytes d e) e item (sym (hf e) ∙ h);
  }
    where
      branch :
          (b : Bool) (e : Bytes)
          → refs_or (if b then found else find e w.redactor.entries)
            ≡ (if b then refs_or found else live e w.handles)
      branch true e = refl
      branch false e = c.counted e

      positive_at :
          (b : Bool) (e : Bytes) (item : Item)
          → (if b then found else find e w.redactor.entries) ≡ some item
          → 1 ≤ item.refs
      positive_at true e item h = hp item h
      positive_at false e item h = c.positive e item h

  count_at :
      (d e : Bytes) (found : Option Item)
      → find d w.redactor.entries ≡ found
      → eq_bytes d e ≡ true
      → live e w.handles ≡ refs_or found
  count_at d e found h k = sym (c.counted e) ∙ ap refs_or (find_same d e w.redactor.entries k ∙ h)

  one_more :
      (d : Bytes) (found : Option Item)
      → find d w.redactor.entries ≡ found
      → (e : Bytes)
      → (if eq_bytes d e then refs_or found + 1 else live e w.handles)
        ≡ live e (w.handles ++ record { digest = d; done = false } ∷ [])
  one_more d found h e =
      rw (live-append e w.handles (record { digest = d; done = false }))
        (ground (arith, count_at d e found h))

  one_less :
      (d : Bytes) (i : ℕ) (x : Handle) (found : Option Item)
      → find d w.redactor.entries ≡ found
      → handle_at i w.handles ≡ some x
      → x.done ≡ false
      → x.digest ≡ d
      → (e : Bytes)
      → (if eq_bytes d e then refs_or found - 1 else live e w.handles) ≡ live e (mark i w.handles)
  one_less d i x found h hi hd hx e =
      let m = live-mark e i w.handles x hi hd in
      let n =
        subst (λ y. live e w.handles ≡ live e (mark i w.handles) + (if eq_bytes y e then 1 else 0))
          hx m in
      ground (arith, n, count_at d e found h)

  set_at :
      (d : Bytes) (n : ℕ) (item : Item)
      → find d w.redactor.entries ≡ some item
      → (e : Bytes)
      → find e (set_refs d n w.redactor.entries)
        ≡ (if eq_bytes d e then some (record item { refs = n }) else find e w.redactor.entries)
  set_at d n item h e =
      find-set_refs d e n w.redactor.entries
      ∙ same_test (eq_bytes d e) (find e w.redactor.entries)
          (λ k. ap (with_refs n) (find_same d e w.redactor.entries k ∙ h))

  found-IsCounted :
      (value d : Bytes) (found : Option Item)
      → find d w.redactor.entries ≡ found
      → IsCounted (hold w d (register_found w.redactor value d found))
  unfolding find
  found-IsCounted value d none h =
      at_digest d _ _ _ (some (record { digest = d; value = value; refs = 1 })) (λ e. refl)
        (one_more d none h)
        (λ item k.
          subst (λ x. 1 ≤ x.refs) (some-inj (record { digest = d; value = value; refs = 1 }) item k)
            (omega arith))
  found-IsCounted value d (some item) h =
      if_elim (λ r. IsCounted (hold w d r)) (not (eq_bytes item.value value)) (λ k. c)
        (λ k.
          at_digest d _ _ _ (some (record item { refs = item.refs + 1 }))
            (set_at d (item.refs + 1) item h) (one_more d (some item) h)
            (λ i m.
              subst (λ x. 1 ≤ x.refs) (some-inj (record item { refs = item.refs + 1 }) i m)
                (omega arith)))

  register-IsCounted :
      (sha256 : Bytes → Bytes) (value : Bytes) → IsCounted (step sha256 w (registers value))
  unfolding register
  register-IsCounted sha256 value =
      if_elim (λ r. IsCounted (hold w (sha256 value) r))
        (ltb (length value) 8 || ltb 16384 (length value)) (λ k. c)
        (λ k. found-IsCounted value (sha256 value) (find (sha256 value) w.redactor.entries) refl)

  absent :
      (d : Bytes)
      → find d w.redactor.entries ≡ none
      → (e : Bytes)
      → find e w.redactor.entries ≡ (if eq_bytes d e then none else find e w.redactor.entries)
  absent d h e =
      sym (itself (eq_bytes d e) (find e w.redactor.entries))
      ∙ same_test (eq_bytes d e) (find e w.redactor.entries)
          (λ k. find_same d e w.redactor.entries k ∙ h)

  released-IsCounted :
      (i : ℕ) (x : Handle) (found : Option Item)
      → find x.digest w.redactor.entries ≡ found
      → handle_at i w.handles ≡ some x
      → x.done ≡ false
      → IsCounted (record {
        redactor = release_found w.redactor x.digest found;
        handles = mark i w.handles;
      })
  released-IsCounted i x none h hi hd =
      at_digest x.digest _ _ _ none (absent x.digest h) (one_less x.digest i x none h hi hd refl)
        (λ y m. ground arith)
  released-IsCounted i x (some item) h hi hd =
      if_elim (λ r. IsCounted (record { redactor = r; handles = mark i w.handles }))
        (ltb 0 (item.refs - 1))
        (λ k.
          at_digest x.digest _ _ _ (some (record item { refs = item.refs - 1 }))
            (set_at x.digest (item.refs - 1) item h)
            (one_less x.digest i x (some item) h hi hd refl)
            (λ y m.
              subst (λ z. 1 ≤ z.refs) (some-inj (record item { refs = item.refs - 1 }) y m)
                (ground (arith, k))))
        (λ k.
          at_digest x.digest _ _ _ none (λ e. find-delete x.digest e w.redactor.entries)
            (λ e.
              subst
                (λ n.
                  (if eq_bytes x.digest e then n else live e w.handles) ≡ live e (mark i w.handles))
                (not_more item.refs k) (one_less x.digest i x (some item) h hi hd refl e))
            (λ y m. ground arith))

  called-IsCounted :
      (i : ℕ) (x : Option Handle) → handle_at i w.handles ≡ x → IsCounted (call_once w i x)
  unfolding release
  called-IsCounted i none hi = c
  called-IsCounted i (some x) hi =
      if_elim IsCounted x.done (λ k. c)
        (λ k. released-IsCounted i x (find x.digest w.redactor.entries) refl hi k)

  release-IsCounted : (sha256 : Bytes → Bytes) (i : ℕ) → IsCounted (step sha256 w (releases i))
  unfolding release
  release-IsCounted sha256 i = called-IsCounted i (handle_at i w.handles) refl

pub new-IsCounted : IsCounted (record { redactor = new; handles = [] })
unfolding find live
new-IsCounted = record { counted = λ d. refl; positive = λ d item h. ground arith }

pub step-IsCounted :
    (sha256 : Bytes → Bytes) (w : World) (e : Event) → IsCounted w → IsCounted (step sha256 w e)
step-IsCounted sha256 w (registers value) c = register-IsCounted w c sha256 value
step-IsCounted sha256 w (releases i) c = release-IsCounted w c sha256 i

-- After any registrations and releases, in any order and with any hash, the count of each digest is the number of the registrations
-- with this digest whose removal function has not been called, and an entry has a positive count: so there is an entry
-- exactly while there is such a registration.
pub run-IsCounted :
    (sha256 : Bytes → Bytes) (w : World) (es : List Event)
    → IsCounted w
    → IsCounted (run sha256 w es)
unfolding run
run-IsCounted sha256 w [] c = c
run-IsCounted sha256 w (e ∷ es) c =
    run-IsCounted sha256 (step sha256 w e) es (step-IsCounted sha256 w e c)
