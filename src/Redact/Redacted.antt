-- ===== src/Redact/Redacted.antt =====
-- A registered value is replaced until its own removal function is called.
use mathlib.Core.Path.{subst}
use modelcairn.Base.{
  ℕ, zero, suc, ◌+◌, ◌≤◌, true, false, ◌||◌, not, Option, none, some, List, [], ◌∷◌, ◌++◌, ltb,
  length, ◌≡◌, ◌≢◌, refl, ap, ◌∙◌, arith, if_elim, not-false, is_some,
}
use modelcairn.Plan.Base64.{Bytes}
use modelcairn.Plan.Token.{eq_bytes}
use modelcairn.Plan.Issued.{eq_bytes_refl}
use modelcairn.Redact.{
  Item, Redactor, new, find, value_of, value_or, values, Registered, registered, invalid_value,
  digest_collision, register_found, register, Handle, World, Event, registers, releases, hold,
  handle_at, mark, call_once, step, run,
}
use modelcairn.Redact.Counts.{eq_bytes→≡, refs_or, live, find-set_refs, live-mark, IsCounted}
use modelcairn.Redact.Runs.{new-IsCounted, step-IsCounted}
use modelcairn.Redact.Listed.{
  one_if, occurrences, IsListed, step-IsListed, contains, listed-contains,
}
use modelcairn.Redact.Held.{IsHeld, IsOther, AreOthers, step-IsKept}

handle-append :
    (i : ℕ) (hs ys : List Handle) (h : Handle)
    → handle_at i hs ≡ some h
    → handle_at i (hs ++ ys) ≡ some h
unfolding handle_at
handle-append i [] ys h k = ground arith
handle-append zero (x ∷ hs) ys h k = k
handle-append (suc i) (x ∷ hs) ys h k = handle-append i hs ys h k

handle-last : (hs : List Handle) (h : Handle) → handle_at (length hs) (hs ++ h ∷ []) ≡ some h
unfolding handle_at
handle-last [] h = refl
handle-last (x ∷ hs) h = handle-last hs h

handle-mark : (i j : ℕ) (hs : List Handle) → j ≢ i → handle_at i (mark j hs) ≡ handle_at i hs
unfolding handle_at mark
handle-mark i j [] n = refl
handle-mark zero zero (x ∷ hs) n = absurd (n refl)
handle-mark zero (suc j) (x ∷ hs) n = refl
handle-mark (suc i) zero (x ∷ hs) n = refl
handle-mark (suc i) (suc j) (x ∷ hs) n = handle-mark i j hs (λ e. n (ap suc e))

handle-hold :
    (w : World) (i : ℕ) (d : Bytes) (x : Registered) (h : Handle)
    → handle_at i w.handles ≡ some h
    → handle_at i (hold w d x).handles ≡ some h
handle-hold w i d (registered r) h k = handle-append i w.handles _ h k
handle-hold w i d invalid_value h k = k
handle-hold w i d digest_collision h k = k

handle-call :
    (w : World) (i j : ℕ) (x : Option Handle)
    → j ≢ i
    → handle_at i (call_once w j x).handles ≡ handle_at i w.handles
handle-call w i j none n = refl
handle-call w i j (some x) n =
    if_elim (λ (v : World). handle_at i v.handles ≡ handle_at i w.handles) x.done (λ k. refl)
      (λ k. handle-mark i j w.handles n)

handle-step :
    (sha256 : Bytes → Bytes) (w : World) (i : ℕ) (e : Event) (h : Handle)
    → IsOther i e
    → handle_at i w.handles ≡ some h
    → handle_at i (step sha256 w e).handles ≡ some h
handle-step sha256 w i (registers value) h o k =
    handle-hold w i (sha256 value) (register sha256 w.redactor value) h k
handle-step sha256 w i (releases j) h o k = handle-call w i j (handle_at j w.handles) o ∙ k

live-handle :
    (i : ℕ) (d : Bytes) (hs : List Handle)
    → handle_at i hs ≡ some (record { digest = d; done = false })
    → 1 ≤ live d hs
live-handle i d hs h =
    let m = live-mark d i hs (record { digest = d; done = false }) h refl in
    ground (arith, m, eq_bytes_refl d)

found_item : (found : Option Item) → 1 ≤ refs_or found → (item : Item) × (found ≡ some item)
found_item none h = absurd (omega (arith, h))
found_item (some item) h = (item, refl)

step-IsHeld :
    (sha256 : Bytes → Bytes) (w : World) (d v : Bytes) (i : ℕ) (e : Event)
    → IsCounted w
    → IsOther i e
    → IsHeld w d i v
    → IsHeld (step sha256 w e) d i v
step-IsHeld sha256 w d v i e c o held =
    let handle = handle-step sha256 w i e (record { digest = d; done = false }) o held.handle in
    let counted = (step-IsCounted sha256 w e c).counted d in
    let item =
      found_item (find d (step sha256 w e).redactor.entries)
        (rw (counted) (live-handle i d (step sha256 w e).handles handle)) in
    record {
      handle = handle;
      item = item.0;
      entry = item.1;
      value = step-IsKept sha256 w e d held.item item.0 held.entry item.1 ∙ held.value;
    }

found-IsHeld :
    (w : World) (v d : Bytes) (found : Option Item) (r : Redactor)
    → find d w.redactor.entries ≡ found
    → register_found w.redactor v d found ≡ registered r
    → IsHeld (hold w d (register_found w.redactor v d found)) d (length w.handles) v
unfolding find
found-IsHeld w v d none r h k = record {
  handle = handle-last w.handles _;
  item = record { digest = d; value = v; refs = 1 };
  entry = rw (eq_bytes_refl d) refl;
  value = refl;
}
found-IsHeld w v d (some item) r h q =
    if_elim (λ x. x ≡ registered r → IsHeld (hold w d x) d (length w.handles) v)
      (not (eq_bytes item.value v)) (λ k m. ground arith)
      (λ k m. record {
        handle = handle-last w.handles _;
        item = record item { refs = item.refs + 1 };
        entry = find-set_refs d d (item.refs + 1) w.redactor.entries ∙ rw (eq_bytes_refl d, h) refl;
        value = eq_bytes→≡ item.value v (not-false (eq_bytes item.value v) k);
      })
      q

register-IsHeld :
    (sha256 : Bytes → Bytes) (w : World) (v : Bytes) (r : Redactor)
    → register sha256 w.redactor v ≡ registered r
    → IsHeld (step sha256 w (registers v)) (sha256 v) (length w.handles) v
unfolding register
register-IsHeld sha256 w v r =
    if_elim (λ x. x ≡ registered r → IsHeld (hold w (sha256 v) x) (sha256 v) (length w.handles) v)
      (ltb (length v) 8 || ltb 16384 (length v)) (λ k m. ground arith)
      (λ k. found-IsHeld w v (sha256 v) (find (sha256 v) w.redactor.entries) r refl)

-- What holds of every world that events lead to.
abbrev pub IsSound : World → Type 0
IsSound w = IsCounted w × IsListed w.redactor

pub new-IsSound : IsSound (record { redactor = new; handles = [] })
unfolding find occurrences
new-IsSound = (new-IsCounted, λ d. refl)

pub step-IsSound :
    (sha256 : Bytes → Bytes) (w : World) (e : Event) → IsSound w → IsSound (step sha256 w e)
step-IsSound sha256 w e s = (step-IsCounted sha256 w e s.0, step-IsListed sha256 w e s.1)

held-contains :
    (w : World) (d v : Bytes) (i : ℕ)
    → IsListed w.redactor
    → IsHeld w d i v
    → contains v (values w.redactor) ≡ true
held-contains w d v i l held =
    let once = l d ∙ ap (λ x. one_if (is_some x)) held.entry in
    subst (λ x. contains x (values w.redactor) ≡ true) (ap value_or held.entry ∙ held.value)
      (listed-contains d (value_of w.redactor.entries) w.redactor.ordered (omega (arith, once)))

run-held :
    (sha256 : Bytes → Bytes) (w : World) (d v : Bytes) (i : ℕ) (es : List Event)
    → IsSound w
    → IsHeld w d i v
    → AreOthers i es
    → contains v (values (run sha256 w es).redactor) ≡ true
unfolding run
run-held sha256 w d v i [] s held o = held-contains w d v i s.1 held
run-held sha256 w d v i (e ∷ es) s held o =
    run-held sha256 (step sha256 w e) d v i es (step-IsSound sha256 w e s)
      (step-IsHeld sha256 w d v i e s.0 o.0 held) o.1

-- In a world where the counts are those of the registrations and each entry has one pointer, as in a new one and after any event, let the
-- registration of a value be accepted. As long as its own removal function is not called, and whatever else is
-- registered and released meanwhile, the same value too, it is among the values that `Bytes` replaces.
pub register-contains :
    (sha256 : Bytes → Bytes) (w : World) (v : Bytes) (r : Redactor) (es : List Event)
    → IsSound w
    → register sha256 w.redactor v ≡ registered r
    → AreOthers (length w.handles) es
    → contains v (values (run sha256 (step sha256 w (registers v)) es).redactor) ≡ true
register-contains sha256 w v r es s h o =
    run-held sha256 (step sha256 w (registers v)) (sha256 v) v (length w.handles) es
      (step-IsSound sha256 w (registers v) s) (register-IsHeld sha256 w v r h) o
