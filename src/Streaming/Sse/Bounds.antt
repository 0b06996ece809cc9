-- ===== src/Streaming/Sse/Bounds.antt =====
-- How much of the stream an event takes, and how long it is.
use modelcairn.Base.{
  ℕ, suc, ◌-◌, ◌≤◌, ◌<◌, Bool, true, false, Option, none, some, List, [], ◌∷◌, ◌++◌, ◌≡◌, refl,
  arith, length, length-append, if◌then◌else◌,
}
use mathlib.Core.Path.{subst}
use mathlib.Core.Logic.{◌≢◌}
use modelcairn.Fault.{Error, eof}
use modelcairn.Streaming.{max_sse_event_bytes, err_invalid_sse}
use modelcairn.Streaming.Lines.{Fragment, newline}
use modelcairn.Streaming.Sse.{
  Read, event, failed, add_line, add_value, at_line, trim_newline, at_end, after_last, at_blank,
  or_invalid, read_loop, read_sse_data,
}

-- An event leaves at most `n` fragments, and has at most `max_sse_event_bytes` bytes.
abbrev Bounded : ℕ → Read → Type 0
Bounded n (failed e) = Unit
Bounded n (event payload rest) = (length rest ≤ n) × (length payload ≤ max_sse_event_bytes)

length-trim_newline : (xs : List ℕ) → length (trim_newline xs) ≤ length xs
unfolding trim_newline
length-trim_newline [] = omega arith
length-trim_newline (x ∷ []) = ground arith
length-trim_newline (x ∷ y ∷ ys) = omega (arith, length-trim_newline (y ∷ ys))

add_value-bounded :
    (ev : List ℕ) (value : Option (List ℕ)) (ev' : List ℕ)
    → length ev ≤ max_sse_event_bytes
    → add_value ev value ≡ some ev'
    → length ev' ≤ max_sse_event_bytes
unfolding add_value
add_value-bounded ev none ev' h e = ground arith
add_value-bounded ev (some value) ev' h e =
    ground (arith, length-append ev (value ++ newline ∷ []), length-append value (newline ∷ []))

at_end-Bounded : (ev : List ℕ) → length ev ≤ max_sse_event_bytes → Bounded 0 (at_end ev)
unfolding at_end
at_end-Bounded [] h = tt
at_end-Bounded (c ∷ cs) h = (omega arith, omega (arith, length-trim_newline (c ∷ cs)))

or_invalid-Bounded :
    (n : ℕ) (o : Option (List ℕ)) (next : List ℕ → Read)
    → ((ev : List ℕ) → o ≡ some ev → Bounded n (next ev))
    → Bounded n (or_invalid o next)
or_invalid-Bounded n none next h = tt
or_invalid-Bounded n (some ev) next h = h ev refl

after_last-Bounded :
    (finish : Error) (ev line : List ℕ)
    → length ev ≤ max_sse_event_bytes
    → Bounded 0 (after_last finish ev line)
unfolding after_last
after_last-Bounded eof ev [] h = at_end-Bounded ev h
after_last-Bounded eof ev (c ∷ cs) h =
    or_invalid-Bounded 0 (add_line ev (c ∷ cs)) at_end
      (λ ev' e. at_end-Bounded ev' (unfold add_line in add_value-bounded ev _ ev' h e))
after_last-Bounded _ ev line h = tt

Bounded-mono : (n m : ℕ) (r : Read) → n ≤ m → Bounded n r → Bounded m r
Bounded-mono n m (failed e) h b = tt
Bounded-mono n m (event payload rest) h b = (omega arith, b.1)

at_blank-Bounded :
    (ev : List ℕ) (rest : List Fragment) (next : Read)
    → length ev ≤ max_sse_event_bytes
    → Bounded (length rest) next
    → Bounded (length rest) (at_blank ev rest next)
at_blank-Bounded [] rest next h k = k
at_blank-Bounded (c ∷ cs) rest next h k = (omega arith, omega (arith, length-trim_newline (c ∷ cs)))

at_line-Bounded :
    (n : ℕ) (line : List ℕ) (blank filled : Read)
    → Bounded n blank
    → Bounded n filled
    → Bounded n (at_line line blank filled)
at_line-Bounded n [] blank filled h k = h
at_line-Bounded n (c ∷ cs) blank filled h k = k

if-Bounded :
    (n : ℕ) (b : Bool) (r s : Read) → Bounded n r → Bounded n s → Bounded n (if b then r else s)
if-Bounded n true r s h k = h
if-Bounded n false r s h k = k

read_loop-Bounded :
    (finish : Error) (source : List Fragment) (ev line : List ℕ)
    → length ev ≤ max_sse_event_bytes
    → Bounded (length source - 1) (read_loop finish source ev line)
unfolding read_loop
read_loop-Bounded finish [] ev line h = after_last-Bounded finish ev line h
read_loop-Bounded finish (f ∷ rest) ev line h =
    let next = λ (ev' line' : List ℕ) (h' : length ev' ≤ max_sse_event_bytes).
      Bounded-mono (length rest - 1) (length rest) _ (omega arith)
        (read_loop-Bounded finish rest ev' line' h') in
    let e : suc (length rest) - 1 ≡ length rest = omega arith in
    rw e (
      if-Bounded (length rest) _ (failed err_invalid_sse) _ tt (
        if-Bounded (length rest) f.prefix _ _ (next ev (line ++ f.bytes) h) (
          at_line-Bounded (length rest) (line ++ f.bytes) _ _
            (at_blank-Bounded ev rest _ h (next ev [] h))
            (or_invalid-Bounded (length rest) (add_line ev (line ++ f.bytes)) _
              (λ ev' e. next ev' [] (unfold add_line in add_value-bounded ev _ ev' h e))))))

read_sse_data-Bounded :
    (finish : Error) (source : List Fragment)
    → Bounded (length source - 1) (read_sse_data finish source)
unfolding read_sse_data
read_sse_data-Bounded finish source = read_loop-Bounded finish source [] [] (omega arith)

-- With nothing left of the stream there is no event.
no_event :
    (finish : Error) (payload : List ℕ) (rest : List Fragment)
    → read_sse_data finish [] ≢ event payload rest
unfolding read_sse_data read_loop after_last at_end
no_event eof payload rest = ground arith
no_event _ payload rest = ground arith

-- An event is at most `max_sse_event_bytes` bytes long, and a call that returns one has taken at least
-- one fragment from the stream.
pub read_sse_data-bounds :
    (finish : Error) (source : List Fragment) (payload : List ℕ) (rest : List Fragment)
    → read_sse_data finish source ≡ event payload rest
    → (length payload ≤ max_sse_event_bytes) × (length rest < length source)
read_sse_data-bounds finish [] payload rest h = absurd (no_event finish payload rest h)
read_sse_data-bounds finish (f ∷ source) payload rest h =
    let b =
      subst (Bounded (length (f ∷ source) - 1)) h (read_sse_data-Bounded finish (f ∷ source)) in
    (b.1, omega arith)
