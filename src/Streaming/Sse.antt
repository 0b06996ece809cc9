-- ===== src/Streaming/Sse.antt =====
-- `readSSEData` of internal/streaming/chat.go.
pub mod Bounds
use modelcairn.Base.{
  ℕ, suc, ◌+◌, Bool, true, false, Option, none, some, List, [], ◌∷◌, ◌++◌, ◌==◌, ltb, not,
  if◌then◌else◌, length, ◌&&◌,
}
use modelcairn.Fault.{Error, eof}
use modelcairn.Streaming.{max_sse_event_bytes, err_invalid_sse}
use modelcairn.Streaming.Lines.{Fragment, newline}

-- The result of a call, with what is left of the stream.
pub data Read : Type 0 where
  event : List ℕ → List Fragment → Read
  failed : Error → Read

abbrev pub colon : ℕ
colon = b':'

abbrev pub space : ℕ
space = b' '

-- The value of a line that starts with "data:", by `bytes.Cut` and `bytes.TrimPrefix`.
abbrev trim_space : List ℕ → List ℕ
trim_space [] = []
trim_space (c ∷ cs) = if c == space then cs else c ∷ cs

unfoldable pub data_value : List ℕ → Option (List ℕ)
data_value (d ∷ a ∷ t ∷ e ∷ c ∷ value) =
    if d == b'd' && a == b'a' && t == b't' && e == b'a' && c == colon
    then some (trim_space value)
    else none
data_value _ = none

-- `bytes.TrimSuffix(event, "\n")`
abbrev trim_last : ℕ → List ℕ → List ℕ → List ℕ
trim_last c [] rest = if c == newline then [] else c ∷ []
trim_last c (d ∷ ds) rest = c ∷ rest

unfoldable pub trim_newline : List ℕ → List ℕ
trim_newline [] = []
trim_newline (c ∷ cs) = trim_last c cs (trim_newline cs)

-- A complete line that is not empty: the event that it leaves, or `none` if that grows too long.
unfoldable pub add_value : List ℕ → Option (List ℕ) → Option (List ℕ)
add_value ev none = some ev
add_value ev (some value) =
    if ltb max_sse_event_bytes (length ev + length value + 1)
    then none
    else some (ev ++ (value ++ newline ∷ []))

unfoldable pub add_line : List ℕ → List ℕ → Option (List ℕ)
unfolding add_value data_value
add_line ev line = add_value ev (data_value line)

-- The stream has ended: what has been gathered is the last event, if it is one.
pub at_end : List ℕ → Read
unfolding trim_newline
at_end [] = failed eof
at_end (c ∷ cs) = event (trim_newline (c ∷ cs)) []

abbrev pub or_invalid : Option (List ℕ) → (List ℕ → Read) → Read
or_invalid none next = failed err_invalid_sse
or_invalid (some ev) next = next ev

-- The reader returns `finish` with no bytes: an unfinished line still counts if that is the end.
pub after_last : Error → List ℕ → List ℕ → Read
unfolding at_end add_line
after_last eof ev [] = at_end ev
after_last eof ev (c ∷ cs) = or_invalid (add_line ev (c ∷ cs)) at_end
after_last err ev line = failed err

-- An empty line ends an event, if there is one.
abbrev pub at_blank : List ℕ → List Fragment → Read → Read
at_blank [] rest next = next
at_blank (c ∷ cs) rest next = event (trim_newline (c ∷ cs)) rest

-- A complete line that is empty, or not.
abbrev pub at_line : List ℕ → Read → Read → Read
at_line [] blank filled = blank
at_line (c ∷ cs) blank filled = filled

-- One call, on the fragments that `ReadLine` will return, and on the error that it returns after them;
-- `ev` and `line` are the loop's variables.
unfoldable pub read_loop : Error → List Fragment → List ℕ → List ℕ → Read
unfolding after_last add_line trim_newline
read_loop finish [] ev line = after_last finish ev line
read_loop finish (f ∷ rest) ev line =
    let longer = line ++ f.bytes in
    let unfinished = read_loop finish rest ev longer in
    let skipped = read_loop finish rest ev [] in
    if ltb max_sse_event_bytes (length line + length f.bytes)
    then failed err_invalid_sse
    else if f.prefix
    then unfinished
    else at_line longer (at_blank ev rest skipped)
        (or_invalid (add_line ev longer) (λ ev'. read_loop finish rest ev' []))

unfoldable pub read_sse_data : Error → List Fragment → Read
unfolding read_loop
read_sse_data finish source = read_loop finish source [] []
