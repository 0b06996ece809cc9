-- ===== src/Streaming/Lines.antt =====
-- `bufio.Reader.ReadLine` over a buffer of `read_buffer_size` bytes.
use modelcairn.Base.{ℕ, Bool, true, false, List, [], ◌∷◌, ◌==◌, if◌then◌else◌, length}
use mathlib.Core.List.{reverse}
use modelcairn.Streaming.{read_buffer_size}

-- What a call returns while there is something to return: bytes, and whether the line goes on.
pub record Fragment : Type 0 where
  pub bytes : List ℕ
  pub prefix : Bool

abbrev pub newline : ℕ
newline = 10

abbrev pub carriage_return : ℕ
carriage_return = 13

-- The buffered bytes stand in reverse, so that the last one is at the head.
abbrev drop_return : List ℕ → List ℕ
drop_return [] = []
drop_return (c ∷ cs) = if c == carriage_return then cs else c ∷ cs

-- The whole buffer was read with no newline: a carriage return at its end stays behind.
abbrev full : List ℕ → List Fragment → List Fragment
full [] rest = rest
full (c ∷ cs) rest =
    record { bytes = if c == carriage_return then reverse cs else reverse (c ∷ cs); prefix = true }
    ∷ rest

abbrev kept : List ℕ → List ℕ
kept [] = []
kept (c ∷ cs) = if c == carriage_return then c ∷ [] else []

abbrev last_fragment : List ℕ → List Fragment
last_fragment [] = []
last_fragment (c ∷ cs) = record { bytes = reverse (c ∷ cs); prefix = false } ∷ []

-- The results of the calls over the rest of the stream, with `buffered` read and not yet returned.
unfoldable pub fragments : List ℕ → List ℕ → List Fragment
fragments buffered [] = last_fragment buffered
fragments buffered (b ∷ bs) =
    let line =
      record { bytes = reverse (drop_return buffered); prefix = false } ∷ fragments [] bs in
    let filled = full (b ∷ buffered) (fragments (kept (b ∷ buffered)) bs) in
    let more = fragments (b ∷ buffered) bs in
    if b == newline
    then line
    else if length (b ∷ buffered) == read_buffer_size
    then filled
    else more
