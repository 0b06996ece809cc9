-- ===== src/Plan/Base64.antt =====
-- What internal/storage/plan_token.go uses of encoding/base64: `RawURLEncoding.EncodeToString` and
-- `RawURLEncoding.Strict().DecodeString`, on bytes.
use modelcairn.Base.{
  ℕ, ◌+◌, ◌-◌, ◌*◌, ◌/◌, ◌%◌, ◌≤◌, ◌<◌, Bool, ◌&&◌, ◌||◌, not, Option, none, some, List, [], ◌∷◌,
  leb, ltb, ◌==◌, ◌≡◌, ◌≢◌, refl, arith, length, filter, All, if◌then◌else◌,
}

abbrev pub Bytes : Type 0
Bytes = List ℕ

abbrev pub IsByte : ℕ → Type 0
IsByte b = b < 256

-- The character of six bits: A-Z, a-z, 0-9, - and _.
unfoldable pub char : ℕ → ℕ
char v =
    if ltb v 26
    then v + 65
    else if ltb v 52
    then v + 71
    else if ltb v 62
    then v - 52 + 48
    else if v == 62
    then 45
    else 95

unfoldable value : ℕ → Option ℕ
value c =
    if leb 65 c && leb c 90
    then some (c - 65)
    else if leb 97 c && leb c 122
    then some (c - 71)
    else if leb 48 c && leb c 57
    then some (c - 48 + 52)
    else if c == 45
    then some 62
    else if c == 95
    then some 63
    else none

unfoldable pub encode : Bytes → Bytes
encode [] = []
encode (a ∷ []) = char (a / 4) ∷ char (a % 4 * 16) ∷ []
encode (a ∷ b ∷ []) = char (a / 4) ∷ char (a % 4 * 16 + b / 16) ∷ char (b % 16 * 4) ∷ []
encode (a ∷ b ∷ c ∷ rest) =
    char (a / 4)
    ∷ char (a % 4 * 16 + b / 16)
    ∷ char (b % 16 * 4 + c / 64)
    ∷ char (c % 64)
    ∷ encode rest

abbrev two : Option ℕ → Option ℕ → Option Bytes
two (some u) (some v) = if v % 16 == 0 then some ((u * 4 + v / 16) ∷ []) else none
two _ _ = none

abbrev three : Option ℕ → Option ℕ → Option ℕ → Option Bytes
three (some u) (some v) (some w) =
    if w % 4 == 0 then some ((u * 4 + v / 16) ∷ (v % 16 * 16 + w / 4) ∷ []) else none
three _ _ _ = none

abbrev four : Option ℕ → Option ℕ → Option ℕ → Option ℕ → Option Bytes → Option Bytes
four (some u) (some v) (some w) (some x) (some rest) =
    some ((u * 4 + v / 16) ∷ (v % 16 * 16 + w / 4) ∷ (w % 4 * 64 + x) ∷ rest)
four _ _ _ _ _ = none

unfoldable quads : Bytes → Option Bytes
quads [] = some []
quads (a ∷ []) = none
quads (a ∷ b ∷ []) = two (value a) (value b)
quads (a ∷ b ∷ c ∷ []) = three (value a) (value b) (value c)
quads (a ∷ b ∷ c ∷ d ∷ rest) = four (value a) (value b) (value c) (value d) (quads rest)

abbrev is_line_end : ℕ → Bool
is_line_end c = c == 10 || c == 13

-- The decoder skips line ends, also a strict one.
unfoldable pub decode : Bytes → Option Bytes
unfolding value quads
decode text = quads (filter (λ c. not (is_line_end c)) text)

value-char : (v : ℕ) → v < 64 → value (char v) ≡ some v
unfolding char value
value-char v h = ground arith

first_byte : (a b : ℕ) → IsByte a → b < 16 → a / 4 * 4 + (a % 4 * 16 + b) / 16 ≡ a
first_byte a b ha hb = omega arith

second_byte :
    (a b c : ℕ) → IsByte b → c < 4 → (a % 4 * 16 + b / 16) % 16 * 16 + (b % 16 * 4 + c) / 4 ≡ b
second_byte a b c hb hc = omega arith

third_byte : (b c : ℕ) → IsByte c → (b % 16 * 4 + c / 64) % 4 * 64 + c % 64 ≡ c
third_byte b c hc = omega arith

quads-encode : (xs : Bytes) → All IsByte xs → quads (encode xs) ≡ some xs
unfolding quads encode
quads-encode [] h = refl
quads-encode (a ∷ []) h =
    rw (value-char (a / 4) (omega (arith, h.0)), value-char (a % 4 * 16) (omega arith)) ground arith
quads-encode (a ∷ b ∷ []) h =
    rw
      (
        value-char (a / 4) (omega (arith, h.0)),
        value-char (a % 4 * 16 + b / 16) (omega (arith, h.1.0)),
        value-char (b % 16 * 4) (omega arith),
      )
      ground arith
quads-encode (a ∷ b ∷ c ∷ rest) h =
    rw
      (
        value-char (a / 4) (omega (arith, h.0)),
        value-char (a % 4 * 16 + b / 16) (omega (arith, h.1.0)),
        value-char (b % 16 * 4 + c / 64) (omega (arith, h.1.1.0)),
        value-char (c % 64) (omega arith),
        quads-encode rest h.1.1.1,
        first_byte a (b / 16) h.0 (omega (arith, h.1.0)),
        second_byte a b (c / 64) h.1.0 (omega (arith, h.1.1.0)),
        third_byte b c h.1.1.0,
      )
      refl

-- A character that `encode` writes.
abbrev pub IsCode : ℕ → Type 0
IsCode c = (45 ≤ c) × (c ≢ 46)

char-IsCode : (v : ℕ) → IsCode (char v)
unfolding char
char-IsCode v = ground arith

pub encode-IsCode : (xs : Bytes) → All IsCode (encode xs)
unfolding encode
encode-IsCode [] = tt
encode-IsCode (a ∷ []) = (char-IsCode _, (char-IsCode _, tt))
encode-IsCode (a ∷ b ∷ []) = (char-IsCode _, (char-IsCode _, (char-IsCode _, tt)))
encode-IsCode (a ∷ b ∷ c ∷ rest) =
    (char-IsCode _, (char-IsCode _, (char-IsCode _, (char-IsCode _, encode-IsCode rest))))

no_line_ends : (xs : Bytes) → All IsCode xs → filter (λ c. not (is_line_end c)) xs ≡ xs
no_line_ends [] h = refl
no_line_ends (c ∷ cs) h = rw (no_line_ends cs h.1) ground (arith, h.0)

pub decode-encode : (xs : Bytes) → All IsByte xs → decode (encode xs) ≡ some xs
unfolding decode
decode-encode xs h = rw (no_line_ends (encode xs) (encode-IsCode xs)) (quads-encode xs h)

pub length-encode : (xs : Bytes) → length (encode xs) ≡ (length xs * 4 + 2) / 3
unfolding encode
length-encode [] = omega arith
length-encode (a ∷ []) = omega arith
length-encode (a ∷ b ∷ []) = omega arith
length-encode (a ∷ b ∷ c ∷ rest) = omega (arith, length-encode rest)
