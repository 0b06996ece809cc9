-- ===== src/Config/Patterns.antt =====
-- The patterns of names, aliases and identifiers, the decimal numbers and the private hosts in
-- internal/config/validate.go.
use Prim.Native.String.{slice}
use modelcairn.Base.{
  ℕ, zero, suc, ◌+◌, ◌/◌, ◌%◌, String, append, str_eq, Bool, true, false, ◌&&◌, ◌||◌, Option, none,
  some, List, [], ◌∷◌, ◌++◌, leb, ◌==◌, length, all, if◌then◌else◌,
}
use modelcairn.Base.Text.{codes}
use modelcairn.Config.{Std, Ip}

abbrev between : ℕ → ℕ → ℕ → Bool
between lo hi c = leb lo c && leb c hi

abbrev is_digit : ℕ → Bool
is_digit = between 48 57

abbrev is_lower : ℕ → Bool
is_lower = between 97 122

abbrev is_upper : ℕ → Bool
is_upper = between 65 90

abbrev is_dash : ℕ → Bool
is_dash c = c == 45

abbrev is_name_codes : List ℕ → Bool
is_name_codes [] = false
is_name_codes (c ∷ cs) =
    is_lower c && leb (length cs) 62 && all (λ d. is_lower d || is_digit d || is_dash d) cs

-- ^[a-z][a-z0-9-]{0,62}$
unfoldable pub is_name : String → Bool
unfolding codes
is_name s = is_name_codes (codes s)

-- one of A-Z a-z 0-9 . _ : / -
abbrev is_alias_code : ℕ → Bool
is_alias_code c =
    is_upper c || is_lower c || is_digit c || c == 46 || c == 95 || c == 58 || c == 47 || is_dash c

-- ^[A-Za-z0-9._:/-]{1,128}$
unfoldable pub is_alias : String → Bool
unfolding codes
is_alias s = between 1 128 (length (codes s)) && all is_alias_code (codes s)

abbrev is_hex : ℕ → Bool
is_hex c = is_digit c || between 97 102 c || between 65 70 c

-- One test for each character.
abbrev all_tests : List (ℕ → Bool) → List ℕ → Bool
all_tests [] [] = true
all_tests [] (c ∷ cs) = false
all_tests (p ∷ ps) [] = false
all_tests (p ∷ ps) (c ∷ cs) = p c && all_tests ps cs

abbrev times : ℕ → List (ℕ → Bool)
times zero = []
times (suc n) = is_hex ∷ times n

-- one of 8 9 a b A B
abbrev is_variant : ℕ → Bool
is_variant c = c == 56 || c == 57 || c == 97 || c == 98 || c == 65 || c == 66

-- 8, 4, 4, 4 and 12 hexadecimal digits, with a version from 1 to 8 and a variant
unfoldable pub is_uuid : String → Bool
unfolding codes
is_uuid s =
    all_tests
      (times 8
        ++ is_dash ∷ times 4
        ++ is_dash ∷ between 49 56 ∷ times 3
        ++ is_dash ∷ is_variant ∷ times 3
        ++ is_dash ∷ times 12)
      (codes s)

-- `d[i]`
abbrev digit : ℕ → String
digit i = slice "0123456789" i (i + 1)

-- The loop over the buffer of 20 digits.
abbrev itoa_loop : ℕ → ℕ → String → String
itoa_loop zero i acc = acc
itoa_loop (suc n) i acc =
    let rest = itoa_loop n (i / 10) (append (digit (i % 10)) acc) in if i == 0 then acc else rest

unfoldable pub itoa : ℕ → String
itoa i = if i == 0 then "0" else itoa_loop 20 i ""

unfoldable pub ends_with : String → String → Bool
ends_with String.[] t = str_eq "" t
ends_with (String.◌∷◌ c s) t = str_eq (String.◌∷◌ c s) t || ends_with s t

abbrev is_private_ip : Option Ip → Bool
is_private_ip none = false
is_private_ip (some ip) =
    ip.private || ip.loopback || ip.link_local_unicast || ip.link_local_multicast || ip.unspecified

unfoldable pub is_private_literal_host : Std → String → Bool
unfolding ends_with
is_private_literal_host S host =
    let h = S.to_lower host in
    str_eq h "localhost" || ends_with h ".localhost" || is_private_ip (S.parse_ip h)
