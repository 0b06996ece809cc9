-- ===== src/AdminSettings/Prefixes.antt =====
-- The trusted prefixes of settings that pass validation.
use modelcairn.Base.{
  String, Bool, true, false, not, Option, none, some, List, [], ◌∷◌, str_eq, ◌orelse◌, reject,
  orelse-none, reject-none, ◌≡◌, refl, arith, or-false, not-false, str_eq→≡,
}
use modelcairn.AdminSettings.{invalid_value, Std}
use modelcairn.AdminSettings.Validate.{member, valid_string, bad_prefix, validate_cidrs}

module _ (S : Std) where
  -- The prefixes are different, and each is spelled canonically, without host bits.
  pub IsPrefixes : List String → List String → Type 0
  IsPrefixes seen [] = Unit
  IsPrefixes seen (raw ∷ rest) =
      (S.parse_prefix raw ≡ some (raw, true))
      × (member raw seen ≡ false)
      × IsPrefixes (raw ∷ seen) rest

  good_prefix :
      (raw : String) (o : Option (String × Bool))
      → bad_prefix S raw o ≡ false
      → o ≡ some (raw, true)
  unfolding bad_prefix
  good_prefix raw none h = ground arith
  good_prefix raw (some (spelling, masked)) h =
      let both = or-false (not (str_eq spelling raw)) (not masked) h in
      rw (str_eq→≡ spelling raw (not-false (str_eq spelling raw) both.0), not-false masked both.1)
        refl

  pub cidrs-IsPrefixes :
      (seen cidrs : List String) → validate_cidrs S seen cidrs ≡ none → IsPrefixes seen cidrs
  unfolding validate_cidrs IsPrefixes
  cidrs-IsPrefixes seen [] h = tt
  cidrs-IsPrefixes seen (raw ∷ rest) h =
      let e = invalid_value "$.spec.trustedProxyCidrs" in
      let a =
        orelse-none (reject (not (valid_string S raw 64)) e)
          (reject (bad_prefix S raw (S.parse_prefix raw)) e
            orelse (reject (member raw seen) e orelse validate_cidrs S (raw ∷ seen) rest))
          h in
      let b =
        orelse-none (reject (bad_prefix S raw (S.parse_prefix raw)) e)
          (reject (member raw seen) e orelse validate_cidrs S (raw ∷ seen) rest) a.1 in
      let c = orelse-none (reject (member raw seen) e) (validate_cidrs S (raw ∷ seen) rest) b.1 in
      (
        good_prefix raw (S.parse_prefix raw)
            (reject-none (bad_prefix S raw (S.parse_prefix raw)) e b.0),
        reject-none (member raw seen) e c.0,
        cidrs-IsPrefixes (raw ∷ seen) rest c.1,
      )
