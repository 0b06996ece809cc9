-- ===== src/AdminSettings/Validate.antt =====
-- internal/adminsettings/validate.go, and `validatePatchStructure` of parse.go.
use modelcairn.Base.{
  ℕ, String, Bool, true, false, not, ◌&&◌, ◌||◌, Option, none, some, List, [], ◌∷◌, ℤ, pos, leb_ℤ,
  ltb, length, str_eq, starts_with, if◌then◌else◌, ◌orelse◌, reject, first,
}
use modelcairn.AdminSettings.{Patch, Resolved, Diagnostic, invalid_value, invalid_structure, Std}
use modelcairn.AdminSettings.Origins.{
  empty, Origin, canonical_listen, canonical_origin, origin_is_loopback,
}

unfoldable pub within : ℤ → ℕ → ℕ → Bool
within value lo hi = leb_ℤ (pos lo) value && leb_ℤ value (pos hi)

-- `slices.Contains`; the keys of `seen`
abbrev pub member : String → List String → Bool
member x [] = false
member x (y ∷ ys) = str_eq x y || member x ys

module _ (S : Std) where
  open S use {
    valid_utf8, rune_count, to_lower, contains, trim_brackets, atoi, itoa, parse_url, hostname,
    split_host_port, join_host_port, parse_addr, parse_prefix, is_abs, clean,
  }

  unfoldable pub valid_optional_string : String → ℕ → Bool
  valid_optional_string value maximum = valid_utf8 value && not (ltb maximum (rune_count value))

  unfoldable pub valid_string : String → ℕ → Bool
  unfolding valid_optional_string
  valid_string value maximum = not (empty value) && valid_optional_string value maximum

  unfoldable pub valid_absolute_path : String → Bool
  valid_absolute_path value = not (empty value) && not (contains value "\0") && is_abs value

  -- `(err != nil)` for an item of the list, after `seen`
  unfoldable pub bad_prefix : String → Option (String × Bool) → Bool
  bad_prefix raw none = true
  bad_prefix raw (some (spelling, masked)) = not (str_eq spelling raw) || not masked

  unfoldable pub validate_cidrs : List String → List String → Option Diagnostic
  unfolding valid_string bad_prefix
  validate_cidrs seen [] = none
  validate_cidrs seen (raw ∷ rest) =
      reject (not (valid_string raw 64)) (invalid_value "$.spec.trustedProxyCidrs") orelse (
        reject (bad_prefix raw (parse_prefix raw)) (invalid_value "$.spec.trustedProxyCidrs")
        orelse (reject (member raw seen) (invalid_value "$.spec.trustedProxyCidrs")
            orelse validate_cidrs (raw ∷ seen) rest))

  unfoldable pub hidden_by_service_sandbox : String → Bool
  hidden_by_service_sandbox value =
      str_eq (clean value) "/home"
      || starts_with (clean value) "/home/"
      || str_eq (clean value) "/root"
      || starts_with (clean value) "/root/"

  abbrev pub no_items : List String → Bool
  no_items [] = true
  no_items (x ∷ xs) = false

  unfoldable pub loopback_checks :
      Resolved → List String → Origin S → Bool × ℤ → List (Bool × Diagnostic)
  unfolding origin_is_loopback
  loopback_checks v cidrs origin listen =
      (
        not (str_eq origin.scheme "http") || not (origin_is_loopback S origin) || not listen.0,
        invalid_value "$.spec.transport",
      )
      ∷ (
        not (no_items cidrs)
            || not (empty v.tls_certificate_path)
            || not (empty v.tls_private_key_path),
        invalid_value "$.spec.transport",
      )
      ∷ []

  unfoldable pub direct_checks :
      Resolved → List String → Origin S → Bool × ℤ → List (Bool × Diagnostic)
  unfolding valid_absolute_path hidden_by_service_sandbox
  direct_checks v cidrs origin listen =
      (not (str_eq origin.scheme "https") || not (no_items cidrs), invalid_value "$.spec.transport")
      ∷ (
        not (valid_absolute_path v.tls_certificate_path),
        invalid_value "$.spec.tlsCertificatePath",
      )
      ∷ (not (valid_absolute_path v.tls_private_key_path), invalid_value "$.spec.tlsPrivateKeyPath")
      ∷ (not (leb_ℤ (pos 1024) listen.1), invalid_value "$.spec.listen")
      ∷ (
        hidden_by_service_sandbox v.tls_certificate_path,
        invalid_value "$.spec.tlsCertificatePath",
      )
      ∷ (hidden_by_service_sandbox v.tls_private_key_path, invalid_value "$.spec.tlsPrivateKeyPath")
      ∷ []

  unfoldable pub proxy_checks : Resolved → List String → Origin S → List (Bool × Diagnostic)
  proxy_checks v cidrs origin =
      (
        not (str_eq origin.scheme "https")
            || no_items cidrs
            || not (empty v.tls_certificate_path)
            || not (empty v.tls_private_key_path),
        invalid_value "$.spec.transport",
      )
      ∷ []

  -- `switch v.Transport`, where the origin, the listening address and the prefixes are known.
  unfoldable pub validate_transport :
      Resolved → List String → Origin S → Bool × ℤ → Option Diagnostic
  unfolding loopback_checks direct_checks proxy_checks
  validate_transport v cidrs origin listen =
      if str_eq v.transport "loopback-http"
      then first (loopback_checks v cidrs origin listen)
      else if str_eq v.transport "direct-tls"
      then first (direct_checks v cidrs origin listen)
      else if str_eq v.transport "proxy-tls"
      then first (proxy_checks v cidrs origin)
      else some (invalid_value "$.spec.transport")

  -- From the first number to the prefixes.
  unfoldable pub number_checks : Resolved → List (Bool × Diagnostic)
  unfolding within
  number_checks v =
      (
        not (leb_ℤ (pos 300) v.idle_seconds) || not (leb_ℤ v.idle_seconds (pos 86400)),
        invalid_value "$.spec.idleSeconds",
      )
      ∷ (
        not (leb_ℤ (pos 300) v.absolute_seconds) || not (leb_ℤ v.absolute_seconds (pos 604800)),
        invalid_value "$.spec.absoluteSeconds",
      )
      ∷ (not (leb_ℤ v.idle_seconds v.absolute_seconds), invalid_value "$.spec.idleSeconds")
      ∷ (
        not (within v.global_attempts_per_minute 1 120),
        invalid_value "$.spec.globalAttemptsPerMinute",
      )
      ∷ (not (within v.global_burst 1 20), invalid_value "$.spec.globalBurst")
      ∷ (
        not (within v.client_attempts_per_minute 1 30)
            || not (leb_ℤ v.client_attempts_per_minute v.global_attempts_per_minute),
        invalid_value "$.spec.clientAttemptsPerMinute",
      )
      ∷ (
        not (within v.client_burst 1 10) || not (leb_ℤ v.client_burst v.global_burst),
        invalid_value "$.spec.clientBurst",
      )
      ∷ (not (within v.max_client_entries 64 4096), invalid_value "$.spec.maxClientEntries")
      ∷ (not (within v.client_idle_seconds 60 3600), invalid_value "$.spec.clientIdleSeconds")
      ∷ (
        not (leb_ℤ (pos 0) v.failed_login_retention_seconds)
            || not (leb_ℤ v.failed_login_retention_seconds (pos 3155760000)),
        invalid_value "$.spec.failedLoginRetentionSeconds",
      )
      ∷ (not (within v.argon_memory_kib 19456 65536), invalid_value "$.spec.argonMemoryKiB")
      ∷ (not (within v.argon_iterations 2 6), invalid_value "$.spec.argonIterations")
      ∷ []

  unfoldable pub validate_numbers : Resolved → Option Diagnostic
  unfolding number_checks
  validate_numbers v = first (number_checks v)

  -- After the origin and the listening address are parsed.
  unfoldable pub validate_rest : Resolved → List String → Origin S → Bool × ℤ → Option Diagnostic
  unfolding validate_numbers validate_cidrs validate_transport
  validate_rest v cidrs origin listen = validate_numbers v orelse (
      reject (ltb 32 (length cidrs)) (invalid_value "$.spec.trustedProxyCidrs")
      orelse (validate_cidrs [] cidrs orelse validate_transport v cidrs origin listen))

  unfoldable pub validate_listen :
      Resolved → List String → Origin S → Option (Bool × ℤ) → Option Diagnostic
  unfolding validate_rest
  validate_listen v cidrs origin none = some (invalid_value "$.spec.listen")
  validate_listen v cidrs origin (some listen) = validate_rest v cidrs origin listen

  unfoldable pub validate_origin : Resolved → List String → Option (Origin S) → Option Diagnostic
  unfolding validate_listen canonical_listen
  validate_origin v cidrs none = some (invalid_value "$.spec.publicOrigin")
  validate_origin v cidrs (some origin) =
      validate_listen v cidrs origin (canonical_listen S v.listen)

  unfoldable pub string_checks : Resolved → List (Bool × Diagnostic)
  unfolding valid_string valid_optional_string
  string_checks v =
      (not (valid_string v.public_origin 2048), invalid_value "$.spec.publicOrigin")
      ∷ (not (valid_string v.listen 128), invalid_value "$.spec.listen")
      ∷ (
        not (valid_optional_string v.tls_certificate_path 4096),
        invalid_value "$.spec.tlsCertificatePath",
      )
      ∷ (
        not (valid_optional_string v.tls_private_key_path 4096),
        invalid_value "$.spec.tlsPrivateKeyPath",
      )
      ∷ []

  unfoldable pub validate_with : Resolved → Option (List String) → Option Diagnostic
  unfolding string_checks canonical_origin validate_origin
  validate_with v none = some (invalid_structure "$.spec.trustedProxyCidrs")
  validate_with v (some cidrs) =
      first (string_checks v) orelse validate_origin v cidrs (canonical_origin S v.public_origin)

  unfoldable pub validate : Resolved → Option Diagnostic
  unfolding validate_with
  validate v = validate_with v v.trusted_proxy_cidrs

  unfoldable pub bad_string : (String → Bool) → Option String → Bool
  bad_string valid none = false
  bad_string valid (some value) = not (valid value)

  abbrev pub patch_strings : List String → Option Diagnostic
  patch_strings [] = none
  patch_strings (item ∷ rest) =
      reject (not (valid_string item 64)) (invalid_value "$.spec.trustedProxyCidrs")
      orelse patch_strings rest

  abbrev pub patch_cidrs : Option (List String) → Option Diagnostic
  patch_cidrs none = none
  patch_cidrs (some cidrs) =
      reject (ltb 32 (length cidrs)) (invalid_value "$.spec.trustedProxyCidrs")
      orelse patch_strings cidrs

  unfoldable pub validate_patch_structure : Patch → Option Diagnostic
  unfolding valid_string valid_optional_string bad_string
  validate_patch_structure p =
      let bad = λ (test : Bool) (path : String). reject test (invalid_value path) in
      bad (bad_string (λ s. valid_string s 2048) p.public_origin) "$.spec.publicOrigin" orelse (
        bad (bad_string (λ s. valid_string s 128) p.listen) "$.spec.listen" orelse (
          bad (bad_string (λ s. valid_optional_string s 4096) p.tls_certificate_path)
            "$.spec.tlsCertificatePath"
          orelse (bad (bad_string (λ s. valid_optional_string s 4096) p.tls_private_key_path)
                "$.spec.tlsPrivateKeyPath"
              orelse patch_cidrs p.trusted_proxy_cidrs)))
