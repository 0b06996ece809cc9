-- ===== src/AdminSettings/Transports.antt =====
-- The transports of settings that pass validation.
use modelcairn.Base.{
  String, Bool, true, false, not, Option, none, List, [], ◌∷◌, ℤ, pos, leb_ℤ, str_eq, first,
  first-none, ◌≡◌, refl, ◌⊎◌, inl, inr, arith, or-false, or-false₃, or-false₄, not-false, same,
  str_eq→≡, if_elim,
}
use modelcairn.AdminSettings.{Resolved, Diagnostic, Std}
use modelcairn.AdminSettings.Origins.{empty, Origin, origin_is_loopback}
use modelcairn.AdminSettings.Validate.{
  valid_absolute_path, hidden_by_service_sandbox, no_items, loopback_checks, direct_checks,
  proxy_checks, validate_transport,
}

module _ (S : Std) where
  -- Plain HTTP stays on the machine.
  abbrev pub IsLoopbackHttp : Resolved → List String → Origin S → Bool × ℤ → Type 0
  IsLoopbackHttp v cidrs o listen =
      (v.transport ≡ "loopback-http")
      × (o.scheme ≡ "http")
      × (origin_is_loopback S o ≡ true)
      × (listen.0 ≡ true)
      × (cidrs ≡ [])
      × (v.tls_certificate_path ≡ "")
      × (v.tls_private_key_path ≡ "")

  abbrev pub IsDirectTls : Resolved → List String → Origin S → Bool × ℤ → Type 0
  IsDirectTls v cidrs o listen =
      (v.transport ≡ "direct-tls")
      × (o.scheme ≡ "https")
      × (cidrs ≡ [])
      × (leb_ℤ (pos 1024) listen.1 ≡ true)
      × (valid_absolute_path S v.tls_certificate_path ≡ true)
      × (valid_absolute_path S v.tls_private_key_path ≡ true)
      × (hidden_by_service_sandbox S v.tls_certificate_path ≡ false)
      × (hidden_by_service_sandbox S v.tls_private_key_path ≡ false)

  abbrev pub IsProxyTls : Resolved → List String → Origin S → Type 0
  IsProxyTls v cidrs o =
      (v.transport ≡ "proxy-tls")
      × (o.scheme ≡ "https")
      × (no_items S cidrs ≡ false)
      × (v.tls_certificate_path ≡ "")
      × (v.tls_private_key_path ≡ "")

  abbrev pub IsTransport : Resolved → List String → Origin S → Bool × ℤ → Type 0
  IsTransport v cidrs o listen =
      IsLoopbackHttp v cidrs o listen ⊎ IsDirectTls v cidrs o listen ⊎ IsProxyTls v cidrs o

  none_left : (cidrs : List String) → not (no_items S cidrs) ≡ false → cidrs ≡ []
  none_left [] h = refl
  none_left (x ∷ xs) h = ground arith

  loopback-case :
      (v : Resolved) (cidrs : List String) (o : Origin S) (listen : Bool × ℤ)
      → v.transport ≡ "loopback-http"
      → first (loopback_checks S v cidrs o listen) ≡ none
      → IsTransport v cidrs o listen
  unfolding loopback_checks
  loopback-case v cidrs o listen t h =
      let f = first-none (loopback_checks S v cidrs o listen) h in
      let a =
        or-false₃ (not (str_eq o.scheme "http")) (not (origin_is_loopback S o)) (not listen.0)
          f.0 in
      let b =
        or-false₃ (not (no_items S cidrs)) (not (empty v.tls_certificate_path))
          (not (empty v.tls_private_key_path)) f.1.0 in
      inl (
        t,
        same o.scheme "http" a.0,
        not-false (origin_is_loopback S o) a.1,
        not-false listen.0 a.2,
        none_left cidrs b.0,
        same v.tls_certificate_path "" b.1,
        same v.tls_private_key_path "" b.2,
      )

  direct-case :
      (v : Resolved) (cidrs : List String) (o : Origin S) (listen : Bool × ℤ)
      → v.transport ≡ "direct-tls"
      → first (direct_checks S v cidrs o listen) ≡ none
      → IsTransport v cidrs o listen
  unfolding direct_checks
  direct-case v cidrs o listen t h =
      let f = first-none (direct_checks S v cidrs o listen) h in
      let a = or-false (not (str_eq o.scheme "https")) (not (no_items S cidrs)) f.0 in
      inr (
        inl (
          t,
          same o.scheme "https" a.0,
          none_left cidrs a.1,
          not-false (leb_ℤ (pos 1024) listen.1) f.1.1.1.0,
          not-false (valid_absolute_path S v.tls_certificate_path) f.1.0,
          not-false (valid_absolute_path S v.tls_private_key_path) f.1.1.0,
          f.1.1.1.1.0,
          f.1.1.1.1.1.0,
        ))

  proxy-case :
      (v : Resolved) (cidrs : List String) (o : Origin S) (listen : Bool × ℤ)
      → v.transport ≡ "proxy-tls"
      → first (proxy_checks S v cidrs o) ≡ none
      → IsTransport v cidrs o listen
  unfolding proxy_checks
  proxy-case v cidrs o listen t h =
      let f = first-none (proxy_checks S v cidrs o) h in
      let a =
        or-false₄ (not (str_eq o.scheme "https")) (no_items S cidrs)
          (not (empty v.tls_certificate_path)) (not (empty v.tls_private_key_path)) f.0 in
      inr (
        inr (
          t,
          same o.scheme "https" a.0,
          a.1,
          same v.tls_certificate_path "" a.2,
          same v.tls_private_key_path "" a.3,
        ))

  pub IsTransport-cases :
      (v : Resolved) (cidrs : List String) (o : Origin S) (listen : Bool × ℤ)
      → validate_transport S v cidrs o listen ≡ none
      → IsTransport v cidrs o listen
  unfolding validate_transport
  IsTransport-cases v cidrs o listen =
      let T = λ (r : Option Diagnostic). r ≡ none → IsTransport v cidrs o listen in
      if_elim T (str_eq v.transport "loopback-http")
        (λ t. loopback-case v cidrs o listen (str_eq→≡ v.transport "loopback-http" t))
        (λ t.
          if_elim T (str_eq v.transport "direct-tls")
            (λ t. direct-case v cidrs o listen (str_eq→≡ v.transport "direct-tls" t))
            (λ t.
              if_elim T (str_eq v.transport "proxy-tls")
                (λ t. proxy-case v cidrs o listen (str_eq→≡ v.transport "proxy-tls" t))
                (λ t h. ground arith)))
