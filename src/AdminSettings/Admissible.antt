-- ===== src/AdminSettings/Admissible.antt =====
-- What the settings are like that `validate` passes.
use modelcairn.Base.{
  ◌≤◌, String, Bool, true, false, Option, none, some, List, [], ℤ, ltb, length, str_eq,
  if◌then◌else◌, ◌orelse◌, reject, first, orelse-none, reject-none, ◌≡◌, refl, sym, arith,
  not_ltb→le, some-inj, str_eq→≡,
}
use modelcairn.AdminSettings.{Resolved, invalid_value, Std}
use modelcairn.AdminSettings.Origins.{
  canonical_listen, Origin, normalized_origin, same_canonical, canonical_origin,
}
use modelcairn.AdminSettings.Validate.{
  validate_cidrs, validate_transport, string_checks, validate_numbers, validate_rest,
  validate_listen, validate_origin, validate_with, validate,
}
use modelcairn.AdminSettings.Ranges.{IsBounded, numbers-IsBounded}
use modelcairn.AdminSettings.Prefixes.{IsPrefixes, cidrs-IsPrefixes}
use modelcairn.AdminSettings.Transports.{IsTransport, IsTransport-cases}

module _ (S : Std) where
  pub record IsAdmissible (v : Resolved) : Type 0 where
    pub numbers : IsBounded v
    pub cidrs : List String
    pub known : v.trusted_proxy_cidrs ≡ some cidrs
    pub few : length cidrs ≤ 32
    pub prefixes : IsPrefixes S [] cidrs
    pub origin : Origin S
    pub spelled : normalized_origin S v.public_origin ≡ some origin
    pub canonical : v.public_origin ≡ origin.canonical
    pub listen : Bool × ℤ
    pub listens : canonical_listen S v.listen ≡ some listen
    pub transport : IsTransport S v cidrs origin listen

  rest-IsAdmissible :
      (v : Resolved) (cidrs : List String) (o : Origin S) (listen : Bool × ℤ)
      → v.trusted_proxy_cidrs ≡ some cidrs
      → (normalized_origin S v.public_origin ≡ some o) × (v.public_origin ≡ o.canonical)
      → canonical_listen S v.listen ≡ some listen
      → validate_rest S v cidrs o listen ≡ none
      → IsAdmissible v
  unfolding validate_rest
  rest-IsAdmissible v cidrs o listen k n l h =
      let path = invalid_value "$.spec.trustedProxyCidrs" in
      let few = reject (ltb 32 (length cidrs)) path in
      let transport = validate_transport S v cidrs o listen in
      let a =
        orelse-none (validate_numbers S v) (few orelse (validate_cidrs S [] cidrs orelse transport))
          h in
      let b = orelse-none few (validate_cidrs S [] cidrs orelse transport) a.1 in
      let c = orelse-none (validate_cidrs S [] cidrs) transport b.1 in
      record {
        numbers = numbers-IsBounded S v a.0;
        cidrs = cidrs;
        known = k;
        few = not_ltb→le 32 (length cidrs) (reject-none (ltb 32 (length cidrs)) path b.0);
        prefixes = cidrs-IsPrefixes S [] cidrs c.0;
        origin = o;
        spelled = n.0;
        canonical = n.1;
        listen = listen;
        listens = l;
        transport = IsTransport-cases S v cidrs o listen c.1;
      }

  listen-IsAdmissible :
      (v : Resolved) (cidrs : List String) (o : Origin S) (l : Option (Bool × ℤ))
      → v.trusted_proxy_cidrs ≡ some cidrs
      → (normalized_origin S v.public_origin ≡ some o) × (v.public_origin ≡ o.canonical)
      → canonical_listen S v.listen ≡ l
      → validate_listen S v cidrs o l ≡ none
      → IsAdmissible v
  unfolding validate_listen
  listen-IsAdmissible v cidrs o none k n l h = ground arith
  listen-IsAdmissible v cidrs o (some listen) k n l h = rest-IsAdmissible v cidrs o listen k n l h

  same_canonical-some :
      (raw : String) (found : Option (Origin S)) (o : Origin S)
      → same_canonical S raw found ≡ some o
      → (found ≡ some o) × (raw ≡ o.canonical)
  same_canonical-some raw none o h = ground arith
  same_canonical-some raw (some p) o h = go (str_eq raw p.canonical) refl h
    where
      go :
          (b : Bool)
          → str_eq raw p.canonical ≡ b
          → (if b then some p else none) ≡ some o
          → (some p ≡ some o) × (raw ≡ o.canonical)
      go true e h = (h, rw (sym (some-inj p o h)) (str_eq→≡ raw p.canonical e))
      go false e h = ground arith

  pub canonical_origin-some :
      (raw : String) (o : Origin S)
      → canonical_origin S raw ≡ some o
      → (normalized_origin S raw ≡ some o) × (raw ≡ o.canonical)
  unfolding canonical_origin
  canonical_origin-some raw o h = same_canonical-some raw (normalized_origin S raw) o h

  origin-IsAdmissible :
      (v : Resolved) (cidrs : List String) (o : Option (Origin S))
      → v.trusted_proxy_cidrs ≡ some cidrs
      → canonical_origin S v.public_origin ≡ o
      → validate_origin S v cidrs o ≡ none
      → IsAdmissible v
  unfolding validate_origin
  origin-IsAdmissible v cidrs none k n h = ground arith
  origin-IsAdmissible v cidrs (some o) k n h =
      listen-IsAdmissible v cidrs o (canonical_listen S v.listen) k
        (canonical_origin-some v.public_origin o n) refl h

  with-IsAdmissible :
      (v : Resolved) (cidrs : Option (List String))
      → v.trusted_proxy_cidrs ≡ cidrs
      → validate_with S v cidrs ≡ none
      → IsAdmissible v
  unfolding validate_with
  with-IsAdmissible v none k h = ground arith
  with-IsAdmissible v (some cidrs) k h =
      origin-IsAdmissible v cidrs (canonical_origin S v.public_origin) k refl
        (orelse-none (first (string_checks S v))
          (validate_origin S v cidrs (canonical_origin S v.public_origin)) h).1

  -- Settings that `Validate` passes have every number in its range, session and client limits that do not
  -- exceed the total ones, at most 32 different prefixes that are spelled canonically, an origin and an
  -- address in canonical spelling, and what one of the three transports demands: plain HTTP only between
  -- loopback addresses and without proxies or TLS files, TLS with two absolute paths outside the hidden
  -- directories and an unprivileged port, or a proxy with at least one trusted prefix.
  pub validate-IsAdmissible : (v : Resolved) → validate S v ≡ none → IsAdmissible v
  unfolding validate
  validate-IsAdmissible v h = with-IsAdmissible v v.trusted_proxy_cidrs refl h
