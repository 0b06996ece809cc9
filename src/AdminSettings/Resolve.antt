-- ===== src/AdminSettings/Resolve.antt =====
-- internal/adminsettings/resolve.go.
use modelcairn.Base.{
  String, Bool, true, not, Option, none, some, List, [], ℤ, pos, leb_ℤ, is_some, if◌then◌else◌,
}
use modelcairn.AdminSettings.{
  Patch, Document, Resolved, zero_resolved, defaults, Diagnostic, invalid_structure, Std,
}
use modelcairn.AdminSettings.Origins.{Origin, normalized_origin}
use modelcairn.AdminSettings.Validate.{validate, validate_patch_structure}

-- `if p != nil { v = *p }`
abbrev pub over {ℓ} : {A : Type ℓ} → Option A → A → A
over none v = v
over (some p) v = p

-- `append([]string{}, items...)`
abbrev pub copy_items : Option (List String) → Option (List String)
copy_items none = some []
copy_items (some items) = some items

unfoldable pub apply : Resolved → Patch → Resolved
apply v p = record {
  public_origin = over p.public_origin v.public_origin;
  listen = over p.listen v.listen;
  transport = over p.transport v.transport;
  trusted_proxy_cidrs =
      copy_items
        (if is_some p.trusted_proxy_cidrs then p.trusted_proxy_cidrs else v.trusted_proxy_cidrs);
  tls_certificate_path = over p.tls_certificate_path v.tls_certificate_path;
  tls_private_key_path = over p.tls_private_key_path v.tls_private_key_path;
  idle_seconds = over p.idle_seconds v.idle_seconds;
  absolute_seconds = over p.absolute_seconds v.absolute_seconds;
  global_attempts_per_minute = over p.global_attempts_per_minute v.global_attempts_per_minute;
  global_burst = over p.global_burst v.global_burst;
  client_attempts_per_minute = over p.client_attempts_per_minute v.client_attempts_per_minute;
  client_burst = over p.client_burst v.client_burst;
  max_client_entries = over p.max_client_entries v.max_client_entries;
  client_idle_seconds = over p.client_idle_seconds v.client_idle_seconds;
  argon_memory_kib = over p.argon_memory_kib v.argon_memory_kib;
  argon_iterations = over p.argon_iterations v.argon_iterations;
  failed_login_retention_seconds =
      over p.failed_login_retention_seconds v.failed_login_retention_seconds;
}

module _ (S : Std) where
  abbrev pub set_origin : Resolved → Option (Origin S) → Resolved
  set_origin v none = v
  set_origin v (some o) = record v { public_origin = o.canonical }

  -- `result` with its origin normalised, and what `Validate` says of it.
  unfoldable pub finish : Resolved → Resolved × Option Diagnostic
  unfolding validate normalized_origin
  finish v =
      let result = set_origin v (normalized_origin S v.public_origin) in (result, validate S result)

  unfoldable pub resolve_patch : Option Diagnostic → Resolved → Patch → Resolved × Option Diagnostic
  unfolding apply finish
  resolve_patch (some e) v p = (zero_resolved, some e)
  resolve_patch none v p = finish (apply v p)

  unfoldable pub resolve_initial : Option Document → Resolved × Option Diagnostic
  unfolding resolve_patch validate_patch_structure
  resolve_initial none = (zero_resolved, some (invalid_structure "$"))
  resolve_initial (some d) =
      if is_some d.resource_version
      then (zero_resolved, some (invalid_structure "$.resourceVersion"))
      else if not (is_some d.spec.public_origin)
      then (zero_resolved, some (invalid_structure "$.spec.publicOrigin"))
      else resolve_patch (validate_patch_structure S d.spec) defaults d.spec

  -- `*document.ResourceVersion < 1`, or no version
  abbrev pub no_version : Option ℤ → Bool
  no_version none = true
  no_version (some version) = not (leb_ℤ (pos 1) version)

  unfoldable pub resolve_update : Option Document → Resolved → Resolved × Option Diagnostic
  unfolding resolve_patch validate_patch_structure
  resolve_update none current = (zero_resolved, some (invalid_structure "$.resourceVersion"))
  resolve_update (some d) current =
      if no_version d.resource_version
      then (zero_resolved, some (invalid_structure "$.resourceVersion"))
      else resolve_patch (validate_patch_structure S d.spec) current d.spec
