-- ===== src/Tests/SettingsTests.antt =====
-- Settings of the loopback transport, an update of them, and a small configuration.
use Prim.Native.String.{len}
use modelcairn.Base.{append, str_eq, true, false, none, some, pos, ◌≡◌, refl, if◌then◌else◌}
use modelcairn.AdminSettings.{Document, Resolved, defaults, Std}
use modelcairn.AdminSettings.Origins.{
  canonical_listen, normalized_origin, canonical_origin, origin_is_loopback,
}
use modelcairn.AdminSettings.Validate.{
  within, valid_optional_string, valid_string, validate_cidrs, loopback_checks, validate_transport,
  number_checks, validate_numbers, validate_rest, validate_listen, validate_origin, string_checks,
  validate_with, validate, bad_string, validate_patch_structure,
}
use modelcairn.AdminSettings.Resolve.{apply, finish, resolve_patch, resolve_update}
use modelcairn.AdminSettings.Admissible.{IsAdmissible, validate-IsAdmissible}
use modelcairn.AdminSettings.Reapply.{resolve_update-again}

abbrev std : Std
std = record {
  valid_utf8 = λ s. true;
  rune_count = len;
  to_lower = λ s. s;
  contains = λ s t. false;
  trim_brackets = λ s. s;
  atoi = λ s. some (pos 8080);
  itoa = λ z. "8080";
  parse_url = λ s. some (record {
    scheme = "http";
    host = "localhost:8080";
    host_name = "localhost";
    host_port = "8080";
    has_user = false;
    raw_query = "";
    fragment = "";
    path = "";
  });
  hostname = λ s. "localhost";
  split_host_port = λ s. some ("127.0.0.1", "8080");
  join_host_port = λ host port. append host (append ":" port);
  parse_addr = λ s. if str_eq s "127.0.0.1" then some (s, true) else none;
  parse_prefix = λ s. none;
  is_abs = λ s. true;
  clean = λ s. s;
}

abbrev settings : Resolved
settings = record defaults { public_origin = "http://localhost:8080" }

settings_pass : validate std settings ≡ none
unfolding within canonical_listen normalized_origin canonical_origin origin_is_loopback
    valid_optional_string valid_string validate_cidrs loopback_checks validate_transport
    number_checks validate_numbers validate_rest validate_listen validate_origin string_checks
    validate_with validate
settings_pass = refl

validate-IsAdmissible_example : IsAdmissible std settings
validate-IsAdmissible_example = validate-IsAdmissible std settings settings_pass

abbrev longer_sessions : Document
longer_sessions = record {
  api_version = "modelcairn.io/v1alpha1";
  kind = "AdminSettings";
  resource_version = some (pos 3);
  spec = record {
    public_origin = none;
    listen = none;
    transport = none;
    trusted_proxy_cidrs = none;
    tls_certificate_path = none;
    tls_private_key_path = none;
    idle_seconds = some (pos 3600);
    absolute_seconds = none;
    global_attempts_per_minute = none;
    global_burst = none;
    client_attempts_per_minute = none;
    client_burst = none;
    max_client_entries = none;
    client_idle_seconds = none;
    failed_login_retention_seconds = none;
    argon_memory_kib = none;
    argon_iterations = none;
  };
}

abbrev updated : Resolved
updated = record settings { idle_seconds = pos 3600 }

update_passes : resolve_update std (some longer_sessions) settings ≡ (updated, none)
unfolding within canonical_listen normalized_origin canonical_origin origin_is_loopback
    valid_optional_string valid_string validate_cidrs loopback_checks validate_transport
    number_checks validate_numbers validate_rest validate_listen validate_origin string_checks
    validate_with validate bad_string validate_patch_structure apply finish resolve_patch
    resolve_update
update_passes = refl

resolve_update-again_example :
    IsAdmissible std updated × (resolve_update std (some longer_sessions) updated ≡ (updated, none))
resolve_update-again_example =
    resolve_update-again std longer_sessions settings updated update_passes
