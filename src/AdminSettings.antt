-- ===== src/AdminSettings.antt =====
-- internal/adminsettings: the administrative settings, as a document gives them and as they are resolved.
use modelcairn.Base.{ℕ, String, Bool, Option, none, some, List, [], ◌∷◌, ℤ, pos}
pub mod Origins
pub mod Validate
pub mod Resolve
pub mod Ranges
pub mod Prefixes
pub mod Transports
pub mod Admissible
pub mod Reapply

abbrev pub Transport : Type 0
Transport = String

pub record Patch : Type 0 where
  pub public_origin : Option String
  pub listen : Option String
  pub transport : Option Transport
  pub trusted_proxy_cidrs : Option (List String)
  pub tls_certificate_path : Option String
  pub tls_private_key_path : Option String
  pub idle_seconds : Option ℤ
  pub absolute_seconds : Option ℤ
  pub global_attempts_per_minute : Option ℤ
  pub global_burst : Option ℤ
  pub client_attempts_per_minute : Option ℤ
  pub client_burst : Option ℤ
  pub max_client_entries : Option ℤ
  pub client_idle_seconds : Option ℤ
  pub failed_login_retention_seconds : Option ℤ
  pub argon_memory_kib : Option ℤ
  pub argon_iterations : Option ℤ

pub record Document : Type 0 where
  pub api_version : String
  pub kind : String
  pub resource_version : Option ℤ
  pub spec : Patch

-- `trusted_proxy_cidrs` is `none` for a nil slice.
pub record Resolved : Type 0 where
  pub public_origin : String
  pub listen : String
  pub transport : Transport
  pub trusted_proxy_cidrs : Option (List String)
  pub tls_certificate_path : String
  pub tls_private_key_path : String
  pub idle_seconds : ℤ
  pub absolute_seconds : ℤ
  pub global_attempts_per_minute : ℤ
  pub global_burst : ℤ
  pub client_attempts_per_minute : ℤ
  pub client_burst : ℤ
  pub max_client_entries : ℤ
  pub client_idle_seconds : ℤ
  pub argon_memory_kib : ℤ
  pub argon_iterations : ℤ
  pub failed_login_retention_seconds : ℤ

abbrev pub zero_resolved : Resolved
zero_resolved = record {
  public_origin = "";
  listen = "";
  transport = "";
  trusted_proxy_cidrs = none;
  tls_certificate_path = "";
  tls_private_key_path = "";
  idle_seconds = pos 0;
  absolute_seconds = pos 0;
  global_attempts_per_minute = pos 0;
  global_burst = pos 0;
  client_attempts_per_minute = pos 0;
  client_burst = pos 0;
  max_client_entries = pos 0;
  client_idle_seconds = pos 0;
  argon_memory_kib = pos 0;
  argon_iterations = pos 0;
  failed_login_retention_seconds = pos 0;
}

abbrev pub defaults : Resolved
defaults = record zero_resolved {
  listen = "127.0.0.1:8080";
  transport = "loopback-http";
  trusted_proxy_cidrs = some [];
  idle_seconds = pos 1800;
  absolute_seconds = pos 43200;
  global_attempts_per_minute = pos 30;
  global_burst = pos 5;
  client_attempts_per_minute = pos 5;
  client_burst = pos 3;
  max_client_entries = pos 1024;
  client_idle_seconds = pos 900;
  failed_login_retention_seconds = pos 86400;
  argon_memory_kib = pos 19456;
  argon_iterations = pos 2;
}

-- The one diagnostic that an error of this package carries.
pub record Diagnostic : Type 0 where
  pub code : String
  pub path : String

abbrev pub invalid_value : String → Diagnostic
invalid_value path = record { code = "invalid_value"; path = path }

abbrev pub invalid_structure : String → Diagnostic
invalid_structure path = record { code = "invalid_structure"; path = path }

-- What `net/url` makes of a string. `host_name` and `host_port` are its methods `Hostname` and `Port`.
pub record Url : Type 0 where
  pub scheme : String
  pub host : String
  pub host_name : String
  pub host_port : String
  pub has_user : Bool
  pub raw_query : String
  pub fragment : String
  pub path : String

-- The functions that the package calls of unicode/utf8, strings, strconv, net, net/netip, net/url and
-- path/filepath. An address is known by its canonical spelling, and whether it is a loopback address; a
-- prefix by its spelling, and whether its host bits are zero.
pub record Std : Type 0 where
  pub valid_utf8 : String → Bool
  pub rune_count : String → ℕ
  pub to_lower : String → String
  pub contains : String → String → Bool
  pub trim_brackets : String → String
  pub atoi : String → Option ℤ
  pub itoa : ℤ → String
  pub parse_url : String → Option Url
  pub hostname : String → String
  pub split_host_port : String → Option (String × String)
  pub join_host_port : String → String → String
  pub parse_addr : String → Option (String × Bool)
  pub parse_prefix : String → Option (String × Bool)
  pub is_abs : String → Bool
  pub clean : String → String
