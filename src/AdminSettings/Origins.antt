-- ===== src/AdminSettings/Origins.antt =====
-- Origins and listening addresses, in internal/adminsettings/validate.go.
use modelcairn.Base.{
  String, Bool, false, not, ◌&&◌, ◌||◌, Option, none, some, ℤ, pos, leb_ℤ, str_eq, append,
  if◌then◌else◌,
}
use modelcairn.AdminSettings.{Url, Std}

abbrev pub empty : String → Bool
empty s = str_eq s ""

module _ (S : Std) where
  open S use {
    valid_utf8, rune_count, to_lower, contains, trim_brackets, atoi, itoa, parse_url, hostname,
    split_host_port, join_host_port, parse_addr, parse_prefix, is_abs, clean,
  }

  -- A port of an address, in its shortest spelling.
  abbrev pub is_port : ℤ → Bool
  is_port port = leb_ℤ (pos 1) port && leb_ℤ port (pos 65535)

  -- The address, whether it is a loopback address, and the port.
  abbrev pub listen_of : String → String → Bool → Option ℤ → Option (Bool × ℤ)
  listen_of raw ip loopback none = none
  listen_of raw ip loopback (some port) =
      if is_port port && str_eq (join_host_port ip (itoa port)) raw
      then some (loopback, port)
      else none

  abbrev pub listen_host : String → String → Option (String × Bool) → Option (Bool × ℤ)
  listen_host raw port none = none
  listen_host raw port (some (ip, loopback)) = listen_of raw ip loopback (atoi port)

  abbrev pub listen_parts : String → Option (String × String) → Option (Bool × ℤ)
  listen_parts raw none = none
  listen_parts raw (some (host, port)) = listen_host raw port (parse_addr host)

  unfoldable pub canonical_listen : String → Option (Bool × ℤ)
  canonical_listen raw = listen_parts raw (split_host_port raw)

  -- The scheme, the host and the canonical spelling of an origin.
  pub record Origin : Type 0 where
    pub scheme : String
    pub host : String
    pub canonical : String

  abbrev pub origin_of : String → String → Origin
  origin_of scheme host = record {
    scheme = scheme;
    host = host;
    canonical = append scheme (append "://" host);
  }

  abbrev pub default_port : String → String → Bool
  default_port scheme port =
      str_eq scheme "http" && str_eq port "80" || str_eq scheme "https" && str_eq port "443"

  abbrev pub spelling_of : String → Option (String × Bool) → String
  spelling_of hostname none = to_lower hostname
  spelling_of hostname (some (ip, loopback)) = ip

  abbrev pub bracketed : String → String
  bracketed host = if contains host ":" then append "[" (append host "]") else host

  -- The port is added to the host if it is not the default one.
  abbrev pub with_port : String → String → Option ℤ → Option Origin
  with_port scheme host none = none
  with_port scheme host (some port) =
      if is_port port
      then some (origin_of scheme (join_host_port (trim_brackets host) (itoa port)))
      else none

  abbrev pub origin_of_url : Option Url → Option Origin
  origin_of_url none = none
  origin_of_url (some u) =
      let scheme = to_lower u.scheme in
      let port = if default_port scheme u.host_port then "" else u.host_port in
      let host = bracketed (spelling_of u.host_name (parse_addr u.host_name)) in
      if empty u.scheme
        || empty u.host
        || u.has_user
        || not (empty u.raw_query)
        || not (empty u.fragment)
        || not (empty u.path) && not (str_eq u.path "/")
      then none
      else if not (str_eq scheme "http") && not (str_eq scheme "https")
      then none
      else if empty u.host_name || contains u.host_name "*"
      then none
      else if empty port
      then some (origin_of scheme host)
      else with_port scheme host (atoi port)

  unfoldable pub normalized_origin : String → Option Origin
  normalized_origin raw = origin_of_url (parse_url raw)

  abbrev pub same_canonical : String → Option Origin → Option Origin
  same_canonical raw none = none
  same_canonical raw (some o) = if str_eq raw o.canonical then some o else none

  unfoldable pub canonical_origin : String → Option Origin
  canonical_origin raw = same_canonical raw (normalized_origin raw)

  abbrev pub is_loopback : Option (String × Bool) → Bool
  is_loopback none = false
  is_loopback (some (ip, loopback)) = loopback

  unfoldable pub origin_is_loopback : Origin → Bool
  origin_is_loopback o =
      str_eq (hostname o.host) "localhost" || is_loopback (parse_addr (hostname o.host))
