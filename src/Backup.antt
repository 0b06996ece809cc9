-- ===== src/Backup.antt =====
-- The metadata of internal/backupmcb1/mcb1.go: the manifest, the checksums, and `buildMetadata`.
use mathlib.Core.Path.{◌≡◌, refl}
use modelcairn.Base.{
  ℕ, zero, suc, ◌+◌, String, str_eq, Bool, true, false, ◌&&◌, not, Option, none, some, List, [],
  ◌∷◌, ◌==◌, length, if◌then◌else◌,
}
pub mod Digits
pub mod Stable

pub record Entry : Type 0 where
  pub name : String
  pub size : ℕ

-- A zero time is 0.
pub record Manifest : Type 0 where
  pub profile : String
  pub profile_version : ℕ
  pub application_version : String
  pub schema_version : ℕ
  pub created_at : ℕ
  pub entries : List Entry

pub record Checksums : Type 0 where
  pub algorithm : String
  pub entries : List (String × String)

-- What the code calls of encoding/json on these types, and of crypto/sha256 with encoding/hex.
pub record Encoding : Type 0 where
  pub manifest : Manifest → Option (List ℕ)
  pub checksums : Checksums → Option (List ℕ)
  pub sum : List ℕ → String

pub data Built : Type 0 where
  built : Manifest → List ℕ → List ℕ → Built
  not_encoded : Built
  not_stable : Built

abbrev pub first_manifest : String → ℕ → ℕ → ℕ → ℕ → Manifest
first_manifest application_version now schema_version database_size secrets_size = record {
  profile = "modelcairn-backup";
  profile_version = 1;
  application_version = application_version;
  schema_version = schema_version;
  created_at = now;
  entries =
      record { name = "manifest.json"; size = 0 }
      ∷ record { name = "database.sqlite"; size = database_size }
      ∷ record { name = "secrets.jsonl"; size = secrets_size }
      ∷ record { name = "checksums.json"; size = 0 }
      ∷ [];
}

abbrev pub checksums_of : String → String → String → Checksums
checksums_of manifest_hash database_hash secrets_hash = record {
  algorithm = "SHA-256";
  entries =
      ("manifest.json", manifest_hash)
      ∷ ("database.sqlite", database_hash)
      ∷ ("secrets.jsonl", secrets_hash)
      ∷ [];
}

-- manifest.Entries[i].Size, and its assignment
abbrev pub size_at : ℕ → List Entry → ℕ
size_at i [] = 0
size_at zero (e ∷ es) = e.size
size_at (suc i) (e ∷ es) = size_at i es

abbrev pub set_size : ℕ → ℕ → List Entry → List Entry
set_size i n [] = []
set_size zero n (e ∷ es) = record e { size = n } ∷ es
set_size (suc i) n (e ∷ es) = e ∷ set_size i n es

abbrev pub resized : Manifest → ℕ → ℕ → Manifest
resized m a b = record m { entries = set_size 3 b (set_size 0 a m.entries) }

abbrev pub same_sizes : Manifest → ℕ → ℕ → Bool
same_sizes m a b = size_at 0 m.entries == a && size_at 3 m.entries == b

abbrev pub encode_checksums : Option (List ℕ) → List ℕ → Manifest → (Manifest → Built) → Built
encode_checksums none manifest_bytes m again = not_encoded
encode_checksums (some checksum_bytes) manifest_bytes m again =
    let sized = resized m (length manifest_bytes) (length checksum_bytes) in
    let rest = again sized in
    if same_sizes m (length manifest_bytes) (length checksum_bytes)
    then built sized manifest_bytes checksum_bytes
    else rest

abbrev pub encode_manifest :
    Encoding → String → String → Option (List ℕ) → Manifest → (Manifest → Built) → Built
encode_manifest S database_hash secrets_hash none m again = not_encoded
encode_manifest S database_hash secrets_hash (some manifest_bytes) m again =
    encode_checksums (S.checksums (checksums_of (S.sum manifest_bytes) database_hash secrets_hash))
      manifest_bytes m again

-- The loop of `buildMetadata`, for so many attempts.
unfoldable pub attempt : Encoding → String → String → ℕ → Manifest → Built
attempt S database_hash secrets_hash zero m = not_stable
attempt S database_hash secrets_hash (suc n) m =
    encode_manifest S database_hash secrets_hash (S.manifest m) m
      (attempt S database_hash secrets_hash n)

abbrev pub build_metadata : Encoding → String → ℕ → ℕ → ℕ → ℕ → String → String → Built
build_metadata S application_version now schema_version database_size secrets_size database_hash
      secrets_hash =
    attempt S database_hash secrets_hash 8
      (first_manifest application_version now schema_version database_size secrets_size)

-- The entry whose size is not the actual one.
unfoldable pub validate_sizes : List Entry → (String → ℕ) → Option String
validate_sizes [] actual = none
validate_sizes (e ∷ es) actual =
    let rest = validate_sizes es actual in
    if not (actual e.name == e.size) then some e.name else rest
