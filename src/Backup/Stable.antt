-- ===== src/Backup/Stable.antt =====
-- The sizes that internal/backupmcb1/mcb1.go writes into a manifest, which is encoded with them.
use mathlib.Core.Path.{subst}
use modelcairn.Base.{
  ℕ, zero, suc, ◌+◌, String, true, false, ◌&&◌, none, some, List, ◌≡◌, refl, sym, ap, ◌∙◌, ◌≤◌, ◌<◌,
  ◌==◌, arith, length, if_elim, ◌⊎◌, if◌then◌else◌, inl, inr,
}
use modelcairn.Backup.Digits.{digits, digits_cap, digits_le, digits_close}
use modelcairn.Backup.{
  Manifest, Encoding, Built, built, first_manifest, checksums_of, resized, size_at, same_sizes,
  encode_checksums, encode_manifest, attempt, build_metadata, validate_sizes,
}

decide_equal : (a b : ℕ) → (a ≡ b) ⊎ ¬ (a ≡ b)
decide_equal a b = ground arith

both_equal : (a x b y : ℕ) → (a == x && b == y) ≡ true → (a ≡ x) × (b ≡ y)
both_equal a x b y h = ground (arith, h)

differs : (a x b : ℕ) → (a == x && b == b) ≡ false → ¬ (a ≡ x)
differs a x b h e = ground (arith, h, e)

-- How encoding/json writes manifests that differ only in these two sizes, and checksums that differ only in a hash.
pub record IsDecimal (S : Encoding) (m : Manifest) (database_hash secrets_hash : String)
    (base rest : ℕ) : Type 0 where
  pub manifest :
      (a b : ℕ)
      → a < 9223372036854775808
      → b < 9223372036854775808
      → (bytes : List ℕ) × (S.manifest (resized m a b) ≡ some bytes)
        × (length bytes ≡ base + digits a + digits b)
  pub checksums :
      (hashed : List ℕ)
      → (bytes : List ℕ) × (S.checksums (checksums_of (S.sum hashed) database_hash secrets_hash)
          ≡ some bytes)
        × (length bytes ≡ rest)
  pub manifest_fits : base + 40 < 9223372036854775808
  pub checksums_fit : rest < 9223372036854775808

-- The manifest encodes to these bytes and states their lengths, which the check of sizes accepts.
pub record IsStated (S : Encoding) (m : Manifest) (result : Built) : Type 0 where
  manifest : Manifest
  manifest_bytes : List ℕ
  checksum_bytes : List ℕ
  result_is : result ≡ built manifest manifest_bytes checksum_bytes
  encodes : S.manifest manifest ≡ some manifest_bytes
  sizes : manifest ≡ resized m (length manifest_bytes) (length checksum_bytes)
  accepted :
      (actual : String → ℕ)
      → actual "manifest.json" ≡ length manifest_bytes
      → actual "database.sqlite" ≡ size_at 1 m.entries
      → actual "secrets.jsonl" ≡ size_at 2 m.entries
      → actual "checksums.json" ≡ length checksum_bytes
      → validate_sizes manifest.entries actual ≡ none

attempt-encoded :
    (S : Encoding) (database_hash secrets_hash : String) (n : ℕ) (m : Manifest) (mb cb : List ℕ)
    → S.manifest m ≡ some mb
    → S.checksums (checksums_of (S.sum mb) database_hash secrets_hash) ≡ some cb
    → attempt S database_hash secrets_hash (suc n) m ≡ (
        if same_sizes m (length mb) (length cb)
        then built (resized m (length mb) (length cb)) mb cb
        else attempt S database_hash secrets_hash n (resized m (length mb) (length cb)))
unfolding attempt
attempt-encoded S database_hash secrets_hash n m mb cb h k =
    ap
      (λ o.
        encode_manifest S database_hash secrets_hash o m (attempt S database_hash secrets_hash n))
      h
    ∙ ap (λ o. encode_checksums o mb m (attempt S database_hash secrets_hash n)) k

stated-eq : (S : Encoding) (m : Manifest) (x y : Built) → x ≡ y → IsStated S m y → IsStated S m x
stated-eq S m x y e h = subst (IsStated S m) (sym e) h

module _ (S : Encoding) (version : String) (now schema database_size secrets_size : ℕ)
    (database_hash secrets_hash : String) (base rest : ℕ)
    (D : IsDecimal S
      (first_manifest version now schema database_size secrets_size)
      database_hash
      secrets_hash
      base
      rest) where
  abbrev first : Manifest
  first = first_manifest version now schema database_size secrets_size

  abbrev next : ℕ → ℕ → ℕ
  next a b = base + digits a + digits b

  sizes_accepted :
      (x y : ℕ) (actual : String → ℕ)
      → actual "manifest.json" ≡ x
      → actual "database.sqlite" ≡ database_size
      → actual "secrets.jsonl" ≡ secrets_size
      → actual "checksums.json" ≡ y
      → validate_sizes (resized first x y).entries actual ≡ none
  unfolding validate_sizes
  sizes_accepted x y actual h k l m = ground (arith, h, k, l, m)

  -- An attempt finds the sizes, or the next one does from those that it has found.
  attempt-IsStated :
      (a b n : ℕ)
      → a < 9223372036854775808
      → b < 9223372036854775808
      → ((a == next a b && b == rest) ≡ false
          → IsStated S first
              (attempt S database_hash secrets_hash n (resized first (next a b) rest)))
      → IsStated S first (attempt S database_hash secrets_hash (suc n) (resized first a b))
  attempt-IsStated a b n fa fb again =
      let m = D.manifest a b fa fb in
      let c = D.checksums m.0 in
      let go = attempt-encoded S database_hash secrets_hash n (resized first a b) m.0 c.0 m.1 c.1 in
      let left = attempt S database_hash secrets_hash n (resized first (length m.0) (length c.0)) in
      let stop = built (resized first (length m.0) (length c.0)) m.0 c.0 in
      stated-eq S first (attempt S database_hash secrets_hash (suc n) (resized first a b))
        (if a == length m.0 && b == length c.0 then stop else left) go
        (if_elim (IsStated S first) (a == length m.0 && b == length c.0)
          (λ e.
            let same = both_equal a (length m.0) b (length c.0) e in
            record {
              manifest = resized first (length m.0) (length c.0);
              manifest_bytes = m.0;
              checksum_bytes = c.0;
              result_is = refl;
              encodes =
                  ap (λ x. S.manifest (resized first x (length c.0))) (sym same.0)
                  ∙ ap (λ y. S.manifest (resized first a y)) (sym same.1)
                  ∙ m.1;
              sizes = refl;
              accepted = sizes_accepted (length m.0) (length c.0);
            })
          (λ e.
            stated-eq S first left
              (attempt S database_hash secrets_hash n (resized first (next a b) rest))
              (ap (λ x. attempt S database_hash secrets_hash n (resized first x (length c.0))) m.2
                ∙ ap (λ y. attempt S database_hash secrets_hash n (resized first (next a b) y)) c.2)
              (again (
                subst (λ x. (a == x && b == rest) ≡ false) m.2
                  (subst (λ y. (a == length m.0 && b == y) ≡ false) c.2 e)))))

  fits : (a x : ℕ) → x ≤ next a rest → x < 9223372036854775808
  fits a x h =
      let p = digits_cap a in
      let q = digits_cap rest in let r = D.manifest_fits in omega (arith, p, q, r, h)

  -- Where the next size has as many digits, the attempt that follows finds it again.
  repeats :
      (n a : ℕ)
      → digits a ≡ digits (next a rest)
      → 1 ≤ n
      → IsStated S first (attempt S database_hash secrets_hash n (resized first (next a rest) rest))
  repeats zero a same h = absurd (omega arith)
  repeats (suc n) a same h =
      attempt-IsStated (next a rest) rest n (fits a (next a rest) (omega arith)) D.checksums_fit
        (λ e. absurd (differs (next a rest) (next (next a rest) rest) rest e (omega (arith, same))))

  next_near : (a : ℕ) → digits (next a rest) ≤ digits base + 2
  next_near a =
      let p = digits_cap a in
      let q = digits_cap rest in digits_close base (next a rest) (omega arith)

  next_mono : (a : ℕ) → a ≤ next a rest → next a rest ≤ next (next a rest) rest
  next_mono a h = let p = digits_le a (next a rest) h in omega arith

  -- From a size that is not above the next one, the digits of the sizes rise until two sizes are the same.
  settles :
      (n a : ℕ)
      → a ≤ next a rest
      → digits base + 4 ≤ n + digits a
      → IsStated S first (attempt S database_hash secrets_hash n (resized first a rest))
  settles zero a h k =
      let p = digits_le a (next a rest) h in let q = next_near a in absurd (omega arith)
  settles (suc n) a h k = attempt-IsStated a rest n (fits a a h) D.checksums_fit (λ e.
      let p = digits_le a (next a rest) h in
      elim (decide_equal (digits a) (digits (next a rest))) [
        | inl same ↦ repeats n a same (let q = next_near a in omega arith)
        | inr rises ↦ settles n (next a rest) (next_mono a h) (omega (arith, rises, p))
      ])

  -- Let encoding/json write a size with as many bytes as it has decimal digits, and checksums with a fixed number of bytes.
  -- Let the lengths fit an int64. Then `buildMetadata` finds stable sizes within its eight attempts: it returns a manifest, its encoding and that of the
  -- checksums, where the manifest is the first one with the lengths of these two encodings as their sizes, and the check
  -- of sizes that reads an archive accepts it for entries of these lengths and of the given sizes of the database and the
  -- secrets.
  pub build_metadata-IsStated :
      IsStated S first
        (build_metadata S version now schema database_size secrets_size database_hash secrets_hash)
  build_metadata-IsStated =
      let p = digits_le 0 (next 0 0) (omega arith) in
      let q = digits_le base (next 0 0) (omega arith) in
      let r = digits_le 0 rest (omega arith) in
      attempt-IsStated 0 0 7 (omega arith) (omega arith)
        (λ e. settles 7 (next 0 0) (omega arith) (omega arith))
