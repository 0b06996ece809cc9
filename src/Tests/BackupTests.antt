-- ===== src/Tests/BackupTests.antt =====
-- The metadata of an archive, with an encoding that has 97 bytes besides the sizes, so that a first size gains a digit.
use modelcairn.Base.{ℕ, zero, suc, ◌+◌, some, List, [], ◌∷◌, ◌≡◌, refl, ap, arith, length}
use modelcairn.Backup.{Encoding, built, first_manifest, size_at, resized, attempt, build_metadata}
use modelcairn.Backup.Digits.{digits}
use modelcairn.Backup.Stable.{IsDecimal, IsStated, build_metadata-IsStated}

abbrev zeros : ℕ → List ℕ
zeros zero = []
zeros (suc n) = 0 ∷ zeros n

length-zeros : (n : ℕ) → length (zeros n) ≡ n
length-zeros zero = refl
length-zeros (suc n) = ap suc (length-zeros n)

abbrev encoding : Encoding
encoding = record {
  manifest = λ m. some (zeros (97 + digits (size_at 0 m.entries) + digits (size_at 3 m.entries)));
  checksums = λ c. some (zeros 12);
  sum = λ bytes. "00";
}

encoding-IsDecimal : IsDecimal encoding (first_manifest "1.0" 1 3 4096 70) "11" "22" 97 12
encoding-IsDecimal = record {
  manifest =
      λ a b h k. (zeros (97 + digits a + digits b), refl, length-zeros (97 + digits a + digits b));
  checksums = λ hashed. (zeros 12, refl, refl);
  manifest_fits = omega arith;
  checksums_fit = omega arith;
}

third_attempt :
    build_metadata encoding "1.0" 1 3 4096 70 "11" "22"
    ≡ built (resized (first_manifest "1.0" 1 3 4096 70) 102 12) (zeros 102) (zeros 12)
unfolding attempt digits
third_attempt = refl

build_metadata-IsStated_example :
    IsStated encoding
      (first_manifest "1.0" 1 3 4096 70)
      (build_metadata encoding "1.0" 1 3 4096 70 "11" "22")
build_metadata-IsStated_example =
    build_metadata-IsStated encoding "1.0" 1 3 4096 70 "11" "22" 97 12 encoding-IsDecimal
