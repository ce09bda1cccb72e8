-- ===== src/Version/Tests.antt =====
-- Tests of the version forms, and instances of the theorems.
use linyaps_rust.Common.{
  ℕ, ◌≡◌, refl, ◌==◌, Text, codes, text_eq, split, length, Option, none, some, List, [], ◌∷◌, true,
  false, if◌then◌else◌, Result, ok, arith, Ordering, reverse_order, text_compare, text_compare-swap,
  text_compare_refl, text_compare_eq, cons_first,
}
use mathlib.Core.Option
use linyaps_rust.Version.{VersionError, value_from}
use linyaps_rust.Version.V1.{VersionV1, Fits, compare_v1, parse_all}
use linyaps_rust.Version.V2.{VersionV2, Semver, SemverVersion, numeric_of}
use linyaps_rust.Version.Fallback.{
  FallbackVersion, compare_fallback, compare_parts, compare_part, parse_i32, eq_parts,
}
use linyaps_rust.Version.Parse.{
  v1, v2, fallback, parse_version, show_version, parse-show_version_v1, validate_depend_version,
}
use linyaps_rust.Version.Compare.{
  Chain, then_compare-Chain, compare-Chain, partial_cmp, eq_version, partial_cmp-swap,
}

pub text_compare-Chain :
    (s t u : Text) → Chain (text_compare s t) (text_compare t u) (text_compare s u)
unfolding text_compare
text_compare-Chain [] [] [] = (λ h k. ground arith, λ h. ground arith, λ h. ground arith)
text_compare-Chain [] [] (c ∷ u) = (λ h k. ground arith, λ h. ground arith, λ h. ground arith)
text_compare-Chain [] (c ∷ t) [] = (λ h k. ground arith, λ h. ground arith, λ h. ground arith)
text_compare-Chain [] (c ∷ t) (d ∷ u) = (λ h k. ground arith, λ h. ground arith, λ h. ground arith)
text_compare-Chain (c ∷ s) [] [] = (λ h k. ground arith, λ h. ground arith, λ h. ground arith)
text_compare-Chain (c ∷ s) [] (d ∷ u) = (λ h k. ground arith, λ h. ground arith, λ h. ground arith)
text_compare-Chain (c ∷ s) (d ∷ t) [] = (λ h k. ground arith, λ h. ground arith, λ h. ground arith)
text_compare-Chain (c ∷ s) (d ∷ t) (e ∷ u) =
    then_compare-Chain _ _ _ _ _ _ (compare-Chain c d e) (text_compare-Chain s t u)

-- A parser of three numbers without pre-release and build metadata.
abbrev pub three : Result VersionError (List ℕ) → Option SemverVersion
three (ok (a ∷ b ∷ c ∷ [])) =
    some (record { major = a; minor = b; patch = c; pre = []; build = [] })
three _ = none

unfoldable pub parse_three : Text → Option SemverVersion
unfolding split numeric_of parse_all
parse_three s =
    if length (split b'.' (numeric_of s)) == 3 then three (parse_all (split b'.' s)) else none

pub three_parts :
    (s : Text) (w : SemverVersion) → parse_three s ≡ some w → length (split b'.' (numeric_of s)) ≡ 3
unfolding parse_three split numeric_of parse_all
three_parts s w h = ground arith

unfoldable pub numbers_only : Semver
unfolding text_compare parse_three
numbers_only = record {
  parse = parse_three;
  compare_pre = text_compare;
  three_numbers = three_parts;
  pre_swap = text_compare-swap;
  pre_refl = text_compare_refl;
  pre_eq = text_compare_eq;
  pre_trans = λ p q r. (text_compare-Chain p q r).0;
}

abbrev pub four : VersionV1
four = record { major = 1; minor = 20; patch = 3; tweak = some 4 }

pub four-Fits : Fits four
four-Fits = omega arith

abbrev three_only : VersionV1
three_only = record { major = 1; minor = 20; patch = 3; tweak = none }

abbrev zero_tweak : VersionV1
zero_tweak = record { major = 1; minor = 20; patch = 3; tweak = some 0 }

-- The two do not compare at all.
tweak_zero_incomparable : compare_v1 three_only zero_tweak ≡ none
unfolding compare_v1
tweak_zero_incomparable = refl

parse-show_version_v1_example : parse_version numbers_only (show_version (v1 four)) ≡ ok (v1 four)
parse-show_version_v1_example = parse-show_version_v1 numbers_only 1 20 3 4 four-Fits

abbrev at_security : ℕ → Text → VersionV2
at_security n build = record {
  major = 1;
  minor = 2;
  patch = 3;
  prerelease = [];
  build_metadata = build;
  security = n;
  has_patch = true;
}

partial_cmp-swap_example :
    partial_cmp numbers_only (v1 four) (v2 (at_security 0 []))
    ≡ Option.map reverse_order (partial_cmp numbers_only (v2 (at_security 0 [])) (v1 four))
partial_cmp-swap_example = partial_cmp-swap numbers_only (v2 (at_security 0 [])) (v1 four)

abbrev of_text : Text → FallbackVersion
of_text s = record { parts = s ∷ [] }

-- The order of fallback versions has a cycle, "9" < "10" < "1a" < "9".
fallback_cycle :
    (compare_fallback (of_text (codes "9")) (of_text (codes "10")) ≡ Ordering.lt)
    × (compare_fallback (of_text (codes "10")) (of_text (codes "1a")) ≡ Ordering.lt)
    × (compare_fallback (of_text (codes "1a")) (of_text (codes "9")) ≡ Ordering.lt)
unfolding compare_fallback compare_parts compare_part parse_i32 text_compare value_from
fallback_cycle = (refl, refl, refl)

-- "01" and "1" compare as equal and are not equal.
fallback_equal_not_eq :
    (partial_cmp numbers_only (fallback (of_text (codes "01"))) (fallback (of_text (codes "1")))
      ≡ some Ordering.eq)
    × (eq_version numbers_only (fallback (of_text (codes "01"))) (fallback (of_text (codes "1")))
        ≡ false)
unfolding partial_cmp eq_version compare_fallback compare_parts compare_part parse_i32 text_compare
    value_from eq_parts text_eq
fallback_equal_not_eq = (refl, refl)

depend_version_parts : validate_depend_version (codes "1.0.2") ≡ ok tt
unfolding validate_depend_version split cons_first
depend_version_parts = refl
