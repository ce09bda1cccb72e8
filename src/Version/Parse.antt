-- ===== src/Version/Parse.antt =====
-- `Version`: which of the three forms a text takes.
use linyaps_rust.Common.{
  ℕ, ◌≡◌, refl, ap, ◌==◌, Text, is_empty, split, split-join, Option, none, some, List, [], ◌∷◌,
  ◌++◌, Bool, true, false, not, ◌||◌, all, any, length, if◌then◌else◌, Result, ok, err, arith, inl,
  inr, Option-cases,
}
use linyaps_rust.Version.{VersionError, invalid, is_digit, has_leading_zero, show_u64}
use linyaps_rust.Version.V1.{
  VersionV1, parse_v1, show_v1, semantic_match_v1, Fits, parse-show_v1, show_v1-join4,
}
use linyaps_rust.Version.V2.{
  VersionV2, Semver, parse_v2, show_v2, semantic_match_v2, candidate, numeric_of, ends_numbers,
}
use linyaps_rust.Version.Fallback.{
  FallbackVersion, parse_fallback, show_fallback, semantic_match_fallback, nonempty_parts, of_parts,
}
use linyaps_rust.Version.Numeric.{Lacks-show, show-digits}

pub data Version : Type 0 where
  v2 : VersionV2 → Version
  v1 : VersionV1 → Version
  fallback : FallbackVersion → Version

pub record ParseOptions : Type 0 where
  pub strict : Bool
  pub allow_fallback : Bool

abbrev pub default_options : ParseOptions
default_options = record { strict = true; allow_fallback = true }

abbrev pub as_fallback : Result VersionError FallbackVersion → Result VersionError Version
as_fallback (ok f) = ok (fallback f)
as_fallback (err e) = err e

abbrev pub or_fallback : Text → Result VersionError VersionV1 → Result VersionError Version
or_fallback raw (ok w) = ok (v1 w)
or_fallback raw (err e) = as_fallback (parse_fallback raw)

abbrev pub or_v1 : Text → ParseOptions → Result VersionError VersionV2 → Result VersionError Version
or_v1 raw o (ok w) = ok (v2 w)
or_v1 raw o (err e) =
    if not o.allow_fallback then err (invalid raw) else or_fallback raw (parse_v1 raw)

module _ (semver : Semver) where
  unfoldable pub parse_with_options : Text → ParseOptions → Result VersionError Version
  parse_with_options raw o = or_v1 raw o (parse_v2 semver raw o.strict)

  unfoldable pub parse_version : Text → Result VersionError Version
  unfolding parse_with_options
  parse_version raw = parse_with_options raw default_options

  unfoldable pub semantic_match : Version → Text → Bool
  semantic_match (v2 w) raw = semantic_match_v2 semver w raw
  semantic_match (v1 w) raw = semantic_match_v1 w raw
  semantic_match (fallback f) raw = semantic_match_fallback f raw

unfoldable pub show_version : Version → Text
show_version (v2 w) = show_v2 w
show_version (v1 w) = show_v1 w
show_version (fallback f) = show_fallback f

-- `ignore_tweak`, `is_v1` and `has_tweak`.
unfoldable pub ignore_tweak : Version → Version
ignore_tweak (v1 w) = v1 (record w { tweak = none })
ignore_tweak w = w

abbrev pub is_v1 : Version → Bool
is_v1 (v1 w) = true
is_v1 _ = false

abbrev pub tweak_given : Option ℕ → Bool
tweak_given none = false
tweak_given (some t) = true

abbrev pub has_tweak : Version → Bool
has_tweak (v1 w) = tweak_given w.tweak
has_tweak _ = false

abbrev pub is_bad_part : Text → Bool
is_bad_part part = is_empty part || has_leading_zero part || not (all is_digit part)

unfoldable pub validate_depend_version : Text → Result VersionError (Unit {0})
unfolding split
validate_depend_version raw =
    let parts = split b'.' raw in
    if not (length parts == 2 || length parts == 3) || any is_bad_part parts
    then err (invalid raw)
    else ok tt

parse_fallback-parts :
    (raw p : Text) (ps : List Text)
    → nonempty_parts raw ≡ p ∷ ps
    → parse_fallback raw ≡ ok (record { parts = p ∷ ps })
unfolding parse_fallback
parse_fallback-parts raw p ps q = ap (of_parts raw) q

-- With the default options a text with a non-empty part always parses, and the forms are tried in
-- the order semantic version, four numbers, fallback.
pub parse_version_order :
    (semver : Semver) (raw : Text)
    → ((w : VersionV2) → parse_v2 semver raw true ≡ ok w → parse_version semver raw ≡ ok (v2 w))
      × ((e : VersionError) (w : VersionV1)
          → parse_v2 semver raw true ≡ err e
          → parse_v1 raw ≡ ok w
          → parse_version semver raw ≡ ok (v1 w))
      × ((e e' : VersionError) (p : Text) (ps : List Text)
          → parse_v2 semver raw true ≡ err e
          → parse_v1 raw ≡ err e'
          → nonempty_parts raw ≡ p ∷ ps
          → parse_version semver raw ≡ ok (fallback (record { parts = p ∷ ps })))
unfolding parse_version
parse_version_order semver raw = (
  λ w h. rw h refl,
  λ e w h k. rw (h, k) refl,
  λ e e' p ps h k q. rw (h, k, parse_fallback-parts raw p ps q) refl,
)

-- What strict parsing accepts has its third number.
pub parse_v2_strict_has_patch :
    (semver : Semver) (raw : Text) (w : VersionV2)
    → parse_v2 semver raw true ≡ ok w
    → w.has_patch ≡ true
unfolding parse_v2
parse_v2_strict_has_patch semver raw w h = ground arith

-- Digits and dots go through `numeric_of` unchanged.
numeric_of-append :
    (s t : Text) → any ends_numbers s ≡ false → numeric_of (s ++ t) ≡ s ++ numeric_of t
unfolding numeric_of
numeric_of-append [] t h = refl
numeric_of-append (c ∷ s) t h = ground (arith, numeric_of-append s t)

digits-end : (s : Text) → all is_digit s ≡ true → any ends_numbers s ≡ false
digits-end [] h = refl
digits-end (c ∷ s) h = ground (arith, digits-end s)

numeric_of-digits : (s : Text) → any ends_numbers s ≡ false → numeric_of s ≡ s
unfolding numeric_of
numeric_of-digits [] h = refl
numeric_of-digits (c ∷ s) h = ground (arith, numeric_of-digits s)

show-ends : (n : ℕ) → any ends_numbers (show_u64 n) ≡ false
show-ends n = digits-end (show_u64 n) (show-digits n)

numeric_of-show_v1 :
    (a b c d : ℕ)
    → let t = show_v1 (record { major = a; minor = b; patch = c; tweak = some d }) in
      numeric_of t ≡ t
unfolding show_v1 numeric_of
numeric_of-show_v1 a b c d = rw (numeric_of-append (show_u64 a) _ (show-ends a)) (
    rw (numeric_of-append (show_u64 b) _ (show-ends b)) (
      rw (numeric_of-append (show_u64 c) _ (show-ends c))
        (rw (numeric_of-digits (show_u64 d) (show-ends d)) refl)))

-- The print of four numbers has four parts, and no semantic version has.
four_parts :
    (a b c d : ℕ)
    → length (
        split b'.'
          (numeric_of (show_v1 (record { major = a; minor = b; patch = c; tweak = some d }))))
      ≡ 4
four_parts a b c d =
    rw
      (
        numeric_of-show_v1 a b c d,
        show_v1-join4 a b c d,
        split-join b'.' (show_u64 a) (show_u64 b ∷ show_u64 c ∷ show_u64 d ∷ [])
            (Lacks-show a, (Lacks-show b, (Lacks-show c, (Lacks-show d, tt)))),
      )
      refl

parse_v2-refuses :
    (semver : Semver) (raw : Text)
    → length (split b'.' (numeric_of raw)) ≡ 4
    → parse_v2 semver raw true ≡ err (invalid raw)
unfolding parse_v2 candidate
parse_v2-refuses semver raw four = elim (Option-cases (semver.parse raw)) [
  | inl none_parsed ↦ rw none_parsed refl
  | inr (w, parsed) ↦ absurd (let three = semver.three_numbers raw w parsed in omega arith)
]

-- A version of four numbers that fit an `i64` prints to a text that parses to it.
pub parse-show_version_v1 :
    (semver : Semver) (a b c d : ℕ)
    → let w : VersionV1 = record { major = a; minor = b; patch = c; tweak = some d } in
      Fits w → parse_version semver (show_version (v1 w)) ≡ ok (v1 w)
unfolding show_version
parse-show_version_v1 semver a b c d f =
    let w : VersionV1 = record { major = a; minor = b; patch = c; tweak = some d } in
    (parse_version_order semver (show_v1 w)).1 _ w
      (parse_v2-refuses semver (show_v1 w) (four_parts a b c d)) (parse-show_v1 w f)
