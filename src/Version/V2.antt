-- ===== src/Version/V2.antt =====
-- `VersionV2`: a semantic version with the security number of its build metadata. The `semver` crate
-- is a parameter.
use linyaps_rust.Common.{
  ℕ, zero, suc, ◌≡◌, ◌==◌, Text, codes, is_empty, starts_with, split, drop, Option, none, some,
  List, [], ◌∷◌, ◌++◌, Bool, true, false, not, ◌&&◌, ◌||◌, all, length, if◌then◌else◌, Result, ok,
  err, ensure, ok_or, ◌>>=◌, ◌>>◌, compare, Ordering, then_compare, reverse_order, is_eq,
}
use linyaps_rust.Version.{
  VersionError, invalid, overflow, is_digit, is_malformed, parse_u64, show_u64,
}
use linyaps_rust.Version.V1.{VersionV1}

-- `raw.find(['-', '+'])`: what stands before it, and from it on.
abbrev pub ends_numbers : ℕ → Bool
ends_numbers c = c == b'-' || c == b'+'

unfoldable pub numeric_of : Text → Text
numeric_of [] = []
numeric_of (c ∷ s) = if ends_numbers c then [] else c ∷ numeric_of s

unfoldable pub rest_of : Text → Text
rest_of [] = []
rest_of (c ∷ s) = if ends_numbers c then c ∷ s else rest_of s

-- `semver::Version`, with the pre-release and the build metadata as texts.
pub record SemverVersion : Type 0 where
  pub major : ℕ
  pub minor : ℕ
  pub patch : ℕ
  pub pre : Text
  pub build : Text

-- What the code uses of the crate, with what its documentation says: three numbers stand before the
-- pre-release, and pre-releases are ordered.
pub record Semver : Type 0 where
  pub parse : Text → Option SemverVersion
  pub compare_pre : Text → Text → Ordering
  pub three_numbers :
      (s : Text) (w : SemverVersion) → parse s ≡ some w → length (split b'.' (numeric_of s)) ≡ 3
  pub pre_swap : (p q : Text) → compare_pre q p ≡ reverse_order (compare_pre p q)
  pub pre_refl : (p : Text) → compare_pre p p ≡ Ordering.eq
  pub pre_eq : (p q : Text) → compare_pre p q ≡ Ordering.eq → p ≡ q
  pub pre_trans :
      (p q r : Text)
      → compare_pre p q ≡ Ordering.lt
      → compare_pre q r ≡ Ordering.lt
      → compare_pre p r ≡ Ordering.lt

pub record VersionV2 : Type 0 where
  pub major : ℕ
  pub minor : ℕ
  pub patch : ℕ
  pub prerelease : Text
  pub build_metadata : Text
  pub security : ℕ
  pub has_patch : Bool

-- `strip_prefix('v').unwrap_or(raw)`.
abbrev pub strip_v : Text → Text
strip_v [] = []
strip_v (c ∷ s) = if c == b'v' then s else c ∷ s

-- A loose version may lack its third number, which is then 0.
unfoldable pub candidate : Text → Bool → Text
unfolding numeric_of rest_of split
candidate raw true = raw
candidate raw false =
    let r = strip_v raw in
    if length (split b'.' (numeric_of r)) == 2 then numeric_of r ++ (codes ".0" ++ rest_of r) else r

-- `part.parse::<u64>().is_err()` of a numeric part.
abbrev pub is_some : Option ℕ → Bool
is_some none = false
is_some (some n) = true

unfoldable pub validate_parts : List Text → Result VersionError (Unit {0})
unfolding parse_u64
validate_parts [] = ok tt
validate_parts (p ∷ ps) =
    if not (is_empty p) && all is_digit p && not (is_some (parse_u64 p))
    then err (overflow p)
    else validate_parts ps

unfoldable pub validate_prerelease_numeric : Text → Result VersionError (Unit {0})
unfolding validate_parts split
validate_prerelease_numeric prerelease = validate_parts (split b'.' prerelease)

-- `build.find("security.")` and what stands behind it.
unfoldable pub after_security : Text → Option Text
unfolding starts_with
after_security [] = none
after_security (c ∷ s) =
    let later = after_security s in
    if starts_with (c ∷ s) (codes "security.") then some (drop 9 (c ∷ s)) else later

abbrev pub security_value : Text → Text → Option ℕ → Result VersionError ℕ
security_value build value none = err (overflow value)
security_value build value (some zero) = err (invalid build)
security_value build value (some (suc n)) = ok (suc n)

unfoldable pub extract_security : Text → Result VersionError ℕ
unfolding after_security parse_u64
extract_security build = elim (after_security build) [
  | none ↦ ok 0
  | some value ↦
      if is_malformed value
      then err (invalid build)
      else security_value build value (parse_u64 value)
]

abbrev pub counts_three : Text → Bool
unfolding split numeric_of
counts_three raw = length (split b'.' (strip_v (numeric_of raw))) == 3

module _ (semver : Semver) where
  unfoldable pub parse_v2 : Text → Bool → Result VersionError VersionV2
  unfolding candidate validate_prerelease_numeric extract_security split numeric_of
  parse_v2 raw strict = do
    parsed ← ok_or (semver.parse (candidate raw strict)) (invalid raw)
    validate_prerelease_numeric parsed.pre
    ensure (not (strict && not (counts_three raw))) (invalid raw)
    security ← extract_security parsed.build
    ok (record {
      major = parsed.major;
      minor = parsed.minor;
      patch = parsed.patch;
      prerelease = parsed.pre;
      build_metadata = parsed.build;
      security = security;
      has_patch = counts_three raw;
    })

  abbrev pub matches_v2 : VersionV2 → Result VersionError VersionV2 → Bool
  matches_v2 v (err e) = false
  matches_v2 v (ok fuzzy) =
      v.major == fuzzy.major
      && v.minor == fuzzy.minor
      && (not fuzzy.has_patch || v.patch == fuzzy.patch)

  unfoldable pub semantic_match_v2 : VersionV2 → Text → Bool
  unfolding parse_v2
  semantic_match_v2 v raw = matches_v2 v (parse_v2 raw false)

  unfoldable pub compare_v2 : VersionV2 → VersionV2 → Ordering
  compare_v2 a b = then_compare (compare a.major b.major) (
      then_compare (compare a.minor b.minor) (
        then_compare (compare a.patch b.patch) (
          then_compare (semver.compare_pre a.prerelease b.prerelease)
            (compare a.security b.security))))

  unfoldable pub eq_v2 : VersionV2 → VersionV2 → Bool
  unfolding compare_v2
  eq_v2 a b = is_eq (compare_v2 a b)

unfoldable pub show_v2 : VersionV2 → Text
unfolding show_u64
show_v2 v =
    show_u64 v.major
    ++ (b'.'
        ∷ (show_u64 v.minor
            ++ (b'.'
                ∷ (show_u64 v.patch
                    ++ ((if is_empty v.prerelease then [] else b'-' ∷ v.prerelease)
                        ++ (if is_empty v.build_metadata then [] else b'+' ∷ v.build_metadata))))))

abbrev pub is_none : Option ℕ → Bool
is_none none = true
is_none (some t) = false

unfoldable pub compare_v1_v2 : VersionV1 → VersionV2 → Ordering
compare_v1_v2 a b =
    let base =
      then_compare (compare a.major b.major)
        (then_compare (compare a.minor b.minor) (compare a.patch b.patch)) in
    if not (is_eq base)
    then base
    else (if is_none a.tweak && is_empty b.prerelease && b.security == 0
        then Ordering.eq
        else (if is_none a.tweak && is_empty b.prerelease && not (b.security == 0)
            then Ordering.lt
            else Ordering.gt))
