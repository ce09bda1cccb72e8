-- ===== src/Version/Compare.antt =====
-- `PartialEq` and `PartialOrd` of `Version`.
use linyaps_rust.Common.{
  ℕ, ◌≡◌, refl, ap, sym, Text, Option, some, Bool, true, arith, compare, Ordering, then_compare,
  reverse_order, then_compare-swap, compare-swap, compare_refl, compare_eq, is_eq, ◌↔◌,
}
use mathlib.Core.Option
use linyaps_rust.Version.V1.{VersionV1, eq_v1, compare_v1, compare_v1-swap}
use linyaps_rust.Version.V2.{VersionV2, Semver, compare_v2, eq_v2, compare_v1_v2}
use linyaps_rust.Version.Fallback.{compare_fallback, compare_raw, eq_parts, compare_fallback-swap}
use linyaps_rust.Version.Parse.{Version, v1, v2, fallback, show_version}

module _ (semver : Semver) where
  unfoldable pub eq_version : Version → Version → Bool
  unfolding compare_raw eq_v2 compare_v1_v2 eq_parts show_version
  eq_version (v2 a) (v2 b) = eq_v2 semver a b
  eq_version (v1 a) (v1 b) = eq_v1 a b
  eq_version (fallback a) (fallback b) = eq_parts a.parts b.parts
  eq_version (v1 a) (v2 b) = is_eq (compare_v1_v2 a b)
  eq_version (v2 b) (v1 a) = is_eq (compare_v1_v2 a b)
  eq_version (fallback a) (v1 b) = is_eq (compare_raw a (show_version (v1 b)))
  eq_version (fallback a) (v2 b) = is_eq (compare_raw a (show_version (v2 b)))
  eq_version (v1 b) (fallback a) = is_eq (compare_raw a (show_version (v1 b)))
  eq_version (v2 b) (fallback a) = is_eq (compare_raw a (show_version (v2 b)))

  unfoldable pub partial_cmp : Version → Version → Option Ordering
  unfolding compare_v2 compare_v1 compare_fallback compare_v1_v2 compare_raw show_version
  partial_cmp (v2 a) (v2 b) = some (compare_v2 semver a b)
  partial_cmp (v1 a) (v1 b) = compare_v1 a b
  partial_cmp (fallback a) (fallback b) = some (compare_fallback a b)
  partial_cmp (v1 a) (v2 b) = some (compare_v1_v2 a b)
  partial_cmp (v2 a) (v1 b) = some (reverse_order (compare_v1_v2 b a))
  partial_cmp (fallback a) (v1 b) = some (compare_raw a (show_version (v1 b)))
  partial_cmp (fallback a) (v2 b) = some (compare_raw a (show_version (v2 b)))
  partial_cmp (v1 a) (fallback b) = some (reverse_order (compare_raw b (show_version (v1 a))))
  partial_cmp (v2 a) (fallback b) = some (reverse_order (compare_raw b (show_version (v2 a))))

-- The comparison of `a` and `c` follows from those of `a` with `b` and of `b` with `c`.
abbrev pub Chain : Ordering → Ordering → Ordering → Type 0
Chain ab bc ac =
    ((ab ≡ Ordering.lt) → (bc ≡ Ordering.lt) → (ac ≡ Ordering.lt))
    × ((ab ≡ Ordering.eq) → (ac ≡ bc))
    × ((bc ≡ Ordering.eq) → (ac ≡ ab))

pub then_compare-Chain :
    (p q r p' q' r' : Ordering)
    → Chain p q r
    → Chain p' q' r'
    → Chain (then_compare p p') (then_compare q q') (then_compare r r')
then_compare-Chain p q r p' q' r' (l, e, f) (l', e', f') =
    (λ h k. ground arith, λ h. ground arith, λ h. ground arith)

pub compare-Chain : (a b c : ℕ) → Chain (compare a b) (compare b c) (compare a c)
compare-Chain a b c = (λ h k. ground arith, λ h. ground arith, λ h. ground arith)

pre-Chain :
    (semver : Semver) (p q r : Text)
    → Chain (semver.compare_pre p q) (semver.compare_pre q r) (semver.compare_pre p r)
pre-Chain semver p q r =
    (semver.pre_trans p q r, λ h. rw (semver.pre_eq p q h) refl, λ h. rw (semver.pre_eq q r h) refl)

pub compare_v2-Chain :
    (semver : Semver) (a b c : VersionV2)
    → Chain (compare_v2 semver a b) (compare_v2 semver b c) (compare_v2 semver a c)
unfolding compare_v2
compare_v2-Chain semver a b c =
    then_compare-Chain _ _ _ _ _ _ (compare-Chain a.major b.major c.major) (
      then_compare-Chain _ _ _ _ _ _ (compare-Chain a.minor b.minor c.minor) (
        then_compare-Chain _ _ _ _ _ _ (compare-Chain a.patch b.patch c.patch) (
          then_compare-Chain _ _ _ _ _ _ (pre-Chain semver a.prerelease b.prerelease c.prerelease)
            (compare-Chain a.security b.security c.security))))

pub compare_v2-swap :
    (semver : Semver) (a b : VersionV2)
    → compare_v2 semver b a ≡ reverse_order (compare_v2 semver a b)
unfolding compare_v2
compare_v2-swap semver a b = then_compare-swap _ _ _ _ (compare-swap a.major b.major) (
    then_compare-swap _ _ _ _ (compare-swap a.minor b.minor) (
      then_compare-swap _ _ _ _ (compare-swap a.patch b.patch) (
        then_compare-swap _ _ _ _ (semver.pre_swap a.prerelease b.prerelease)
          (compare-swap a.security b.security))))

then_compare_eq :
    (o o' : Ordering) → then_compare o o' ≡ Ordering.eq → (o ≡ Ordering.eq) × (o' ≡ Ordering.eq)
then_compare_eq o o' h = ground arith

compare_v2_eq :
    (semver : Semver) (a b : VersionV2)
    → compare_v2 semver a b ≡ Ordering.eq
    → (a.major ≡ b.major)
      × (a.minor ≡ b.minor)
      × (a.patch ≡ b.patch)
      × (a.prerelease ≡ b.prerelease)
      × (a.security ≡ b.security)
unfolding compare_v2
compare_v2_eq semver a b h =
    let (h1, k1) = then_compare_eq _ _ h in
    let (h2, k2) = then_compare_eq _ _ k1 in
    let (h3, k3) = then_compare_eq _ _ k2 in
    let (h4, k4) = then_compare_eq _ _ k3 in
    (
      compare_eq a.major b.major h1,
      compare_eq a.minor b.minor h2,
      compare_eq a.patch b.patch h3,
      semver.pre_eq a.prerelease b.prerelease h4,
      compare_eq a.security b.security k4,
    )

-- A semantic version below a second, which is below a third, is below the third.
pub compare_v2_trans :
    (semver : Semver) (a b c : VersionV2)
    → compare_v2 semver a b ≡ Ordering.lt
    → compare_v2 semver b c ≡ Ordering.lt
    → compare_v2 semver a c ≡ Ordering.lt
compare_v2_trans semver a b c = (compare_v2-Chain semver a b c).0

-- `eq` holds of two semantic versions exactly when they agree on the three numbers, the pre-release
-- and the security number, whatever their build metadata.
pub eq_v2_iff :
    (semver : Semver) (a b : VersionV2)
    → (eq_v2 semver a b ≡ true) ↔ (
        (a.major ≡ b.major)
        × (a.minor ≡ b.minor)
        × (a.patch ≡ b.patch)
        × (a.prerelease ≡ b.prerelease)
        × (a.security ≡ b.security))
unfolding eq_v2 compare_v2
eq_v2_iff semver a b = (
  λ h. compare_v2_eq semver a b (is_eq-eq (compare_v2 semver a b) h),
  λ (h1, h2, h3, h4, h5).
      rw
        (
          h1,
          h2,
          h3,
          h4,
          h5,
          compare_refl b.major,
          compare_refl b.minor,
          compare_refl b.patch,
          semver.pre_refl b.prerelease,
          compare_refl b.security,
        )
        refl,
)
  where
    is_eq-eq : (o : Ordering) → is_eq o ≡ true → o ≡ Ordering.eq
    is_eq-eq o h = ground arith

reverse_order-twice : (o : Ordering) → reverse_order (reverse_order o) ≡ o
reverse_order-twice o = ground arith

-- Swapped arguments give the reversed comparison, whatever the forms of the two versions; where one
-- way gives none, the other does too.
pub partial_cmp-swap :
    (semver : Semver) (a b : Version)
    → partial_cmp semver b a ≡ Option.map reverse_order (partial_cmp semver a b)
unfolding partial_cmp
partial_cmp-swap semver (v2 a) (v2 b) = ap some (compare_v2-swap semver a b)
partial_cmp-swap semver (v1 a) (v1 b) = compare_v1-swap a b
partial_cmp-swap semver (fallback a) (fallback b) = ap some (compare_fallback-swap a b)
partial_cmp-swap semver (v1 a) (v2 b) = refl
partial_cmp-swap semver (v2 a) (v1 b) = ap some (sym (reverse_order-twice _))
partial_cmp-swap semver (fallback a) (v1 b) = refl
partial_cmp-swap semver (fallback a) (v2 b) = refl
partial_cmp-swap semver (v1 a) (fallback b) = ap some (sym (reverse_order-twice _))
partial_cmp-swap semver (v2 a) (fallback b) = ap some (sym (reverse_order-twice _))

abbrev BothFallback : Version → Version → Type 0
BothFallback (fallback a) (fallback b) = Unit {0}
BothFallback a b = ⊥

is_eq_iff : (o : Ordering) → (is_eq o ≡ true) ↔ (some o ≡ some Ordering.eq)
is_eq_iff o = (λ h. ground arith, λ h. ground arith)

eq_v1_iff : (a b : VersionV1) → (eq_v1 a b ≡ true) ↔ (compare_v1 a b ≡ some Ordering.eq)
unfolding compare_v1
eq_v1_iff a b = (λ h. ground arith, λ h. ground arith)

is_eq-reverse_order :
    (o : Ordering) → (is_eq o ≡ true) ↔ (some (reverse_order o) ≡ some Ordering.eq)
is_eq-reverse_order o = (λ h. ground arith, λ h. ground arith)

-- Two versions are equal exactly when they compare as equal, unless both are fallback versions.
pub eq_version-partial_cmp :
    (semver : Semver) (a b : Version)
    → ¬ BothFallback a b
    → (eq_version semver a b ≡ true) ↔ (partial_cmp semver a b ≡ some Ordering.eq)
unfolding eq_version partial_cmp
eq_version-partial_cmp semver (v2 a) (v2 b) n = is_eq_iff (compare_v2 semver a b)
eq_version-partial_cmp semver (v1 a) (v1 b) n = eq_v1_iff a b
eq_version-partial_cmp semver (fallback a) (fallback b) n = absurd (n tt)
eq_version-partial_cmp semver (v1 a) (v2 b) n = is_eq_iff _
eq_version-partial_cmp semver (v2 a) (v1 b) n = is_eq-reverse_order _
eq_version-partial_cmp semver (fallback a) (v1 b) n = is_eq_iff _
eq_version-partial_cmp semver (fallback a) (v2 b) n = is_eq_iff _
eq_version-partial_cmp semver (v1 a) (fallback b) n = is_eq-reverse_order _
eq_version-partial_cmp semver (v2 a) (fallback b) n = is_eq-reverse_order _
