-- ===== src/Version/V1.antt =====
-- `VersionV1`: three or four numbers.
use linyaps_rust.Common.{
  ℕ, ◌≤◌, ◌≡◌, refl, ap, ◌∙◌, ◌==◌, Text, split, join, split-join, join-split, Option, none, some,
  List, [], ◌∷◌, ◌++◌, Bool, true, false, ◌&&◌, if◌then◌else◌, Result, ok, err, ◌>>=◌,
  bind-succeeds, map, arith, inl, inr, Bool-cases, compare, Ordering, then_compare, reverse_order,
  is_eq, ◌↔◌, ◌⊎◌,
}
use mathlib.Core.List.{append-nil}
use mathlib.Core.Path.{ap₂}
use mathlib.Core.Option
use linyaps_rust.Version.{VersionError, invalid, i64_max, parse_numeric, show_u64}
use linyaps_rust.Version.Numeric.{
  parse_numeric-show, show-parse_numeric, parse_numeric-ok, Lacks-show,
}

pub record VersionV1 : Type 0 where
  pub major : ℕ
  pub minor : ℕ
  pub patch : ℕ
  pub tweak : Option ℕ

-- `parts.iter().map(parse_numeric).collect::<Result<Vec<_>, _>>()`.
unfoldable pub parse_all : List Text → Result VersionError (List ℕ)
parse_all [] = ok []
parse_all (p ∷ ps) = do n ← parse_numeric p; ns ← parse_all ps; ok (n ∷ ns)

-- The record of three or four values; no other number of parts comes here.
abbrev pub of_values : Text → List ℕ → Result VersionError VersionV1
of_values raw (a ∷ b ∷ c ∷ []) = ok (record { major = a; minor = b; patch = c; tweak = none })
of_values raw (a ∷ b ∷ c ∷ d ∷ []) = ok (record { major = a; minor = b; patch = c; tweak = some d })
of_values raw _ = err (invalid raw)

abbrev pub has_three_or_four : List Text → Bool
has_three_or_four (a ∷ b ∷ c ∷ []) = true
has_three_or_four (a ∷ b ∷ c ∷ d ∷ []) = true
has_three_or_four _ = false

unfoldable pub parse_v1_parts : Text → List Text → Result VersionError VersionV1
unfolding parse_all
parse_v1_parts raw parts =
    if has_three_or_four parts
    then (do values ← parse_all parts; of_values raw values)
    else err (invalid raw)

unfoldable pub parse_v1 : Text → Result VersionError VersionV1
unfolding parse_v1_parts
parse_v1 raw = parse_v1_parts raw (split b'.' raw)

abbrev pub show_tweak : Option ℕ → Text
show_tweak none = []
show_tweak (some t) = b'.' ∷ show_u64 t

unfoldable pub show_v1 : VersionV1 → Text
show_v1 v =
    show_u64 v.major
    ++ (b'.' ∷ (show_u64 v.minor ++ (b'.' ∷ (show_u64 v.patch ++ show_tweak v.tweak))))

-- Every number is at most `i64::MAX`, as `parse` leaves them.
abbrev pub TweakFits : Option ℕ → Type 0
TweakFits none = Unit {0}
TweakFits (some t) = t ≤ i64_max

pub record Fits (v : VersionV1) : Type 0 where
  pub major_fits : v.major ≤ i64_max
  pub minor_fits : v.minor ≤ i64_max
  pub patch_fits : v.patch ≤ i64_max
  pub tweak_fits_too : TweakFits v.tweak

show_v1-join3 :
    (a b c : ℕ)
    → show_v1 (record { major = a; minor = b; patch = c; tweak = none })
      ≡ join (b'.' ∷ []) (show_u64 a ∷ show_u64 b ∷ show_u64 c ∷ [])
unfolding show_v1 join
show_v1-join3 a b c = simp append-nil

pub show_v1-join4 :
    (a b c d : ℕ)
    → show_v1 (record { major = a; minor = b; patch = c; tweak = some d })
      ≡ join (b'.' ∷ []) (show_u64 a ∷ show_u64 b ∷ show_u64 c ∷ show_u64 d ∷ [])
unfolding show_v1 join
show_v1-join4 a b c d = refl

-- A version prints to a text that parses to it.
pub parse-show_v1 : (v : VersionV1) → Fits v → parse_v1 (show_v1 v) ≡ ok v
unfolding parse_v1 parse_v1_parts parse_all
parse-show_v1 v f =
    go v.major v.minor v.patch v.tweak f.major_fits f.minor_fits f.patch_fits f.tweak_fits_too
  where
    go :
        (a b c : ℕ) (t : Option ℕ)
        → a ≤ i64_max
        → b ≤ i64_max
        → c ≤ i64_max
        → TweakFits t
        → let w : VersionV1 = record { major = a; minor = b; patch = c; tweak = t } in
          parse_v1 (show_v1 w) ≡ ok w
    go a b c none ha hb hc ht =
        rw
          (
            show_v1-join3 a b c,
            split-join b'.' (show_u64 a) (show_u64 b ∷ show_u64 c ∷ [])
                (Lacks-show a, (Lacks-show b, (Lacks-show c, tt))),
          )
          (rw (parse_numeric-show a ha, parse_numeric-show b hb, parse_numeric-show c hc) refl)
    go a b c (some d) ha hb hc hd =
        rw
          (
            show_v1-join4 a b c d,
            split-join b'.' (show_u64 a) (show_u64 b ∷ show_u64 c ∷ show_u64 d ∷ [])
                (Lacks-show a, (Lacks-show b, (Lacks-show c, (Lacks-show d, tt)))),
          )
          (rw
            (
              parse_numeric-show a ha,
              parse_numeric-show b hb,
              parse_numeric-show c hc,
              parse_numeric-show d hd,
            )
            refl)

abbrev AllFit : List ℕ → Type 0
AllFit [] = Unit {0}
AllFit (n ∷ ns) = (n ≤ i64_max) × AllFit ns

parse_all-ok :
    (ps : List Text) (ns : List ℕ) → parse_all ps ≡ ok ns → (map show_u64 ns ≡ ps) × AllFit ns
unfolding parse_all
parse_all-ok [] [] h = (refl, tt)
parse_all-ok [] (n ∷ ns) h = absurd (ground arith)
parse_all-ok (p ∷ ps) ns h =
    let (n, k, e) = bind-succeeds _ (parse_numeric p) h in
    let (ms, l, e') = bind-succeeds _ (parse_all ps) k in
    let (shown, fit) = parse_all-ok ps ms e' in
    let whole : n ∷ ms ≡ ns = ground arith in
    rw (← whole)
      (ap₂ (λ x xs. x ∷ xs) (show-parse_numeric p n e) shown, ((parse_numeric-ok p n e).2, fit))

of_values-ok :
    (raw : Text) (ns : List ℕ) (v : VersionV1)
    → of_values raw ns ≡ ok v
    → AllFit ns
    → (show_v1 v ≡ join (b'.' ∷ []) (map show_u64 ns)) × Fits v
of_values-ok raw (a ∷ b ∷ c ∷ []) v h f =
    let e : record { major = a; minor = b; patch = c; tweak = none } ≡ v = ground arith in
    rw (← e) (show_v1-join3 a b c, omega arith)
of_values-ok raw (a ∷ b ∷ c ∷ d ∷ []) v h f =
    let e : record { major = a; minor = b; patch = c; tweak = some d } ≡ v = ground arith in
    rw (← e) (show_v1-join4 a b c d, omega arith)
of_values-ok raw ns v h f = absurd (ground arith)

parse_v1_parts-ok :
    (raw : Text) (parts : List Text) (v : VersionV1)
    → parse_v1_parts raw parts ≡ ok v
    → (show_v1 v ≡ join (b'.' ∷ []) parts) × Fits v
unfolding parse_v1_parts
parse_v1_parts-ok raw parts v h = elim (Bool-cases (has_three_or_four parts)) [
  | inl e ↦
      let (ns, l, k) =
        bind-succeeds (of_values raw) (parse_all parts) (rw (e, parse_v1_parts) at h) in
      let (shown, fit) = parse_all-ok parts ns k in
      let (r, f) = of_values-ok raw ns v l fit in (r ∙ ap (join (b'.' ∷ [])) shown, f)
  | inr e ↦ absurd (ground arith)
]

-- A text that parses is the print of its version, whose numbers fit an `i64`.
pub show-parse_v1 : (raw : Text) (v : VersionV1) → parse_v1 raw ≡ ok v → (show_v1 v ≡ raw) × Fits v
unfolding parse_v1
show-parse_v1 raw v h =
    let (e, f) = parse_v1_parts-ok raw (split b'.' raw) v h in (e ∙ join-split b'.' raw, f)

abbrev pub eq_tweak : Option ℕ → Option ℕ → Bool
eq_tweak none none = true
eq_tweak none (some b) = false
eq_tweak (some a) none = false
eq_tweak (some a) (some b) = a == b

-- The derived equality.
abbrev pub eq_v1 : VersionV1 → VersionV1 → Bool
eq_v1 a b =
    a.major == b.major && a.minor == b.minor && a.patch == b.patch && eq_tweak a.tweak b.tweak

abbrev pub tweaks_match : Option ℕ → Option ℕ → Bool
tweaks_match (some a) (some b) = a == b
tweaks_match _ _ = true

abbrev pub matches_v1 : VersionV1 → Result VersionError VersionV1 → Bool
matches_v1 v (err e) = false
matches_v1 v (ok fuzzy) =
    v.major == fuzzy.major
    && v.minor == fuzzy.minor
    && v.patch == fuzzy.patch
    && tweaks_match v.tweak fuzzy.tweak

unfoldable pub semantic_match_v1 : VersionV1 → Text → Bool
unfolding parse_v1
semantic_match_v1 v raw = matches_v1 v (parse_v1 raw)

abbrev pub tweak_or_zero : Option ℕ → ℕ
tweak_or_zero none = 0
tweak_or_zero (some t) = t

-- `numeric_tuple().cmp(…)`.
abbrev pub compare_tuples : VersionV1 → VersionV1 → Ordering
compare_tuples a b = then_compare (compare a.major b.major) (
    then_compare (compare a.minor b.minor) (
      then_compare (compare a.patch b.patch)
        (compare (tweak_or_zero a.tweak) (tweak_or_zero b.tweak))))

unfoldable pub compare_v1 : VersionV1 → VersionV1 → Option Ordering
compare_v1 a b =
    if eq_v1 a b
    then some Ordering.eq
    else (if is_eq (compare_tuples a b) then none else some (compare_tuples a b))

-- A version matches its own print, and its print without the tweak.
pub semantic_match_v1_self :
    (v : VersionV1)
    → Fits v
    → (semantic_match_v1 v (show_v1 v) ≡ true)
      × (semantic_match_v1 v (show_v1 (record v { tweak = none })) ≡ true)
unfolding semantic_match_v1
semantic_match_v1_self v f = (
  rw (parse-show_v1 v f) (ground arith),
  rw (parse-show_v1 (record v { tweak = none }) (omega arith)) (ground arith),
)

pub compare_v1-swap : (a b : VersionV1) → compare_v1 b a ≡ Option.map reverse_order (compare_v1 a b)
unfolding compare_v1
compare_v1-swap a b = ground arith

-- Two versions compare as equal exactly when they are equal; they do not compare exactly when they
-- differ only in that one has no tweak and the other has the tweak 0.
pub compare_v1_lem :
    (a b : VersionV1)
    → ((compare_v1 a b ≡ some Ordering.eq) ↔ (a ≡ b))
      × ((compare_v1 a b ≡ none) ↔ (
          (a.major ≡ b.major)
          × (a.minor ≡ b.minor)
          × (a.patch ≡ b.patch)
          × (((a.tweak ≡ none) × (b.tweak ≡ some 0)) ⊎ ((a.tweak ≡ some 0) × (b.tweak ≡ none)))))
unfolding compare_v1
compare_v1_lem a b = (
  (λ h. ground arith, λ h. ground arith),
  (
    λ h. ground arith,
    λ (h1, h2, h3, h4). elim h4 [
      | inl (n, z) ↦ rw (h1, h2, h3, n, z) (ground arith)
      | inr (z, n) ↦ rw (h1, h2, h3, n, z) (ground arith)
    ],
  ),
)
