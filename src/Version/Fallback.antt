-- ===== src/Version/Fallback.antt =====
-- `FallbackVersion`: the non-empty parts between dots.
use linyaps_rust.Common.{
  ℕ, zero, suc, ◌+◌, ◌≡◌, refl, ap, ◌∙◌, ◌==◌, ltb, leb, Text, text_eq, text_eq_iff, text_eq_refl,
  is_empty, AllLack, split, join, split-join, join-split, Option, none, some, List, [], ◌∷◌, ◌++◌,
  Bool, true, false, not, ◌&&◌, all, length, if◌then◌else◌, Result, ok, err, arith, compare,
  Ordering, then_compare, reverse_order, then_compare-swap, compare-swap, text_compare,
  text_compare-swap, ◌↔◌, retain, ℤ, pos, negsuc, pos_part, neg_part,
}
use linyaps_rust.Version.{VersionError, invalid, is_digit, value_from}

pub record FallbackVersion : Type 0 where
  pub parts : List Text

-- `split('.').filter(|part| !part.is_empty())`.
unfoldable pub nonempty_parts : Text → List Text
unfolding split
nonempty_parts raw = retain (λ p. not (is_empty p)) (split b'.' raw)

abbrev pub of_parts : Text → List Text → Result VersionError FallbackVersion
of_parts raw [] = err (invalid raw)
of_parts raw (p ∷ ps) = ok (record { parts = p ∷ ps })

unfoldable pub parse_fallback : Text → Result VersionError FallbackVersion
unfolding nonempty_parts
parse_fallback raw = of_parts raw (nonempty_parts raw)

unfoldable pub show_fallback : FallbackVersion → Text
unfolding join
show_fallback f = join (b'.' ∷ []) f.parts

-- `iter().zip(…).all(|(left, right)| left == right)`: the shorter list ends it.
unfoldable pub zip_all_eq : List Text → List Text → Bool
zip_all_eq [] qs = true
zip_all_eq (p ∷ ps) [] = true
zip_all_eq (p ∷ ps) (q ∷ qs) = text_eq p q && zip_all_eq ps qs

abbrev pub no_parts : List Text → Bool
no_parts [] = true
no_parts (p ∷ ps) = false

unfoldable pub semantic_match_fallback : FallbackVersion → Text → Bool
unfolding nonempty_parts zip_all_eq
semantic_match_fallback f raw =
    let parts = nonempty_parts raw in
    not (no_parts parts) && leb (length parts) (length f.parts) && zip_all_eq parts f.parts

-- `str::parse::<i32>`: an optional sign and digits, in range.
abbrev pub in_i32 : ℤ → Bool
in_i32 (pos n) = ltb n 2147483648
in_i32 (negsuc n) = ltb n 2147483648

abbrev pub checked_i32 : ℤ → Option ℤ
checked_i32 z = if in_i32 z then some z else none

abbrev pub negated : ℕ → ℤ
negated zero = pos 0
negated (suc n) = negsuc n

abbrev pub is_number : Text → Bool
is_number s = not (is_empty s) && all is_digit s

unfoldable pub parse_i32 : Text → Option ℤ
unfolding value_from
parse_i32 [] = none
parse_i32 (c ∷ s) =
    if c == b'-'
    then (if is_number s then checked_i32 (negated (value_from 0 s)) else none)
    else (if c == b'+'
        then (if is_number s then checked_i32 (pos (value_from 0 s)) else none)
        else (if is_number (c ∷ s) then checked_i32 (pos (value_from 0 (c ∷ s))) else none))

abbrev pub compare_ℤ : ℤ → ℤ → Ordering
compare_ℤ a b = compare (pos_part a + neg_part b) (pos_part b + neg_part a)

abbrev pub compare_parsed : Option ℤ → Option ℤ → Ordering → Ordering
compare_parsed (some a) (some b) o = compare_ℤ a b
compare_parsed _ _ o = o

-- The comparison of two parts: as numbers where both are, and as strings otherwise.
unfoldable pub compare_part : Text → Text → Ordering
unfolding parse_i32
compare_part p q = compare_parsed (parse_i32 p) (parse_i32 q) (text_compare p q)

unfoldable pub compare_parts : List Text → List Text → Ordering
unfolding compare_part
compare_parts [] [] = Ordering.eq
compare_parts [] (q ∷ qs) = Ordering.lt
compare_parts (p ∷ ps) [] = Ordering.gt
compare_parts (p ∷ ps) (q ∷ qs) = then_compare (compare_part p q) (compare_parts ps qs)

unfoldable pub compare_fallback : FallbackVersion → FallbackVersion → Ordering
unfolding compare_parts
compare_fallback a b = compare_parts a.parts b.parts

abbrev pub compare_parsed_raw : FallbackVersion → Result VersionError FallbackVersion → Ordering
compare_parsed_raw a (err e) = Ordering.eq
compare_parsed_raw a (ok b) = compare_fallback a b

unfoldable pub compare_raw : FallbackVersion → Text → Ordering
unfolding parse_fallback
compare_raw a raw = compare_parsed_raw a (parse_fallback raw)

-- The derived equality.
unfoldable pub eq_parts : List Text → List Text → Bool
eq_parts [] [] = true
eq_parts [] (q ∷ qs) = false
eq_parts (p ∷ ps) [] = false
eq_parts (p ∷ ps) (q ∷ qs) = text_eq p q && eq_parts ps qs

-- Non-empty parts without a dot.
abbrev pub AreParts : List Text → Type 0
AreParts [] = Unit {0}
AreParts (p ∷ ps) = (is_empty p ≡ false) × AreParts ps

retain-AreParts : (ps : List Text) → AreParts ps → retain (λ p. not (is_empty p)) ps ≡ ps
retain-AreParts [] h = refl
retain-AreParts (p ∷ ps) h = rw (h.0, retain-AreParts ps h.1) refl

-- A fallback version with at least one part, all of them non-empty and without a dot, is parsed
-- from its print.
pub parse-show_fallback :
    (p : Text) (ps : List Text)
    → AreParts (p ∷ ps)
    → AllLack b'.' (p ∷ ps)
    → let f : FallbackVersion = record { parts = p ∷ ps } in parse_fallback (show_fallback f) ≡ ok f
unfolding parse_fallback show_fallback
parse-show_fallback p ps h l = rw (split-join b'.' p ps l, retain-AreParts (p ∷ ps) h) refl

of_parts-ok :
    (raw : Text) (ps : List Text) (f : FallbackVersion) → of_parts raw ps ≡ ok f → f.parts ≡ ps
of_parts-ok raw [] f h = absurd (ground arith)
of_parts-ok raw (p ∷ ps) f h = ground arith

-- A text without empty parts is the print of what it parses to.
pub show-parse_fallback :
    (raw : Text) (f : FallbackVersion)
    → AreParts (split b'.' raw)
    → parse_fallback raw ≡ ok f
    → show_fallback f ≡ raw
unfolding parse_fallback show_fallback
show-parse_fallback raw f h e =
    ap (join (b'.' ∷ [])) (of_parts-ok raw _ f e ∙ retain-AreParts (split b'.' raw) h)
    ∙ join-split b'.' raw

zip_all_eq-rest :
    (ps qs : List Text)
    → leb (length ps) (length qs) ≡ true
    → zip_all_eq ps qs ≡ true
    → (rest : List Text) × (ps ++ rest ≡ qs)
unfolding zip_all_eq
zip_all_eq-rest [] qs h z = (qs, refl)
zip_all_eq-rest (p ∷ ps) [] h z = absurd (ground arith)
zip_all_eq-rest (p ∷ ps) (q ∷ qs) h z =
    let (rest, e) = zip_all_eq-rest ps qs (ground arith) (ground arith) in
    (rest, ground (arith, text_eq_iff p q))

zip_all_eq-append :
    (ps rest : List Text)
    → (leb (length ps) (length (ps ++ rest)) ≡ true) × (zip_all_eq ps (ps ++ rest) ≡ true)
unfolding zip_all_eq
zip_all_eq-append [] rest = (ground arith, refl)
zip_all_eq-append (p ∷ ps) rest = ground (arith, zip_all_eq-append ps rest, text_eq_refl p)

-- A fallback version matches a text exactly when the text has non-empty parts and they are the first
-- parts of the version.
pub semantic_match_fallback_iff :
    (f : FallbackVersion) (raw : Text)
    → (semantic_match_fallback f raw ≡ true) ↔ (
        (no_parts (nonempty_parts raw) ≡ false)
        × ((rest : List Text) × (nonempty_parts raw ++ rest ≡ f.parts)))
unfolding semantic_match_fallback
semantic_match_fallback_iff f raw = (
  λ h. (ground arith, zip_all_eq-rest (nonempty_parts raw) f.parts (ground arith) (ground arith)),
  λ (n, (rest, e)). rw (n, ← e) (ground (arith, zip_all_eq-append (nonempty_parts raw) rest)),
)

compare_part-swap : (p q : Text) → compare_part q p ≡ reverse_order (compare_part p q)
unfolding compare_part
compare_part-swap p q = go (parse_i32 p) (parse_i32 q)
  where
    go :
        (a b : Option ℤ)
        → compare_parsed b a (text_compare q p)
          ≡ reverse_order (compare_parsed a b (text_compare p q))
    go none none = text_compare-swap p q
    go none (some b) = text_compare-swap p q
    go (some a) none = text_compare-swap p q
    go (some a) (some b) = compare-swap _ _

compare_parts-swap : (ps qs : List Text) → compare_parts qs ps ≡ reverse_order (compare_parts ps qs)
unfolding compare_parts
compare_parts-swap [] [] = refl
compare_parts-swap [] (q ∷ qs) = refl
compare_parts-swap (p ∷ ps) [] = refl
compare_parts-swap (p ∷ ps) (q ∷ qs) =
    then_compare-swap _ _ _ _ (compare_part-swap p q) (compare_parts-swap ps qs)

pub compare_fallback-swap :
    (a b : FallbackVersion) → compare_fallback b a ≡ reverse_order (compare_fallback a b)
unfolding compare_fallback
compare_fallback-swap a b = compare_parts-swap a.parts b.parts
