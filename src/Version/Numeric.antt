-- ===== src/Version/Numeric.antt =====
-- Numbers as they are written in a version: parsing and printing are inverse.
use linyaps_rust.Common.{
  ℕ, zero, suc, ◌+◌, ◌-◌, ◌*◌, ◌<◌, ◌≤◌, ◌%◌, ◌/◌, ◌≡◌, refl, ap, sym, ◌∙◌, ltb, Text, is_empty, [],
  ◌∷◌, ◌++◌, true, false, ◌&&◌, all, ok, arith, Bool-cases, inl, inr, lt→ltb, Lacks,
}
use mathlib.Core.List.{append-nil, append_assoc}
use mathlib.Core.Path.{ap₂}
use linyaps_rust.Version.{
  i64_max, is_digit, value_from, has_leading_zero, is_malformed, parse_numeric, show_fuel, show_u64,
}

show_fuel-enough : (f g n : ℕ) → n < f → n < g → show_fuel f n ≡ show_fuel g n
unfolding show_fuel
show_fuel-enough zero g n h k = elim h [ ]
show_fuel-enough (suc f) zero n h k = elim k [ ]
show_fuel-enough (suc f) (suc g) n h k = elim (Bool-cases (ltb n 10)) [
  | inl e ↦ rw (e, show_fuel) refl
  | inr e ↦
      rw (e, show_fuel)
        (ap (λ s. s ++ (b'0' + n % 10) ∷ [])
          (show_fuel-enough f g (n / 10) (ground arith) (ground arith)))
]

show_u64-small : (n : ℕ) → n < 10 → show_u64 n ≡ (b'0' + n) ∷ []
unfolding show_u64
show_u64-small n h = rw (lt→ltb n 10 h, show_fuel) refl

show_u64-large : (n : ℕ) → 10 ≤ n → show_u64 n ≡ show_u64 (n / 10) ++ (b'0' + n % 10) ∷ []
unfolding show_u64
show_u64-large n h = elim (Bool-cases (ltb n 10)) [
  | inl e ↦ absurd (ground arith)
  | inr e ↦
      rw (e, show_fuel)
        (ap (λ s. s ++ (b'0' + n % 10) ∷ [])
          (show_fuel-enough n (suc (n / 10)) (n / 10) (omega arith) (omega arith)))
]

value_from-append : (a : ℕ) (s t : Text) → value_from a (s ++ t) ≡ value_from (value_from a s) t
unfolding value_from
value_from-append a [] t = refl
value_from-append a (c ∷ s) t = value_from-append (a * 10 + (c - b'0')) s t

all-append : (s t : Text) → all is_digit (s ++ t) ≡ (all is_digit s && all is_digit t)
all-append [] t = ground arith
all-append (c ∷ s) t = ground (arith, all-append s t)

-- What is said of a printed number, by strong induction on a bound.
record Printed (n : ℕ) (s : Text) : Type 0 where
  value : value_from 0 s ≡ n
  digits : all is_digit s ≡ true
  nonempty : is_empty s ≡ false
  canonical : has_leading_zero s ≡ false
  first : (c : ℕ) (t : Text) → s ≡ c ∷ t → 0 < n → b'0' < c

leading : (c : ℕ) (s : Text) → b'0' < c → has_leading_zero (c ∷ s) ≡ false
leading c [] h = refl
leading c (d ∷ s) h = ground arith

Printed-digit : (n : ℕ) → n < 10 → Printed n ((b'0' + n) ∷ [])
unfolding value_from
Printed-digit n h = record {
  value = omega arith;
  digits = ground arith;
  nonempty = refl;
  canonical = refl;
  first = λ c t e k. ground arith;
}

Printed-snoc :
    (n : ℕ) (s : Text) → 10 ≤ n → Printed (n / 10) s → Printed n (s ++ (b'0' + n % 10) ∷ [])
unfolding value_from
Printed-snoc n [] h p = absurd (ground (arith, p.nonempty))
Printed-snoc n (c ∷ s) h p =
    let big : b'0' < c = p.first c s refl (omega arith) in
    record {
      value = value_from-append 0 (c ∷ s) ((b'0' + n % 10) ∷ []) ∙ rw p.value (omega arith);
      digits = all-append (c ∷ s) ((b'0' + n % 10) ∷ []) ∙ rw p.digits (ground arith);
      nonempty = refl;
      canonical = leading c _ big;
      first = λ d t e k. ground arith;
    }

show_u64-Printed : (k n : ℕ) → n < k → Printed n (show_u64 n)
show_u64-Printed zero n h = elim h [ ]
show_u64-Printed (suc k) n h = elim (Bool-cases (ltb n 10)) [
  | inl e ↦ rw (show_u64-small n (ground arith)) (Printed-digit n (ground arith))
  | inr e ↦ rw (show_u64-large n (ground arith)) (
      Printed-snoc n (show_u64 (n / 10)) (ground arith)
        (show_u64-Printed k (n / 10) (ground arith)))
]

-- A number that fits an `i64` is read back from its print.
pub parse_numeric-show : (n : ℕ) → n ≤ i64_max → parse_numeric (show_u64 n) ≡ ok n
unfolding parse_numeric
parse_numeric-show n h =
    let p = show_u64-Printed (suc n) n (omega arith) in
    rw (p.nonempty, p.canonical, p.digits, p.value) (ground arith)

show_u64-digit :
    (a c : ℕ) → 0 < a → is_digit c ≡ true → show_u64 (a * 10 + (c - b'0')) ≡ show_u64 a ++ c ∷ []
show_u64-digit a c h d =
    let low : b'0' ≤ c = ground arith in
    let high : c ≤ b'9' = ground arith in
    let front : (a * 10 + (c - b'0')) / 10 ≡ a = omega arith in
    let back : b'0' + (a * 10 + (c - b'0')) % 10 ≡ c = omega arith in
    show_u64-large (a * 10 + (c - b'0')) (omega arith)
    ∙ ap₂ (λ x y. show_u64 x ++ y ∷ []) front back

-- Digits behind a positive number are its last digits.
show_u64-value_from :
    (a : ℕ) (s : Text) → 0 < a → all is_digit s ≡ true → show_u64 (value_from a s) ≡ show_u64 a ++ s
unfolding value_from
show_u64-value_from a [] h d = sym (append-nil _)
show_u64-value_from a (c ∷ s) h d =
    show_u64-value_from (a * 10 + (c - b'0')) s (omega arith) (ground arith)
    ∙ ap (λ t. t ++ s) (show_u64-digit a c h (ground arith))
    ∙ append_assoc (show_u64 a) (c ∷ []) s

pub parse_numeric-ok :
    (s : Text) (n : ℕ)
    → parse_numeric s ≡ ok n
    → (is_malformed s ≡ false) × (value_from 0 s ≡ n) × (n ≤ i64_max)
unfolding parse_numeric
parse_numeric-ok s n h = (ground arith, ground arith, ground arith)

-- What is read prints as it was written.
pub show-parse_numeric : (s : Text) (n : ℕ) → parse_numeric s ≡ ok n → show_u64 n ≡ s
unfolding value_from
show-parse_numeric [] n h = let (m, v, b) = parse_numeric-ok [] n h in absurd (ground arith)
show-parse_numeric (c ∷ []) n h =
    let (m, v, b) = parse_numeric-ok (c ∷ []) n h in
    let low : b'0' ≤ c = ground arith in
    let high : c ≤ b'9' = ground arith in
    show_u64-small n (omega arith) ∙ ap (λ x. x ∷ []) (omega arith)
show-parse_numeric (c ∷ d ∷ s) n h =
    let (m, v, b) = parse_numeric-ok (c ∷ d ∷ s) n h in
    let low : b'0' < c = ground arith in
    let high : c ≤ b'9' = ground arith in
    let first : show_u64 (c - b'0') ≡ c ∷ [] =
      show_u64-small (c - b'0') (omega arith) ∙ ap (λ x. x ∷ []) (omega arith) in
    ap show_u64 (sym v ∙ ap (λ x. value_from x (d ∷ s)) (zero-times c))
    ∙ show_u64-value_from (c - b'0') (d ∷ s) (omega arith) (ground arith)
    ∙ ap (λ t. t ++ d ∷ s) first
  where
    zero-times : (c : ℕ) → 0 * 10 + (c - b'0') ≡ c - b'0'
    zero-times c = omega arith

-- A printed number has no dot.
pub Lacks-digits : (s : Text) → all is_digit s ≡ true → Lacks b'.' s
Lacks-digits [] d = tt
Lacks-digits (c ∷ s) d = (ground arith, Lacks-digits s (ground arith))

pub Lacks-show : (n : ℕ) → Lacks b'.' (show_u64 n)
Lacks-show n = Lacks-digits (show_u64 n) (show_u64-Printed (suc n) n (omega arith)).digits

pub show-digits : (n : ℕ) → all is_digit (show_u64 n) ≡ true
show-digits n = (show_u64-Printed (suc n) n (omega arith)).digits
