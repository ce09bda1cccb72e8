-- ===== src/Common/Order.antt =====
-- Rust's `Ordering`: reversal, and the comparison of tuples field by field.
use Prim.Native.Nat.{ℕ, compare, Ordering}
use mathlib.Core.Path.{◌≡◌, refl}
use mathlib.Core.Bool.{Bool, true, false}
use mathlib.Core.List.{[], ◌∷◌}
use native.Mathlib.Omega.{arith}
use linyaps_rust.Common.Strings.{Text}

-- `Ordering::reverse`.
abbrev pub reverse_order : Ordering → Ordering
reverse_order Ordering.lt = Ordering.gt
reverse_order Ordering.eq = Ordering.eq
reverse_order Ordering.gt = Ordering.lt

-- The next field decides where the first ones are equal.
abbrev pub then_compare : Ordering → Ordering → Ordering
then_compare Ordering.lt o = Ordering.lt
then_compare Ordering.eq o = o
then_compare Ordering.gt o = Ordering.gt

-- `ordering == Ordering::Equal`.
abbrev pub is_eq : Ordering → Bool
is_eq Ordering.lt = false
is_eq Ordering.eq = true
is_eq Ordering.gt = false

pub compare-swap : (a b : ℕ) → compare b a ≡ reverse_order (compare a b)
compare-swap a b = ground arith

pub compare_refl : (a : ℕ) → compare a a ≡ Ordering.eq
compare_refl a = ground arith

pub compare_eq : (a b : ℕ) → compare a b ≡ Ordering.eq → a ≡ b
compare_eq a b h = ground arith

pub then_compare-swap :
    (a b a' b' : Ordering)
    → a' ≡ reverse_order a
    → b' ≡ reverse_order b
    → then_compare a' b' ≡ reverse_order (then_compare a b)
then_compare-swap a b a' b' h k = ground arith

-- The comparison of strings, byte by byte.
unfoldable pub text_compare : Text → Text → Ordering
text_compare [] [] = Ordering.eq
text_compare [] (d ∷ t) = Ordering.lt
text_compare (c ∷ s) [] = Ordering.gt
text_compare (c ∷ s) (d ∷ t) = then_compare (compare c d) (text_compare s t)

pub text_compare-swap : (s t : Text) → text_compare t s ≡ reverse_order (text_compare s t)
unfolding text_compare
text_compare-swap [] [] = refl
text_compare-swap [] (d ∷ t) = refl
text_compare-swap (c ∷ s) [] = refl
text_compare-swap (c ∷ s) (d ∷ t) =
    then_compare-swap _ _ _ _ (compare-swap c d) (text_compare-swap s t)

pub text_compare_refl : (s : Text) → text_compare s s ≡ Ordering.eq
unfolding text_compare
text_compare_refl [] = refl
text_compare_refl (c ∷ s) = rw (compare_refl c, text_compare_refl s) refl

pub text_compare_eq : (s t : Text) → text_compare s t ≡ Ordering.eq → s ≡ t
unfolding text_compare
text_compare_eq [] [] h = refl
text_compare_eq [] (d ∷ t) h = absurd (ground arith)
text_compare_eq (c ∷ s) [] h = absurd (ground arith)
text_compare_eq (c ∷ s) (d ∷ t) h = ground (arith, text_compare_eq s t)
