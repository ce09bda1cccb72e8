-- ===== src/Common/Sort.antt =====
-- `sort_by`: a stable sort, which for a comparison that is a total preorder has one result.
use Prim.Native.Nat.{Ordering}
use mathlib.Core.Path.{◌≡◌, refl}
use mathlib.Core.Bool.{Bool, true, false, ◌&&◌, ◌||◌}
use mathlib.Core.List.{List, [], ◌∷◌}
use mathlib.Core.Logic.{inl, inr}
use mathlib.Core.Option.{some}
use native.Mathlib.Omega.{arith}
use linyaps_rust.Common.Tests.{if◌then◌else◌, Bool-cases}
use linyaps_rust.Common.Lists.{any, find}
use linyaps_rust.Common.Members.{Every}

abbrev pub is_gt : Ordering → Bool
is_gt Ordering.lt = false
is_gt Ordering.eq = false
is_gt Ordering.gt = true

module _ {A : Type 0} (cmp : A → A → Ordering) where
  unfoldable pub insert_sorted : A → List A → List A
  insert_sorted x [] = x ∷ []
  insert_sorted x (y ∷ ys) = if is_gt (cmp x y) then y ∷ insert_sorted x ys else x ∷ y ∷ ys

  unfoldable pub sort_by : List A → List A
  unfolding insert_sorted
  sort_by [] = []
  sort_by (x ∷ xs) = insert_sorted x (sort_by xs)

  Every-insert_sorted :
      (P : A → Type 0) (x : A) (xs : List A) → P x → Every P xs → Every P (insert_sorted x xs)
  unfolding insert_sorted
  Every-insert_sorted P x [] p h = (p, tt)
  Every-insert_sorted P x (y ∷ ys) p h = elim (Bool-cases (is_gt (cmp x y))) [
    | inl e ↦ rw e (h.0, Every-insert_sorted P x ys p h.1)
    | inr e ↦ rw e (p, h)
  ]

  -- What holds of every element before holds of every element after.
  pub Every-sort_by : (P : A → Type 0) (xs : List A) → Every P xs → Every P (sort_by xs)
  unfolding sort_by
  Every-sort_by P [] h = tt
  Every-sort_by P (x ∷ xs) h = Every-insert_sorted P x (sort_by xs) h.0 (Every-sort_by P xs h.1)

  any-insert_sorted :
      (q : A → Bool) (x : A) (xs : List A) → any q (insert_sorted x xs) ≡ q x || any q xs
  unfolding insert_sorted
  any-insert_sorted q x [] = refl
  any-insert_sorted q x (y ∷ ys) = elim (Bool-cases (is_gt (cmp x y))) [
    | inl e ↦ rw (e, any-insert_sorted q x ys) (ground arith)
    | inr e ↦ rw e refl
  ]

  pub any-sort_by : (q : A → Bool) (xs : List A) → any q (sort_by xs) ≡ any q xs
  unfolding sort_by
  any-sort_by q [] = refl
  any-sort_by q (x ∷ xs) = rw (any-insert_sorted q x (sort_by xs), any-sort_by q xs) refl

  -- No element is behind one that is greater than it.
  abbrev pub IsSortedBy : List A → Type 0
  IsSortedBy [] = Unit {0}
  IsSortedBy (x ∷ xs) = (any (λ y. is_gt (cmp x y)) xs ≡ false) × IsSortedBy xs

  -- The laws of a total preorder, on the elements that satisfy a predicate.
  pub record IsPreorder (P : A → Type 0) : Type 0 where
    pub total : (x y : A) → P x → P y → is_gt (cmp x y) ≡ true → is_gt (cmp y x) ≡ false
    pub transitive :
        (x y z : A)
        → P x
        → P y
        → P z
        → is_gt (cmp x y) ≡ false
        → is_gt (cmp y z) ≡ false
        → is_gt (cmp x z) ≡ false

  none_greater :
      (P : A → Type 0) (x y : A) (zs : List A)
      → IsPreorder P
      → P x
      → P y
      → Every P zs
      → is_gt (cmp x y) ≡ false
      → any (λ z. is_gt (cmp y z)) zs ≡ false
      → any (λ z. is_gt (cmp x z)) zs ≡ false
  none_greater P x y [] o p q h a b = refl
  none_greater P x y (z ∷ zs) o p q h a b =
      rw (o.transitive x y z p q h.0 a (ground arith))
        (none_greater P x y zs o p q h.1 a (ground arith))

  insert_sorted-IsSortedBy :
      (P : A → Type 0) (x : A) (ys : List A)
      → IsPreorder P
      → P x
      → Every P ys
      → IsSortedBy ys
      → IsSortedBy (insert_sorted x ys)
  unfolding insert_sorted
  insert_sorted-IsSortedBy P x [] o p h s = (refl, tt)
  insert_sorted-IsSortedBy P x (y ∷ ys) o p h s = elim (Bool-cases (is_gt (cmp x y))) [
    | inl e ↦ rw e (
      rw (any-insert_sorted (λ z. is_gt (cmp y z)) x ys, o.total x y p h.0 e, s.0) refl,
      insert_sorted-IsSortedBy P x ys o p h.1 s.1,
    )
    | inr e ↦ rw e (rw e (none_greater P x y ys o p h.0 h.1 e s.0), s)
  ]

  pub sort_by-IsSortedBy :
      (P : A → Type 0) (xs : List A) → IsPreorder P → Every P xs → IsSortedBy (sort_by xs)
  unfolding sort_by
  sort_by-IsSortedBy P [] o h = tt
  sort_by-IsSortedBy P (x ∷ xs) o h =
      insert_sorted-IsSortedBy P x (sort_by xs) o h.0 (Every-sort_by P xs h.1)
        (sort_by-IsSortedBy P xs o h.1)

  any-and : (q t : A → Bool) (ys : List A) → any t ys ≡ false → any (λ y. q y && t y) ys ≡ false
  any-and q t [] h = refl
  any-and q t (y ∷ ys) h = ground (arith, any-and q t ys)

  -- The first element of a sorted list that passes a test has none before it that is less and passes.
  pub find-IsSortedBy :
      (q : A → Bool) (xs : List A) (x : A)
      → IsSortedBy xs
      → is_gt (cmp x x) ≡ false
      → find q xs ≡ some x
      → any (λ y. q y && is_gt (cmp x y)) xs ≡ false
  find-IsSortedBy q [] x s r e = refl
  find-IsSortedBy q (y ∷ ys) x s r e = elim (Bool-cases (q y)) [
    | inl hit ↦
        let same : y ≡ x = ground arith in
        let behind = any-and q (λ z. is_gt (cmp x z)) ys (rw same at s.0) in
        rw (same, r, behind) (ground arith)
    | inr miss ↦ rw miss (find-IsSortedBy q ys x s.1 r (rw miss at e))
  ]
