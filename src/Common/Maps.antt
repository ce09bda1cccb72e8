-- ===== src/Common/Maps.antt =====
-- `BTreeMap<String, _>` as the list of its entries in the order of the keys.
use mathlib.Core.Path.{◌≡◌, refl, sym, ◌∙◌}
use mathlib.Core.Bool.{true, false}
use mathlib.Core.List.{List, [], ◌∷◌}
use mathlib.Core.Option.{Option, none, some}
use mathlib.Core.Logic.{inl, inr}
use native.Mathlib.Omega.{arith}
use Prim.Native.Nat.{Ordering}
use linyaps_rust.Common.Tests.{if◌then◌else◌, Bool-cases}
use linyaps_rust.Common.Strings.{Text, text_eq, text_eq_iff}
use linyaps_rust.Common.Order.{text_compare, text_compare_refl, text_compare_eq}

two_keys :
    (i j k : Text) → text_compare k j ≡ Ordering.gt → text_eq i j ≡ true → text_eq i k ≡ false
two_keys i j k g e = elim (Bool-cases (text_eq i k)) [
  | inr other ↦ other
  | inl same ↦
      let p : k ≡ j = sym ((text_eq_iff i k).0 same) ∙ (text_eq_iff i j).0 e in
      let q : text_compare j j ≡ Ordering.gt = (rw p at g) in
      let r = text_compare_refl j in absurd (ground arith)
]

module _ {A : Type 0} where
  abbrev pub place :
      Ordering → Text × A → Text × A → List (Text × A) → List (Text × A) → List (Text × A)
  place Ordering.lt entry other m rest = entry ∷ other ∷ m
  place Ordering.eq entry other m rest = entry ∷ m
  place Ordering.gt entry other m rest = other ∷ rest

  -- `get` and `insert`.
  unfoldable pub tree_get : Text → List (Text × A) → Option A
  unfolding text_eq
  tree_get k [] = none
  tree_get k ((j, a) ∷ m) = if text_eq k j then some a else tree_get k m

  unfoldable pub tree_insert : Text → A → List (Text × A) → List (Text × A)
  unfolding text_compare
  tree_insert k a [] = (k, a) ∷ []
  tree_insert k a ((j, b) ∷ m) =
      let rest = tree_insert k a m in place (text_compare k j) (k, a) (j, b) m rest

  pub tree_get-insert :
      (i k : Text) (a : A) (m : List (Text × A))
      → tree_get i (tree_insert k a m) ≡ (if text_eq i k then some a else tree_get i m)
  unfolding tree_get tree_insert
  tree_get-insert i k a [] = refl
  tree_get-insert i k a ((j, b) ∷ m) = go (text_compare k j) refl (tree_get-insert i k a m)
    where
      go :
          (o : Ordering)
          → text_compare k j ≡ o
          → tree_get i (tree_insert k a m) ≡ (if text_eq i k then some a else tree_get i m)
          → tree_get i (place o (k, a) (j, b) m (tree_insert k a m))
            ≡ (if text_eq i k then some a else tree_get i ((j, b) ∷ m))
      go Ordering.lt e ih = refl
      go Ordering.eq e ih = let p = text_compare_eq k j e in rw (← p) (ground arith)
      go Ordering.gt e ih = elim (Bool-cases (text_eq i j)) [
        | inl h ↦ rw (h, two_keys i j k e h) refl
        | inr h ↦ rw h ih
      ]
