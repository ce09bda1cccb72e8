-- ===== src/PackageManager/Count.antt =====
-- What the counts of a pruning are, by the list of everything that applications use.
use linyaps_rust.Common.{
  ℕ, ◌+◌, ◌≡◌, refl, ap, sym, ◌∙◌, Text, codes, text_eq, text_eq_iff, text_eq_refl, Option, none,
  some, List, [], ◌∷◌, ◌++◌, Bool, true, false, Result, ok, err, tree_get, tree_get-insert, inl,
  inr, Bool-cases, arith,
}
use linyaps_rust.Reference.{Reference, show_reference}
use linyaps_rust.Cache.{RepositoryCacheLayersItem, RepositoryCacheStore}
use linyaps_rust.Local.{RepositoryError, layer_item}
use linyaps_rust.PackageManager.Prune.{
  PruneTarget, Targets, insert_found, touch_found, touch_prune_target,
}

abbrev pub bit : Bool → ℕ
bit false = 0
bit true = 1

-- How often a reference stands in a list, by its text.
unfoldable pub uses : Text → List Reference → ℕ
unfolding text_eq show_reference
uses k [] = 0
uses k (r ∷ rs) = bit (text_eq k (show_reference r)) + uses k rs

unused : (b : Bool) (n : ℕ) → bit b + n ≡ 0 → b ≡ false
unused false n h = refl
unused true n h = absurd (omega (arith, h))

module _ {R : Type 0} where
  abbrev pub counted : PruneTarget R → ℕ → PruneTarget R
  counted t n = record t { references = t.references + n }

  abbrev pub touch_all : RepositoryCacheStore R → Targets R → List Reference → Targets R
  touch_all s targets [] = targets
  touch_all s targets (r ∷ rs) = touch_all s (touch_prune_target s targets r) rs

  counted_more : (t : PruneTarget R) (a b : ℕ) → counted (counted t a) b ≡ counted t (a + b)
  counted_more t a b =
      let e : t.references + a + b ≡ t.references + (a + b) = omega arith in
      ap (λ (n : ℕ). record t { references = n }) e

  counted_zero : (t : PruneTarget R) → counted t 0 ≡ t
  counted_zero t =
      let e : t.references + 0 ≡ t.references = omega arith in
      ap (λ (n : ℕ). record t { references = n }) e

  pub touch_all-append :
      (s : RepositoryCacheStore R) (targets : Targets R) (xs ys : List Reference)
      → touch_all s targets (xs ++ ys) ≡ touch_all s (touch_all s targets xs) ys
  touch_all-append s targets [] ys = refl
  touch_all-append s targets (x ∷ xs) ys = touch_all-append s (touch_prune_target s targets x) xs ys

  found-other :
      (targets : Targets R) (r : Reference) (k : Text)
      (item : Result RepositoryError (RepositoryCacheLayersItem R))
      → text_eq k (show_reference r) ≡ false
      → tree_get k (insert_found targets r item) ≡ tree_get k targets
  unfolding insert_found
  found-other targets r k (err x) e = refl
  found-other targets r k (ok item) e = tree_get-insert k (show_reference r) _ targets ∙ rw e refl

  touch_other :
      (s : RepositoryCacheStore R) (targets : Targets R) (r : Reference) (k : Text)
      (o : Option (PruneTarget R))
      → text_eq k (show_reference r) ≡ false
      → tree_get k (touch_found s targets r o) ≡ tree_get k targets
  unfolding touch_found
  touch_other s targets r k none e = found-other targets r k (layer_item s r (codes "binary")) e
  touch_other s targets r k (some t) e = tree_get-insert k (show_reference r) _ targets ∙ rw e refl

  touch_same :
      (s : RepositoryCacheStore R) (targets : Targets R) (r : Reference) (t : PruneTarget R)
      → tree_get (show_reference r) targets ≡ some t
      → tree_get (show_reference r) (touch_prune_target s targets r) ≡ some (counted t 1)
  unfolding touch_prune_target touch_found
  touch_same s targets r t h = rw h (
      tree_get-insert (show_reference r) (show_reference r) (counted t 1) targets
      ∙ rw (text_eq_refl (show_reference r)) refl)

  touch_one :
      (s : RepositoryCacheStore R) (targets : Targets R) (r : Reference) (k : Text)
      (t : PruneTarget R)
      → tree_get k targets ≡ some t
      → tree_get k (touch_prune_target s targets r)
        ≡ some (counted t (bit (text_eq k (show_reference r))))
  unfolding touch_prune_target
  touch_one s targets r k t h = elim (Bool-cases (text_eq k (show_reference r))) [
    | inl e ↦
        let same = (text_eq_iff k (show_reference r)).0 e in
        rw e (rw same (touch_same s targets r t (rw same at h)))
    | inr e ↦ rw e (
        touch_other s targets r k (tree_get (show_reference r) targets) e
        ∙ h
        ∙ ap some (sym (counted_zero t)))
  ]

  pub tree_get-touch_all :
      (s : RepositoryCacheStore R) (k : Text) (targets : Targets R) (rs : List Reference)
      (t : PruneTarget R)
      → tree_get k targets ≡ some t
      → tree_get k (touch_all s targets rs) ≡ some (counted t (uses k rs))
  unfolding uses
  tree_get-touch_all s k targets [] t h = h ∙ ap some (sym (counted_zero t))
  tree_get-touch_all s k targets (r ∷ rs) t h =
      tree_get-touch_all s k (touch_prune_target s targets r) rs
        (counted t (bit (text_eq k (show_reference r)))) (touch_one s targets r k t h)
      ∙ ap some (counted_more t (bit (text_eq k (show_reference r))) (uses k rs))

  pub tree_get-untouched :
      (s : RepositoryCacheStore R) (k : Text) (targets : Targets R) (rs : List Reference)
      → uses k rs ≡ 0
      → tree_get k (touch_all s targets rs) ≡ tree_get k targets
  unfolding uses touch_prune_target
  tree_get-untouched s k targets [] h = refl
  tree_get-untouched s k targets (r ∷ rs) h =
      tree_get-untouched s k (touch_prune_target s targets r) rs (omega (arith, h))
      ∙ touch_other s targets r k (tree_get (show_reference r) targets)
          (unused (text_eq k (show_reference r)) (uses k rs) h)
