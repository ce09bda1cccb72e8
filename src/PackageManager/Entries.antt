-- ===== src/PackageManager/Entries.antt =====
-- The targets of a pruning as a map: the keys are sorted, and each is the print of its target's reference.
use linyaps_rust.Common.{
  ◌+◌, ◌≡◌, refl, ap, ◌∙◌, Text, codes, text_eq, text_eq_iff, text_eq_refl, text_compare,
  text_compare_refl, text_compare_eq, text_compare-swap, Ordering, reverse_order, Option, none,
  some, List, [], ◌∷◌, false, Result, ok, err, map_err, bind-succeeds, Every, Every-map, tree_get,
  tree_insert, place, inl, inr, Bool-cases, arith,
}
use linyaps_rust.Version.V2.{Semver}
use linyaps_rust.Version.Tests.{text_compare-Chain}
use linyaps_rust.Reference.{Reference, show_reference}
use linyaps_rust.Cache.{RepositoryCacheLayersItem, RepositoryCacheStore}
use linyaps_rust.Local.{RepositoryError, layer_item, reference_from_info}
use linyaps_rust.PackageManager.Prune.{
  PruneTarget, Targets, Machine, main_layers, unless_there, new_target, insert_found, touch_found,
  touch_prune_target, seed_targets, scan_apps, prune_targets, prune_error,
}
use linyaps_rust.PackageManager.Count.{touch_all}
use linyaps_rust.PackageManager.Kept.{used_by_apps, scan_apps_all}

not_same : (j k : Text) → text_compare j k ≡ Ordering.lt → text_eq k j ≡ false
not_same j k e = elim (Bool-cases (text_eq k j)) [
  | inr other ↦ other
  | inl same ↦
      let p = (text_eq_iff k j).0 same in
      let q = rw p at e in let r = text_compare_refl j in absurd (ground arith)
]

module _ {A : Type 0} where
  abbrev pub IsSortedMap : List (Text × A) → Type 0
  IsSortedMap [] = Unit {0}
  IsSortedMap ((k, a) ∷ m) =
      Every (λ (e : Text × A). text_compare k e.0 ≡ Ordering.lt) m × IsSortedMap m

  pub Every-tree_insert :
      (P : Text × A → Type 0) (k : Text) (a : A) (m : List (Text × A))
      → P (k, a)
      → Every P m
      → Every P (tree_insert k a m)
  unfolding tree_insert
  Every-tree_insert P k a [] p h = (p, tt)
  Every-tree_insert P k a ((j, b) ∷ m) p h = go (text_compare k j) (Every-tree_insert P k a m p h.1)
    where
      go :
          (o : Ordering)
          → Every P (tree_insert k a m)
          → Every P (place o (k, a) (j, b) m (tree_insert k a m))
      go Ordering.lt r = (p, h)
      go Ordering.eq r = (p, h.1)
      go Ordering.gt r = (h.0, r)

  tree_insert-IsSortedMap :
      (k : Text) (a : A) (m : List (Text × A)) → IsSortedMap m → IsSortedMap (tree_insert k a m)
  unfolding tree_insert
  tree_insert-IsSortedMap k a [] h = (tt, tt)
  tree_insert-IsSortedMap k a ((j, b) ∷ m) h =
      go (text_compare k j) refl (tree_insert-IsSortedMap k a m h.1)
    where
      go :
          (o : Ordering)
          → text_compare k j ≡ o
          → IsSortedMap (tree_insert k a m)
          → IsSortedMap (place o (k, a) (j, b) m (tree_insert k a m))
      go Ordering.lt e r = ((e, Every-map _ _ m (λ x l. (text_compare-Chain k j x.0).0 e l) h.0), h)
      go Ordering.eq e r = ((rw (text_compare_eq k j e) h.0), h.1)
      go Ordering.gt e r = (
        Every-tree_insert (λ (x : Text × A). text_compare j x.0 ≡ Ordering.lt) k a m
            (text_compare-swap k j ∙ ap reverse_order e) h.0,
        r,
      )

  -- Every entry of a sorted map is what the map has at its key.
  pub Every-tree_get :
      (m : List (Text × A)) → IsSortedMap m → Every (λ (e : Text × A). tree_get e.0 m ≡ some e.1) m
  unfolding tree_get
  Every-tree_get [] h = tt
  Every-tree_get ((k, a) ∷ m) h = (
    rw (text_eq_refl k) refl,
    both m (λ (e : Text × A). text_compare k e.0 ≡ Ordering.lt)
        (λ (e : Text × A). tree_get e.0 m ≡ some e.1) (λ e l g. rw (not_same k e.0 l) g) h.0
        (Every-tree_get m h.1),
  )
    where
      both :
          (n : List (Text × A)) (P Q : Text × A → Type 0)
          → ((e : Text × A) → P e → Q e → tree_get e.0 ((k, a) ∷ m) ≡ some e.1)
          → Every P n
          → Every Q n
          → Every (λ (e : Text × A). tree_get e.0 ((k, a) ∷ m) ≡ some e.1) n
      both [] P Q f h g = tt
      both (e ∷ n) P Q f h g = (f e h.0 g.0, both n P Q f h.1 g.1)

  Every-found :
      (P : Text × A → Type 0) (k : Text) (t : A) (m : List (Text × A))
      → Every P m
      → tree_get k m ≡ some t
      → P (k, t)
  unfolding tree_get
  Every-found P k t [] h e = absurd (ground arith)
  Every-found P k t ((j, b) ∷ m) h e = elim (Bool-cases (text_eq k j)) [
    | inl same ↦
        let g = rw same at e in
        let q : b ≡ t = ground arith in rw ((text_eq_iff k j).0 same, ← q) h.0
    | inr other ↦ Every-found P k t m h.1 (rw other at e)
  ]

module _ {R : Type 0} where
  abbrev pub IsKeyed : Text × PruneTarget R → Type 0
  IsKeyed e = e.0 ≡ show_reference e.1.reference

  pub record AreTargets (m : Targets R) : Type 0 where
    pub sorted : IsSortedMap m
    pub keyed : Every IsKeyed m

  AreTargets-insert :
      (m : Targets R) (t : PruneTarget R) (k : Text)
      → k ≡ show_reference t.reference
      → AreTargets m
      → AreTargets (tree_insert k t m)
  AreTargets-insert m t k e h = record {
    sorted = tree_insert-IsSortedMap k t m h.sorted;
    keyed = Every-tree_insert IsKeyed k t m e h.keyed;
  }

  AreTargets-touch :
      (s : RepositoryCacheStore R) (m : Targets R) (r : Reference)
      → AreTargets m
      → AreTargets (touch_prune_target s m r)
  unfolding touch_prune_target touch_found insert_found
  AreTargets-touch s m r h = go (tree_get (show_reference r) m) refl
    where
      found :
          (o : Result RepositoryError (RepositoryCacheLayersItem R))
          → AreTargets (insert_found m r o)
      found (err e) = h
      found (ok item) =
          AreTargets-insert m (record { info = item.info; reference = r; references = 1 })
            (show_reference r) refl h

      go :
          (o : Option (PruneTarget R))
          → tree_get (show_reference r) m ≡ o
          → AreTargets (touch_found s m r o)
      go none e = found (layer_item s r (codes "binary"))
      go (some t) e =
          AreTargets-insert m (record t { references = t.references + 1 }) (show_reference r)
            (Every-found IsKeyed (show_reference r) t m h.keyed e) h

  AreTargets-touch_all :
      (s : RepositoryCacheStore R) (m : Targets R) (rs : List Reference)
      → AreTargets m
      → AreTargets (touch_all s m rs)
  AreTargets-touch_all s m [] h = h
  AreTargets-touch_all s m (r ∷ rs) h =
      AreTargets-touch_all s (touch_prune_target s m r) rs (AreTargets-touch s m r h)

  AreTargets-seed :
      (semver : Semver) (m seeds : Targets R) (xs : List (RepositoryCacheLayersItem R))
      → AreTargets m
      → seed_targets semver m xs ≡ ok seeds
      → AreTargets seeds
  unfolding seed_targets unless_there
  AreTargets-seed semver m seeds [] h e = let q : m ≡ seeds = ground arith in rw (← q) h
  AreTargets-seed semver m seeds (x ∷ xs) h e =
      let (r, g, f) = bind-succeeds _ (map_err prune_error (reference_from_info semver x.info)) e in
      AreTargets-seed semver
        (unless_there (show_reference r) (new_target x.info r) m (tree_get (show_reference r) m))
        seeds xs (one r (tree_get (show_reference r) m)) g
    where
      one :
          (r : Reference) (o : Option (PruneTarget R))
          → AreTargets (unless_there (show_reference r) (new_target x.info r) m o)
      one r none = AreTargets-insert m (new_target x.info r) (show_reference r) refl h
      one r (some t) = h

  pub AreTargets-prune_targets :
      (semver : Semver) (machine : Machine) (s : RepositoryCacheStore R) (targets : Targets R)
      → prune_targets semver machine s ≡ ok targets
      → AreTargets targets
  unfolding prune_targets
  AreTargets-prune_targets semver machine s targets h =
      let (seeds, g, e) = bind-succeeds _ (seed_targets semver [] (main_layers s)) h in
      let same : scan_apps semver machine s seeds (main_layers s) ≡ targets = ground arith in
      rw (← same, scan_apps_all semver machine s seeds (main_layers s))
        (AreTargets-touch_all s seeds (used_by_apps semver machine s (main_layers s))
          (AreTargets-seed semver [] seeds (main_layers s) (record { sorted = tt; keyed = tt }) e))
