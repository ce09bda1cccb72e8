-- ===== src/PackageManager/Removal.antt =====
-- The removal of the packages whose count is zero (apps/ll-package-manager/src/operations.rs, the loop of
-- `prune_unused` and `remove_all_modules`). What a write of the cache's file does is a choice of the
-- environment, one for each module of each package.
use linyaps_rust.Common.{
  ℕ, zero, suc, ◌==◌, ◌≡◌, refl, ap, ◌∙◌, Text, codes, text_eq, text_eq_iff, text_compare,
  then_compare, sort_by, Option, none, some, List, [], ◌∷◌, ◌++◌, Bool, true, false, not, ◌&&◌,
  ◌||◌, retain, find-some, position, position-some, get_elem?, remove_at, if◌then◌else◌, Result, ok,
  err, ◌>>=◌, inl, inr, Bool-cases, arith,
}
use linyaps_rust.Version.V2.{Semver}
use linyaps_rust.Version.Parse.{show_version}
use linyaps_rust.Reference.{Reference}
use linyaps_rust.Cache.{
  PackageInfoV2, RepositoryCacheLayersItem, RepositoryCacheStore, Write, written, not_written,
  Fault, failed, delete_layer, delete_at, write_to_disk, same_layer, same_first, delete,
  apply_cache,
}
use linyaps_rust.Cache.Operations.{apply_cache-error_unchanged}
use linyaps_rust.Local.{
  RepositoryError, ostree_ref, reference_from_info, first_is, is_layer_of, find_layer, or_else,
  layer_item, layer_item_with_deleted, is_module_of, module_list, module_or_binary,
}
use linyaps_rust.Local.Resolve.{ok_or-ok}
use linyaps_rust.Local.Remove.{
  Ostree, LocalRepository, delete_done, delete_item, unset_then, remove_ref, remove_named,
  names_commit, refspec_of, remove_layer_item, remove_found, remove_layer,
}
use linyaps_rust.PackageManager.{to_option}
use linyaps_rust.PackageManager.Prune.{Targets}
use linyaps_rust.PackageManager.Kept.{listed}

pub record Pruned (R O : Type 0) : Type 0 where
  pub repository : LocalRepository R O
  pub removed : List (PackageInfoV2 R)
  pub reserved : List (RepositoryCacheLayersItem R)

unfoldable pub reserve :
    {R : Type 0}
    → RepositoryCacheStore R
    → Reference
    → List Text
    → List (RepositoryCacheLayersItem R)
unfolding layer_item
reserve s r [] = []
reserve s r (m ∷ ms) = listed (to_option (layer_item s r m)) ++ reserve s r ms

module _ {R O : Type 0} (semver : Semver) (ostree : Ostree O) where
  unfoldable pub remove_modules :
      (Text → Write R) → Reference → LocalRepository R O → List Text → LocalRepository R O
  unfolding remove_layer
  remove_modules w r s [] = s
  remove_modules w r s (m ∷ ms) = remove_modules w r (remove_layer semver ostree (w m) s r m).0 ms

  unfoldable pub remove_all_modules :
      (Text → Write R) → LocalRepository R O → Reference → LocalRepository R O
  unfolding remove_modules module_list
  remove_all_modules w s r = remove_modules w r s (module_list s.cache r)

  unfoldable pub prune_layers :
      (Reference → Text → Write R) → LocalRepository R O → Targets R → Pruned R O
  unfolding remove_all_modules reserve module_list
  prune_layers w s [] = record { repository = s; removed = []; reserved = [] }
  prune_layers w s ((k, t) ∷ ts) =
      let without = prune_layers w (remove_all_modules (w t.reference) s t.reference) ts in
      let kept = prune_layers w s ts in
      if t.references == 0
      then record without { removed = t.info ∷ without.removed }
      else record kept {
        reserved = reserve s.cache t.reference (module_list s.cache t.reference) ++ kept.reserved;
      }

-- The order in which the removed packages are returned.
unfoldable pub sorted_removed : {R : Type 0} → List (PackageInfoV2 R) → List (PackageInfoV2 R)
unfolding sort_by text_compare
sorted_removed {R} removed =
    sort_by
      (λ (left right : PackageInfoV2 R).
        then_compare (text_compare left.id right.id) (text_compare left.version right.version))
      removed

retain-remove_at :
    {A : Type 0} (q : A → Bool) (xs : List A) (i : ℕ) (x : A)
    → get_elem? xs i ≡ some x
    → q x ≡ false
    → retain q (remove_at xs i) ≡ retain q xs
retain-remove_at q [] i x h e = refl
retain-remove_at q (y ∷ xs) zero x h e = let same : y ≡ x = ground arith in rw (same, e) refl
retain-remove_at q (y ∷ xs) (suc i) x h e = elim (Bool-cases (q y)) [
  | inl k ↦ rw k (ap (λ l. y ∷ l) (retain-remove_at q xs i x h e))
  | inr k ↦ rw k (retain-remove_at q xs i x h e)
]

first_is-same_first :
    (a b : List Text) (r : Reference)
    → same_first a b ≡ true
    → first_is b r.architecture ≡ true
    → first_is a r.architecture ≡ true
unfolding same_first first_is
first_is-same_first [] [] r h k = k
first_is-same_first [] (t ∷ b) r h k = absurd (ground arith)
first_is-same_first (s ∷ a) [] r h k = absurd (ground arith)
first_is-same_first (s ∷ a) (t ∷ b) r h k = rw ((text_eq_iff s t).0 h) k

text_eq-chain : (a b c : Text) → text_eq a b ≡ true → text_eq b c ≡ true → text_eq a c ≡ true
text_eq-chain a b c h k = rw ((text_eq_iff a b).0 h) k

module _ {R : Type 0} where
  -- A removal leaves every layer that the test keeps apart from the removed one.
  retain-delete_layer :
      (q : RepositoryCacheLayersItem R → Bool) (w : Write R) (item : RepositoryCacheLayersItem R)
      (s : RepositoryCacheStore R)
      → ((x : RepositoryCacheLayersItem R) → same_layer x item ≡ true → q x ≡ false)
      → retain q (delete_layer w item s).0.data_now.layers ≡ retain q s.data_now.layers
  unfolding delete_layer delete_at write_to_disk apply_cache
  retain-delete_layer q (not_written e f) item s h =
      failed_case (position (λ current. same_layer current item) s.data_now.layers) refl
    where
      failed_case :
          (o : Option ℕ)
          → position (λ current. same_layer current item) s.data_now.layers ≡ o
          → retain q (delete_layer (not_written e f) item s).0.data_now.layers
            ≡ retain q s.data_now.layers
      failed_case none p = rw p refl
      failed_case (some i) p =
          let (x, g, t) =
            position-some (λ current. same_layer current item) s.data_now.layers i p in
          ap (λ d. retain q d.layers)
            (apply_cache-error_unchanged (not_written e f) (delete item) s (failed e) refl
              (rw (p, g) refl))
  retain-delete_layer q written item s h =
      done (position (λ current. same_layer current item) s.data_now.layers) refl
    where
      done :
          (o : Option ℕ)
          → position (λ current. same_layer current item) s.data_now.layers ≡ o
          → retain q (delete_layer written item s).0.data_now.layers ≡ retain q s.data_now.layers
      done none p = rw p refl
      done (some i) p =
          let (x, g, t) =
            position-some (λ current. same_layer current item) s.data_now.layers i p in
          rw (p, g) (retain-remove_at q s.data_now.layers i x g (h x t))

  is_module_of-same_layer :
      (r : Reference) (x item : RepositoryCacheLayersItem R)
      → same_layer x item ≡ true
      → is_module_of r item ≡ true
      → is_module_of r x ≡ true
  unfolding same_layer is_module_of
  is_module_of-same_layer r x item h k =
      rw
        (
          text_eq-chain x.info.id item.info.id r.id (ground arith) (ground arith),
          text_eq-chain x.info.channel item.info.channel r.channel (ground arith) (ground arith),
          text_eq-chain x.info.version item.info.version (show_version r.version) (ground arith)
              (ground arith),
          first_is-same_first x.info.arch item.info.arch r (ground arith) (ground arith),
        )
        refl

  find_layer-is_module_of :
      (s : RepositoryCacheStore R) (r : Reference) (name : Text)
      (item : RepositoryCacheLayersItem R)
      → find_layer s r false name ≡ some item
      → is_module_of r item ≡ true
  unfolding find_layer is_layer_of is_module_of
  find_layer-is_module_of s r name item h =
      let (l, a) = find-some (is_layer_of r false name) s.data_now.layers item h in ground arith

  layer_item-is_module_of :
      (s : RepositoryCacheStore R) (r : Reference) (name : Text)
      (item : RepositoryCacheLayersItem R)
      → layer_item s r name ≡ ok item
      → is_module_of r item ≡ true
  unfolding layer_item layer_item_with_deleted
  layer_item-is_module_of s r name item h =
      let m = module_or_binary name in
      second (text_eq m (codes "binary")) (find_layer s r false m) refl (ok_or-ok _ _ item h)
    where
      fallback : Bool → Option (RepositoryCacheLayersItem R)
      fallback b = if b then find_layer s r false (codes "runtime") else none

      second :
          (b : Bool) (o : Option (RepositoryCacheLayersItem R))
          → find_layer s r false (module_or_binary name) ≡ o
          → or_else o (fallback b) ≡ some item
          → is_module_of r item ≡ true
      second b (some x) e h = find_layer-is_module_of s r (module_or_binary name) item (e ∙ h)
      second b none e h = elim (Bool-cases b) [
        | inl k ↦ find_layer-is_module_of s r (codes "runtime") item (rw k at h)
        | inr k ↦ absurd (let g = rw k at h in ground arith)
      ]

-- A layer of a package whose count is zero.
unfoldable pub is_pruned : {R : Type 0} → Targets R → RepositoryCacheLayersItem R → Bool
unfolding is_module_of
is_pruned [] x = false
is_pruned ((k, t) ∷ ts) x = (t.references == 0 && is_module_of t.reference x) || is_pruned ts x

module _ {R O : Type 0} (semver : Semver) (ostree : Ostree O)
    (q : RepositoryCacheLayersItem R → Bool) where
  -- Both states have the same layers of those that the test keeps.
  abbrev Keeps : LocalRepository R O → LocalRepository R O → Type 0
  Keeps s t = retain q t.cache.data_now.layers ≡ retain q s.cache.data_now.layers

  delete_item-Keeps :
      (w : Write R) (s : LocalRepository R O) (item : RepositoryCacheLayersItem R) (refspec : Text)
      (actual : Option Text) (unset : Bool)
      → ((x : RepositoryCacheLayersItem R) → same_layer x item ≡ true → q x ≡ false)
      → Keeps s (delete_item ostree w s item refspec actual unset).0
  unfolding delete_item
  delete_item-Keeps w s item refspec actual unset h =
      done (delete_layer w item s.cache) (retain-delete_layer q w item s.cache h)
    where
      done :
          (o : RepositoryCacheStore R × Result Fault (Unit {0}))
          → retain q o.0.data_now.layers ≡ retain q s.cache.data_now.layers
          → Keeps s (delete_done ostree w s refspec actual unset o).0
      done (t, ok u) k = k
      done (t, err e) k = k

  remove_layer_item-Keeps :
      (w : Write R) (s : LocalRepository R O) (item : RepositoryCacheLayersItem R)
      → ((x : RepositoryCacheLayersItem R) → same_layer x item ≡ true → q x ≡ false)
      → Keeps s (remove_layer_item semver ostree w s item).0
  unfolding remove_layer_item
  remove_layer_item-Keeps w s item h =
      named (reference_from_info semver item.info >>= λ r. ostree_ref r item.info.module_name)
    where
      unset :
          (refspec : Text) (actual : Option Text) (o : O × Result Text (Unit {0}))
          → Keeps s (unset_then ostree w s item refspec actual o).0
      unset refspec actual (o, err f) = refl
      unset refspec actual (o, ok u) =
          delete_item-Keeps w (record s { repo = o }) item refspec actual true h

      ref :
          (refspec : Text) (o : Result Text (Option Text))
          → Keeps s (remove_ref ostree w s item refspec o).0
      ref refspec (err f) = refl
      ref refspec (ok actual) = elim (Bool-cases (names_commit actual item.commit)) [
        | inl n ↦ rw n (unset refspec actual (ostree.set_ref_immediate s.repo refspec none))
        | inr n ↦ rw n (delete_item-Keeps w s item refspec actual false h)
      ]

      named : (o : Result RepositoryError Text) → Keeps s (remove_named ostree w s item o).0
      named (err f) = refl
      named (ok name) =
          ref (refspec_of item.repo name) (ostree.resolve_rev s.repo (refspec_of item.repo name))

  remove_layer-Keeps :
      (w : Write R) (s : LocalRepository R O) (r : Reference) (name : Text)
      → ((x : RepositoryCacheLayersItem R) → is_module_of r x ≡ true → q x ≡ false)
      → Keeps s (remove_layer semver ostree w s r name).0
  unfolding remove_layer
  remove_layer-Keeps w s r name h = found (layer_item s.cache r name) refl
    where
      found :
          (o : Result RepositoryError (RepositoryCacheLayersItem R))
          → layer_item s.cache r name ≡ o
          → Keeps s (remove_found semver ostree w s o).0
      found (ok item) e = remove_layer_item-Keeps w s item (λ x same.
          h x
            (is_module_of-same_layer r x item same (layer_item-is_module_of s.cache r name item e)))
      found (err e) k = ground arith

  remove_modules-Keeps :
      (w : Text → Write R) (r : Reference) (s : LocalRepository R O) (ms : List Text)
      → ((x : RepositoryCacheLayersItem R) → is_module_of r x ≡ true → q x ≡ false)
      → Keeps s (remove_modules semver ostree w r s ms)
  unfolding remove_modules
  remove_modules-Keeps w r s [] h = refl
  remove_modules-Keeps w r s (m ∷ ms) h =
      remove_modules-Keeps w r (remove_layer semver ostree (w m) s r m).0 ms h
      ∙ remove_layer-Keeps (w m) s r m h

  prune_layers-Keeps :
      (w : Reference → Text → Write R) (s : LocalRepository R O) (ts : Targets R)
      → ((x : RepositoryCacheLayersItem R) → is_pruned ts x ≡ true → q x ≡ false)
      → Keeps s (prune_layers semver ostree w s ts).repository
  unfolding prune_layers remove_all_modules is_pruned
  prune_layers-Keeps w s [] h = refl
  prune_layers-Keeps w s ((k, t) ∷ ts) h = elim (Bool-cases (t.references == 0)) [
    | inl z ↦ rw z (
        prune_layers-Keeps w (remove_all_modules semver ostree (w t.reference) s t.reference) ts
          (λ x e. h x (ground arith))
        ∙ remove_modules-Keeps (w t.reference) t.reference s (module_list s.cache t.reference)
            (λ x e. h x (ground arith)))
    | inr z ↦ rw z (prune_layers-Keeps w s ts (λ x e. h x (ground arith)))
  ]

not_kept : (b : Bool) → b ≡ true → not b ≡ false
not_kept b h = ground arith

-- A pruning removes layers of packages whose count is zero only: all other layers stay in the cache, in
-- their order, whatever the writes and the OSTree library do.
pub prune_layers-other :
    {R O : Type 0} (semver : Semver) (ostree : Ostree O) (w : Reference → Text → Write R)
    (s : LocalRepository R O) (targets : Targets R)
    → retain
        (λ x. not (is_pruned targets x))
        (prune_layers semver ostree w s targets).repository.cache.data_now.layers
      ≡ retain (λ x. not (is_pruned targets x)) s.cache.data_now.layers
prune_layers-other semver ostree w s targets =
    prune_layers-Keeps semver ostree (λ x. not (is_pruned targets x)) w s targets
      (λ x h. not_kept (is_pruned targets x) h)
