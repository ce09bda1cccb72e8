-- ===== src/Local/Remove.antt =====
-- The removal of a layer from the cache and of its ref from the OSTree repository
-- (crates/linyaps-repository/src/local.rs, `remove_layer` and `remove_layer_item`). The files that the
-- code removes besides, ignoring what goes wrong, are not part of the state.
use linyaps_rust.Common.{
  ◌≡◌, refl, sym, ◌∙◌, Text, text_eq, text_eq_iff, Option, none, some, ◌∷◌, ◌++◌, Bool, true, false,
  if◌then◌else◌, Result, ok, err, ◌>>=◌, inl, inr, Bool-cases, arith,
}
use linyaps_rust.Version.V2.{Semver}
use linyaps_rust.Reference.{Reference}
use linyaps_rust.Cache.{
  RepositoryCacheLayersItem, RepositoryCacheStore, Write, Fault, delete_layer, delete, apply_cache,
}
use linyaps_rust.Cache.Operations.{apply_cache-error_unchanged}
use linyaps_rust.Local.{
  RepositoryError, layer_not_found, cache_fault, ostree_ref, reference_from_info, layer_item,
}

-- The calls of the OSTree library: the commit that a ref names, and the change or removal of a ref.
pub record Ostree (O : Type 0) : Type 0 where
  pub resolve_rev : O → Text → Result Text (Option Text)
  pub set_ref_immediate : O → Text → Option Text → O × Result Text (Unit {0})

-- What the code relies on: a change that succeeds is seen, at this ref and at no other.
pub record IsOstree {O : Type 0} (ostree : Ostree O) : Type 0 where
  pub changes :
      (o : O) (name : Text) (commit : Option Text)
      → (ostree.set_ref_immediate o name commit).1 ≡ ok tt
      → ostree.resolve_rev (ostree.set_ref_immediate o name commit).0 name ≡ ok commit
  pub keeps :
      (o : O) (name other : Text) (commit : Option Text)
      → (ostree.set_ref_immediate o name commit).1 ≡ ok tt
      → text_eq other name ≡ false
      → ostree.resolve_rev (ostree.set_ref_immediate o name commit).0 other
        ≡ ostree.resolve_rev o other

pub record LocalRepository (R O : Type 0) : Type 0 where
  pub cache : RepositoryCacheStore R
  pub repo : O

-- The errors of a removal: the repository's own, and those of the OSTree library.
pub data RemoveError : Type 0 where
  repository : RepositoryError → RemoveError
  ostree_fault : Text → RemoveError

-- `actual.is_some_and(|actual| actual.to_hex() == commit)`.
unfoldable pub names_commit : Option Text → Text → Bool
unfolding text_eq
names_commit none commit = false
names_commit (some c) commit = text_eq c commit

abbrev pub refspec_of : Text → Text → Text
refspec_of remote name = remote ++ b':' ∷ name

abbrev pub Removal : Type 0 → Type 0 → Type 0
Removal R O = LocalRepository R O × Result RemoveError Bool

module _ {R O : Type 0} (ostree : Ostree O) (w : Write R) where
  -- The ref is put back where the cache cannot be written.
  abbrev pub delete_done :
      LocalRepository R O
      → Text
      → Option Text
      → Bool
      → RepositoryCacheStore R × Result Fault (Unit {0})
      → Removal R O
  delete_done s refspec actual unset (t, ok u) = (record s { cache = t }, ok true)
  delete_done s refspec actual unset (t, err e) = (
    record {
      cache = t;
      repo = if unset then (ostree.set_ref_immediate s.repo refspec actual).0 else s.repo;
    },
    err (repository (cache_fault e)),
  )

  unfoldable pub delete_item :
      LocalRepository R O → RepositoryCacheLayersItem R → Text → Option Text → Bool → Removal R O
  unfolding delete_layer
  delete_item s item refspec actual unset =
      delete_done s refspec actual unset (delete_layer w item s.cache)

  unfoldable pub unset_then :
      LocalRepository R O
      → RepositoryCacheLayersItem R
      → Text
      → Option Text
      → O × Result Text (Unit {0})
      → Removal R O
  unfolding delete_item
  unset_then s item refspec actual (o, err e) = (record s { repo = o }, err (ostree_fault e))
  unset_then s item refspec actual (o, ok u) =
      delete_item (record s { repo = o }) item refspec actual true

  unfoldable pub remove_ref :
      LocalRepository R O
      → RepositoryCacheLayersItem R
      → Text
      → Result Text (Option Text)
      → Removal R O
  unfolding names_commit unset_then delete_item
  remove_ref s item refspec (err e) = (s, err (ostree_fault e))
  remove_ref s item refspec (ok actual) =
      if names_commit actual item.commit
      then unset_then s item refspec actual (ostree.set_ref_immediate s.repo refspec none)
      else delete_item s item refspec actual false

  unfoldable pub remove_named :
      LocalRepository R O → RepositoryCacheLayersItem R → Result RepositoryError Text → Removal R O
  unfolding remove_ref
  remove_named s item (err e) = (s, err (repository e))
  remove_named s item (ok name) =
      remove_ref s item (refspec_of item.repo name)
        (ostree.resolve_rev s.repo (refspec_of item.repo name))

module _ {R O : Type 0} (semver : Semver) (ostree : Ostree O) (w : Write R) where
  unfoldable pub remove_layer_item : LocalRepository R O → RepositoryCacheLayersItem R → Removal R O
  unfolding remove_named reference_from_info ostree_ref
  remove_layer_item s item =
      remove_named ostree w s item
        (reference_from_info semver item.info >>= λ r. ostree_ref r item.info.module_name)

  -- `layer_item` fails with `layer_not_found` only, which is no error here.
  unfoldable pub remove_found :
      LocalRepository R O → Result RepositoryError (RepositoryCacheLayersItem R) → Removal R O
  unfolding remove_layer_item
  remove_found s (err (layer_not_found r name)) = (s, ok false)
  remove_found s (err e) = (s, err (repository e))
  remove_found s (ok item) = remove_layer_item s item

  unfoldable pub remove_layer : LocalRepository R O → Reference → Text → Removal R O
  unfolding remove_found layer_item
  remove_layer s r name = remove_found s (layer_item s.cache r name)

module _ {R O : Type 0} (ostree : Ostree O) where
  -- The list of layers in memory, and what every ref names.
  pub record Unchanged (s t : LocalRepository R O) : Type 0 where
    pub same_data : t.cache.data_now ≡ s.cache.data_now
    pub same_refs : (name : Text) → ostree.resolve_rev t.repo name ≡ ostree.resolve_rev s.repo name

  Unchanged-refl : (s : LocalRepository R O) → Unchanged s s
  Unchanged-refl s = record { same_data = refl; same_refs = λ name. refl }

module _ {O : Type 0} (ostree : Ostree O) where
  -- A ref that is removed and put back names what it named.
  put_back :
      (law : IsOstree ostree) (o : O) (refspec : Text) (actual : Option Text)
      → ((p : O) (name : Text) (commit : Option Text)
          → (ostree.set_ref_immediate p name commit).1 ≡ ok tt)
      → ostree.resolve_rev o refspec ≡ ok actual
      → (name : Text)
      → ostree.resolve_rev
          (ostree.set_ref_immediate (ostree.set_ref_immediate o refspec none).0 refspec actual).0
          name
        ≡ ostree.resolve_rev o name
  put_back law o refspec actual works h name =
      let p = (ostree.set_ref_immediate o refspec none).0 in
      elim (Bool-cases (text_eq name refspec)) [
        | inl e ↦
            rw ((text_eq_iff name refspec).0 e)
              (law.changes p refspec actual (works p refspec actual) ∙ sym h)
        | inr e ↦
            law.keeps p refspec name actual (works p refspec actual) e
            ∙ law.keeps o refspec name none (works o refspec none) e
      ]

module _ {R O : Type 0} (ostree : Ostree O) (w : Write R) where
  delete_item-error :
      (s : LocalRepository R O) (item : RepositoryCacheLayersItem R) (refspec : Text)
      (actual : Option Text) (unset : Bool) (e : RemoveError)
      → (delete_item ostree w s item refspec actual unset).1 ≡ err e
      → ((delete_item ostree w s item refspec actual unset).0.cache.data_now ≡ s.cache.data_now)
        × ((delete_item ostree w s item refspec actual unset).0.repo
            ≡ (if unset then (ostree.set_ref_immediate s.repo refspec actual).0 else s.repo))
  unfolding delete_item apply_cache
  delete_item-error s item refspec actual unset e h =
      go (delete_layer w item s.cache)
        (λ f. apply_cache-error_unchanged w (delete item) s.cache f refl) h
    where
      go :
          (o : RepositoryCacheStore R × Result Fault (Unit {0}))
          → ((f : Fault) → o.1 ≡ err f → o.0.data_now ≡ s.cache.data_now)
          → (delete_done ostree w s refspec actual unset o).1 ≡ err e
          → ((delete_done ostree w s refspec actual unset o).0.cache.data_now ≡ s.cache.data_now)
            × ((delete_done ostree w s refspec actual unset o).0.repo
                ≡ (if unset then (ostree.set_ref_immediate s.repo refspec actual).0 else s.repo))
      go (t, ok u) k h = absurd (ground arith)
      go (t, err f) k h = (k f refl, refl)

module _ {R O : Type 0} (semver : Semver) (ostree : Ostree O) (w : Write R) where
  -- Where every change of a ref succeeds, a removal of a layer that returns an error has changed neither
  -- the list of layers in memory nor what any ref names.
  pub remove_layer_item-Unchanged :
      (law : IsOstree ostree)
      → ((o : O) (name : Text) (commit : Option Text)
          → (ostree.set_ref_immediate o name commit).1 ≡ ok tt)
      → (s : LocalRepository R O) (item : RepositoryCacheLayersItem R) (e : RemoveError)
      → (remove_layer_item semver ostree w s item).1 ≡ err e
      → Unchanged ostree s (remove_layer_item semver ostree w s item).0
  unfolding remove_layer_item
  remove_layer_item-Unchanged law works s item e h =
      named (reference_from_info semver item.info >>= λ r. ostree_ref r item.info.module_name) h
    where
      unset :
          (refspec : Text) (actual : Option Text)
          → ostree.resolve_rev s.repo refspec ≡ ok actual
          → (o : O × Result Text (Unit {0})) → ostree.set_ref_immediate s.repo refspec none ≡ o
          → (unset_then ostree w s item refspec actual o).1 ≡ err e
          → Unchanged ostree s (unset_then ostree w s item refspec actual o).0
      unset refspec actual r (o, err f) q h =
          absurd (let k = works s.repo refspec none in ground arith)
      unset refspec actual r (o, ok u) q h =
          let t : LocalRepository R O = record s { repo = o } in
          let (same, refs) = delete_item-error ostree w t item refspec actual true e h in
          record {
            same_data = same;
            same_refs = λ name.
                rw refs (
                  let back = put_back ostree law s.repo refspec actual works r name in
                  rw q at back);
          }

      ref :
          (refspec : Text) (o : Result Text (Option Text))
          → ostree.resolve_rev s.repo refspec ≡ o
          → (remove_ref ostree w s item refspec o).1 ≡ err e
          → Unchanged ostree s (remove_ref ostree w s item refspec o).0
      ref refspec (err f) r h = Unchanged-refl ostree s
      ref refspec (ok actual) r h = elim (Bool-cases (names_commit actual item.commit)) [
        | inl n ↦
            rw n (
              unset refspec actual r (ostree.set_ref_immediate s.repo refspec none) refl
                (rw n at h))
        | inr n ↦
            let (same, refs) =
              delete_item-error ostree w s item refspec actual false e (rw n at h) in
            rw n (record { same_data = same; same_refs = λ name. rw refs refl })
      ]

      named :
          (o : Result RepositoryError Text)
          → (remove_named ostree w s item o).1 ≡ err e
          → Unchanged ostree s (remove_named ostree w s item o).0
      named (err f) h = Unchanged-refl ostree s
      named (ok name) h = ref (refspec_of item.repo name) _ refl h
