-- ===== src/Cache.antt =====
-- The cache of installed layers (crates/linyaps-repository/src/cache.rs): the list in memory, its file
-- and the operations that change both. What a write to the file does is a choice of the environment.
pub mod Distinct
pub mod Operations
pub mod Upsert
pub mod Tests
use linyaps_rust.Common.{
  ℕ, Text, codes, text_eq, Option, none, some, List, [], ◌∷◌, ◌++◌, Bool, true, false, not, ◌&&◌,
  ◌||◌, any, retain, position, get_elem?, set, remove_at, insert_at, if◌then◌else◌, Result, ok, err,
}
use linyaps_rust.RepoConfig.{RepoConfigV2}

pub record ExtensionDefine : Type 0 where
  pub allow_env : Option (List (Text × Text))
  pub directory : Text
  pub name : Text
  pub version : Text

-- The fields that the modelled code reads; `others` are the rest of the description of the package.
pub record PackageInfoV2 (R : Type 0) : Type 0 where
  pub arch : List Text
  pub base : Text
  pub channel : Text
  pub extensions : Option (List ExtensionDefine)
  pub id : Text
  pub kind : Text
  pub module_name : Text
  pub runtime : Option Text
  pub version : Text
  pub others : R

pub record RepositoryCacheLayersItem (R : Type 0) : Type 0 where
  pub commit : Text
  pub deleted : Option Bool
  pub info : PackageInfoV2 R
  pub repo : Text

pub record RepositoryCacheMergedItem : Type 0 where
  pub binary_commit : Option Text
  pub commits : List Text
  pub id : Text
  pub modules : List Text
  pub name : Option Text

pub record RepositoryCache (R : Type 0) : Type 0 where
  pub config : RepoConfigV2
  pub layers : List (RepositoryCacheLayersItem R)
  pub ll_version : Text
  pub merged : Option (List RepositoryCacheMergedItem)
  pub version : Text

-- `read` also stands for the I/O error of a write, as in the source.
pub data CacheError : Type 0 where
  read : CacheError
  parse : CacheError
  version_mismatch : Text → CacheError
  already_exists : CacheError
  not_found : CacheError

-- An error that is returned, or an index out of bounds.
pub data Fault : Type 0 where
  failed : CacheError → Fault
  panic : Fault

-- The cache in memory and what its file holds.
pub record RepositoryCacheStore (R : Type 0) : Type 0 where
  pub data_now : RepositoryCache R
  pub file : Option (RepositoryCache R)

-- A write succeeds, or fails and leaves some content behind.
pub data Write (R : Type 0) : Type 0 where
  written : Write R
  not_written : CacheError → Option (RepositoryCache R) → Write R

unfoldable pub same_first : List Text → List Text → Bool
unfolding text_eq
same_first [] [] = true
same_first [] (b ∷ bs) = false
same_first (a ∷ rest) [] = false
same_first (a ∷ rest) (b ∷ bs) = text_eq a b

abbrev pub marked_deleted : Option Bool → Bool
marked_deleted none = false
marked_deleted (some b) = b

abbrev pub Outcome : Type 0 → Type 0
Outcome R = RepositoryCacheStore R × Result Fault (Unit {0})

module _ {R : Type 0} where
  unfoldable pub same_layer : RepositoryCacheLayersItem R → RepositoryCacheLayersItem R → Bool
  unfolding text_eq same_first
  same_layer left right =
      text_eq left.commit right.commit
      && text_eq left.repo right.repo
      && text_eq left.info.channel right.info.channel
      && text_eq left.info.id right.info.id
      && text_eq left.info.version right.info.version
      && same_first left.info.arch right.info.arch
      && text_eq left.info.module_name right.info.module_name

  unfoldable pub same_layer_identity :
      RepositoryCacheLayersItem R → RepositoryCacheLayersItem R → Bool
  unfolding text_eq same_first
  same_layer_identity left right =
      text_eq left.info.channel right.info.channel
      && text_eq left.info.id right.info.id
      && text_eq left.info.version right.info.version
      && same_first left.info.arch right.info.arch
      && text_eq left.info.module_name right.info.module_name

  abbrev pub empty_store : RepoConfigV2 → Text → RepositoryCacheStore R
  empty_store config package_version = record {
    data_now = record {
      config = config;
      layers = [];
      ll_version = package_version;
      merged = none;
      version = codes "2";
    };
    file = none;
  }

  -- `load`, of what the parser makes of the file.
  unfoldable pub load :
      Result CacheError (RepositoryCache R) → Result CacheError (RepositoryCacheStore R)
  unfolding text_eq
  load (err e) = err e
  load (ok d) =
      if not (text_eq d.version (codes "2"))
      then err (version_mismatch d.version)
      else ok (record { data_now = d; file = some d })

  abbrev pub with_layers :
      RepositoryCacheStore R → List (RepositoryCacheLayersItem R) → RepositoryCacheStore R
  with_layers s xs = record s { data_now = record s.data_now { layers = xs } }

  unfoldable pub write_to_disk : Write R → RepositoryCacheStore R → Outcome R
  write_to_disk written s = (record s { file = some s.data_now }, ok tt)
  write_to_disk (not_written e f) s = (record s { file = f }, err (failed e))

  -- `if let Err(error) = self.write_to_disk() { … return Err(error) }`, with what the branch undoes.
  abbrev pub undo : (RepositoryCacheStore R → RepositoryCacheStore R) → Outcome R → Outcome R
  undo f (s, ok u) = (s, ok u)
  undo f (s, err e) = (f s, err e)

  abbrev pub replace_config : RepoConfigV2 → RepositoryCacheStore R → RepositoryCacheStore R
  replace_config c s = record s { data_now = record s.data_now { config = c } }

  abbrev pub with_merged :
      RepositoryCacheStore R → Option (List RepositoryCacheMergedItem) → RepositoryCacheStore R
  with_merged s m = record s { data_now = record s.data_now { merged = m } }

  unfoldable pub replace_merged :
      Write R → List RepositoryCacheMergedItem → RepositoryCacheStore R → Outcome R
  unfolding write_to_disk
  replace_merged w merged s =
      let previous = s.data_now.merged in
      undo (λ t. with_merged t previous) (write_to_disk w (with_merged s (some merged)))

  unfoldable pub add_layer :
      Write R → RepositoryCacheLayersItem R → RepositoryCacheStore R → Outcome R
  unfolding write_to_disk same_layer
  add_layer w item s =
      if any (λ current. same_layer current item) s.data_now.layers
      then (s, err (failed already_exists))
      else write_to_disk w (with_layers s (s.data_now.layers ++ item ∷ []))

  unfoldable pub stays : RepositoryCacheLayersItem R → RepositoryCacheLayersItem R → Bool
  unfolding same_layer_identity text_eq
  stays item current =
      not (same_layer_identity current item)
      || (marked_deleted current.deleted && not (text_eq current.commit item.commit))

  unfoldable pub upsert_layer :
      Write R → RepositoryCacheLayersItem R → RepositoryCacheStore R → Outcome R
  unfolding write_to_disk stays
  upsert_layer w item s =
      let previous = s.data_now.layers in
      undo (λ t. with_layers t previous)
        (write_to_disk w (with_layers s (retain (stays item) previous ++ item ∷ [])))

  unfoldable pub delete_at :
      Write R → RepositoryCacheStore R → ℕ → Option (RepositoryCacheLayersItem R) → Outcome R
  unfolding write_to_disk
  delete_at w s i none = (s, err panic)
  delete_at w s i (some removed) =
      undo (λ t. with_layers t (insert_at t.data_now.layers i removed))
        (write_to_disk w (with_layers s (remove_at s.data_now.layers i)))

  abbrev pub mark : RepositoryCacheLayersItem R → Option Bool → RepositoryCacheLayersItem R
  mark x d = record x { deleted = d }

  unfoldable pub mark_at :
      Write R
      → Option Bool
      → RepositoryCacheStore R
      → ℕ
      → Option (RepositoryCacheLayersItem R)
      → Outcome R
  unfolding write_to_disk
  mark_at w d s i none = (s, err panic)
  mark_at w d s i (some x) =
      undo (λ t. with_layers t (set t.data_now.layers i (mark (mark x d) x.deleted)))
        (write_to_disk w (with_layers s (set s.data_now.layers i (mark x d))))

  abbrev pub at_position :
      RepositoryCacheStore R
      → (ℕ → Option (RepositoryCacheLayersItem R) → Outcome R)
      → Option ℕ
      → Outcome R
  at_position s f none = (s, err (failed not_found))
  at_position s f (some i) = f i (get_elem? s.data_now.layers i)

  unfoldable pub delete_layer :
      Write R → RepositoryCacheLayersItem R → RepositoryCacheStore R → Outcome R
  unfolding delete_at same_layer
  delete_layer w item s =
      at_position s (delete_at w s)
        (position (λ current. same_layer current item) s.data_now.layers)

  unfoldable pub set_layer_deleted :
      Write R → RepositoryCacheLayersItem R → Bool → RepositoryCacheStore R → Outcome R
  unfolding mark_at same_layer
  set_layer_deleted w item deleted s =
      at_position s (mark_at w (if deleted then some true else none) s)
        (position (λ current. same_layer current item) s.data_now.layers)

  -- The layers of `existing_layers` and of `deleted_layers`.
  abbrev pub existing_layers : RepositoryCacheStore R → List (RepositoryCacheLayersItem R)
  existing_layers s = retain (λ x. not (marked_deleted x.deleted)) s.data_now.layers

  abbrev pub deleted_layers : RepositoryCacheStore R → List (RepositoryCacheLayersItem R)
  deleted_layers s = retain (λ x. marked_deleted x.deleted) s.data_now.layers

-- The operations that write the file.
pub data CacheOperation (R : Type 0) : Type 0 where
  merge : List RepositoryCacheMergedItem → CacheOperation R
  add : RepositoryCacheLayersItem R → CacheOperation R
  upsert : RepositoryCacheLayersItem R → CacheOperation R
  delete : RepositoryCacheLayersItem R → CacheOperation R
  set_deleted : RepositoryCacheLayersItem R → Bool → CacheOperation R

unfoldable pub apply_cache :
    {R : Type 0} → Write R → CacheOperation R → RepositoryCacheStore R → Outcome R
unfolding replace_merged add_layer upsert_layer delete_layer set_layer_deleted
apply_cache w (merge merged) s = replace_merged w merged s
apply_cache w (add item) s = add_layer w item s
apply_cache w (upsert item) s = upsert_layer w item s
apply_cache w (delete item) s = delete_layer w item s
apply_cache w (set_deleted item deleted) s = set_layer_deleted w item deleted s
