-- ===== src/Local.antt =====
-- The layers of the local repository (crates/linyaps-repository/src/local.rs): which layer a reference
-- stands for, on the cache of layers. Of the OSTree repository, Remove has the refs in its state; the
-- directories of the layers are in no state.
pub mod Resolve
pub mod Found
pub mod Ini
pub mod IniLaws
pub mod Remove
pub mod Tests
use linyaps_rust.Common.{
  ℕ, ◌≡◌, refl, ◌==◌, Text, codes, text_eq, is_empty, Option, none, some, List, [], ◌∷◌, ◌++◌, Bool,
  true, false, not, ◌&&◌, ◌||◌, any, retain, find, if◌then◌else◌, Result, ok, err, ok_or, map_err,
  ensure, ◌>>=◌, ◌>>◌, Ordering, sort_by, map, text_compare,
}
use linyaps_rust.Architecture.{Architecture, show_architecture, architecture_from}
use linyaps_rust.Version.{VersionError}
use linyaps_rust.Version.V2.{Semver}
use linyaps_rust.Version.Parse.{Version, parse_version, show_version, semantic_match}
use linyaps_rust.Version.Compare.{partial_cmp, eq_version}
use linyaps_rust.Reference.{
  Reference, FuzzyReference, ReferenceError, new_reference, show_reference, show_fuzzy, is_none_or,
}
use linyaps_rust.Cache.{
  PackageInfoV2, RepositoryCacheLayersItem, RepositoryCacheStore, Write, Fault, existing_layers,
  deleted_layers, set_layer_deleted,
}

pub data RepositoryError : Type 0 where
  missing_architecture : RepositoryError
  invalid_module : RepositoryError
  package_not_found : Text → RepositoryError
  compatible_layer_not_found : Text → RepositoryError
  layer_not_found : Text → Text → RepositoryError
  cache_fault : Fault → RepositoryError
  reference_error : ReferenceError → RepositoryError
  version_error : VersionError → RepositoryError
  architecture_error : Text → RepositoryError

-- `matches!(module, "binary" | "runtime")`.
unfoldable pub is_main : Text → Bool
unfolding text_eq
is_main name = text_eq name (codes "binary") || text_eq name (codes "runtime")

-- `arch.first() == Some(&architecture.to_string())`.
unfoldable pub first_is : List Text → Architecture → Bool
unfolding text_eq
first_is [] a = false
first_is (s ∷ rest) a = text_eq s (show_architecture a)

-- `partial_cmp(…).unwrap_or(Ordering::Equal)`.
abbrev pub or_equal : Option Ordering → Ordering
or_equal none = Ordering.eq
or_equal (some o) = o

-- `module.is_empty() || module.contains('/') || module.contains(':')`.
abbrev pub is_bad_module : Text → Bool
is_bad_module name = is_empty name || any (λ c. c == b'/') name || any (λ c. c == b':') name

unfoldable pub ostree_ref : Reference → Text → Result RepositoryError Text
unfolding show_version
ostree_ref r name =
    if is_bad_module name
    then err invalid_module
    else ok (
        r.channel
        ++ (b'/'
            ∷ (r.id
                ++ (b'/'
                    ∷ (show_version r.version
                        ++ (b'/' ∷ (show_architecture r.architecture ++ (b'/' ∷ name))))))))

abbrev pub first_of : List Text → Option Text
first_of [] = none
first_of (a ∷ rest) = some a

abbrev pub requested :
    Option Text → (Text → Result VersionError Version) → Result RepositoryError (Option Version)
requested none parse = ok none
requested (some s) parse = map_err version_error (parse s) >>= λ v. ok (some v)

abbrev pub module_or_binary : Text → Text
unfolding text_eq
module_or_binary name = if text_eq name (codes "runtime") then codes "binary" else name

-- `item.deleted == deleted.then_some(true)`.
abbrev pub deleted_is : Option Bool → Bool → Bool
deleted_is none wanted = not wanted
deleted_is (some b) wanted = wanted && b

abbrev pub or_else {ℓ} : {A : Type ℓ} → Option A → Option A → Option A
or_else none o = o
or_else (some a) o = some a

-- `sort` and `dedup`.
unfoldable pub dedup : List Text → List Text
unfolding text_eq
dedup [] = []
dedup (x ∷ []) = x ∷ []
dedup (x ∷ y ∷ xs) = let rest = dedup (y ∷ xs) in if text_eq x y then rest else x ∷ rest

unfoldable pub satisfies : Semver → Bool → Option Version → Version → Bool
unfolding semantic_match eq_version show_version
satisfies semver semantic none v = true
satisfies semver semantic (some wanted) v =
    (semantic && semantic_match semver v (show_version wanted)) || eq_version semver v wanted

module _ {R : Type 0} where
  unfoldable pub is_candidate : FuzzyReference → RepositoryCacheLayersItem R → Bool
  unfolding text_eq is_main first_is
  is_candidate fuzzy item =
      text_eq item.info.id fuzzy.id
      && is_none_or fuzzy.channel (λ c. text_eq c item.info.channel)
      && is_main item.info.module_name
      && is_none_or fuzzy.architecture (first_is item.info.arch)

module _ {R : Type 0} (semver : Semver) where
  unfoldable pub reference_from_info : PackageInfoV2 R → Result RepositoryError Reference
  unfolding architecture_from parse_version
  reference_from_info info = do
    a ← ok_or (first_of info.arch) missing_architecture
    architecture ← map_err architecture_error (architecture_from a)
    version ← map_err version_error (parse_version semver info.version)
    map_err reference_error (new_reference info.channel info.id version architecture)

  unfoldable pub parse_candidates :
      List (RepositoryCacheLayersItem R)
      → Result RepositoryError (List (Version × RepositoryCacheLayersItem R))
  unfolding parse_version
  parse_candidates [] = ok []
  parse_candidates (x ∷ xs) = do
    v ← map_err version_error (parse_version semver x.info.version)
    rest ← parse_candidates xs
    ok ((v, x) ∷ rest)

  -- The order of the candidates, a later version first.
  unfoldable pub later_first :
      Version × RepositoryCacheLayersItem R → Version × RepositoryCacheLayersItem R → Ordering
  unfolding partial_cmp
  later_first left right = or_equal (partial_cmp semver right.0 left.0)

  abbrev pub choose :
      Option Version
      → Bool
      → List (Version × RepositoryCacheLayersItem R)
      → Option (Version × RepositoryCacheLayersItem R)
  unfolding satisfies sort_by later_first
  choose wanted semantic candidates =
      find (λ c. satisfies semver semantic wanted c.0) (sort_by later_first candidates)

  abbrev pub resolve_among :
      FuzzyReference
      → Bool
      → List (Version × RepositoryCacheLayersItem R)
      → Result RepositoryError Reference
  unfolding choose parse_version reference_from_info show_fuzzy
  resolve_among fuzzy semantic [] = err (package_not_found (show_fuzzy fuzzy))
  resolve_among fuzzy semantic (c ∷ cs) = do
    wanted ← requested fuzzy.version (parse_version semver)
    found ← ok_or (choose wanted semantic (c ∷ cs)) (compatible_layer_not_found (show_fuzzy fuzzy))
    reference_from_info found.1.info

  unfoldable pub resolve_local :
      RepositoryCacheStore R → FuzzyReference → Bool → Result RepositoryError Reference
  unfolding is_candidate parse_candidates resolve_among
  resolve_local s fuzzy semantic = do
    candidates ← parse_candidates (retain (is_candidate fuzzy) (existing_layers s))
    resolve_among fuzzy semantic candidates

module _ {R : Type 0} where
  unfoldable pub is_layer_of : Reference → Bool → Text → RepositoryCacheLayersItem R → Bool
  unfolding text_eq first_is show_version
  is_layer_of r deleted name item =
      deleted_is item.deleted deleted
      && text_eq item.info.id r.id
      && text_eq item.info.channel r.channel
      && text_eq item.info.version (show_version r.version)
      && first_is item.info.arch r.architecture
      && text_eq item.info.module_name name

  unfoldable pub find_layer :
      RepositoryCacheStore R → Reference → Bool → Text → Option (RepositoryCacheLayersItem R)
  unfolding is_layer_of
  find_layer s r deleted name = find (is_layer_of r deleted name) s.data_now.layers

  unfoldable pub layer_item_with_deleted :
      RepositoryCacheStore R
      → Reference
      → Text
      → Bool
      → Result RepositoryError (RepositoryCacheLayersItem R)
  unfolding find_layer module_or_binary text_eq show_reference
  layer_item_with_deleted s r name deleted =
      let m = module_or_binary name in
      ok_or
        (or_else (find_layer s r deleted m)
          (if text_eq m (codes "binary") then find_layer s r deleted (codes "runtime") else none))
        (layer_not_found (show_reference r) m)

  unfoldable pub layer_item :
      RepositoryCacheStore R
      → Reference
      → Text
      → Result RepositoryError (RepositoryCacheLayersItem R)
  unfolding layer_item_with_deleted
  layer_item s r name = layer_item_with_deleted s r name false

  -- Whether a layer was changed; the error of a layer that is not found is the only one of the lookup.
  abbrev pub set_found :
      Write R
      → Bool
      → RepositoryCacheStore R
      → Result RepositoryError (RepositoryCacheLayersItem R)
      → RepositoryCacheStore R × Result RepositoryError Bool
  unfolding set_layer_deleted
  set_found w deleted s (err e) = (s, ok false)
  set_found w deleted s (ok item) =
      let (t, r) = set_layer_deleted w item deleted s in (t, map_err cache_fault r >>= λ u. ok true)

  unfoldable pub mark_layer_deleted :
      Write R
      → RepositoryCacheStore R
      → Reference
      → Text
      → RepositoryCacheStore R × Result RepositoryError Bool
  unfolding set_found layer_item_with_deleted
  mark_layer_deleted w s r name = set_found w true s (layer_item_with_deleted s r name false)

  unfoldable pub restore_deleted_layer :
      Write R
      → RepositoryCacheStore R
      → Reference
      → Text
      → RepositoryCacheStore R × Result RepositoryError Bool
  unfolding set_found layer_item_with_deleted
  restore_deleted_layer w s r name = set_found w false s (layer_item_with_deleted s r name true)

  unfoldable pub is_module_of : Reference → RepositoryCacheLayersItem R → Bool
  unfolding text_eq first_is show_version
  is_module_of r item =
      text_eq item.info.id r.id
      && text_eq item.info.channel r.channel
      && text_eq item.info.version (show_version r.version)
      && first_is item.info.arch r.architecture

  unfoldable pub module_list : RepositoryCacheStore R → Reference → List Text
  unfolding is_module_of dedup sort_by text_compare
  module_list s r = dedup (
      sort_by text_compare (
        map (λ (x : RepositoryCacheLayersItem R). x.info.module_name)
          (retain (is_module_of r) (existing_layers s))))
