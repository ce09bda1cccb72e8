-- ===== src/PackageManager/Tests.antt =====
-- Tests of the package manager's decisions, and instances of the theorems.
use linyaps_rust.Common.{
  find, text_eq, ◌+◌, ℕ, ◌≤◌, ◌≡◌, ◌↔◌, refl, Text, codes, none, some, [], ◌∷◌, true, false, ok,
  pos, tree_get, Every, Member, arith,
}
use linyaps_rust.Architecture.{Architecture, x86_64}
use linyaps_rust.Version.{parse_numeric, show_u64, show_fuel}
use linyaps_rust.Version.V2.{parse_v2, semantic_match_v2, show_v2}
use linyaps_rust.Version.Parse.{show_version, parse_version, parse_with_options, v2}
use linyaps_rust.Version.Tests.{numbers_only, parse_three}
use linyaps_rust.Reference.{
  Reference, fuzzy_from, channel_and_rest, given_part, optional_architecture, show_reference,
}
use linyaps_rust.Cache.{
  PackageInfoV2, RepositoryCacheLayersItem, RepositoryCacheStore, empty_store, written,
}
use linyaps_rust.Local.{reference_from_info}
use linyaps_rust.PackageManager.{available_install_modules}
use linyaps_rust.PackageManager.Bundle.{
  UabLayer, FitsBundle, validate_uab_layout, validate_uab_layout-FitsBundle,
}
use linyaps_rust.PackageManager.Prune.{
  runtime_of, base_of, PruneTarget, Machine, Targets, main_layers, prune_targets,
}
use linyaps_rust.PackageManager.Count.{bit, uses}
use linyaps_rust.PackageManager.Kept.{used_by_apps}
use linyaps_rust.PackageManager.Pruned.{is_key}
use linyaps_rust.PackageManager.Needed.{
  is_needed, prune_targets-count, prune_targets_keep, prune_targets_iff,
}
use linyaps_rust.PackageManager.Removal.{prune_layers}
use linyaps_rust.PackageManager.Safe.{prune_layers-Member}
use linyaps_rust.Local.Tests.{one_ref}

abbrev info : Text → Text → Text → PackageInfoV2 (Unit {0})
info id kind base = record {
  arch = codes "x86_64" ∷ [];
  base = base;
  channel = codes "main";
  extensions = none;
  id = id;
  kind = kind;
  module_name = codes "binary";
  runtime = none;
  version = codes "1.0.0";
  others = tt;
}

abbrev layer : PackageInfoV2 (Unit {0}) → RepositoryCacheLayersItem (Unit {0})
layer i = record { commit = codes "c"; deleted = none; info = i; repo = codes "stable" }

abbrev app : PackageInfoV2 (Unit {0})
app = info (codes "a") (codes "app") (codes "b/1.0.0")

abbrev base : PackageInfoV2 (Unit {0})
base = info (codes "b") (codes "base") []

abbrev unused : PackageInfoV2 (Unit {0})
unused = info (codes "c") (codes "base") []

-- An application, its base and another base that nothing uses.
abbrev store : RepositoryCacheStore (Unit {0})
store =
    let empty : RepositoryCacheStore (Unit {0}) =
      empty_store (record { default_repo = codes "stable"; repos = []; version = pos 2 })
        (codes "1") in
    record empty {
      data_now = record empty.data_now { layers = layer app ∷ layer base ∷ layer unused ∷ [] };
    }

abbrev machine : Machine
machine = record { architecture = ok x86_64; driver_version = none }

abbrev at_one : Text → Reference
at_one id = record {
  channel = codes "main";
  id = id;
  version = v2 (record {
    major = 1;
    minor = 0;
    patch = 0;
    prerelease = [];
    build_metadata = [];
    security = 0;
    has_patch = true;
  });
  architecture = x86_64;
}

abbrev target : PackageInfoV2 (Unit {0}) → ℕ → PruneTarget (Unit {0})
target i n = record { info = i; reference = at_one i.id; references = n }

abbrev key : Text → Text
key id = show_reference (at_one id)

abbrev targets : Targets (Unit {0})
targets =
    (codes "main:a/1.0.0/x86_64", target app 1)
    ∷ (codes "main:b/1.0.0/x86_64", target base 1)
    ∷ (codes "main:c/1.0.0/x86_64", target unused 0)
    ∷ []

counts : prune_targets numbers_only machine store ≡ ok targets
unfolding prune_targets parse_v2 numbers_only parse_three parse_numeric parse_version
    parse_with_options fuzzy_from channel_and_rest given_part optional_architecture
    semantic_match_v2 show_v2
counts = refl

abbrev base_key : Text
base_key = codes "main:b/1.0.0/x86_64"

abbrev unused_key : Text
unused_key = codes "main:c/1.0.0/x86_64"

base_needed : is_needed numbers_only machine store base_key ≡ true
unfolding is_needed parse_v2 numbers_only parse_three parse_numeric parse_version parse_with_options
    fuzzy_from channel_and_rest given_part optional_architecture semantic_match_v2 show_v2
    runtime_of base_of
base_needed = refl

unused_found : tree_get unused_key targets ≡ some (target unused 0)
unfolding tree_get
unused_found = refl

base_first :
    find
      (λ (y : RepositoryCacheLayersItem (Unit {0})).
        is_key base_key (reference_from_info numbers_only y.info))
      (main_layers store)
    ≡ some (layer base)
unfolding is_key main_layers parse_v2 numbers_only parse_three parse_numeric parse_version
    parse_with_options show_v2 reference_from_info
base_first = refl

prune_targets-count_example :
    (t : PruneTarget (Unit {0})) × (tree_get base_key targets ≡ some t)
    × (show_reference t.reference ≡ base_key)
    × (t.info ≡ base)
    × (t.references
        ≡ bit (text_eq base.kind (codes "app"))
          + uses base_key (used_by_apps numbers_only machine store (main_layers store)))
prune_targets-count_example =
    prune_targets-count numbers_only machine store base_key (layer base) targets counts base_first

prune_targets_keep_example :
    (t : PruneTarget (Unit {0})) × (tree_get base_key targets ≡ some t) × (1 ≤ t.references)
prune_targets_keep_example =
    prune_targets_keep numbers_only machine store base_key targets counts base_needed

prune_targets_iff_example :
    ((target unused 0).references ≡ 0) ↔ (is_needed numbers_only machine store unused_key ≡ false)
prune_targets_iff_example =
    prune_targets_iff numbers_only machine store unused_key (target unused 0) targets counts
      unused_found

abbrev develop : UabLayer (Unit {0})
develop = record { info = record app { module_name = codes "develop" }; minified = false }

abbrev binary : UabLayer (Unit {0})
binary = record { info = app; minified = false }

validate_uab_layout_example :
    (a : Architecture) × (machine.architecture ≡ ok a)
    × Every (FitsBundle a binary) (binary ∷ develop ∷ [])
unfolding validate_uab_layout
validate_uab_layout_example =
    validate_uab_layout-FitsBundle machine.architecture binary (develop ∷ [])
      (binary ∷ develop ∷ []) [] refl

-- The main module goes by two names.
installs_runtime :
    available_install_modules
      (codes "binary" ∷ codes "develop" ∷ codes "runtime" ∷ [])
      (codes "runtime" ∷ codes "develop" ∷ [])
    ≡ codes "runtime" ∷ codes "develop" ∷ []
unfolding available_install_modules
installs_runtime = refl

base_Member : Member store.data_now.layers (layer base)
base_Member q e = ground (arith, e)

base_reference : reference_from_info numbers_only base ≡ ok (at_one (codes "b"))
unfolding reference_from_info parse_v2 numbers_only parse_three parse_numeric parse_version
    parse_with_options
base_reference = refl

base_print : show_version (at_one (codes "b")).version ≡ base.version
unfolding show_version show_v2 show_u64 show_fuel
base_print = refl

base_key_needed : is_needed numbers_only machine store (key (codes "b")) ≡ true
unfolding show_reference show_version show_v2 show_u64 show_fuel
base_key_needed = base_needed

prune_layers-Member_example :
    Member
      (prune_layers numbers_only one_ref
        (λ r name. written)
        (record { cache = store; repo = λ name. some (codes "c") })
        targets).repository.cache.data_now.layers
      (layer base)
prune_layers-Member_example =
    prune_layers-Member numbers_only machine one_ref (λ r name. written)
      (record { cache = store; repo = λ name. some (codes "c") }) targets (layer base)
      (at_one (codes "b")) counts base_Member base_reference base_print base_key_needed

-- The base that nothing uses is gone, and the other packages are reserved.
prunes :
    (prune_layers numbers_only one_ref
      (λ r name. written)
      (record { cache = store; repo = λ name. some (codes "c") })
      targets).repository.cache.data_now.layers
    ≡ layer app ∷ layer base ∷ []
unfolding prune_layers parse_v2 numbers_only parse_three parse_numeric parse_version
    parse_with_options show_v2
prunes = refl
