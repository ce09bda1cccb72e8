-- ===== src/PackageManager/Prune.antt =====
-- Which packages a pruning removes (apps/ll-package-manager/src/operations.rs, from `PruneTarget` to
-- `enabled_extension_name`): the counts of references.
use linyaps_rust.Common.{
  ℕ, ◌+◌, ◌==◌, Text, codes, text_eq, Option, none, some, List, [], ◌∷◌, ◌++◌, Bool, true, not,
  retain, map, if◌then◌else◌, Result, ok, err, map_err, ◌>>=◌, is_empty, negsuc, tree_get,
  tree_insert,
}
use linyaps_rust.Architecture.{Architecture}
use linyaps_rust.Version.V2.{Semver}
use linyaps_rust.Reference.{Reference, FuzzyReference, fuzzy_from, new_fuzzy, show_reference}
use linyaps_rust.Cache.{
  PackageInfoV2, ExtensionDefine, RepositoryCacheLayersItem, RepositoryCacheStore, existing_layers,
}
use linyaps_rust.Local.{RepositoryError, is_main, resolve_local, layer_item, reference_from_info}
use linyaps_rust.Local.Ini.{trim}
use linyaps_rust.PackageManager.{
  OperationError, operation_error, of_repository, to_option, non_empty, or_channel,
}

-- `references` counts entries of lists in memory, which are fewer than a `usize` holds.
pub record PruneTarget (R : Type 0) : Type 0 where
  pub info : PackageInfoV2 R
  pub reference : Reference
  pub references : ℕ

abbrev pub Targets : Type 0 → Type 0
Targets R = List (Text × PruneTarget R)

-- What the code asks of the machine: `Architecture::current`, and the text of
-- `/sys/module/nvidia/version` if it can be read.
pub record Machine : Type 0 where
  pub architecture : Result Text Architecture
  pub driver_version : Option Text

abbrev pub and_then {ℓ κ} : {A : Type ℓ} {B : Type κ} → Option A → (A → Option B) → Option B
and_then none f = none
and_then (some a) f = f a

abbrev pub nvidia : Text
nvidia = codes "org.deepin.driver.display.nvidia"

abbrev pub dashed : Text → Text
dashed s = map (λ c. if c == b'.' then b'-' else c) s

abbrev pub with_driver : Text → Text → Option Text
with_driver name [] = none
with_driver name (c ∷ s) = some (name ++ b'.' ∷ c ∷ s)

unfoldable pub enabled_extension_name : Machine → Text → Option Text
unfolding text_eq trim
enabled_extension_name machine name =
    if not (text_eq name nvidia)
    then some name
    else and_then machine.driver_version (λ content. with_driver name (dashed (trim content)))

unfoldable pub extension_fuzzy : Machine → Text → ExtensionDefine → Option FuzzyReference
unfolding enabled_extension_name
extension_fuzzy machine channel extension =
    and_then (enabled_extension_name machine extension.name) (λ name. to_option (
      new_fuzzy (non_empty channel) name (non_empty extension.version)
        (to_option machine.architecture)))

abbrev pub or_host : Machine → Option Architecture → Option Architecture
or_host machine none = to_option machine.architecture
or_host machine (some a) = some a

abbrev pub with_context : Machine → Text → FuzzyReference → FuzzyReference
with_context machine channel parsed = record parsed {
  channel = or_channel parsed.channel channel;
  architecture = or_host machine parsed.architecture;
}

abbrev pub prune_error : RepositoryError → OperationError
prune_error e = operation_error (negsuc 0) (of_repository e)

module _ {R : Type 0} where
  unfoldable pub main_layers : RepositoryCacheStore R → List (RepositoryCacheLayersItem R)
  unfolding is_main
  main_layers s = retain (λ x. is_main x.info.module_name) (existing_layers s)

  unfoldable pub is_app : PackageInfoV2 R → Bool
  unfolding text_eq
  is_app info = text_eq info.kind (codes "app")

  -- `entry(key).or_insert_with(target)`.
  unfoldable pub unless_there :
      Text → PruneTarget R → Targets R → Option (PruneTarget R) → Targets R
  unfolding tree_insert
  unless_there key target targets (some there) = targets
  unless_there key target targets none = tree_insert key target targets

  unfoldable pub new_target : PackageInfoV2 R → Reference → PruneTarget R
  unfolding is_app
  new_target info r = record {
    info = info;
    reference = r;
    references = if is_app info then 1 else 0;
  }

  unfoldable pub insert_found :
      Targets R → Reference → Result RepositoryError (RepositoryCacheLayersItem R) → Targets R
  unfolding tree_insert show_reference
  insert_found targets r (err e) = targets
  insert_found targets r (ok item) =
      tree_insert (show_reference r) (record { info = item.info; reference = r; references = 1 })
        targets

  unfoldable pub touch_found :
      RepositoryCacheStore R → Targets R → Reference → Option (PruneTarget R) → Targets R
  unfolding tree_insert show_reference layer_item insert_found
  touch_found s targets r (some target) =
      tree_insert (show_reference r) (record target { references = target.references + 1 }) targets
  touch_found s targets r none = insert_found targets r (layer_item s r (codes "binary"))

  unfoldable pub touch_prune_target : RepositoryCacheStore R → Targets R → Reference → Targets R
  unfolding tree_get show_reference touch_found
  touch_prune_target s targets r = touch_found s targets r (tree_get (show_reference r) targets)

  unfoldable pub touch_some : RepositoryCacheStore R → Targets R → Option Reference → Targets R
  unfolding touch_prune_target
  touch_some s targets none = targets
  touch_some s targets (some r) = touch_prune_target s targets r

module _ {R : Type 0} (semver : Semver) where
  unfoldable pub seed_targets :
      Targets R → List (RepositoryCacheLayersItem R) → Result OperationError (Targets R)
  unfolding reference_from_info show_reference tree_get unless_there new_target
  seed_targets targets [] = ok targets
  seed_targets targets (x ∷ xs) = do
    r ← map_err prune_error (reference_from_info semver x.info)
    seed_targets
        (unless_there (show_reference r) (new_target x.info r) targets
          (tree_get (show_reference r) targets))
        xs

module _ {R : Type 0} (semver : Semver) (machine : Machine) (s : RepositoryCacheStore R) where
  unfoldable pub resolve_prune_dependency : Text → Text → Option Reference
  unfolding fuzzy_from resolve_local
  resolve_prune_dependency raw channel =
      and_then (to_option (fuzzy_from raw))
        (λ parsed. to_option (resolve_local semver s (with_context machine channel parsed) true))

  unfoldable pub resolve_extension : Text → ExtensionDefine → Option Reference
  unfolding extension_fuzzy resolve_local
  resolve_extension channel extension =
      and_then (extension_fuzzy machine channel extension)
        (λ fuzzy. to_option (resolve_local semver s fuzzy true))

  unfoldable pub scan_extension_list : Targets R → List ExtensionDefine → Text → Targets R
  unfolding resolve_extension touch_some
  scan_extension_list targets [] channel = targets
  scan_extension_list targets (e ∷ es) channel =
      scan_extension_list (touch_some s targets (resolve_extension channel e)) es channel

  unfoldable pub scan_extension_values :
      Targets R → Option (List ExtensionDefine) → Text → Targets R
  unfolding scan_extension_list
  scan_extension_values targets none channel = targets
  scan_extension_values targets (some es) channel = scan_extension_list targets es channel

  unfoldable pub scan_found :
      Targets R → Text → Result RepositoryError (RepositoryCacheLayersItem R) → Targets R
  unfolding scan_extension_values
  scan_found targets channel (err e) = targets
  scan_found targets channel (ok item) = scan_extension_values targets item.info.extensions channel

  unfoldable pub scan_prune_extensions : Targets R → Reference → Text → Targets R
  unfolding scan_found layer_item
  scan_prune_extensions targets r channel =
      scan_found targets channel (layer_item s r (codes "binary"))

  -- The two calls on a dependency that is resolved.
  unfoldable pub scan_dependency : Targets R → Text → Option Reference → Targets R
  unfolding touch_prune_target scan_prune_extensions
  scan_dependency targets channel none = targets
  scan_dependency targets channel (some r) =
      scan_prune_extensions (touch_prune_target s targets r) r channel

  unfoldable pub runtime_of : PackageInfoV2 R → Option Reference
  unfolding resolve_prune_dependency
  runtime_of info = and_then info.runtime (λ raw. resolve_prune_dependency raw info.channel)

  unfoldable pub base_of : PackageInfoV2 R → Option Reference
  unfolding resolve_prune_dependency
  base_of info =
      if is_empty info.base then none else resolve_prune_dependency info.base info.channel

  unfoldable pub scan_app : Targets R → PackageInfoV2 R → Targets R
  unfolding runtime_of base_of scan_dependency scan_extension_values
  scan_app targets info =
      let with_runtime = scan_dependency targets info.channel (runtime_of info) in
      let with_base = scan_dependency with_runtime info.channel (base_of info) in
      scan_extension_values with_base info.extensions info.channel

  unfoldable pub scan_apps : Targets R → List (RepositoryCacheLayersItem R) → Targets R
  unfolding scan_app is_app
  scan_apps targets [] = targets
  scan_apps targets (x ∷ xs) =
      if is_app x.info then scan_apps (scan_app targets x.info) xs else scan_apps targets xs

  -- The counts on which `prune_unused` decides.
  unfoldable pub prune_targets : Result OperationError (Targets R)
  unfolding main_layers seed_targets scan_apps
  prune_targets = do
    seeds ← seed_targets semver [] (main_layers s)
    ok (scan_apps seeds (main_layers s))
