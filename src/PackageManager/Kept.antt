-- ===== src/PackageManager/Kept.antt =====
-- The packages that a pruning keeps: the counts of references, and where dependencies come from.
use linyaps_rust.Common.{
  ◌≡◌, refl, ap, sym, ◌∙◌, Text, codes, Option, none, some, List, [], ◌∷◌, ◌++◌, if◌then◌else◌,
  Result, ok, err, inl, inr, Bool-cases,
}
use linyaps_rust.Version.V2.{Semver}
use linyaps_rust.Reference.{Reference}
use linyaps_rust.Cache.{
  PackageInfoV2, ExtensionDefine, RepositoryCacheLayersItem, RepositoryCacheStore,
}
use linyaps_rust.Local.{RepositoryError, layer_item}
use linyaps_rust.PackageManager.Prune.{
  Targets, Machine, is_app, touch_prune_target, touch_some, resolve_extension, scan_extension_list,
  scan_extension_values, scan_found, scan_prune_extensions, scan_dependency, runtime_of, base_of,
  scan_app, scan_apps,
}
use linyaps_rust.PackageManager.Count.{touch_all, touch_all-append}

abbrev pub listed {ℓ} : {A : Type ℓ} → Option A → List A
listed none = []
listed (some a) = a ∷ []

module _ {R : Type 0} (semver : Semver) (machine : Machine) (s : RepositoryCacheStore R) where
  -- Everything that the applications use, in order: the runtime and its extensions, the base and its
  -- extensions, and the extensions of the application, each as the layer that its request resolves to.
  abbrev pub used_list : List ExtensionDefine → Text → List Reference
  used_list [] channel = []
  used_list (e ∷ es) channel =
      listed (resolve_extension semver machine s channel e) ++ used_list es channel

  abbrev pub used_values : Option (List ExtensionDefine) → Text → List Reference
  used_values none channel = []
  used_values (some es) channel = used_list es channel

  abbrev pub used_found :
      Result RepositoryError (RepositoryCacheLayersItem R) → Text → List Reference
  used_found (err e) channel = []
  used_found (ok item) channel = used_values item.info.extensions channel

  abbrev pub used_dependency : Option Reference → Text → List Reference
  used_dependency none channel = []
  used_dependency (some r) channel = r ∷ used_found (layer_item s r (codes "binary")) channel

  unfoldable pub used_by : PackageInfoV2 R → List Reference
  used_by info =
      used_dependency (runtime_of semver machine s info) info.channel
      ++ (used_dependency (base_of semver machine s info) info.channel
          ++ used_values info.extensions info.channel)

  unfoldable pub used_by_apps : List (RepositoryCacheLayersItem R) → List Reference
  unfolding used_by is_app
  used_by_apps [] = []
  used_by_apps (x ∷ xs) =
      if is_app x.info then used_by x.info ++ used_by_apps xs else used_by_apps xs

  touch_some_all :
      (targets : Targets R) (o : Option Reference)
      → touch_some s targets o ≡ touch_all s targets (listed o)
  unfolding touch_some
  touch_some_all targets none = refl
  touch_some_all targets (some r) = refl

  scan_extension_list_all :
      (targets : Targets R) (es : List ExtensionDefine) (channel : Text)
      → scan_extension_list semver machine s targets es channel
        ≡ touch_all s targets (used_list es channel)
  unfolding scan_extension_list
  scan_extension_list_all targets [] channel = refl
  scan_extension_list_all targets (e ∷ es) channel =
      let o = resolve_extension semver machine s channel e in
      scan_extension_list_all (touch_some s targets o) es channel
      ∙ ap (λ t. touch_all s t (used_list es channel)) (touch_some_all targets o)
      ∙ sym (touch_all-append s targets (listed o) (used_list es channel))

  scan_extension_values_all :
      (targets : Targets R) (es : Option (List ExtensionDefine)) (channel : Text)
      → scan_extension_values semver machine s targets es channel
        ≡ touch_all s targets (used_values es channel)
  unfolding scan_extension_values
  scan_extension_values_all targets none channel = refl
  scan_extension_values_all targets (some es) channel = scan_extension_list_all targets es channel

  scan_found_all :
      (targets : Targets R) (o : Result RepositoryError (RepositoryCacheLayersItem R))
      (channel : Text)
      → scan_found semver machine s targets channel o ≡ touch_all s targets (used_found o channel)
  unfolding scan_found
  scan_found_all targets (err e) channel = refl
  scan_found_all targets (ok item) channel =
      scan_extension_values_all targets item.info.extensions channel

  scan_dependency_all :
      (targets : Targets R) (o : Option Reference) (channel : Text)
      → scan_dependency semver machine s targets channel o
        ≡ touch_all s targets (used_dependency o channel)
  unfolding scan_dependency scan_prune_extensions
  scan_dependency_all targets none channel = refl
  scan_dependency_all targets (some r) channel =
      scan_found_all (touch_prune_target s targets r) (layer_item s r (codes "binary")) channel

  scan_app_all :
      (targets : Targets R) (info : PackageInfoV2 R)
      → scan_app semver machine s targets info ≡ touch_all s targets (used_by info)
  unfolding scan_app used_by
  scan_app_all targets info =
      let c = info.channel in
      let runtime = used_dependency (runtime_of semver machine s info) c in
      let base = used_dependency (base_of semver machine s info) c in
      let own = used_values info.extensions c in
      rw
        (
          scan_dependency_all targets (runtime_of semver machine s info) c,
          scan_dependency_all (touch_all s targets runtime) (base_of semver machine s info) c,
          scan_extension_values_all (touch_all s (touch_all s targets runtime) base) info.extensions
              c,
        )
        (sym (
          touch_all-append s targets runtime (base ++ own)
          ∙ touch_all-append s (touch_all s targets runtime) base own))

  pub scan_apps_all :
      (targets : Targets R) (xs : List (RepositoryCacheLayersItem R))
      → scan_apps semver machine s targets xs ≡ touch_all s targets (used_by_apps xs)
  unfolding scan_apps used_by_apps
  scan_apps_all targets [] = refl
  scan_apps_all targets (x ∷ xs) = elim (Bool-cases (is_app x.info)) [
    | inl e ↦
        rw
          (
            e,
            scan_apps_all (scan_app semver machine s targets x.info) xs,
            scan_app_all targets x.info,
          )
          (sym (touch_all-append s targets (used_by x.info) (used_by_apps xs)))
    | inr e ↦ rw e (scan_apps_all targets xs)
  ]
