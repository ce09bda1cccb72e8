-- ===== src/PackageManager/Needed.antt =====
-- Which packages a pruning removes.
use linyaps_rust.Common.{
  find, ◌+◌, ◌≤◌, ◌≡◌, ◌↔◌, refl, ap, sym, ◌∙◌, Text, codes, text_eq, text_eq_iff, Option, none,
  some, List, [], ◌∷◌, ◌++◌, Bool, true, false, ◌||◌, any, Result, ok, err, bind-succeeds, is_empty,
  tree_get, Every, inl, inr, Bool-cases, arith,
}
use linyaps_rust.Version.V2.{Semver}
use linyaps_rust.Reference.{Reference, FuzzyReference, fuzzy_from, show_reference}
use linyaps_rust.Cache.{
  PackageInfoV2, ExtensionDefine, RepositoryCacheLayersItem, RepositoryCacheStore,
}
use linyaps_rust.Local.{reference_from_info, RepositoryError, resolve_local, layer_item}
use linyaps_rust.PackageManager.{to_option}
use linyaps_rust.PackageManager.Prune.{
  PruneTarget, Targets, Machine, main_layers, is_app, and_then, with_context, extension_fuzzy,
  resolve_prune_dependency, resolve_extension, runtime_of, base_of, seed_targets, scan_apps,
  prune_targets,
}
use linyaps_rust.PackageManager.Count.{bit, uses, counted, tree_get-touch_all, tree_get-untouched}
use linyaps_rust.PackageManager.Kept.{
  listed, used_list, used_values, used_found, used_dependency, used_by, used_by_apps, scan_apps_all,
}
use linyaps_rust.PackageManager.Pruned.{
  is_key, first_target-find, first_target, first_target-references, tree_get-seed_targets,
  resolved_first,
}

abbrev pub app_target : {R : Type 0} → Option (PruneTarget R) → Bool
unfolding is_app
app_target none = false
app_target (some t) = is_app t.info

-- A list that has a key counts it.
any-uses :
    (k : Text) (rs : List Reference)
    → (any (λ r. text_eq k (show_reference r)) rs ≡ true) ↔ (1 ≤ uses k rs)
unfolding uses
any-uses k [] = ground arith
any-uses k (r ∷ rs) = ground (arith, any-uses k rs)

Every-append :
    (P : Reference → Type 0) (xs ys : List Reference) → Every P xs → Every P ys → Every P (xs ++ ys)
Every-append P [] ys h k = k
Every-append P (x ∷ xs) ys h k = (h.0, Every-append P xs ys h.1 k)

Every-key :
    (P : Reference → Type 0) (k : Text) (rs : List Reference)
    → Every P rs
    → any (λ r. text_eq k (show_reference r)) rs ≡ true
    → (r : Reference) × P r × (k ≡ show_reference r)
Every-key P k [] h e = absurd (ground arith)
Every-key P k (r ∷ rs) h e = elim (Bool-cases (text_eq k (show_reference r))) [
  | inl hit ↦ (r, h.0, (text_eq_iff k (show_reference r)).0 hit)
  | inr miss ↦ Every-key P k rs h.1 (rw miss at e)
]

to_option-some : {E A : Type 0} (m : Result E A) (a : A) → to_option m ≡ some a → m ≡ ok a
to_option-some (ok b) a h = ground arith
to_option-some (err e) a h = absurd (ground arith)

and_then-some :
    {A B : Type 0} (o : Option A) (f : A → Option B) (b : B)
    → and_then o f ≡ some b
    → (a : A) × (f a ≡ some b)
and_then-some none f b h = absurd (ground arith)
and_then-some (some a) f b h = (a, h)

module _ {R : Type 0} (semver : Semver) (machine : Machine) (s : RepositoryCacheStore R) where
  abbrev IsResolved : Reference → Type 0
  IsResolved r = (fuzzy : FuzzyReference) × (resolve_local semver s fuzzy true ≡ ok r)

  Every-listed :
      (o : Option Reference)
      → ((r : Reference) → o ≡ some r → IsResolved r)
      → Every IsResolved (listed o)
  Every-listed none f = tt
  Every-listed (some r) f = (f r refl, tt)

  dependency-IsResolved :
      (raw channel : Text) (r : Reference)
      → resolve_prune_dependency semver machine s raw channel ≡ some r
      → IsResolved r
  unfolding resolve_prune_dependency
  dependency-IsResolved raw channel r h =
      let (parsed, g) = and_then-some (to_option (fuzzy_from raw)) _ r h in
      (with_context machine channel parsed, to_option-some _ r g)

  extension-IsResolved :
      (channel : Text) (e : ExtensionDefine) (r : Reference)
      → resolve_extension semver machine s channel e ≡ some r
      → IsResolved r
  unfolding resolve_extension
  extension-IsResolved channel e r h =
      let (fuzzy, g) = and_then-some (extension_fuzzy machine channel e) _ r h in
      (fuzzy, to_option-some _ r g)

  Every-used_list :
      (es : List ExtensionDefine) (channel : Text)
      → Every IsResolved (used_list semver machine s es channel)
  Every-used_list [] channel = tt
  Every-used_list (e ∷ es) channel =
      let o = resolve_extension semver machine s channel e in
      Every-append IsResolved (listed o) (used_list semver machine s es channel)
        (Every-listed o (extension-IsResolved channel e)) (Every-used_list es channel)

  Every-used_values :
      (es : Option (List ExtensionDefine)) (channel : Text)
      → Every IsResolved (used_values semver machine s es channel)
  Every-used_values none channel = tt
  Every-used_values (some es) channel = Every-used_list es channel

  Every-used_found :
      (o : Result RepositoryError (RepositoryCacheLayersItem R)) (channel : Text)
      → Every IsResolved (used_found semver machine s o channel)
  Every-used_found (err e) channel = tt
  Every-used_found (ok item) channel = Every-used_values item.info.extensions channel

  Every-used_dependency :
      (o : Option Reference) (channel : Text)
      → ((r : Reference) → o ≡ some r → IsResolved r)
      → Every IsResolved (used_dependency semver machine s o channel)
  Every-used_dependency none channel f = tt
  Every-used_dependency (some r) channel f =
      (f r refl, Every-used_found (layer_item s r (codes "binary")) channel)

  runtime-IsResolved :
      (info : PackageInfoV2 R) (r : Reference)
      → runtime_of semver machine s info ≡ some r
      → IsResolved r
  unfolding runtime_of
  runtime-IsResolved info r h =
      let (raw, g) = and_then-some info.runtime _ r h in dependency-IsResolved raw info.channel r g

  base-IsResolved :
      (info : PackageInfoV2 R) (r : Reference)
      → base_of semver machine s info ≡ some r
      → IsResolved r
  unfolding base_of
  base-IsResolved info r h = elim (Bool-cases (is_empty info.base)) [
    | inl e ↦ absurd (ground arith)
    | inr e ↦ dependency-IsResolved info.base info.channel r (rw e at h)
  ]

  Every-used_by_apps :
      (xs : List (RepositoryCacheLayersItem R))
      → Every IsResolved (used_by_apps semver machine s xs)
  unfolding used_by_apps used_by
  Every-used_by_apps [] = tt
  Every-used_by_apps (x ∷ xs) = elim (Bool-cases (is_app x.info)) [
    | inr e ↦ rw e (Every-used_by_apps xs)
    | inl e ↦ rw e (
        Every-append IsResolved (used_by semver machine s x.info) (used_by_apps semver machine s xs)
          (Every-append IsResolved _ _
            (Every-used_dependency (runtime_of semver machine s x.info) x.info.channel
              (runtime-IsResolved x.info))
            (Every-append IsResolved _ _
              (Every-used_dependency (base_of semver machine s x.info) x.info.channel
                (base-IsResolved x.info))
              (Every-used_values x.info.extensions x.info.channel)))
          (Every-used_by_apps xs))
  ]

  -- The keys that a pruning keeps.
  unfoldable pub is_needed : Text → Bool
  unfolding used_by_apps app_target text_eq show_reference first_target main_layers
  is_needed k =
      any (λ r. text_eq k (show_reference r)) (used_by_apps semver machine s (main_layers s))
      || app_target (first_target semver k (main_layers s))

  counted_target :
      (k : Text) (t : PruneTarget R) (targets : Targets R)
      → prune_targets semver machine s ≡ ok targets
      → first_target semver k (main_layers s) ≡ some t
      → tree_get k targets
        ≡ some (counted t (uses k (used_by_apps semver machine s (main_layers s))))
  unfolding prune_targets
  counted_target k t targets h f =
      let (seeds, g, e) = bind-succeeds _ (seed_targets semver [] (main_layers s)) h in
      let same : scan_apps semver machine s seeds (main_layers s) ≡ targets = ground arith in
      rw (← same, scan_apps_all semver machine s seeds (main_layers s))
        (tree_get-touch_all s k seeds (used_by_apps semver machine s (main_layers s)) t
          (tree_get-seed_targets semver k [] seeds (main_layers s) e ∙ f))

  -- The count on which a pruning decides: a package with a main layer has a target, with the description
  -- of its first main layer, which counts one if this layer is an application, and one for each time that
  -- an application uses the package.
  pub prune_targets-count :
      (k : Text) (x : RepositoryCacheLayersItem R) (targets : Targets R)
      → prune_targets semver machine s ≡ ok targets
      → find (λ y. is_key k (reference_from_info semver y.info)) (main_layers s) ≡ some x
      → (t : PruneTarget R) × (tree_get k targets ≡ some t)
        × (show_reference t.reference ≡ k)
        × (t.info ≡ x.info)
        × (t.references
            ≡ bit (text_eq x.info.kind (codes "app"))
              + uses k (used_by_apps semver machine s (main_layers s)))
  unfolding is_app
  prune_targets-count k x targets h f =
      let (t, first, described, printed) = first_target-find semver k (main_layers s) x f in
      let one = first_target-references semver k (main_layers s) t first in
      (
        counted t (uses k (used_by_apps semver machine s (main_layers s))),
        counted_target k t targets h first,
        printed,
        described,
        ap (λ n. n + uses k (used_by_apps semver machine s (main_layers s)))
            (one ∙ ap (λ (i : PackageInfoV2 R). bit (text_eq i.kind (codes "app"))) described),
      )

  tree_get-unused :
      (k : Text) (targets : Targets R)
      → prune_targets semver machine s ≡ ok targets
      → uses k (used_by_apps semver machine s (main_layers s)) ≡ 0
      → tree_get k targets ≡ first_target semver k (main_layers s)
  unfolding prune_targets
  tree_get-unused k targets h z =
      let (seeds, g, e) = bind-succeeds _ (seed_targets semver [] (main_layers s)) h in
      let same : scan_apps semver machine s seeds (main_layers s) ≡ targets = ground arith in
      rw (← same, scan_apps_all semver machine s seeds (main_layers s))
        (tree_get-untouched s k seeds (used_by_apps semver machine s (main_layers s)) z
          ∙ tree_get-seed_targets semver k [] seeds (main_layers s) e)

  -- A pruning counts at least one for every package whose first main layer is an application, and for
  -- everything that an application uses, whatever is installed.
  pub prune_targets_keep :
      (k : Text) (targets : Targets R)
      → prune_targets semver machine s ≡ ok targets
      → is_needed k ≡ true
      → (t : PruneTarget R) × (tree_get k targets ≡ some t) × (1 ≤ t.references)
  unfolding is_needed
  prune_targets_keep k targets h n =
      elim (Bool-cases (any (λ r. text_eq k (show_reference r)) used)) [
        | inl e ↦
            let (r, (fuzzy, g), same) =
              Every-key IsResolved k used (Every-used_by_apps (main_layers s)) e in
            let (t, f) = resolved_first semver s fuzzy r g in
            let many = (any-uses k used).0 e in
            (counted t (uses k used), counted_target k t targets h (rw same f), omega (arith, many))
        | inr e ↦
            let (t, f, a) = has_app (first_target semver k (main_layers s)) (rw e at n) in
            let one = first_target-references semver k (main_layers s) t f in
            (
              counted t (uses k used),
              counted_target k t targets h f,
              (let b : bit (is_app t.info) ≡ 1 = rw a refl in omega (arith, one, b)),
            )
      ]
    where
      used : List Reference
      used = used_by_apps semver machine s (main_layers s)

      has_app :
          (o : Option (PruneTarget R))
          → app_target o ≡ true
          → (t : PruneTarget R) × (o ≡ some t) × (is_app t.info ≡ true)
      has_app none e = absurd (ground arith)
      has_app (some t) e = (t, refl, e)

  -- The count of a target is zero, so that its package is removed, exactly where its first main layer is
  -- no application and no application uses it.
  pub prune_targets_iff :
      (k : Text) (t : PruneTarget R) (targets : Targets R)
      → prune_targets semver machine s ≡ ok targets
      → tree_get k targets ≡ some t
      → (t.references ≡ 0) ↔ (is_needed k ≡ false)
  unfolding is_needed
  prune_targets_iff k t targets h f = (
    λ z. elim (Bool-cases (is_needed k)) [
      | inr e ↦ e
      | inl e ↦
          let (u, g, one) = prune_targets_keep k targets h e in
          let same : u ≡ t = (let q = sym g ∙ f in ground arith) in
          absurd (let l = rw same at one in omega (arith, l, z))
    ],
    λ n.
        let z : uses k (used_by_apps semver machine s (main_layers s)) ≡ 0 =
          (let a = any-uses k (used_by_apps semver machine s (main_layers s)) in ground arith) in
        let first = sym (tree_get-unused k targets h z) ∙ f in
        let one = first_target-references semver k (main_layers s) t first in
        let app : is_app t.info ≡ false = (let m = rw first at n in ground arith) in
        one ∙ ap bit app,
  )
