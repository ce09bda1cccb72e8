-- ===== src/PackageManager/Safe.antt =====
-- What a pruning leaves in the cache.
use linyaps_rust.Common.{
  ◌==◌, ◌≡◌, refl, sym, ◌∙◌, Text, text_eq_iff, some, List, [], ◌∷◌, Bool, true, false, not, ◌&&◌,
  any, retain, ok, Every, Every-and, Member, tree_get, inl, inr, Bool-cases, arith,
}
use linyaps_rust.Architecture.{Architecture, show_architecture}
use linyaps_rust.Version.V2.{Semver}
use linyaps_rust.Version.Parse.{show_version}
use linyaps_rust.Reference.{Reference, show_reference}
use linyaps_rust.Cache.{RepositoryCacheLayersItem, RepositoryCacheStore, Write}
use linyaps_rust.Local.{first_is, is_module_of, reference_from_info}
use linyaps_rust.Local.Found.{Describes, reference_from_info-ok}
use linyaps_rust.Local.Remove.{Ostree, LocalRepository}
use linyaps_rust.PackageManager.Prune.{PruneTarget, Targets, Machine, prune_targets}
use linyaps_rust.PackageManager.Pruned.{any-retain}
use linyaps_rust.PackageManager.Needed.{is_needed, prune_targets_keep}
use linyaps_rust.PackageManager.Removal.{is_pruned, prune_layers, prune_layers-other}
use linyaps_rust.PackageManager.Entries.{IsKeyed, Every-tree_get, AreTargets-prune_targets}

same_architecture :
    (arch : List Text) (a b : Architecture)
    → first_is arch a ≡ true
    → first_is arch b ≡ true
    → show_architecture a ≡ show_architecture b
unfolding first_is
same_architecture [] a b h k = absurd (ground arith)
same_architecture (s ∷ rest) a b h k =
    sym ((text_eq_iff s (show_architecture a)).0 h) ∙ (text_eq_iff s (show_architecture b)).0 k

same_print :
    (a b : Reference)
    → a.channel ≡ b.channel
    → a.id ≡ b.id
    → show_version a.version ≡ show_version b.version
    → show_architecture a.architecture ≡ show_architecture b.architecture
    → show_reference a ≡ show_reference b
unfolding show_reference
same_print a b c i v h = rw (c, i, v, h) refl

-- A layer of a package prints as the package.
is_module_of-show_reference :
    {R : Type 0} (semver : Semver) (x : RepositoryCacheLayersItem R) (r q : Reference)
    → Describes semver x.info r
    → show_version r.version ≡ x.info.version
    → is_module_of q x ≡ true
    → show_reference q ≡ show_reference r
unfolding is_module_of
is_module_of-show_reference semver x r q d v h =
    same_print q r (sym ((text_eq_iff x.info.channel q.channel).0 (ground arith)) ∙ d.same_channel)
      (sym ((text_eq_iff x.info.id q.id).0 (ground arith)) ∙ d.same_id)
      (sym ((text_eq_iff x.info.version (show_version q.version)).0 (ground arith)) ∙ sym v)
      (same_architecture x.info.arch q.architecture r.architecture (ground arith)
        d.same_architecture)

module _ {R : Type 0} (semver : Semver) (machine : Machine) where
  kept_entries :
      (s : RepositoryCacheStore R) (targets ts : Targets R) (x : RepositoryCacheLayersItem R)
      (r : Reference)
      → prune_targets semver machine s ≡ ok targets
      → Describes semver x.info r
      → show_version r.version ≡ x.info.version
      → is_needed semver machine s (show_reference r) ≡ true
      → Every (λ (e : Text × PruneTarget R). (tree_get e.0 targets ≡ some e.1) × IsKeyed e) ts
      → is_pruned ts x ≡ false
  unfolding is_pruned
  kept_entries s targets [] x r h d v n every = refl
  kept_entries s targets ((k, t) ∷ ts) x r h d v n every =
      elim (Bool-cases (t.references == 0 && is_module_of t.reference x)) [
        | inr e ↦ rw e (kept_entries s targets ts x r h d v n every.1)
        | inl e ↦
            let same : k ≡ show_reference r =
              every.0.1 ∙ is_module_of-show_reference semver x r t.reference d v (ground arith) in
            let (u, f, one) = prune_targets_keep semver machine s (show_reference r) targets h n in
            let g = rw same at every.0.0 in
            let q : u ≡ t = (let p = sym f ∙ g in ground arith) in
            let l = rw q at one in
            let z : t.references ≡ 0 = ground arith in absurd (omega (arith, l, z))
      ]

  is_needed-is_pruned :
      (s : RepositoryCacheStore R) (targets : Targets R) (x : RepositoryCacheLayersItem R)
      (r : Reference)
      → prune_targets semver machine s ≡ ok targets
      → reference_from_info semver x.info ≡ ok r
      → show_version r.version ≡ x.info.version
      → is_needed semver machine s (show_reference r) ≡ true
      → is_pruned targets x ≡ false
  is_needed-is_pruned s targets x r h e v n =
      let a = AreTargets-prune_targets semver machine s targets h in
      kept_entries s targets targets x r h (reference_from_info-ok semver x.info r e) v n
        (Every-and _ _ targets (Every-tree_get targets a.sorted) a.keyed)

any-kept :
    {A : Type 0} (p q : A → Bool) (xs : List A) → any q (retain p xs) ≡ true → any q xs ≡ true
any-kept p q [] h = h
any-kept p q (x ∷ xs) h = elim (Bool-cases (p x)) [
  | inl e ↦ let k = rw e at h in ground (arith, any-kept p q xs)
  | inr e ↦ let k = any-kept p q xs (rw e at h) in ground arith
]

Member-kept :
    {A : Type 0} (p : A → Bool) (xs ys : List A) (x : A)
    → retain p xs ≡ retain p ys
    → p x ≡ true
    → Member ys x
    → Member xs x
Member-kept p xs ys x e h m q t =
    let there = any-retain p q ys (m (λ y. p y && q y) (rw (h, t) refl)) in
    any-kept p q xs (rw (← e) at there)

-- A pruning leaves a layer in the cache, whatever the writes and the OSTree library do, where an
-- application uses its package or the first main layer of its package is an application, and where the
-- version of the layer is stored as it is printed.
pub prune_layers-Member :
    {R O : Type 0} (semver : Semver) (machine : Machine) (ostree : Ostree O)
    (w : Reference → Text → Write R) (s : LocalRepository R O) (targets : Targets R)
    (x : RepositoryCacheLayersItem R) (r : Reference)
    → prune_targets semver machine s.cache ≡ ok targets
    → Member s.cache.data_now.layers x
    → reference_from_info semver x.info ≡ ok r
    → show_version r.version ≡ x.info.version
    → is_needed semver machine s.cache (show_reference r) ≡ true
    → Member (prune_layers semver ostree w s targets).repository.cache.data_now.layers x
prune_layers-Member semver machine ostree w s targets x r h m e v n =
    Member-kept (λ y. not (is_pruned targets y))
      (prune_layers semver ostree w s targets).repository.cache.data_now.layers
      s.cache.data_now.layers x (prune_layers-other semver ostree w s targets)
      (rw (is_needed-is_pruned semver machine s.cache targets x r h e v n) refl) m
