-- ===== src/PackageManager/Pruned.antt =====
-- What a pruning decides: the count of a package, and that no dependency of an application is removed.
use linyaps_rust.Common.{
  ◌≡◌, refl, ap, sym, ◌∙◌, Text, text_eq, text_eq_iff, text_eq_refl, Option, none, some, List, [],
  ◌∷◌, Bool, true, false, ◌&&◌, ◌||◌, any, retain, find, if◌then◌else◌, Result, ok, err, map_err,
  bind-succeeds, tree_get, tree_get-insert, inl, inr, Bool-cases, arith,
}
use linyaps_rust.Version.V2.{Semver}
use linyaps_rust.Reference.{Reference, FuzzyReference, show_reference}
use linyaps_rust.Cache.{RepositoryCacheLayersItem, RepositoryCacheStore, existing_layers}
use linyaps_rust.Local.{RepositoryError, is_main, is_candidate, resolve_local, reference_from_info}
use linyaps_rust.Local.Resolve.{resolve_local-ok, Chosen-IsCandidate, map_err-ok}
use linyaps_rust.PackageManager.Prune.{
  PruneTarget, Targets, main_layers, is_app, unless_there, new_target, seed_targets, prune_error,
}
use linyaps_rust.PackageManager.Count.{bit}

unfoldable pub is_key : {E : Type 0} → Text → Result E Reference → Bool
unfolding text_eq show_reference
is_key k (err e) = false
is_key k (ok r) = text_eq k (show_reference r)

module _ {R : Type 0} (semver : Semver) where
  abbrev pub target_of :
      Text
      → RepositoryCacheLayersItem R
      → Option (PruneTarget R)
      → Result RepositoryError Reference
      → Option (PruneTarget R)
  unfolding text_eq show_reference new_target
  target_of k x later (err e) = later
  target_of k x later (ok r) =
      if text_eq k (show_reference r) then some (new_target x.info r) else later

  -- The target of the first layer that has the key.
  unfoldable pub first_target : Text → List (RepositoryCacheLayersItem R) → Option (PruneTarget R)
  unfolding target_of
  first_target k [] = none
  first_target k (x ∷ xs) = target_of k x (first_target k xs) (reference_from_info semver x.info)

  abbrev pub or_first : Option (PruneTarget R) → Option (PruneTarget R) → Option (PruneTarget R)
  or_first none o = o
  or_first (some t) o = some t

  keep : (o : Option (PruneTarget R)) → o ≡ or_first o none
  keep none = refl
  keep (some t) = refl

  tree_get-unless_there :
      (k : Text) (r : Reference) (x : RepositoryCacheLayersItem R) (targets : Targets R)
      (there : Option (PruneTarget R)) (later : Option (PruneTarget R))
      → tree_get (show_reference r) targets ≡ there
      → or_first
          (tree_get k (unless_there (show_reference r) (new_target x.info r) targets there))
          later
        ≡ or_first (tree_get k targets) (target_of k x later (ok r))
  unfolding unless_there target_of
  tree_get-unless_there k r x targets (some t) later h =
      elim (Bool-cases (text_eq k (show_reference r))) [
        | inl e ↦ rw (e, (text_eq_iff k (show_reference r)).0 e, h) refl
        | inr e ↦ rw e refl
      ]
  tree_get-unless_there k r x targets none later h =
      elim (Bool-cases (text_eq k (show_reference r))) [
        | inl e ↦
            rw (tree_get-insert k (show_reference r) (new_target x.info r) targets, e)
              (rw ((text_eq_iff k (show_reference r)).0 e, h) refl)
        | inr e ↦ rw (tree_get-insert k (show_reference r) (new_target x.info r) targets, e) refl
      ]

  pub tree_get-seed_targets :
      (k : Text) (targets seeds : Targets R) (xs : List (RepositoryCacheLayersItem R))
      → seed_targets semver targets xs ≡ ok seeds
      → tree_get k seeds ≡ or_first (tree_get k targets) (first_target k xs)
  unfolding seed_targets first_target target_of
  tree_get-seed_targets k targets seeds [] h =
      let q : targets ≡ seeds = ground arith in rw (← q) (keep (tree_get k targets))
  tree_get-seed_targets k targets seeds (x ∷ xs) h =
      let (r, g, e) = bind-succeeds _ (map_err prune_error (reference_from_info semver x.info)) h in
      let there = tree_get (show_reference r) targets in
      rw (map_err-ok prune_error _ r e) (
        tree_get-seed_targets k
          (unless_there (show_reference r) (new_target x.info r) targets there) seeds xs g
        ∙ tree_get-unless_there k r x targets there (first_target k xs) refl)

  any-first_target :
      (k : Text) (xs : List (RepositoryCacheLayersItem R))
      → any (λ x. is_key k (reference_from_info semver x.info)) xs ≡ true
      → (t : PruneTarget R) × (first_target k xs ≡ some t)
  unfolding first_target target_of is_key
  any-first_target k [] h = absurd (ground arith)
  any-first_target k (x ∷ xs) h =
      step k x (first_target k xs) (reference_from_info semver x.info) h (any-first_target k xs)
    where
      step :
          (k : Text) (x : RepositoryCacheLayersItem R) (later : Option (PruneTarget R))
          (o : Result RepositoryError Reference) {b : Bool}
          → is_key k o || b ≡ true
          → (b ≡ true → (t : PruneTarget R) × (later ≡ some t))
          → (t : PruneTarget R) × (target_of k x later o ≡ some t)
      step k x later (err e) h f = f h
      step k x later (ok r) h f = elim (Bool-cases (text_eq k (show_reference r))) [
        | inl e ↦ (new_target x.info r, rw e refl)
        | inr e ↦ let (t, g) = f (rw e at h) in (t, rw e g)
      ]

module _ {R : Type 0} (semver : Semver) where
  target_of-found :
      (k : Text) (y : RepositoryCacheLayersItem R) (xs : List (RepositoryCacheLayersItem R))
      (x : RepositoryCacheLayersItem R) (o : Result RepositoryError Reference)
      → (if is_key k o then some y else find (λ z. is_key k (reference_from_info semver z.info)) xs)
        ≡ some x
      → (find (λ z. is_key k (reference_from_info semver z.info)) xs ≡ some x
          → (t : PruneTarget R) × (first_target semver k xs ≡ some t)
            × (t.info ≡ x.info)
            × (show_reference t.reference ≡ k))
      → (t : PruneTarget R) × (target_of semver k y (first_target semver k xs) o ≡ some t)
        × (t.info ≡ x.info)
        × (show_reference t.reference ≡ k)
  unfolding target_of is_key
  target_of-found k y xs x (err e) h later = later h
  target_of-found k y xs x (ok r) h later = elim (Bool-cases (text_eq k (show_reference r))) [
    | inl e ↦
        let same : y ≡ x = (let g = rw e at h in ground arith) in
        (
          new_target y.info r,
          rw e refl,
          ap (λ (z : RepositoryCacheLayersItem R). z.info) same,
          sym ((text_eq_iff k (show_reference r)).0 e),
        )
    | inr e ↦ let (t, f, i, s) = later (rw e at h) in (t, rw e f, i, s)
  ]

  pub first_target-find :
      (k : Text) (xs : List (RepositoryCacheLayersItem R)) (x : RepositoryCacheLayersItem R)
      → find (λ z. is_key k (reference_from_info semver z.info)) xs ≡ some x
      → (t : PruneTarget R) × (first_target semver k xs ≡ some t)
        × (t.info ≡ x.info)
        × (show_reference t.reference ≡ k)
  unfolding first_target
  first_target-find k [] x h = absurd (ground arith)
  first_target-find k (y ∷ xs) x h =
      target_of-found k y xs x (reference_from_info semver y.info) h (first_target-find k xs x)

  target_of-references :
      (k : Text) (x : RepositoryCacheLayersItem R) (later : Option (PruneTarget R))
      (t : PruneTarget R) (o : Result RepositoryError Reference)
      → (later ≡ some t → t.references ≡ bit (is_app t.info))
      → target_of semver k x later o ≡ some t
      → t.references ≡ bit (is_app t.info)
  unfolding target_of
  target_of-references k x later t (err e) f h = f h
  target_of-references k x later t (ok r) f h = elim (Bool-cases (text_eq k (show_reference r))) [
    | inr e ↦ f (rw e at h)
    | inl e ↦
        let q : new_target x.info r ≡ t = (let g = rw e at h in ground arith) in
        rw (← q) (one_if (is_app x.info))
  ]
    where
      one_if : (b : Bool) → (if b then 1 else 0) ≡ bit b
      one_if true = refl
      one_if false = refl

  pub first_target-references :
      (k : Text) (xs : List (RepositoryCacheLayersItem R)) (t : PruneTarget R)
      → first_target semver k xs ≡ some t
      → t.references ≡ bit (is_app t.info)
  unfolding first_target
  first_target-references k [] t h = absurd (ground arith)
  first_target-references k (x ∷ xs) t h =
      target_of-references k x (first_target semver k xs) t (reference_from_info semver x.info)
        (first_target-references k xs t) h

pub any-retain :
    {A : Type 0} (p q : A → Bool) (xs : List A)
    → any (λ x. p x && q x) xs ≡ true
    → any q (retain p xs) ≡ true
any-retain p q [] h = absurd (ground arith)
any-retain p q (x ∷ xs) h = elim (Bool-cases (p x)) [
  | inl e ↦ rw e (ground (arith, any-retain p q xs))
  | inr e ↦ rw e (any-retain p q xs (rw e at h))
]

is_candidate-is_main :
    {R : Type 0} (fuzzy : FuzzyReference) (x : RepositoryCacheLayersItem R)
    → is_candidate fuzzy x ≡ true
    → is_main x.info.module_name ≡ true
unfolding is_candidate
is_candidate-is_main fuzzy x h = ground arith

module _ {R : Type 0} (semver : Semver) (s : RepositoryCacheStore R) where
  -- A reference that a request resolves to is the reference of a main layer.
  pub resolved_first :
      (fuzzy : FuzzyReference) (r : Reference)
      → resolve_local semver s fuzzy true ≡ ok r
      → (t : PruneTarget R) × (first_target semver (show_reference r) (main_layers s) ≡ some t)
  unfolding main_layers is_key
  resolved_first fuzzy r h =
      let c = resolve_local-ok semver s fuzzy true r h in
      let ((member, candidate, parsed), fits) = Chosen-IsCandidate semver s fuzzy true r c in
      let q : RepositoryCacheLayersItem R → Bool =
        λ x. is_key (show_reference r) (reference_from_info semver x.info) in
      any-first_target semver (show_reference r) (main_layers s) (
        any-retain (λ x. is_main x.info.module_name) q (existing_layers s)
          (member (λ x. is_main x.info.module_name && q x)
            (rw (is_candidate-is_main fuzzy c.best.1 candidate, c.gives)
              (text_eq_refl (show_reference r)))))
