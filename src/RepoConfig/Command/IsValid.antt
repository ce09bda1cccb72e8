-- ===== src/RepoConfig/Command/IsValid.antt =====
-- Every operation keeps a configuration valid.
use linyaps_rust.Common.{
  ℕ, zero, suc, ◌≡◌, refl, ◌∙◌, ◌≢◌, true, false, Text, text_eq, text_eq_iff, List, [], ◌∷◌, Option,
  some, any, find, position, position-some, get_elem?, Bool-cases, inl, inr, Option-cases, eq_ℤ,
  length, Result, ok, err, arith, ◌==◌,
}
use linyaps_rust.RepoConfig.{Repo, RepoConfigV2, effective_name, is_named, alias_or, max_priority}
use linyaps_rust.RepoConfig.Names.{
  DistinctNames, IsValid, any-find, any-snoc, DistinctNames-snoc, any-set, DistinctNames-set,
  any-remove_at, DistinctNames-remove_at,
}
use linyaps_rust.RepoConfig.Command.Outcome.{reselect_total, remove_at-nonempty}
use linyaps_rust.RepoConfig.Command.{
  RepoCommandError, RepoOperation, add, modify, remove, update, set_default, show, set_priority,
  enable_mirror, disable_mirror, change_at, reselect, remove_repo, update_url, make_default,
  alias_of, apply_at, apply_existing_repo_operation, add_repo, apply_repo_operation, max_or_zero,
  normalized_url,
}

-- A change in place that keeps the effective name keeps a configuration valid.
change_at-IsValid :
    (c : RepoConfigV2) (i : ℕ) (f : Repo → Repo)
    → ((r : Repo) → effective_name (f r) ≡ effective_name r)
    → IsValid c
    → IsValid (change_at c i f).0
unfolding change_at
change_at-IsValid c i f keep v = elim (Option-cases (get_elem? c.repos i)) [
  | inl e ↦ rw (e, change_at) v
  | inr (r, e) ↦
      rw (e, change_at)
        (record {
          distinct = DistinctNames-set c.repos i r (f r) e (keep r) v.distinct;
          default_exists = ground (arith, any-set c.default_repo c.repos i r (f r) e (keep r));
        })
]

-- The new default is one of the repositories.
reselect-IsValid :
    (c : RepoConfigV2) → DistinctNames c.repos → c.repos ≢ [] → IsValid (reselect c).0
unfolding reselect
reselect-IsValid c d ne =
    elim (Option-cases (find (λ r. eq_ℤ r.priority (max_or_zero (max_priority c.repos))) c.repos)) [
      | inl e ↦ absurd (reselect_total c ne (rw (e, reselect)))
      | inr (r, e) ↦
          rw (e, reselect) (record { distinct = d; default_exists = any-find _ c.repos r e })
    ]

remove_repo-IsValid :
    (c : RepoConfigV2) (alias : Text) (i : ℕ) (r : Repo)
    → get_elem? c.repos i ≡ some r
    → is_named alias r ≡ true
    → IsValid c
    → IsValid (remove_repo c alias i).0
unfolding remove_repo
remove_repo-IsValid c alias i r g t v = elim (Bool-cases (length c.repos == 1)) [
  | inl one ↦ rw (one, remove_repo) v
  | inr more ↦ elim (Bool-cases (text_eq c.default_repo alias)) [
    | inl e ↦
        rw (more, g, e, remove_repo)
          (reselect-IsValid _ (DistinctNames-remove_at c.repos i v.distinct)
            (remove_at-nonempty c.repos i r g more))
    | inr e ↦
        rw (more, g, e, remove_repo)
          (record {
            distinct = DistinctNames-remove_at c.repos i v.distinct;
            default_exists =
                any-remove_at c.default_repo c.repos i r g (other e) ∙ v.default_exists;
          })
  ]
]
  where
    other : text_eq c.default_repo alias ≡ false → is_named c.default_repo r ≡ false
    other e = ground (
      arith,
      text_eq_iff (effective_name r) alias,
      text_eq_iff (effective_name r) c.default_repo,
      text_eq_iff c.default_repo alias,
    )

make_default-IsValid :
    (c : RepoConfigV2) (alias : Text) (i : ℕ) (r : Repo)
    → get_elem? c.repos i ≡ some r
    → any (is_named alias) c.repos ≡ true
    → IsValid c
    → IsValid (make_default c alias i).0
unfolding make_default
make_default-IsValid c alias i r g t v = elim (Bool-cases (text_eq c.default_repo alias)) [
  | inl e ↦ rw (e, make_default) v
  | inr e ↦
      rw (e, make_default)
        (change_at-IsValid (record c { default_repo = alias }) i _ (λ r. refl)
          (record { distinct = v.distinct; default_exists = t }))
]

update_url-IsValid :
    (c : RepoConfigV2) (i : ℕ) (url : Text) → IsValid c → IsValid (update_url c i url).0
unfolding update_url
update_url-IsValid c i url v = go (normalized_url url) refl
  where
    go :
        (u : Result RepoCommandError Text) → normalized_url url ≡ u → IsValid (update_url c i url).0
    go (err e) q = rw (q, update_url) v
    go (ok u) q = rw (q, update_url) (change_at-IsValid c i _ (λ r. refl) v)

apply_at-IsValid :
    (c : RepoConfigV2) (op : RepoOperation) (alias : Text) (i : ℕ) (r : Repo)
    → get_elem? c.repos i ≡ some r
    → is_named alias r ≡ true
    → any (is_named alias) c.repos ≡ true
    → IsValid c
    → IsValid (apply_at c op alias i).0
unfolding apply_at
apply_at-IsValid c (remove a) alias i r g t n v = remove_repo-IsValid c alias i r g t v
apply_at-IsValid c (update a url) alias i r g t n v = update_url-IsValid c i url v
apply_at-IsValid c (set_default a) alias i r g t n v = make_default-IsValid c alias i r g n v
apply_at-IsValid c (set_priority a p) alias i r g t n v = change_at-IsValid c i _ (λ r. refl) v
apply_at-IsValid c (enable_mirror a region) alias i r g t n v =
    change_at-IsValid c i _ (λ r. refl) v
apply_at-IsValid c (disable_mirror a) alias i r g t n v = change_at-IsValid c i _ (λ r. refl) v
apply_at-IsValid c (add name url a) alias i r g t n v = v
apply_at-IsValid c modify alias i r g t n v = v
apply_at-IsValid c show alias i r g t n v = v

existing-IsValid :
    (c : RepoConfigV2) (op : RepoOperation)
    → IsValid c
    → IsValid (apply_existing_repo_operation c op).0
unfolding apply_existing_repo_operation
existing-IsValid c op v = elim (Option-cases (alias_of op)) [
  | inl n ↦ rw (n, apply_existing_repo_operation) v
  | inr (alias, n) ↦ elim (Option-cases (position (is_named alias) c.repos)) [
    | inl p ↦ rw (n, p, apply_existing_repo_operation) v
    | inr (i, p) ↦
        let (r, g, t) = position-some (is_named alias) c.repos i p in
        rw (n, p, apply_existing_repo_operation)
          (apply_at-IsValid c op alias i r g t (any_at c.repos i alias r g t) v)
  ]
]
  where
    any_at :
        (rs : List Repo) (i : ℕ) (alias : Text) (r : Repo)
        → get_elem? rs i ≡ some r
        → is_named alias r ≡ true
        → any (is_named alias) rs ≡ true
    any_at [] i alias r g t = cc
    any_at (s ∷ rs) zero alias r g t = ground arith
    any_at (s ∷ rs) (suc i) alias r g t = ground (arith, any_at rs i alias r g t)

add_repo-IsValid :
    (c : RepoConfigV2) (name url : Text) (alias : Option Text)
    → IsValid c
    → IsValid (add_repo c name url alias).0
unfolding add_repo
add_repo-IsValid c name url alias v = go (normalized_url url) refl
  where
    go :
        (u : Result RepoCommandError Text)
        → normalized_url url ≡ u
        → IsValid (add_repo c name url alias).0
    go (err e) q = rw (q, add_repo) v
    go (ok u) q = elim (Bool-cases (any (is_named (alias_or alias name)) c.repos)) [
      | inl old ↦ rw (q, old, add_repo) v
      | inr new ↦
          rw (q, new, add_repo)
            (record {
              distinct = DistinctNames-snoc c.repos _ v.distinct new;
              default_exists = any-snoc _ c.repos _ ∙ ground arith;
            })
    ]

-- Every operation, whatever it returns, keeps a configuration valid: the effective names stay
-- distinct and the default repository stays one of them.
pub apply_repo_operation-IsValid :
    (c : RepoConfigV2) (op : RepoOperation) → IsValid c → IsValid (apply_repo_operation c op).0
unfolding apply_repo_operation
apply_repo_operation-IsValid c show v = v
apply_repo_operation-IsValid c modify v = v
apply_repo_operation-IsValid c (add name url alias) v = add_repo-IsValid c name url alias v
apply_repo_operation-IsValid c (remove a) v = existing-IsValid c (remove a) v
apply_repo_operation-IsValid c (update a url) v = existing-IsValid c (update a url) v
apply_repo_operation-IsValid c (set_default a) v = existing-IsValid c (set_default a) v
apply_repo_operation-IsValid c (set_priority a p) v = existing-IsValid c (set_priority a p) v
apply_repo_operation-IsValid c (enable_mirror a g) v = existing-IsValid c (enable_mirror a g) v
apply_repo_operation-IsValid c (disable_mirror a) v = existing-IsValid c (disable_mirror a) v
