-- ===== src/RepoConfig/Command/Frame.antt =====
-- What an operation leaves alone: every repository but the one that it names, and the default.
use linyaps_rust.Common.{
  ℕ, zero, suc, ◌≡◌, refl, ap, ◌≢◌, true, false, Text, text_eq, text_eq_iff, List, [], ◌∷◌, ◌++◌,
  Option, none, some, any, find, position, position-some, get_elem?, set, remove_at, Bool-cases,
  inl, inr, Option-cases, Result, ok, err, arith,
}
use linyaps_rust.RepoConfig.{Repo, RepoConfigV2, effective_name, is_named, alias_or}
use linyaps_rust.RepoConfig.Command.{
  RepoCommandError, RepoOperation, add, modify, remove, update, set_default, show, set_priority,
  enable_mirror, disable_mirror, change_at, reselect, remove_repo, update_url, make_default,
  alias_of, apply_at, apply_existing_repo_operation, add_repo, apply_repo_operation, normalized_url,
}

-- The effective name that an operation is about.
abbrev pub target : RepoOperation → Option Text
target (add name url alias) = some (alias_or alias name)
target modify = none
target (remove alias) = some alias
target (update alias url) = some alias
target (set_default alias) = some alias
target show = none
target (set_priority alias p) = some alias
target (enable_mirror alias region) = some alias
target (disable_mirror alias) = some alias

find-snoc :
    (n : Text) (rs : List Repo) (r : Repo)
    → is_named n r ≡ false
    → find (is_named n) (rs ++ r ∷ []) ≡ find (is_named n) rs
find-snoc n [] r h = ground arith
find-snoc n (s ∷ rs) r h = ground (arith, find-snoc n rs r h)

find-set :
    (n : Text) (rs : List Repo) (i : ℕ) (r r' : Repo)
    → get_elem? rs i ≡ some r
    → is_named n r ≡ false
    → is_named n r' ≡ false
    → find (is_named n) (set rs i r') ≡ find (is_named n) rs
find-set n [] i r r' g h k = refl
find-set n (s ∷ rs) zero r r' g h k = ground arith
find-set n (s ∷ rs) (suc i) r r' g h k = ground (arith, find-set n rs i r r')

find-remove_at :
    (n : Text) (rs : List Repo) (i : ℕ) (r : Repo)
    → get_elem? rs i ≡ some r
    → is_named n r ≡ false
    → find (is_named n) (remove_at rs i) ≡ find (is_named n) rs
find-remove_at n [] i r g h = refl
find-remove_at n (s ∷ rs) zero r g h = ground arith
find-remove_at n (s ∷ rs) (suc i) r g h = ground (arith, find-remove_at n rs i r)

-- The repository called `n` in a configuration.
abbrev pub repo_named : Text → RepoConfigV2 → Option Repo
repo_named n c = find (is_named n) c.repos

change_at-other :
    (c : RepoConfigV2) (i : ℕ) (f : Repo → Repo) (n : Text) (r : Repo)
    → ((r : Repo) → effective_name (f r) ≡ effective_name r)
    → get_elem? c.repos i ≡ some r
    → is_named n r ≡ false
    → repo_named n (change_at c i f).0 ≡ repo_named n c
unfolding change_at
change_at-other c i f n r keep g h =
    rw (g, change_at) (find-set n c.repos i r (f r) g h (rw (keep r) h))

remove_repo-other :
    (c : RepoConfigV2) (alias : Text) (i : ℕ) (n : Text) (r : Repo)
    → get_elem? c.repos i ≡ some r
    → is_named n r ≡ false
    → repo_named n (remove_repo c alias i).0 ≡ repo_named n c
unfolding remove_repo reselect
remove_repo-other c alias i n r g h = ground (arith, find-remove_at n c.repos i r g h)

update_url-other :
    (c : RepoConfigV2) (i : ℕ) (url : Text) (n : Text) (r : Repo)
    → get_elem? c.repos i ≡ some r
    → is_named n r ≡ false
    → repo_named n (update_url c i url).0 ≡ repo_named n c
unfolding update_url
update_url-other c i url n r g h = go (normalized_url url) refl
  where
    go :
        (u : Result RepoCommandError Text)
        → normalized_url url ≡ u
        → repo_named n (update_url c i url).0 ≡ repo_named n c
    go (err e) q = rw (q, update_url) refl
    go (ok u) q = rw (q, update_url) (change_at-other c i _ n r (λ r. refl) g h)

make_default-other :
    (c : RepoConfigV2) (alias : Text) (i : ℕ) (n : Text) (r : Repo)
    → get_elem? c.repos i ≡ some r
    → is_named n r ≡ false
    → repo_named n (make_default c alias i).0 ≡ repo_named n c
unfolding make_default
make_default-other c alias i n r g h = elim (Bool-cases (text_eq c.default_repo alias)) [
  | inl e ↦ rw (e, make_default) refl
  | inr e ↦
      rw (e, make_default)
        (change_at-other (record c { default_repo = alias }) i _ n r (λ r. refl) g h)
]

apply_at-other :
    (c : RepoConfigV2) (op : RepoOperation) (alias : Text) (i : ℕ) (n : Text) (r : Repo)
    → get_elem? c.repos i ≡ some r
    → is_named n r ≡ false
    → repo_named n (apply_at c op alias i).0 ≡ repo_named n c
unfolding apply_at
apply_at-other c (remove a) alias i n r g h = remove_repo-other c alias i n r g h
apply_at-other c (update a url) alias i n r g h = update_url-other c i url n r g h
apply_at-other c (set_default a) alias i n r g h = make_default-other c alias i n r g h
apply_at-other c (set_priority a p) alias i n r g h = change_at-other c i _ n r (λ r. refl) g h
apply_at-other c (enable_mirror a q) alias i n r g h = change_at-other c i _ n r (λ r. refl) g h
apply_at-other c (disable_mirror a) alias i n r g h = change_at-other c i _ n r (λ r. refl) g h
apply_at-other c (add name url a) alias i n r g h = refl
apply_at-other c modify alias i n r g h = refl
apply_at-other c show alias i n r g h = refl

existing-other :
    (c : RepoConfigV2) (op : RepoOperation) (n : Text)
    → alias_of op ≢ some n
    → repo_named n (apply_existing_repo_operation c op).0 ≡ repo_named n c
unfolding apply_existing_repo_operation
existing-other c op n ne = elim (Option-cases (alias_of op)) [
  | inl e ↦ rw (e, apply_existing_repo_operation) refl
  | inr (alias, e) ↦ elim (Option-cases (position (is_named alias) c.repos)) [
    | inl p ↦ rw (e, p, apply_existing_repo_operation) refl
    | inr (i, p) ↦
        let (r, g, t) = position-some (is_named alias) c.repos i p in
        rw (e, p, apply_existing_repo_operation)
          (apply_at-other c op alias i n r g (other alias r e t))
  ]
]
  where
    other :
        (alias : Text) (r : Repo)
        → alias_of op ≡ some alias
        → is_named alias r ≡ true
        → is_named n r ≡ false
    other alias r e t =
        ground (arith, text_eq_iff (effective_name r) alias, text_eq_iff (effective_name r) n, ne)

add_repo-other :
    (c : RepoConfigV2) (name url : Text) (alias : Option Text) (n : Text)
    → alias_or alias name ≢ n
    → repo_named n (add_repo c name url alias).0 ≡ repo_named n c
unfolding add_repo
add_repo-other c name url alias n ne = go (normalized_url url) refl
  where
    go :
        (u : Result RepoCommandError Text)
        → normalized_url url ≡ u
        → repo_named n (add_repo c name url alias).0 ≡ repo_named n c
    go (err e) q = rw (q, add_repo) refl
    go (ok u) q = elim (Bool-cases (any (is_named (alias_or alias name)) c.repos)) [
      | inl old ↦ rw (q, old, add_repo) refl
      | inr new ↦
          rw (q, new, add_repo)
            (find-snoc n c.repos _ (ground (arith, text_eq_iff (alias_or alias name) n)))
    ]

-- An operation changes, adds or removes no repository but the one that it names.
pub apply_repo_operation-other :
    (c : RepoConfigV2) (op : RepoOperation) (n : Text)
    → target op ≢ some n
    → repo_named n (apply_repo_operation c op).0 ≡ repo_named n c
unfolding apply_repo_operation
apply_repo_operation-other c show n ne = refl
apply_repo_operation-other c modify n ne = refl
apply_repo_operation-other c (add name url alias) n ne =
    add_repo-other c name url alias n (λ e. ne (ap some e))
apply_repo_operation-other c (remove a) n ne = existing-other c (remove a) n ne
apply_repo_operation-other c (update a url) n ne = existing-other c (update a url) n ne
apply_repo_operation-other c (set_default a) n ne = existing-other c (set_default a) n ne
apply_repo_operation-other c (set_priority a p) n ne = existing-other c (set_priority a p) n ne
apply_repo_operation-other c (enable_mirror a g) n ne = existing-other c (enable_mirror a g) n ne
apply_repo_operation-other c (disable_mirror a) n ne = existing-other c (disable_mirror a) n ne
