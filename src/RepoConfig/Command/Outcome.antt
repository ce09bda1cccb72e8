-- ===== src/RepoConfig/Command/Outcome.antt =====
-- What `apply_repo_operation` returns on every branch: it never panics, and an error changes
-- nothing.
use linyaps_rust.Common.{
  ℕ, zero, suc, ◌≡◌, refl, ◌≢◌, true, false, Text, List, [], ◌∷◌, none, some, any, find, position,
  position-some, get_elem?, remove_at, find-none, inl, inr, Option-cases, ℤ, eq_ℤ, eq_ℤ_iff, length,
  err, arith, ◌==◌,
}
use linyaps_rust.RepoConfig.{Repo, RepoConfigV2, is_named, max_priority}
use linyaps_rust.RepoConfig.Command.{
  RepoOperation, add, modify, remove, update, set_default, show, set_priority, enable_mirror,
  disable_mirror, error, panic, RepoCommandError, change_at, reselect, remove_repo, update_url,
  make_default, alias_of, apply_at, apply_existing_repo_operation, add_repo, apply_repo_operation,
}

-- The maximum is the priority of some repository.
max_priority-any :
    (rs : List Repo) (m : ℤ) → max_priority rs ≡ some m → any (λ r. eq_ℤ r.priority m) rs ≡ true
unfolding max_priority
max_priority-any [] m h = cc
max_priority-any (r ∷ rs) m h = elim (Option-cases (max_priority rs)) [
  | inl e ↦ ground (arith, eq_ℤ_iff r.priority m)
  | inr (k, e) ↦ ground (arith, max_priority-any rs k, eq_ℤ_iff r.priority m)
]

max_priority-cons : (r : Repo) (rs : List Repo) → max_priority (r ∷ rs) ≢ none
unfolding max_priority
max_priority-cons r rs h = ground arith

change_at-some :
    (c : RepoConfigV2) (i : ℕ) (r : Repo) (f : Repo → Repo)
    → get_elem? c.repos i ≡ some r
    → (change_at c i f).1 ≢ err panic
unfolding change_at
change_at-some c i r f g h = ground arith

-- A non-empty list has a repository of the highest priority.
pub reselect_total : (c : RepoConfigV2) → c.repos ≢ [] → (reselect c).1 ≢ err panic
unfolding reselect
reselect_total c ne h = elim (Option-cases (max_priority c.repos)) [
  | inl e ↦ empty c.repos refl e
  | inr (m, e) ↦ elim (Option-cases (find (λ r. eq_ℤ r.priority m) c.repos)) [
    | inl q ↦ cc (find-none _ c.repos q, max_priority-any c.repos m e)
    | inr (r, q) ↦ ground arith
  ]
]
  where
    empty : (rs : List Repo) → c.repos ≡ rs → max_priority c.repos ≡ none → ⊥
    empty [] e h = ne e
    empty (r ∷ rs) e h = max_priority-cons r rs (rw (← e) h)

pub remove_at-nonempty :
    (rs : List Repo) (i : ℕ) (r : Repo)
    → get_elem? rs i ≡ some r
    → (length rs == 1) ≡ false
    → remove_at rs i ≢ []
remove_at-nonempty [] i r g h e = cc
remove_at-nonempty (s ∷ []) i r g h e = ground arith
remove_at-nonempty (s ∷ t ∷ rs) zero r g h e = cc
remove_at-nonempty (s ∷ t ∷ rs) (suc i) r g h e = cc

remove_repo_total :
    (c : RepoConfigV2) (alias : Text) (i : ℕ) (r : Repo)
    → get_elem? c.repos i ≡ some r
    → (remove_repo c alias i).1 ≢ err panic
unfolding remove_repo
remove_repo_total c alias i r g h = ground (
  arith,
  remove_at-nonempty c.repos i r g,
  reselect_total (record c { repos = remove_at c.repos i }),
)

update_url_total :
    (c : RepoConfigV2) (i : ℕ) (url : Text) (r : Repo)
    → get_elem? c.repos i ≡ some r
    → (update_url c i url).1 ≢ err panic
unfolding update_url change_at
update_url_total c i url r g h = ground arith

make_default_total :
    (c : RepoConfigV2) (alias : Text) (i : ℕ) (r : Repo)
    → get_elem? c.repos i ≡ some r
    → (make_default c alias i).1 ≢ err panic
unfolding make_default change_at
make_default_total c alias i r g h = ground arith

apply_at_total :
    (c : RepoConfigV2) (op : RepoOperation) (alias : Text) (i : ℕ) (r : Repo)
    → alias_of op ≡ some alias
    → get_elem? c.repos i ≡ some r
    → (apply_at c op alias i).1 ≢ err panic
unfolding apply_at
apply_at_total c (remove a) alias i r e g = remove_repo_total c alias i r g
apply_at_total c (update a url) alias i r e g = update_url_total c i url r g
apply_at_total c (set_default a) alias i r e g = make_default_total c alias i r g
apply_at_total c (set_priority a p) alias i r e g = change_at-some c i r _ g
apply_at_total c (enable_mirror a region) alias i r e g = change_at-some c i r _ g
apply_at_total c (disable_mirror a) alias i r e g = change_at-some c i r _ g
apply_at_total c (add name url a) alias i r e g = cc
apply_at_total c modify alias i r e g = cc
apply_at_total c show alias i r e g = cc

existing_total :
    (c : RepoConfigV2) (op : RepoOperation) (alias : Text)
    → alias_of op ≡ some alias
    → (apply_existing_repo_operation c op).1 ≢ err panic
unfolding apply_existing_repo_operation
existing_total c op alias e h = elim (Option-cases (position (is_named alias) c.repos)) [
  | inl p ↦ ground arith
  | inr (i, p) ↦
      let (r, g, t) = position-some (is_named alias) c.repos i p in
      ground (arith, apply_at_total c op alias i r e g)
]

-- No operation, on any configuration, reaches `unreachable!`, fails the `expect`, or indexes out
-- of bounds.
pub apply_repo_operation-ne-panic :
    (c : RepoConfigV2) (op : RepoOperation) → (apply_repo_operation c op).1 ≢ err panic
unfolding apply_repo_operation add_repo
apply_repo_operation-ne-panic c show h = cc
apply_repo_operation-ne-panic c modify h = cc
apply_repo_operation-ne-panic c (add name url alias) h = ground arith
apply_repo_operation-ne-panic c (remove a) h = existing_total c (remove a) a refl h
apply_repo_operation-ne-panic c (update a url) h = existing_total c (update a url) a refl h
apply_repo_operation-ne-panic c (set_default a) h = existing_total c (set_default a) a refl h
apply_repo_operation-ne-panic c (set_priority a p) h = existing_total c (set_priority a p) a refl h
apply_repo_operation-ne-panic c (enable_mirror a g) h =
    existing_total c (enable_mirror a g) a refl h
apply_repo_operation-ne-panic c (disable_mirror a) h = existing_total c (disable_mirror a) a refl h

apply_at_error :
    (c : RepoConfigV2) (op : RepoOperation) (alias : Text) (i : ℕ) (e : RepoCommandError)
    → (apply_at c op alias i).1 ≡ err (error e)
    → (apply_at c op alias i).0 ≡ c
unfolding apply_at remove_repo reselect update_url make_default change_at
apply_at_error c (remove a) alias i e h = ground arith
apply_at_error c (update a url) alias i e h = ground arith
apply_at_error c (set_default a) alias i e h = ground arith
apply_at_error c (set_priority a p) alias i e h = ground arith
apply_at_error c (enable_mirror a g) alias i e h = ground arith
apply_at_error c (disable_mirror a) alias i e h = ground arith
apply_at_error c (add name url a) alias i e h = refl
apply_at_error c modify alias i e h = refl
apply_at_error c show alias i e h = refl

existing_error :
    (c : RepoConfigV2) (op : RepoOperation) (e : RepoCommandError)
    → (apply_existing_repo_operation c op).1 ≡ err (error e)
    → (apply_existing_repo_operation c op).0 ≡ c
unfolding apply_existing_repo_operation
existing_error c op e h = elim (Option-cases (alias_of op)) [
  | inl n ↦ ground arith
  | inr (alias, n) ↦ elim (Option-cases (position (is_named alias) c.repos)) [
    | inl p ↦ ground arith
    | inr (i, p) ↦ ground (arith, apply_at_error c op alias i e)
  ]
]

-- An operation that returns an error leaves the configuration as it was.
pub apply_repo_operation-error_unchanged :
    (c : RepoConfigV2) (op : RepoOperation) (e : RepoCommandError)
    → (apply_repo_operation c op).1 ≡ err (error e)
    → (apply_repo_operation c op).0 ≡ c
unfolding apply_repo_operation add_repo
apply_repo_operation-error_unchanged c show e h = refl
apply_repo_operation-error_unchanged c modify e h = refl
apply_repo_operation-error_unchanged c (add name url alias) e h = ground arith
apply_repo_operation-error_unchanged c (remove a) e h = existing_error c (remove a) e h
apply_repo_operation-error_unchanged c (update a url) e h = existing_error c (update a url) e h
apply_repo_operation-error_unchanged c (set_default a) e h = existing_error c (set_default a) e h
apply_repo_operation-error_unchanged c (set_priority a p) e h =
    existing_error c (set_priority a p) e h
apply_repo_operation-error_unchanged c (enable_mirror a g) e h =
    existing_error c (enable_mirror a g) e h
apply_repo_operation-error_unchanged c (disable_mirror a) e h =
    existing_error c (disable_mirror a) e h
