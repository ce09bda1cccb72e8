-- ===== src/RepoConfig/Command.antt =====
-- crates/linyaps-core/src/repo_command.rs: the repository sub-commands on a configuration.
-- An operation returns the new configuration and its result, since an error leaves by `?` with
-- whatever was changed before. `panic` stands for `unreachable!`, `expect` and an index out of
-- bounds.
pub mod Outcome
pub mod IsValid
pub mod Frame
pub mod Default
use linyaps_rust.Common.{
  ℕ, suc, ℤ, pos, add_i64, eq_ℤ, Text, codes, text_eq, is_empty, starts_with, ends_with_byte, pop,
  Option, none, some, List, [], ◌∷◌, ◌++◌, Bool, true, false, not, length, get_elem?, set,
  remove_at, any, position, find, if◌then◌else◌, ◌==◌, Result, ok, err,
}
use linyaps_rust.RepoConfig.{Repo, RepoConfigV2, effective_name, is_named, alias_or, max_priority}

pub data RepoOperation : Type 0 where
  add : Text → Text → Option Text → RepoOperation
  modify : RepoOperation
  remove : Text → RepoOperation
  update : Text → Text → RepoOperation
  set_default : Text → RepoOperation
  show : RepoOperation
  set_priority : Text → ℤ → RepoOperation
  enable_mirror : Text → Option Text → RepoOperation
  disable_mirror : Text → RepoOperation

pub data RepoOperationResult : Type 0 where
  unchanged : RepoOperationResult
  changed : RepoOperationResult
  shown : RepoConfigV2 → RepoOperationResult

pub data RepoCommandError : Type 0 where
  modify_deprecated : RepoCommandError
  empty_url : RepoCommandError
  invalid_url : Text → RepoCommandError
  already_exists : Text → RepoCommandError
  not_found : Text → RepoCommandError
  only_repository : Text → RepoCommandError

pub data Fault : Type 0 where
  error : RepoCommandError → Fault
  panic : Fault

abbrev pub Outcome : Type 0
Outcome = RepoConfigV2 × Result Fault RepoOperationResult

unfoldable pub normalized_url : Text → Result RepoCommandError Text
normalized_url url =
    if is_empty url
    then err empty_url
    else (if not (starts_with url (codes "http"))
        then err (invalid_url url)
        else ok (if ends_with_byte url b'/' then pop url else url))

-- `config.repos[index]`, changed in place.
unfoldable pub change_at : RepoConfigV2 → ℕ → (Repo → Repo) → Outcome
change_at c i f = elim (get_elem? c.repos i) [
  | none ↦ (c, err panic)
  | some r ↦ (record c { repos = set c.repos i (f r) }, ok changed)
]

-- `.max().unwrap_or(0)`.
abbrev pub max_or_zero : Option ℤ → ℤ
max_or_zero none = pos 0
max_or_zero (some m) = m

-- The choice of a new default when the default was removed.
unfoldable pub reselect : RepoConfigV2 → Outcome
reselect c = elim (find (λ r. eq_ℤ r.priority (max_or_zero (max_priority c.repos))) c.repos) [
  | none ↦ (c, err panic)
  | some r ↦ (record c { default_repo = effective_name r }, ok changed)
]

unfoldable pub remove_repo : RepoConfigV2 → Text → ℕ → Outcome
unfolding reselect
remove_repo c alias i =
    if length c.repos == 1
    then (c, err (error (only_repository alias)))
    else (elim (get_elem? c.repos i) [
      | none ↦ (c, err panic)
      | some r ↦
          let c' = record c { repos = remove_at c.repos i } in
          if text_eq c'.default_repo alias then reselect c' else (c', ok changed)
    ])

unfoldable pub update_url : RepoConfigV2 → ℕ → Text → Outcome
unfolding change_at normalized_url
update_url c i url = elim (normalized_url url) [
  | err e ↦ (c, err (error e))
  | ok u ↦ change_at c i (λ r. record r { url = u })
]

unfoldable pub make_default : RepoConfigV2 → Text → ℕ → Outcome
unfolding change_at add_i64
make_default c alias i =
    if text_eq c.default_repo alias
    then (c, ok unchanged)
    else (let c' = record c { default_repo = alias } in
        change_at c' i
          λ r. record r { priority = add_i64 (max_or_zero (max_priority c'.repos)) (pos 100) })

-- The alias that the operation names; the variants handled elsewhere reach `unreachable!`.
abbrev pub alias_of : RepoOperation → Option Text
alias_of (add name url alias) = none
alias_of modify = none
alias_of (remove alias) = some alias
alias_of (update alias url) = some alias
alias_of (set_default alias) = some alias
alias_of show = none
alias_of (set_priority alias p) = some alias
alias_of (enable_mirror alias region) = some alias
alias_of (disable_mirror alias) = some alias

-- The second `match`, at the index of the repository.
unfoldable pub apply_at : RepoConfigV2 → RepoOperation → Text → ℕ → Outcome
unfolding remove_repo update_url make_default change_at
apply_at c (remove a) alias i = remove_repo c alias i
apply_at c (update a url) alias i = update_url c i url
apply_at c (set_default a) alias i = make_default c alias i
apply_at c (set_priority a p) alias i = change_at c i (λ r. record r { priority = p })
apply_at c (enable_mirror a region) alias i =
    change_at c i (λ r. record r { mirror_enabled = some true; region = region })
apply_at c (disable_mirror a) alias i =
    change_at c i (λ r. record r { mirror_enabled = some false })
apply_at c (add name url a) alias i = (c, err panic)
apply_at c modify alias i = (c, err panic)
apply_at c show alias i = (c, err panic)

unfoldable pub apply_existing_repo_operation : RepoConfigV2 → RepoOperation → Outcome
unfolding apply_at
apply_existing_repo_operation c op = elim (alias_of op) [
  | none ↦ (c, err panic)
  | some alias ↦ elim (position (is_named alias) c.repos) [
    | none ↦ (c, err (error (not_found alias)))
    | some i ↦ apply_at c op alias i
  ]
]

unfoldable pub add_repo : RepoConfigV2 → Text → Text → Option Text → Outcome
unfolding normalized_url
add_repo c name url alias = elim (normalized_url url) [
  | err e ↦ (c, err (error e))
  | ok u ↦
      if any (is_named (alias_or alias name)) c.repos
      then (c, err (error (already_exists (alias_or alias name))))
      else (let r : Repo = record {
        alias = alias;
        mirror_enabled = none;
        name = name;
        priority = pos 0;
        region = none;
        url = u;
      } in
          (record c { repos = c.repos ++ (r ∷ []) }, ok changed))
]

unfoldable pub apply_repo_operation : RepoConfigV2 → RepoOperation → Outcome
unfolding add_repo apply_existing_repo_operation
apply_repo_operation c show = (c, ok (shown c))
apply_repo_operation c modify = (c, err (error modify_deprecated))
apply_repo_operation c (add name url alias) = add_repo c name url alias
apply_repo_operation c op = apply_existing_repo_operation c op
