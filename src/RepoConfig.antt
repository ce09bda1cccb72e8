-- ===== src/RepoConfig.antt =====
-- The repository configuration (crates/linyaps-api/src/lib.rs) and its queries
-- (crates/linyaps-core/src/repository.rs). Strings are byte lists; an `i64` is an integer.
pub mod Command
pub mod Names
pub mod Priority
pub mod Convert
pub mod Tests
use linyaps_rust.Common.{
  ℤ, pos, negsuc, ltb_ℤ, eq_ℤ, Text, text_eq, Option, none, some, List, [], ◌∷◌, ◌++◌, Bool, true,
  false, not, any, find, map, if◌then◌else◌, Result, ok, err, ok_or, ensure, ◌>>=◌, ◌>>◌,
}

pub record Repo : Type 0 where
  pub alias : Option Text
  pub mirror_enabled : Option Bool
  pub name : Text
  pub priority : ℤ
  pub region : Option Text
  pub url : Text

pub record RepoConfigV2 : Type 0 where
  pub default_repo : Text
  pub repos : List Repo
  pub version : ℤ

-- `alias.as_deref().unwrap_or(&name)`.
abbrev pub alias_or : Option Text → Text → Text
alias_or none name = name
alias_or (some alias) name = alias

abbrev pub effective_name : Repo → Text
effective_name r = alias_or r.alias r.name

abbrev pub is_named : Text → Repo → Bool
is_named name r = text_eq (effective_name r) name

-- The variants of `RepositoryConfigError` that the modelled functions return.
pub data RepositoryConfigError : Type 0 where
  missing_default : RepositoryConfigError
  empty : RepositoryConfigError

-- The check that `save_config` makes before it writes the file.
unfoldable pub save_check : RepoConfigV2 → Result RepositoryConfigError (Unit {0})
save_check c = ensure (any (is_named c.default_repo) c.repos) missing_default

unfoldable pub default_repo : RepoConfigV2 → Result RepositoryConfigError Repo
default_repo c = ok_or (find (is_named c.default_repo) c.repos) missing_default

-- `iter().map(|repo| repo.priority).max()` and `.min()`.
abbrev pub max_ℤ : ℤ → ℤ → ℤ
max_ℤ a b = if ltb_ℤ a b then b else a

abbrev pub min_ℤ : ℤ → ℤ → ℤ
min_ℤ a b = if ltb_ℤ b a then b else a

unfoldable pub max_priority : List Repo → Option ℤ
max_priority [] = none
max_priority (r ∷ rs) = elim (max_priority rs) [
  | none ↦ some r.priority
  | some m ↦ some (max_ℤ r.priority m)
]

unfoldable pub min_priority : List Repo → Option ℤ
min_priority [] = none
min_priority (r ∷ rs) = elim (min_priority rs) [
  | none ↦ some r.priority
  | some m ↦ some (min_ℤ r.priority m)
]

unfoldable pub minimum_priority : RepoConfigV2 → Result RepositoryConfigError ℤ
unfolding min_priority
minimum_priority c = ok_or (min_priority c.repos) empty

unfoldable pub maximum_priority : RepoConfigV2 → Result RepositoryConfigError ℤ
unfolding max_priority
maximum_priority c = ok_or (max_priority c.repos) empty

-- `sort_by_key(Reverse(priority))`, which is stable: a repository goes before the equal ones that
-- follow it in the list.
unfoldable pub insert_by_priority : Repo → List Repo → List Repo
insert_by_priority r [] = r ∷ []
insert_by_priority r (s ∷ rs) =
    if ltb_ℤ r.priority s.priority then s ∷ insert_by_priority r rs else r ∷ s ∷ rs

unfoldable pub sort_by_priority : List Repo → List Repo
unfolding insert_by_priority
sort_by_priority [] = []
sort_by_priority (r ∷ rs) = insert_by_priority r (sort_by_priority rs)

unfoldable pub priority_sorted_repos : RepoConfigV2 → List Repo
unfolding sort_by_priority
priority_sorted_repos c = sort_by_priority c.repos

-- `groups.last()`: whether a repository opens a group.
abbrev pub first_differs : List Repo → ℤ → Bool
first_differs [] p = true
first_differs (r ∷ rs) p = not (eq_ℤ r.priority p)

abbrev pub opens_group : List (List Repo) → ℤ → Bool
opens_group [] p = true
opens_group (g ∷ []) p = first_differs g p
opens_group (g ∷ h ∷ gs) p = opens_group (h ∷ gs) p

-- `groups.last_mut().push(repo)`.
abbrev pub push_last : List (List Repo) → Repo → List (List Repo)
push_last [] r = []
push_last (g ∷ []) r = (g ++ (r ∷ [])) ∷ []
push_last (g ∷ h ∷ gs) r = g ∷ push_last (h ∷ gs) r

abbrev pub group_step : List (List Repo) → Repo → List (List Repo)
group_step gs r = push_last (if opens_group gs r.priority then gs ++ ([] ∷ []) else gs) r

unfoldable pub group_from : List (List Repo) → List Repo → List (List Repo)
group_from gs [] = gs
group_from gs (r ∷ rs) = group_from (group_step gs r) rs

unfoldable pub priority_grouped_repos : RepoConfigV2 → List (List Repo)
unfolding priority_sorted_repos group_from
priority_grouped_repos c = group_from [] (priority_sorted_repos c)
