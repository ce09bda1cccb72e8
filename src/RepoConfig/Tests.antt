-- ===== src/RepoConfig/Tests.antt =====
-- Tests of the configuration and its commands, and instances of the theorems.
use linyaps_rust.Common.{
  List, negsuc, ◌≡◌, refl, ◌≢◌, codes, text_eq, [], ◌∷◌, none, some, true, false, ℤ, pos, negsuc,
  add_i64, ok, err, arith, starts_with, ends_with_byte, pop, ◌+ℤ◌,
}
use linyaps_rust.RepoConfig.{
  Repo, RepoConfigV2, is_named, default_repo, max_priority, priority_grouped_repos,
  priority_sorted_repos,
}
use linyaps_rust.RepoConfig.Names.{IsValid}
use linyaps_rust.RepoConfig.Priority.{
  priority_sorted_repos_stable, priority_grouped_repos_lem, Descending, of_priority, IsGrouped,
  concat,
}
use linyaps_rust.RepoConfig.Priority.{AtMost}
use linyaps_rust.RepoConfig.Convert.{
  RepoConfig, StepsDown, convert_to_v2, convert_to_v2-IsValid, get, plain_repo,
}
use linyaps_rust.RepoConfig.Command.{
  add, remove, set_default, apply_repo_operation, panic, not_found,
}
use linyaps_rust.RepoConfig.Command.Outcome.{
  apply_repo_operation-ne-panic, apply_repo_operation-error_unchanged,
}
use linyaps_rust.RepoConfig.Command.IsValid.{apply_repo_operation-IsValid}
use linyaps_rust.RepoConfig.Command.Frame.{apply_repo_operation-other, repo_named}
use linyaps_rust.RepoConfig.Command.Default.{set_default_highest, OthersBelow}

abbrev stable : Repo
stable = record {
  alias = some (codes "stable");
  mirror_enabled = some false;
  name = codes "stable";
  priority = pos 10;
  region = none;
  url = codes "https://stable.example";
}

abbrev beta : Repo
beta = record {
  alias = some (codes "beta");
  mirror_enabled = some true;
  name = codes "beta";
  priority = pos 20;
  region = none;
  url = codes "https://beta.example";
}

abbrev config : RepoConfigV2
config = record { default_repo = codes "stable"; repos = stable ∷ beta ∷ []; version = pos 2 }

config-IsValid : IsValid config
unfolding text_eq
config-IsValid = record { distinct = (refl, (refl, tt)); default_exists = refl }

-- `adds_repo_and_trims_one_trailing_slash`.
adds_repo :
    (apply_repo_operation config
      (add (codes "community") (codes "https://c.example/") (some (codes "comm")))).0
    ≡ record config {
      repos =
          stable
          ∷ beta
          ∷ record {
            alias = some (codes "comm");
            mirror_enabled = none;
            name = codes "community";
            priority = pos 0;
            region = none;
            url = codes "https://c.example";
          }
          ∷ [];
    }
unfolding apply_repo_operation starts_with text_eq ends_with_byte pop
adds_repo = refl

-- `removing_default_selects_first_highest_priority_repo`.
removes_default :
    (apply_repo_operation config (remove (codes "stable"))).0
    ≡ record config { default_repo = codes "beta"; repos = beta ∷ [] }
unfolding apply_repo_operation text_eq max_priority
removes_default = refl

-- `setting_default_raises_priority`.
raises_priority : (apply_repo_operation config (set_default (codes "beta"))).0 ≡ record config {
  default_repo = codes "beta";
  repos = stable ∷ record beta { priority = pos 120 } ∷ [];
}
unfolding apply_repo_operation text_eq max_priority
raises_priority = refl

-- In a release build the raised priority wraps around.
raised_overflow : add_i64 (pos 9223372036854775807) (pos 100) ≡ negsuc 9223372036854775708
unfolding add_i64
raised_overflow = refl

apply_repo_operation-ne-panic_example :
    (apply_repo_operation config (remove (codes "stable"))).1 ≢ err panic
apply_repo_operation-ne-panic_example =
    apply_repo_operation-ne-panic config (remove (codes "stable"))

apply_repo_operation-error_unchanged_example :
    (apply_repo_operation config (remove (codes "gone"))).0 ≡ config
unfolding apply_repo_operation text_eq max_priority
apply_repo_operation-error_unchanged_example =
    apply_repo_operation-error_unchanged config (remove (codes "gone")) (not_found (codes "gone"))
      refl

apply_repo_operation-IsValid_example :
    IsValid (apply_repo_operation config (remove (codes "stable"))).0
apply_repo_operation-IsValid_example =
    apply_repo_operation-IsValid config (remove (codes "stable")) config-IsValid

apply_repo_operation-other_example :
    repo_named (codes "beta") (apply_repo_operation config (remove (codes "stable"))).0
    ≡ repo_named (codes "beta") config
apply_repo_operation-other_example =
    apply_repo_operation-other config (remove (codes "stable")) (codes "beta") (ground arith)

set_default_highest_example :
    (r : Repo) × (default_repo (apply_repo_operation config (set_default (codes "beta"))).0 ≡ ok r)
    × (is_named (codes "beta") r ≡ true)
    × (r.priority ≡ pos 20 +ℤ pos 100)
    × OthersBelow
        (codes "beta")
        r.priority
        (apply_repo_operation config (set_default (codes "beta"))).0.repos
unfolding text_eq max_priority
set_default_highest_example =
    set_default_highest config (codes "beta") (pos 20) refl refl refl (omega arith) (omega arith)

priority_sorted_repos_stable_example :
    Descending (priority_sorted_repos config)
    × ((p : ℤ) → of_priority p (priority_sorted_repos config) ≡ of_priority p config.repos)
priority_sorted_repos_stable_example = priority_sorted_repos_stable config

priority_grouped_repos_example :
    (concat (priority_grouped_repos config) ≡ priority_sorted_repos config)
    × IsGrouped (priority_grouped_repos config)
priority_grouped_repos_example = priority_grouped_repos_lem config

-- `converts_v1_with_default_first`.
abbrev old_config : RepoConfig
old_config = record {
  default_repo = codes "repo2";
  repos = (codes "repo1", codes "http://r1") ∷ (codes "repo2", codes "http://r2") ∷ [];
  version = pos 1;
}

convert_to_v2-IsValid_example :
    IsValid (convert_to_v2 old_config)
    × (default_repo (convert_to_v2 old_config)
        ≡ ok (plain_repo (codes "repo2") (codes "http://r2") (pos 0)))
    × Descending (convert_to_v2 old_config).repos
    × ((rest : List Repo) × ((convert_to_v2 old_config).repos
          ≡ plain_repo (codes "repo2") (codes "http://r2") (pos 0) ∷ rest)
        × AtMost (negsuc 99) rest
        × StepsDown (negsuc 99) rest)
unfolding get text_eq
convert_to_v2-IsValid_example =
    convert_to_v2-IsValid old_config (codes "http://r2") (refl, (refl, tt)) refl

abbrev headless_config : RepoConfig
headless_config = record old_config { default_repo = codes "repo3" }
