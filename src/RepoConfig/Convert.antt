-- ===== src/RepoConfig/Convert.antt =====
-- `convert_to_v2` of crates/linyaps-core/src/repository.rs. A `BTreeMap<String, String>` is the list
-- of its entries in key order; its keys are distinct. The priorities stay far from the ends of
-- `i64`, so `priority -= 100` is the subtraction on integers.
use linyaps_rust.Common.{
  ◌≡◌, refl, ◌∙◌, ap, Bool, true, false, Text, text_eq, text_eq_iff, text_eq_refl, List, [], ◌∷◌,
  Option, none, some, any, if◌then◌else◌, Bool-cases, inl, inr, ℤ, pos, negsuc, ◌-ℤ◌, ◌≤ℤ◌,
  -ℤ_parts, ok, err, ensure, arith, Option-cases,
}
use linyaps_rust.RepoConfig.{
  Repo, RepoConfigV2, is_named, save_check, default_repo, missing_default,
}
use linyaps_rust.RepoConfig.Names.{DistinctNames, IsValid}
use linyaps_rust.RepoConfig.Priority.{AtMost, Descending}

pub record RepoConfig : Type 0 where
  pub default_repo : Text
  pub repos : List (Text × Text)
  pub version : ℤ

-- `BTreeMap::get`.
unfoldable pub get : Text → List (Text × Text) → Option Text
get k [] = none
get k ((j, v) ∷ m) = if text_eq j k then some v else get k m

abbrev pub plain_repo : Text → Text → ℤ → Repo
plain_repo name url priority = record {
  alias = none;
  mirror_enabled = none;
  name = name;
  priority = priority;
  region = none;
  url = url;
}

-- The loop over the map, which skips the default repository.
unfoldable pub convert_rest : Text → ℤ → List (Text × Text) → List Repo
unfolding ◌-ℤ◌
convert_rest default priority [] = []
convert_rest default priority ((name, url) ∷ m) =
    if text_eq name default
    then convert_rest default priority m
    else plain_repo name url priority ∷ convert_rest default (priority -ℤ pos 100) m

unfoldable pub convert_repos : Text → List (Text × Text) → List Repo
unfolding get convert_rest ◌-ℤ◌
convert_repos default m = elim (get default m) [
  | none ↦ convert_rest default (pos 0) m
  | some url ↦ plain_repo default url (pos 0) ∷ convert_rest default (pos 0 -ℤ pos 100) m
]

unfoldable pub convert_to_v2 : RepoConfig → RepoConfigV2
unfolding convert_repos
convert_to_v2 c = record {
  default_repo = c.default_repo;
  repos = convert_repos c.default_repo c.repos;
  version = pos 2;
}

-- The keys of a map are distinct.
abbrev pub has_key : Text → List (Text × Text) → Bool
has_key k [] = false
has_key k ((j, v) ∷ m) = if text_eq j k then true else has_key k m

abbrev pub DistinctKeys : List (Text × Text) → Type 0
DistinctKeys [] = Unit {0}
DistinctKeys ((k, v) ∷ m) = (has_key k m ≡ false) × DistinctKeys m

-- The loop takes every key but the default's.
any-convert_rest :
    (n default : Text) (p : ℤ) (m : List (Text × Text))
    → any (is_named n) (convert_rest default p m)
      ≡ (if text_eq n default then false else has_key n m)
unfolding convert_rest
any-convert_rest n default p [] = ground arith
any-convert_rest n default p ((k, v) ∷ m) = ground (
  arith,
  any-convert_rest n default p m,
  any-convert_rest n default (p -ℤ pos 100) m,
  text_eq_iff n default,
  text_eq_iff k default,
  text_eq_iff k n,
)

convert_rest-DistinctNames :
    (default : Text) (p : ℤ) (m : List (Text × Text))
    → DistinctKeys m
    → DistinctNames (convert_rest default p m)
unfolding convert_rest
convert_rest-DistinctNames default p [] d = tt
convert_rest-DistinctNames default p ((k, v) ∷ m) d = elim (Bool-cases (text_eq k default)) [
  | inl e ↦ rw e (convert_rest-DistinctNames default p m d.1)
  | inr e ↦ rw e (
    any-convert_rest k default (p -ℤ pos 100) m ∙ rw (e, d.0) refl,
    convert_rest-DistinctNames default (p -ℤ pos 100) m d.1,
  )
]

convert_rest-AtMost :
    (default : Text) (p q : ℤ) (m : List (Text × Text))
    → p ≤ℤ q
    → AtMost q (convert_rest default p m) × Descending (convert_rest default p m)
unfolding convert_rest
convert_rest-AtMost default p q [] h = (tt, tt)
convert_rest-AtMost default p q ((k, v) ∷ m) h = elim (Bool-cases (text_eq k default)) [
  | inl e ↦ rw e (convert_rest-AtMost default p q m h)
  | inr e ↦
      let below : p -ℤ pos 100 ≤ℤ p = omega (arith, -ℤ_parts p (pos 100)) in
      let (lower, d) = convert_rest-AtMost default (p -ℤ pos 100) p m below in
      let (upper, d') =
        convert_rest-AtMost default (p -ℤ pos 100) q m (omega (arith, -ℤ_parts p (pos 100))) in
      rw e ((h, upper), (lower, d))
]

has_key-get : (k : Text) (m : List (Text × Text)) → get k m ≡ none → has_key k m ≡ false
unfolding get
has_key-get k [] h = refl
has_key-get k ((j, v) ∷ m) h = ground (arith, has_key-get k m)

has_key-get-some :
    (k : Text) (m : List (Text × Text)) (v : Text) → get k m ≡ some v → has_key k m ≡ true
unfolding get
has_key-get-some k [] v h = cc
has_key-get-some k ((j, w) ∷ m) v h = ground (arith, has_key-get-some k m v)

-- The conversion keeps the set of names: a repository has a name exactly when the map has the key.
pub any-convert_to_v2 :
    (c : RepoConfig) (n : Text) → any (is_named n) (convert_to_v2 c).repos ≡ has_key n c.repos
unfolding convert_to_v2 convert_repos
any-convert_to_v2 c n = elim (Option-cases (get c.default_repo c.repos)) [
  | inl e ↦
      rw (e, convert_repos)
        (ground (
          arith,
          any-convert_rest n c.default_repo (pos 0) c.repos,
          has_key-get c.default_repo c.repos e,
          text_eq_iff n c.default_repo,
        ))
  | inr (u, e) ↦
      rw (e, convert_repos)
        (ground (
          arith,
          any-convert_rest n c.default_repo (pos 0 -ℤ pos 100) c.repos,
          has_key-get-some c.default_repo c.repos u e,
          text_eq_iff n c.default_repo,
          text_eq_iff c.default_repo n,
        ))
]

-- The priorities fall by 100 from one repository to the next, from a first one on.
abbrev pub StepsDown : ℤ → List Repo → Type 0
StepsDown p [] = Unit {0}
StepsDown p (r ∷ rs) = (r.priority ≡ p) × StepsDown (p -ℤ pos 100) rs

convert_rest-StepsDown :
    (default : Text) (p : ℤ) (m : List (Text × Text)) → StepsDown p (convert_rest default p m)
unfolding convert_rest
convert_rest-StepsDown default p [] = tt
convert_rest-StepsDown default p ((k, v) ∷ m) = elim (Bool-cases (text_eq k default)) [
  | inl e ↦ rw e (convert_rest-StepsDown default p m)
  | inr e ↦ rw e (refl, convert_rest-StepsDown default (p -ℤ pos 100) m)
]

-- Where the keys are distinct and the map has the default's key, the converted configuration is valid,
-- and its default is the repository of that key with the key's address, which comes first with the
-- priority 0; the others follow with -100 and so on down by 100, each below the default.
pub convert_to_v2-IsValid :
    (c : RepoConfig) (u : Text)
    → DistinctKeys c.repos
    → get c.default_repo c.repos ≡ some u
    → IsValid (convert_to_v2 c)
      × (default_repo (convert_to_v2 c) ≡ ok (plain_repo c.default_repo u (pos 0)))
      × Descending (convert_to_v2 c).repos
      × ((rest : List Repo) × ((convert_to_v2 c).repos ≡ plain_repo c.default_repo u (pos 0) ∷ rest)
          × AtMost (negsuc 99) rest
          × StepsDown (negsuc 99) rest)
unfolding convert_to_v2 convert_repos default_repo ◌-ℤ◌
convert_to_v2-IsValid c u d e =
    let (at_most, falling) =
      convert_rest-AtMost c.default_repo (pos 0 -ℤ pos 100) (pos 0) c.repos (omega arith) in
    rw (e, text_eq_refl c.default_repo, convert_repos)
      (
        record {
          distinct = (
            any-convert_rest c.default_repo c.default_repo (pos 0 -ℤ pos 100) c.repos
                ∙ rw (text_eq_refl c.default_repo) refl,
            convert_rest-DistinctNames c.default_repo _ c.repos d,
          );
          default_exists = rw (text_eq_refl c.default_repo) refl;
        },
        refl,
        (at_most, falling),
        (
          convert_rest c.default_repo (pos 0 -ℤ pos 100) c.repos,
          refl,
          (convert_rest-AtMost c.default_repo (pos 0 -ℤ pos 100) (negsuc 99) c.repos
              (omega arith)).0,
          convert_rest-StepsDown c.default_repo (pos 0 -ℤ pos 100) c.repos,
        ),
      )

-- Where it lacks the default's key, `save_config` refuses the converted configuration.
pub convert_to_v2-save_check :
    (c : RepoConfig)
    → get c.default_repo c.repos ≡ none
    → save_check (convert_to_v2 c) ≡ err missing_default
unfolding save_check convert_to_v2
convert_to_v2-save_check c e =
    ap (λ b. ensure b missing_default)
      (any-convert_to_v2 c c.default_repo ∙ has_key-get c.default_repo c.repos e)
