-- ===== src/RepoConfig/Names.antt =====
-- Effective names: which names a repository list has, and that each stands there once.
use linyaps_rust.Common.{
  ℕ, zero, suc, ◌≡◌, refl, Bool, true, false, ◌||◌, Text, text_eq_iff, text_eq_refl, find, List, [],
  ◌∷◌, ◌++◌, some, any, get_elem?, set, remove_at, arith,
}
use linyaps_rust.RepoConfig.{Repo, RepoConfigV2, effective_name, is_named}

-- No two repositories have one effective name.
abbrev pub DistinctNames : List Repo → Type 0
DistinctNames [] = Unit {0}
DistinctNames (r ∷ rs) = (any (is_named (effective_name r)) rs ≡ false) × DistinctNames rs

-- The names are distinct, and the default is one of them.
pub record IsValid (c : RepoConfigV2) : Type 0 where
  pub distinct : DistinctNames c.repos
  pub default_exists : any (is_named c.default_repo) c.repos ≡ true

pub any-snoc {ℓ} :
    {A : Type ℓ} (p : A → Bool) (xs : List A) (x : A) → any p (xs ++ x ∷ []) ≡ (any p xs || p x)
any-snoc p [] x = ground arith
any-snoc p (y ∷ xs) x = ground (arith, any-snoc p xs x)

pub DistinctNames-snoc :
    (rs : List Repo) (r : Repo)
    → DistinctNames rs
    → any (is_named (effective_name r)) rs ≡ false
    → DistinctNames (rs ++ r ∷ [])
DistinctNames-snoc [] r d h = (refl, tt)
DistinctNames-snoc (s ∷ rs) r d h = (
  ground (
    arith,
    any-snoc (is_named (effective_name s)) rs r,
    text_eq_iff (effective_name r) (effective_name s),
    text_eq_iff (effective_name s) (effective_name r),
  ),
  DistinctNames-snoc rs r d.1 (ground arith),
)

-- A write that keeps the effective name keeps the names.
pub any-set :
    (n : Text) (rs : List Repo) (i : ℕ) (r r' : Repo)
    → get_elem? rs i ≡ some r
    → effective_name r' ≡ effective_name r
    → any (is_named n) (set rs i r') ≡ any (is_named n) rs
any-set n [] i r r' g e = refl
any-set n (s ∷ rs) zero r r' g e = ground arith
any-set n (s ∷ rs) (suc i) r r' g e = ground (arith, any-set n rs i r r')

pub DistinctNames-set :
    (rs : List Repo) (i : ℕ) (r r' : Repo)
    → get_elem? rs i ≡ some r
    → effective_name r' ≡ effective_name r
    → DistinctNames rs
    → DistinctNames (set rs i r')
DistinctNames-set [] i r r' g e d = d
DistinctNames-set (s ∷ rs) zero r r' g e d = ground arith
DistinctNames-set (s ∷ rs) (suc i) r r' g e d =
    ground (arith, any-set (effective_name s) rs i r r', DistinctNames-set rs i r r' g e d.1)

-- A removal takes away no other name.
pub any-remove_at-false :
    (n : Text) (rs : List Repo) (i : ℕ)
    → any (is_named n) rs ≡ false
    → any (is_named n) (remove_at rs i) ≡ false
any-remove_at-false n [] i h = refl
any-remove_at-false n (s ∷ rs) zero h = ground arith
any-remove_at-false n (s ∷ rs) (suc i) h = ground (arith, any-remove_at-false n rs i)

pub any-remove_at :
    (n : Text) (rs : List Repo) (i : ℕ) (r : Repo)
    → get_elem? rs i ≡ some r
    → is_named n r ≡ false
    → any (is_named n) (remove_at rs i) ≡ any (is_named n) rs
any-remove_at n [] i r g h = refl
any-remove_at n (s ∷ rs) zero r g h = ground arith
any-remove_at n (s ∷ rs) (suc i) r g h = ground (arith, any-remove_at n rs i r)

pub DistinctNames-remove_at :
    (rs : List Repo) (i : ℕ) → DistinctNames rs → DistinctNames (remove_at rs i)
DistinctNames-remove_at [] i d = d
DistinctNames-remove_at (s ∷ rs) zero d = d.1
DistinctNames-remove_at (s ∷ rs) (suc i) d =
    (any-remove_at-false (effective_name s) rs i d.0, DistinctNames-remove_at rs i d.1)

-- A repository that is found has its name in the list.
pub any-find :
    (p : Repo → Bool) (rs : List Repo) (r : Repo)
    → find p rs ≡ some r
    → any (is_named (effective_name r)) rs ≡ true
any-find p [] r h = cc
any-find p (s ∷ rs) r h = ground (arith, any-find p rs r, text_eq_refl (effective_name r))
