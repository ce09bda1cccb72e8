-- ===== src/RepoConfig/Command/Default.antt =====
-- The default repository: `set_default` puts it above all others, and the removal of the default
-- gives its place to a repository of the highest priority.
use linyaps_rust.Common.{
  ℕ, zero, suc, ◌+◌, ◌<◌, ◌≤◌, ◌^◌, ◌≡◌, refl, sym, ap, ◌≢◌, Bool, true, false, Text, text_eq,
  text_eq_iff, text_eq_refl, List, [], ◌∷◌, Option, none, some, any, find, position, position-some,
  next_position, get_elem?, set, remove_at, find-some, Bool-cases, inl, inr, Option-cases, ℤ, pos,
  pos_part, neg_part, ◌+ℤ◌, ◌<ℤ◌, eq_ℤ, eq_ℤ_iff, add_i64, add_i64-eq, +ℤ_parts, length, ok, arith,
  ◌==◌,
}
use linyaps_rust.RepoConfig.{
  Repo, RepoConfigV2, effective_name, is_named, max_priority, default_repo, maximum_priority,
}
use linyaps_rust.RepoConfig.Priority.{AtMost, AtMost-mono}
use linyaps_rust.RepoConfig.Names.{DistinctNames, IsValid, DistinctNames-remove_at, any-find}
use linyaps_rust.RepoConfig.Command.Outcome.{reselect_total, remove_at-nonempty}
use linyaps_rust.RepoConfig.Command.{
  remove, set_default, change_at, reselect, remove_repo, make_default, apply_at,
  apply_existing_repo_operation, apply_repo_operation, max_or_zero, changed,
}

-- Every repository that is not called `alias` has a priority below `m`.
abbrev pub OthersBelow : Text → ℤ → List Repo → Type 0
OthersBelow alias m [] = Unit {0}
OthersBelow alias m (r ∷ rs) = (is_named alias r ≡ false → r.priority <ℤ m) × OthersBelow alias m rs

max_priority-AtMost : (rs : List Repo) (m : ℤ) → max_priority rs ≡ some m → AtMost m rs
unfolding max_priority
max_priority-AtMost [] m h = tt
max_priority-AtMost (r ∷ []) m h = ground arith
max_priority-AtMost (r ∷ s ∷ rs) m h =
    go (max_priority (s ∷ rs)) refl h (max_priority-AtMost (s ∷ rs))
  where
    go :
        (o : Option ℤ)
        → max_priority (s ∷ rs) ≡ o
        → max_priority (r ∷ s ∷ rs) ≡ some m
        → ((k : ℤ) → max_priority (s ∷ rs) ≡ some k → AtMost k (s ∷ rs))
        → AtMost m (r ∷ s ∷ rs)
    go none e h ih = absurd (ground arith)
    go (some k) e h ih = ground (arith, ih k, AtMost-mono k m (s ∷ rs))

-- Below, `m` is the highest priority and `k` is above it.
OthersBelow-le :
    (alias : Text) (m k : ℤ) (rs : List Repo) → AtMost m rs → m <ℤ k → OthersBelow alias k rs
OthersBelow-le alias m k [] a h = tt
OthersBelow-le alias m k (s ∷ rs) a h = (λ e. omega arith, OthersBelow-le alias m k rs a.1 h)

OthersBelow-set :
    (alias : Text) (m k : ℤ) (rs : List Repo) (i : ℕ) (r : Repo)
    → AtMost m rs
    → m <ℤ k
    → is_named alias r ≡ true
    → OthersBelow alias k (set rs i r)
OthersBelow-set alias m k [] i r a h t = tt
OthersBelow-set alias m k (s ∷ rs) zero r a h t =
    (λ e. absurd (ground arith), OthersBelow-le alias m k rs a.1 h)
OthersBelow-set alias m k (s ∷ rs) (suc i) r a h t =
    (λ e. omega arith, OthersBelow-set alias m k rs i r a.1 h t)

-- `find` meets a write at the position of the first match.
find-set-position :
    (p : Repo → Bool) (rs : List Repo) (i : ℕ) (r : Repo)
    → position p rs ≡ some i
    → p r ≡ true
    → find p (set rs i r) ≡ some r
find-set-position p [] i r h t = cc
find-set-position p (s ∷ rs) i r h t = elim (Bool-cases (p s)) [
  | inl hit ↦ here i (ground arith)
  | inr miss ↦ later i (position p rs) refl miss (λ j. find-set-position p rs j r) (ground arith)
]
  where
    here : (i : ℕ) → some i ≡ some zero → find p (set (s ∷ rs) i r) ≡ some r
    here zero e = ground arith
    here (suc i) e = absurd (ground arith)

    later :
        (i : ℕ) (o : Option ℕ)
        → position p rs ≡ o
        → p s ≡ false
        → ((j : ℕ) → position p rs ≡ some j → p r ≡ true → find p (set rs j r) ≡ some r)
        → next_position o ≡ some i
        → find p (set (s ∷ rs) i r) ≡ some r
    later i none e miss ih q = cc
    later zero (some j) e miss ih q = absurd (ground arith)
    later (suc i) (some j) e miss ih q = ground (arith, ih i)

position-any : (p : Repo → Bool) (rs : List Repo) → any p rs ≡ true → position p rs ≢ none
position-any p [] h e = cc
position-any p (s ∷ rs) h e = ground (arith, position-any p rs)

add_100 :
    (m : ℤ) → neg_part m ≤ 2 ^ 63 → pos_part m + 100 < 2 ^ 63 → add_i64 m (pos 100) ≡ m +ℤ pos 100
unfolding ◌+ℤ◌
add_100 m low high = add_i64-eq m (pos 100) (ground arith) (ground arith)

-- The configuration that `set_default` leaves.
abbrev raised : RepoConfigV2 → Text → ℕ → Repo → ℤ → RepoConfigV2
raised c alias i r k = record c {
  default_repo = alias;
  repos = set c.repos i (record r { priority = k });
}

set_default-eq :
    (c : RepoConfigV2) (alias : Text) (m : ℤ) (i : ℕ) (r : Repo)
    → position (is_named alias) c.repos ≡ some i
    → get_elem? c.repos i ≡ some r
    → text_eq c.default_repo alias ≡ false
    → max_priority c.repos ≡ some m
    → apply_repo_operation c (set_default alias)
      ≡ (raised c alias i r (add_i64 m (pos 100)), ok changed)
unfolding apply_repo_operation make_default change_at
set_default-eq c alias m i r p g other top = rw (
  p, other, g, top, apply_repo_operation, apply_existing_repo_operation, apply_at, make_default,
  change_at,
)

raised_highest :
    (c : RepoConfigV2) (alias : Text) (m k : ℤ) (i : ℕ) (r : Repo)
    → position (is_named alias) c.repos ≡ some i
    → is_named alias r ≡ true
    → max_priority c.repos ≡ some m
    → m <ℤ k
    → (s : Repo) × (default_repo (raised c alias i r k) ≡ ok s)
      × (is_named alias s ≡ true)
      × (s.priority ≡ k)
      × OthersBelow alias s.priority (raised c alias i r k).repos
unfolding default_repo
raised_highest c alias m k i r p t top h = (
  record r { priority = k },
  rw (find-set-position (is_named alias) c.repos i (record r { priority = k }) p t),
  t,
  refl,
  OthersBelow-set alias m k c.repos i _ (max_priority-AtMost c.repos m top) h t,
)

-- `set_default`, on a repository that exists and is not the default yet, makes it the default and
-- gives it the highest priority plus 100, above every repository of another name, as long as the
-- highest priority is an `i64` and the sum fits one.
pub set_default_highest :
    (c : RepoConfigV2) (alias : Text) (m : ℤ)
    → any (is_named alias) c.repos ≡ true
    → text_eq c.default_repo alias ≡ false
    → max_priority c.repos ≡ some m
    → neg_part m ≤ 2 ^ 63
    → pos_part m + 100 < 2 ^ 63
    → (r : Repo) × (default_repo (apply_repo_operation c (set_default alias)).0 ≡ ok r)
      × (is_named alias r ≡ true)
      × (r.priority ≡ m +ℤ pos 100)
      × OthersBelow alias r.priority (apply_repo_operation c (set_default alias)).0.repos
set_default_highest c alias m known other top low high =
    elim (Option-cases (position (is_named alias) c.repos)) [
      | inl p ↦ absurd (position-any _ c.repos known p)
      | inr (i, p) ↦
          let (r, g, t) = position-some (is_named alias) c.repos i p in
          rw (set_default-eq c alias m i r p g other top, add_100 m low high)
            (raised_highest c alias m (m +ℤ pos 100) i r p t top
              (omega (arith, +ℤ_parts m (pos 100))))
    ]

-- The repository found is found by its own name too, if the names are distinct.
find-own_name :
    (p : Repo → Bool) (rs : List Repo) (r : Repo)
    → DistinctNames rs
    → find p rs ≡ some r
    → find (is_named (effective_name r)) rs ≡ some r
find-own_name p [] r d h = cc
find-own_name p (s ∷ rs) r d h = elim (Bool-cases (p s)) [
  | inl hit ↦ ground (arith, text_eq_refl (effective_name s))
  | inr miss ↦ ground (
    arith,
    find-own_name p rs r d.1,
    any-find p rs r,
    text_eq_iff (effective_name s) (effective_name r),
  )
]

max_priority-ne_none : (rs : List Repo) → rs ≢ [] → max_priority rs ≢ none
unfolding max_priority
max_priority-ne_none [] ne e = ne refl
max_priority-ne_none (r ∷ rs) ne e = ground arith

reselect-highest :
    (c : RepoConfigV2)
    → DistinctNames c.repos
    → c.repos ≢ []
    → (r : Repo) × (default_repo (reselect c).0 ≡ ok r)
      × (maximum_priority (reselect c).0 ≡ ok r.priority)
      × ((reselect c).0.repos ≡ c.repos)
unfolding reselect default_repo maximum_priority
reselect-highest c d ne = go (max_priority c.repos) refl (find _ c.repos) refl
  where
    priority_of :
        (m : ℤ) (r : Repo)
        → max_priority c.repos ≡ some m
        → find (λ r. eq_ℤ r.priority (max_or_zero (max_priority c.repos))) c.repos ≡ some r
        → r.priority ≡ m
    priority_of m r e q = ground (
      arith,
      find-some (λ r. eq_ℤ r.priority (max_or_zero (max_priority c.repos))) c.repos r q,
      eq_ℤ_iff r.priority m,
    )

    go :
        (o : Option ℤ)
        → max_priority c.repos ≡ o
        → (f : Option Repo)
        → find (λ r. eq_ℤ r.priority (max_or_zero (max_priority c.repos))) c.repos ≡ f
        → (r : Repo) × (default_repo (reselect c).0 ≡ ok r)
          × (maximum_priority (reselect c).0 ≡ ok r.priority)
          × ((reselect c).0.repos ≡ c.repos)
    go o e none q = absurd (reselect_total c ne (rw (q, reselect)))
    go none e (some r) q = absurd (max_priority-ne_none c.repos ne e)
    go (some m) e (some r) q = (
      r,
      rw (q, reselect, find-own_name _ c.repos r d q),
      rw (q, reselect, e) (ap ok (sym (priority_of m r e q))),
      rw (q, reselect),
    )

any-get :
    (n : Text) (rs : List Repo) (i : ℕ) (r : Repo)
    → get_elem? rs i ≡ some r
    → is_named n r ≡ true
    → any (is_named n) rs ≡ true
any-get n [] i r g t = cc
any-get n (s ∷ rs) zero r g t = ground arith
any-get n (s ∷ rs) (suc i) r g t = ground (arith, any-get n rs i r)

-- Where names are distinct, a removal takes the name away.
any-remove_at_self :
    (n : Text) (rs : List Repo) (i : ℕ) (r : Repo)
    → DistinctNames rs
    → get_elem? rs i ≡ some r
    → is_named n r ≡ true
    → any (is_named n) (remove_at rs i) ≡ false
any-remove_at_self n [] i r d g t = refl
any-remove_at_self n (s ∷ rs) zero r d g t = ground (arith, text_eq_iff (effective_name s) n)
any-remove_at_self n (s ∷ rs) (suc i) r d g t =
    ground
      (arith, any-remove_at_self n rs i r d.1 g, any-get n rs i r, text_eq_iff (effective_name s) n)

-- On a valid configuration with another repository left, removing the default makes a remaining
-- repository of the highest priority the default, and the removed name is gone.
pub remove_default_highest :
    (c : RepoConfigV2)
    → IsValid c
    → (length c.repos == 1) ≡ false
    → (r : Repo) × (default_repo (apply_repo_operation c (remove c.default_repo)).0 ≡ ok r)
      × (maximum_priority (apply_repo_operation c (remove c.default_repo)).0 ≡ ok r.priority)
      × (any (is_named c.default_repo) (apply_repo_operation c (remove c.default_repo)).0.repos
          ≡ false)
unfolding apply_repo_operation
remove_default_highest c v more = elim (Option-cases (position (is_named c.default_repo) c.repos)) [
  | inl p ↦ absurd (position-any _ c.repos v.default_exists p)
  | inr (i, p) ↦
      let (r, g, t) = position-some (is_named c.default_repo) c.repos i p in
      let c' = record c { repos = remove_at c.repos i } in
      let (s, found, top, same) =
        reselect-highest c' (DistinctNames-remove_at c.repos i v.distinct)
          (remove_at-nonempty c.repos i r g more) in
      rw
        (
          p,
          more,
          g,
          text_eq_refl c.default_repo,
          apply_repo_operation,
          apply_existing_repo_operation,
          apply_at,
          remove_repo,
        )
        (s, found, top, rw same (any-remove_at_self c.default_repo c.repos i r v.distinct g t))
]
