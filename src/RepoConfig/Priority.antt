-- ===== src/RepoConfig/Priority.antt =====
-- Repositories by priority (crates/linyaps-core/src/repository.rs, `priority_sorted_repos` and
-- `priority_grouped_repos`).
use linyaps_rust.Common.{
  ◌≡◌, refl, ◌∙◌, sym, ap, false, List, [], ◌∷◌, ◌++◌, retain, Bool-cases, inl, inr, ℤ, ◌<ℤ◌, ◌≤ℤ◌,
  eq_ℤ, eq_ℤ_iff, if◌then◌else◌, arith,
}
use mathlib.Core.List.{append-nil, append_assoc}
use linyaps_rust.RepoConfig.{
  Repo, RepoConfigV2, insert_by_priority, sort_by_priority, priority_sorted_repos, first_differs,
  opens_group, group_step, group_from, priority_grouped_repos,
}

-- Every repository's priority is at most `m`.
abbrev pub AtMost : ℤ → List Repo → Type 0
AtMost m [] = Unit {0}
AtMost m (r ∷ rs) = (r.priority ≤ℤ m) × AtMost m rs

-- Priorities never rise along the list.
abbrev pub Descending : List Repo → Type 0
Descending [] = Unit {0}
Descending (r ∷ rs) = AtMost r.priority rs × Descending rs

pub AtMost-mono : (m k : ℤ) (rs : List Repo) → m ≤ℤ k → AtMost m rs → AtMost k rs
AtMost-mono m k [] h a = tt
AtMost-mono m k (r ∷ rs) h a = (omega arith, AtMost-mono m k rs h a.1)

AtMost-insert :
    (m : ℤ) (r : Repo) (rs : List Repo)
    → r.priority ≤ℤ m
    → AtMost m rs
    → AtMost m (insert_by_priority r rs)
unfolding insert_by_priority
AtMost-insert m r [] h a = (h, tt)
AtMost-insert m r (s ∷ rs) h a = ground (arith, AtMost-insert m r rs h)

insert-Descending :
    (r : Repo) (rs : List Repo) → Descending rs → Descending (insert_by_priority r rs)
unfolding insert_by_priority
insert-Descending r [] d = (tt, tt)
insert-Descending r (s ∷ rs) d = ground (
  arith,
  insert-Descending r rs d.1,
  AtMost-insert s.priority r rs,
  AtMost-mono s.priority r.priority rs,
)

sort-Descending : (rs : List Repo) → Descending (sort_by_priority rs)
unfolding sort_by_priority
sort-Descending [] = tt
sort-Descending (r ∷ rs) = insert-Descending r (sort_by_priority rs) (sort-Descending rs)

-- The repositories of one priority, in order.
abbrev pub of_priority : ℤ → List Repo → List Repo
of_priority p = retain (λ r. eq_ℤ r.priority p)

of_priority-insert :
    (p : ℤ) (r : Repo) (rs : List Repo)
    → of_priority p (insert_by_priority r rs) ≡ of_priority p (r ∷ rs)
unfolding insert_by_priority
of_priority-insert p r [] = refl
of_priority-insert p r (s ∷ rs) = ground (arith, of_priority-insert p r rs)

of_priority-sort : (p : ℤ) (rs : List Repo) → of_priority p (sort_by_priority rs) ≡ of_priority p rs
unfolding sort_by_priority
of_priority-sort p [] = refl
of_priority-sort p (r ∷ rs) =
    of_priority-insert p r (sort_by_priority rs)
    ∙ ap (λ l. if eq_ℤ r.priority p then r ∷ l else l) (of_priority-sort p rs)

-- The sorted list has falling priorities, and for each priority the same repositories in the same
-- order as the configuration.
pub priority_sorted_repos_stable :
    (c : RepoConfigV2)
    → Descending (priority_sorted_repos c)
      × ((p : ℤ) → of_priority p (priority_sorted_repos c) ≡ of_priority p c.repos)
unfolding priority_sorted_repos
priority_sorted_repos_stable c = (sort-Descending c.repos, λ p. of_priority-sort p c.repos)

abbrev pub concat {ℓ} : {A : Type ℓ} → List (List A) → List A
concat [] = []
concat (g ∷ gs) = g ++ concat gs

-- A group is not empty and has one priority.
abbrev pub Uniform : List Repo → Type 0
Uniform [] = ⊥
Uniform (r ∷ []) = Unit {0}
Uniform (r ∷ s ∷ rs) = (s.priority ≡ r.priority) × Uniform (s ∷ rs)

-- The first group has the higher priority.
abbrev pub Above : List Repo → List Repo → Type 0
Above [] h = ⊥
Above (r ∷ g) [] = ⊥
Above (r ∷ g) (s ∷ h) = s.priority <ℤ r.priority

abbrev pub IsGrouped : List (List Repo) → Type 0
IsGrouped [] = Unit {0}
IsGrouped (g ∷ []) = Uniform g
IsGrouped (g ∷ h ∷ gs) = Uniform g × Above g h × IsGrouped (h ∷ gs)

-- The last group's priority is at least `p`.
abbrev HeadAtLeast : List Repo → ℤ → Type 0
HeadAtLeast [] p = ⊥
HeadAtLeast (r ∷ g) p = p ≤ℤ r.priority

abbrev LastAtLeast : List (List Repo) → ℤ → Type 0
LastAtLeast [] p = Unit {0}
LastAtLeast (g ∷ []) p = HeadAtLeast g p
LastAtLeast (g ∷ h ∷ gs) p = LastAtLeast (h ∷ gs) p

group_step-cons :
    (g h : List Repo) (gs : List (List Repo)) (r : Repo)
    → group_step (g ∷ h ∷ gs) r ≡ g ∷ group_step (h ∷ gs) r
group_step-cons g h gs r = elim (Bool-cases (opens_group (h ∷ gs) r.priority)) [
  | inl e ↦ rw e refl
  | inr e ↦ rw e refl
]

concat-group_step :
    (gs : List (List Repo)) (r : Repo) → concat (group_step gs r) ≡ concat gs ++ r ∷ []
concat-group_step [] r = refl
concat-group_step (g ∷ []) r = elim (Bool-cases (first_differs g r.priority)) [
  | inl e ↦ rw e (simp append-nil)
  | inr e ↦ rw e (simp append-nil)
]
concat-group_step (g ∷ h ∷ gs) r =
    rw (group_step-cons g h gs r, concat-group_step (h ∷ gs) r) (sym (append_assoc g _ _))

concat-group_from :
    (gs : List (List Repo)) (rs : List Repo) → concat (group_from gs rs) ≡ concat gs ++ rs
unfolding group_from
concat-group_from gs [] = simp append-nil
concat-group_from gs (r ∷ rs) =
    concat-group_from (group_step gs r) rs
    ∙ rw (concat-group_step gs r) (append_assoc (concat gs) _ _)

-- A repository of the last group's priority joins it; one of a lower priority opens a group.
Uniform-snoc :
    (g : List Repo) (r : Repo)
    → Uniform g
    → first_differs g r.priority ≡ false
    → Uniform (g ++ r ∷ [])
Uniform-snoc [] r u e = tt
Uniform-snoc (s ∷ []) r u e = (ground (arith, eq_ℤ_iff s.priority r.priority), tt)
Uniform-snoc (s ∷ t ∷ g) r u e = (u.0, Uniform-snoc (t ∷ g) r u.1 (rw u.0 e))

group_step-Above :
    (g : List Repo) (gs : List (List Repo)) (h : List Repo) (r : Repo)
    → Above g h
    → (k : List Repo) × (l : List (List Repo)) × (group_step (h ∷ gs) r ≡ k ∷ l) × Above g k
group_step-Above (s ∷ g) [] (t ∷ h) r a = elim (Bool-cases (first_differs (t ∷ h) r.priority)) [
  | inl e ↦ (t ∷ h, (r ∷ []) ∷ [], rw e refl, a)
  | inr e ↦ (t ∷ h ++ r ∷ [], [], rw e refl, a)
]
group_step-Above (s ∷ g) (i ∷ gs) (t ∷ h) r a =
    (t ∷ h, group_step (i ∷ gs) r, group_step-cons (t ∷ h) i gs r, a)
group_step-Above [] gs h r a = elim a [ ]
group_step-Above (s ∷ g) gs [] r a = elim a [ ]

group_step-IsGrouped :
    (gs : List (List Repo)) (r : Repo)
    → IsGrouped gs
    → LastAtLeast gs r.priority
    → IsGrouped (group_step gs r)
group_step-IsGrouped [] r v b = tt
group_step-IsGrouped ([] ∷ []) r v b = elim v [ ]
group_step-IsGrouped ((s ∷ g) ∷ []) r v b = elim (Bool-cases (first_differs (s ∷ g) r.priority)) [
  | inl e ↦ rw e (v, ground (arith, eq_ℤ_iff s.priority r.priority), tt)
  | inr e ↦ rw e (Uniform-snoc (s ∷ g) r v e)
]
group_step-IsGrouped (g ∷ h ∷ gs) r v b =
    let (k, l, e, a) = group_step-Above g gs h r v.1 in
    rw (group_step-cons g h gs r, e) (v.0, a, rw e at (group_step-IsGrouped (h ∷ gs) r v.2 b))

group_step-LastAtLeast :
    (gs : List (List Repo)) (r : Repo) (p : ℤ)
    → IsGrouped gs
    → p ≤ℤ r.priority
    → LastAtLeast (group_step gs r) p
group_step-LastAtLeast [] r p v h = h
group_step-LastAtLeast ([] ∷ []) r p v h = elim v [ ]
group_step-LastAtLeast ((s ∷ g) ∷ []) r p v h =
    elim (Bool-cases (first_differs (s ∷ g) r.priority)) [
      | inl e ↦ rw e h
      | inr e ↦ rw e (ground (arith, eq_ℤ_iff s.priority r.priority))
    ]
group_step-LastAtLeast (g ∷ h ∷ gs) r p v b =
    let (k, l, e, a) = group_step-Above g gs h r v.1 in
    rw (group_step-cons g h gs r, e) (rw e at (group_step-LastAtLeast (h ∷ gs) r p v.2 b))

group_from-IsGrouped :
    (gs : List (List Repo)) (rs : List Repo)
    → IsGrouped gs
    → Descending rs
    → ((r : Repo) (ss : List Repo) → rs ≡ r ∷ ss → LastAtLeast gs r.priority)
    → IsGrouped (group_from gs rs)
unfolding group_from
group_from-IsGrouped gs [] v d b = v
group_from-IsGrouped gs (r ∷ []) v d b = group_step-IsGrouped gs r v (b r [] refl)
group_from-IsGrouped gs (r ∷ s ∷ rs) v d b =
    group_from-IsGrouped (group_step gs r) (s ∷ rs) (group_step-IsGrouped gs r v (b r _ refl)) d.1
      (λ t ss e. group_step-LastAtLeast gs r t.priority v (ground arith))

-- The groups, one after another, are the sorted list; each group has one priority, and the
-- priorities fall strictly from group to group.
pub priority_grouped_repos_lem :
    (c : RepoConfigV2)
    → (concat (priority_grouped_repos c) ≡ priority_sorted_repos c)
      × IsGrouped (priority_grouped_repos c)
unfolding priority_grouped_repos
priority_grouped_repos_lem c = (
  concat-group_from [] (priority_sorted_repos c),
  group_from-IsGrouped [] (priority_sorted_repos c) tt (sort-Descending c.repos) (λ r ss e. tt),
)
