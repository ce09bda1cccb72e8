-- ===== src/Task/Progress.antt =====
-- The progress that a job reports, and the questions that it asks, under every interleaving.
use linyaps_rust.Common.{
  ◌≤◌, ◌≡◌, Text, none, some, List, [], ◌∷◌, Bool, true, not, ◌&&◌, if◌then◌else◌, arith,
  Option-cases, inl, inr, get_elem?, length, retain, text_eq,
}
use linyaps_rust.Task.{TaskStateName, is_terminal, Values, TaskInner}
use linyaps_rust.Task.Thread.{Thread, Choice, step}
use linyaps_rust.Task.System.{
  Service, Call, Action, call, run, System, act, history, fresh, enter, All, All-append, All-get,
  All-replace_at,
}
use linyaps_rust.Task.Sequential.{alone, state_event}

module _ {F V : Type 0} (v : Values F V) where
  -- `(0.0..=100.0).contains(&progress)`.
  abbrev pub in_range : F → Bool
  in_range p = v.le v.zero_progress p && v.le p v.full_progress

  -- With no other thread at work, `update_progress` takes a progress that is in range and not at most
  -- the present one, on a task that is neither canceled nor in a terminal state, and signals it; in
  -- every other case it changes nothing and signals nothing.
  pub update_progress_alone :
      (path : Text) (ch : Choice V) (s : TaskInner F V) (p : F) (message : Text)
      → alone v path ch 3 s (Thread.progress_check p message ∷ []) ≡ (
        (if in_range p
              && not s.canceled
              && not (v.le p s.snapshot.progress)
              && not (is_terminal s.snapshot.state)
            then record s {
              snapshot = record s.snapshot { progress = p; message = message };
              signals =
                  state_event v (record s.snapshot { progress = p; message = message }) ∷ s.signals;
            }
            else s),
        [],
      )
  unfolding alone
  update_progress_alone path ch s p message = ground arith

  -- A thread that is about to store a progress has one in range.
  abbrev pub RangedThread : Thread F V → Type 0
  RangedThread (Thread.progress_lock p message) = in_range p ≡ true
  RangedThread _ = Unit {0}

  step-ranged :
      (path : Text) (ch : Choice V) (s : TaskInner F V) (t : Thread F V)
      → in_range v.zero_progress ≡ true
      → in_range s.snapshot.progress ≡ true
      → RangedThread t
      → (in_range (step v path ch s t).0.snapshot.progress ≡ true)
        × All RangedThread (step v path ch s t).1
  unfolding step
  step-ranged path ch s Thread.start_lock z r a = ground arith
  step-ranged path ch s _ z r a = ground arith

  enter-ranged : (d : Service) (c : Call F V) → All RangedThread (enter d c)
  unfolding enter
  enter-ranged d (Call.start sender) = ground arith
  enter-ranged d (Call.reply_interaction sender id none) = ground arith
  enter-ranged d (Call.reply_interaction sender id (some a)) = ground arith
  enter-ranged d _ = ground arith

  abbrev Ranged : System F V → Type 0
  Ranged y = (in_range y.inner.snapshot.progress ≡ true) × All RangedThread y.threads

  act-Ranged :
      (d : Service) (y : System F V) (a : Action F V)
      → in_range v.zero_progress ≡ true
      → Ranged y
      → Ranged (act v d y a)
  unfolding act
  act-Ranged d y (call c) z h =
      (h.0, All-append RangedThread (enter d c) y.threads (enter-ranged d c) h.1)
  act-Ranged d y (run i ch) z h = elim (Option-cases (get_elem? y.threads i)) [
    | inl e ↦ rw (e, act) h
    | inr (t, e) ↦
        let r = step-ranged d.path ch y.inner t z h.0 (All-get RangedThread y.threads i t e h.1) in
        rw (e, act) (r.0, All-replace_at RangedThread y.threads i _ h.1 r.1)
  ]

  history-Ranged :
      (d : Service) (y : System F V) (as' : List (Action F V))
      → in_range v.zero_progress ≡ true
      → Ranged y
      → Ranged (history v d y as')
  unfolding history
  history-Ranged d y [] z h = h
  history-Ranged d y (a ∷ as') z h = history-Ranged d (act v d y a) as' z (act-Ranged d y a z h)

  -- Whatever calls come in and however their steps interleave, the progress of a task stays between
  -- 0 and 100, as long as 0 does.
  pub progress_in_range :
      (d : Service) (first : TaskStateName) (message : Text) (as' : List (Action F V))
      → in_range v.zero_progress ≡ true
      → in_range (history v d (fresh v d first message) as').inner.snapshot.progress ≡ true
  progress_in_range d first message as' z =
      (history-Ranged d (fresh v d first message) as' z (z, tt)).0

length-retain {ℓ} : {A : Type ℓ} (p : A → Bool) (xs : List A) → length (retain p xs) ≤ length xs
length-retain p [] = omega arith
length-retain p (x ∷ xs) = ground (arith, length-retain p xs)

module _ {F V : Type 0} (v : Values F V) where
  step-asks :
      (path : Text) (ch : Choice V) (s : TaskInner F V) (t : Thread F V)
      → length s.interactions ≤ 1
      → length (step v path ch s t).0.interactions ≤ 1
  unfolding step
  step-asks path ch s Thread.start_lock h = ground arith
  step-asks path ch s (Thread.ask_undo id) h =
      omega (arith, length-retain {0} (λ i. not (text_eq i id)) s.interactions)
  step-asks path ch s (Thread.ask_remove id b) h =
      omega (arith, length-retain {0} (λ i. not (text_eq i id)) s.interactions)
  step-asks path ch s (Thread.reply id b) h =
      ground (arith, length-retain {0} (λ i. not (text_eq i id)) s.interactions)
  step-asks path ch s _ h = ground arith

  act-asks :
      (d : Service) (y : System F V) (a : Action F V)
      → length y.inner.interactions ≤ 1
      → length (act v d y a).inner.interactions ≤ 1
  unfolding act
  act-asks d y (call c) h = h
  act-asks d y (run i ch) h = elim (Option-cases (get_elem? y.threads i)) [
    | inl e ↦ rw (e, act) h
    | inr (t, e) ↦ rw (e, act) (step-asks d.path ch y.inner t h)
  ]

  history-asks :
      (d : Service) (y : System F V) (as' : List (Action F V))
      → length y.inner.interactions ≤ 1
      → length (history v d y as').inner.interactions ≤ 1
  unfolding history
  history-asks d y [] h = h
  history-asks d y (a ∷ as') h = history-asks d (act v d y a) as' (act-asks d y a h)

  -- However the steps interleave, a task has at most one question open.
  pub one_interaction :
      (d : Service) (first : TaskStateName) (message : Text) (as' : List (Action F V))
      → length (history v d (fresh v d first message) as').inner.interactions ≤ 1
  one_interaction d first message as' = history-asks d (fresh v d first message) as' (omega arith)
