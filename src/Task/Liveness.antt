-- ===== src/Task/Liveness.antt =====
-- Calls come to an end, and a task that was started ends with them.
use linyaps_rust.Common.{
  ℕ, zero, suc, ◌+◌, ◌*◌, ◌≤◌, ◌≡◌, refl, ap, Text, none, some, List, [], ◌∷◌, true, get_elem?,
  Option-cases, inl, inr, arith,
}
use linyaps_rust.Task.{TaskStateName, Values, TaskInner}
use linyaps_rust.Task.Thread.{Thread, Choice, step}
use linyaps_rust.Task.System.{
  Service, Call, Action, call, run, System, act, history, fresh, enter, total, total-append,
  total-replace_at,
}
use linyaps_rust.Task.Once.{
  bit, bit-le, count_finished, will_finish, Counts, history-Counts, fresh-Counts,
}

module _ {F V : Type 0} where
  -- A bound on the steps of a thread, if its wait for a reply times out.
  abbrev pub steps_left : Thread F V → ℕ
  steps_left Thread.start_lock = 18
  steps_left (Thread.start_signal s) = 17
  steps_left Thread.enqueue_queued = 17
  steps_left Thread.enqueue_swap = 16
  steps_left Thread.enqueue_check = 15
  steps_left Thread.enqueue_push = 14
  steps_left Thread.run_check = 13
  steps_left Thread.run_mark = 12
  steps_left Thread.run_recheck = 11
  steps_left Thread.run_take = 10
  steps_left Thread.run_state = 9
  steps_left (Thread.run_signal s) = 8
  steps_left Thread.run_job = 7
  steps_left (Thread.run_stop c) = 6
  steps_left (Thread.run_finish c) = 5
  steps_left (Thread.run_canceled c) = 4
  steps_left (Thread.run_complete c) = 3
  steps_left (Thread.run_last_signal s r) = 2
  steps_left (Thread.run_finished r) = 1
  steps_left Thread.run_message = 3
  steps_left (Thread.run_canceled_signal m) = 1
  steps_left Thread.run_unmark = 1
  steps_left Thread.cancel_check = 8
  steps_left Thread.cancel_store = 7
  steps_left Thread.cancel_clear = 6
  steps_left Thread.cancel_state = 5
  steps_left (Thread.cancel_signal s) = 4
  steps_left Thread.cancel_running = 3
  steps_left Thread.cancel_finish = 2
  steps_left Thread.cancel_finished = 1
  steps_left Thread.disconnect_clear = 7
  steps_left Thread.disconnect_check = 6
  steps_left (Thread.disconnect_finish b) = 5
  steps_left Thread.disconnect_store = 4
  steps_left Thread.disconnect_state = 3
  steps_left (Thread.disconnect_signal s) = 2
  steps_left Thread.disconnect_finished = 1
  steps_left (Thread.progress_check p m) = 3
  steps_left (Thread.progress_lock p m) = 2
  steps_left (Thread.reset_check m) = 3
  steps_left (Thread.reset_lock m) = 2
  steps_left (Thread.message_check m) = 3
  steps_left (Thread.message_lock m) = 2
  steps_left (Thread.state_signal s) = 1
  steps_left (Thread.message_signal m) = 1
  steps_left (Thread.ask_check i x) = 5
  steps_left (Thread.ask_insert i x) = 4
  steps_left (Thread.ask_signal i x) = 3
  steps_left (Thread.ask_wait i) = 2
  steps_left (Thread.ask_undo i) = 1
  steps_left (Thread.ask_remove i b) = 1
  steps_left (Thread.reply i b) = 1

  -- A thread on the way from the swap of `started` to the removal of the job.
  abbrev pub before_take : Thread F V → ℕ
  before_take Thread.enqueue_check = 1
  before_take Thread.enqueue_push = 1
  before_take Thread.run_check = 1
  before_take Thread.run_mark = 1
  before_take Thread.run_recheck = 1
  before_take Thread.run_take = 1
  before_take _ = 0

  -- A thread that will still try to finish the task.
  abbrev pub will_try : Thread F V → ℕ
  will_try Thread.run_state = 1
  will_try (Thread.run_signal s) = 1
  will_try Thread.run_job = 1
  will_try (Thread.run_stop c) = 1
  will_try (Thread.run_finish c) = 1
  will_try t = before_take t

  step-steps_left :
      (v : Values F V) (path : Text) (ch : Choice V) (s : TaskInner F V) (t : Thread F V)
      → (total steps_left (step v path ch s t).1 ≤ steps_left t)
        × (ch.timed_out ≡ true → suc (total steps_left (step v path ch s t).1) ≤ steps_left t)
  unfolding step
  step-steps_left v path ch s Thread.start_lock = ground arith
  step-steps_left v path ch s _ = ground arith

  step-before_take :
      (v : Values F V) (path : Text) (ch : Choice V) (s : TaskInner F V) (t : Thread F V)
      → total before_take (step v path ch s t).1 + bit s.job + bit s.started
        ≤ before_take t + bit (step v path ch s t).0.job + bit (step v path ch s t).0.started
  unfolding step
  step-before_take v path ch s Thread.start_lock = ground arith
  step-before_take v path ch s _ = ground arith

  step-will_try :
      (v : Values F V) (path : Text) (ch : Choice V) (s : TaskInner F V) (t : Thread F V)
      → before_take t ≤ bit s.job
      → (bit s.finished ≤ bit (step v path ch s t).0.finished)
        × (bit (step v path ch s t).0.started + will_try t
            ≤ bit s.started
              + total will_try (step v path ch s t).1
              + 2 * bit (step v path ch s t).0.finished)
  unfolding step
  step-will_try v path ch s Thread.start_lock h = ground arith
  step-will_try v path ch s _ h = ground arith

  enter-ends :
      (d : Service) (c : Call F V)
      → (total steps_left (enter d c) ≤ 18)
        × (total before_take (enter d c) ≡ 0)
        × (total will_try (enter d c) ≡ 0)
  unfolding enter
  enter-ends d (Call.start sender) = ground arith
  enter-ends d (Call.reply_interaction sender id none) = ground arith
  enter-ends d (Call.reply_interaction sender id (some a)) = ground arith
  enter-ends d _ = ground arith

-- What is kept by every action: the job is there while a thread is on the way to it, and a task that was
-- started is finished or has a thread that will try to finish it.
pub record IsAlive {F V : Type 0} (y : System F V) : Type 0 where
  pub job_there : total before_take y.threads + 1 ≤ bit y.inner.job + bit y.inner.started
  pub ends : bit y.inner.started ≤ bit y.inner.finished + total will_try y.threads

total-ge {ℓ} :
    {A : Type ℓ} (w : A → ℕ) (xs : List A) (i : ℕ) (x : A)
    → get_elem? xs i ≡ some x
    → w x ≤ total w xs
total-ge w [] i x g = absurd (ground arith)
total-ge w (z ∷ xs) zero x g = ground arith
total-ge w (z ∷ xs) (suc i) x g = omega (arith, total-ge w xs i x g)

-- How many calls come in.
unfoldable pub count_calls : {F V : Type 0} → List (Action F V) → ℕ
count_calls [] = 0
count_calls (call c ∷ as') = suc (count_calls as')
count_calls (run i ch ∷ as') = count_calls as'

-- The thread in front makes a number of steps, each with the same choice of the environment.
unfoldable pub front_steps : {F V : Type 0} → Choice V → ℕ → List (Action F V)
front_steps ch zero = []
front_steps ch (suc n) = run 0 ch ∷ front_steps ch n

module _ {F V : Type 0} (v : Values F V) (d : Service) where
  act-IsAlive : (y : System F V) (a : Action F V) → IsAlive y → IsAlive (act v d y a)
  unfolding act
  act-IsAlive y (call c) h = omega (
    arith,
    total-append before_take (enter d c) y.threads,
    total-append will_try (enter d c) y.threads,
    enter-ends d c,
  )
  act-IsAlive y (run i ch) h = elim (Option-cases (get_elem? y.threads i)) [
    | inl e ↦ rw (e, act) h
    | inr (t, e) ↦
        let n = step v d.path ch y.inner t in
        let there : before_take t ≤ bit y.inner.job =
          omega
            (arith, total-ge before_take y.threads i t e, h.job_there, bit-le y.inner.started) in
        rw (e, act)
          (omega (
            arith,
            total-replace_at before_take y.threads i t n.1 e,
            total-replace_at will_try y.threads i t n.1 e,
            step-before_take v d.path ch y.inner t,
            step-will_try v d.path ch y.inner t there,
            bit-le n.0.started,
            bit-le n.0.finished,
          ))
  ]

  history-IsAlive :
      (y : System F V) (as' : List (Action F V)) → IsAlive y → IsAlive (history v d y as')
  unfolding history
  history-IsAlive y [] h = h
  history-IsAlive y (a ∷ as') h = history-IsAlive (act v d y a) as' (act-IsAlive y a h)

  act-steps_left :
      (y : System F V) (i : ℕ) (ch : Choice V)
      → total steps_left (act v d y (run i ch)).threads ≤ total steps_left y.threads
  unfolding act
  act-steps_left y i ch = elim (Option-cases (get_elem? y.threads i)) [
    | inl e ↦ rw (e, act) (omega arith)
    | inr (t, e) ↦
        let n = step v d.path ch y.inner t in
        rw (e, act)
          (omega (
            arith,
            total-replace_at steps_left y.threads i t n.1 e,
            step-steps_left v d.path ch y.inner t,
          ))
  ]

  -- The steps that are left are at most those of the calls that came in.
  history-steps_left :
      (y : System F V) (as' : List (Action F V))
      → total steps_left (history v d y as').threads
        ≤ 18 * count_calls as' + total steps_left y.threads
  unfolding history act count_calls
  history-steps_left y [] = omega arith
  history-steps_left y (call c ∷ as') = omega (
    arith,
    history-steps_left (act v d y (call c)) as',
    total-append steps_left (enter d c) y.threads,
    enter-ends d c,
  )
  history-steps_left y (run i ch ∷ as') =
      omega (arith, history-steps_left (act v d y (run i ch)) as', act-steps_left y i ch)

  steps_left-positive : (t : Thread F V) → 1 ≤ steps_left t
  steps_left-positive Thread.start_lock = omega arith
  steps_left-positive _ = omega arith

  none_left : (ts : List (Thread F V)) → total steps_left ts ≤ 0 → ts ≡ []
  none_left [] h = refl
  none_left (t ∷ ts) h = absurd (omega (arith, h, steps_left-positive t))

  none_in_front : (ts : List (Thread F V)) → get_elem? ts 0 ≡ none → total steps_left ts ≡ 0
  none_in_front [] e = refl
  none_in_front (t ∷ ts) e = absurd (ground arith)

  act-front :
      (y : System F V) (ch : Choice V) (n : ℕ)
      → ch.timed_out ≡ true
      → total steps_left y.threads ≤ suc n
      → total steps_left (act v d y (run 0 ch)).threads ≤ n
  unfolding act
  act-front y ch n h k = elim (Option-cases (get_elem? y.threads 0)) [
    | inl e ↦ rw (e, act) (omega (arith, none_in_front y.threads e))
    | inr (t, e) ↦
        let m = step v d.path ch y.inner t in
        let less = (step-steps_left v d.path ch y.inner t).1 h in
        rw (e, act) (omega (arith, k, less, total-replace_at steps_left y.threads 0 t m.1 e))
  ]

  front_steps-ends :
      (ch : Choice V) (n : ℕ) (y : System F V)
      → ch.timed_out ≡ true
      → total steps_left y.threads ≤ n
      → (history v d y (front_steps ch n)).threads ≡ []
  unfolding history front_steps
  front_steps-ends ch zero y h k = none_left y.threads k
  front_steps-ends ch (suc n) y h k =
      front_steps-ends ch n (act v d y (run 0 ch)) h (act-front y ch n h k)

  fresh-IsAlive : (first : TaskStateName) (message : Text) → IsAlive (fresh v d first message)
  fresh-IsAlive first message = omega arith

  at_rest_ends :
      (z : System F V)
      → Counts z
      → IsAlive z
      → z.threads ≡ []
      → z.inner.started ≡ true
      → (z.inner.finished ≡ true) × (count_finished z.inner.signals ≡ 1)
  at_rest_ends z c a e s =
      let p = ap (total will_try) e in
      let q = ap (total will_finish) e in
      let one : bit z.inner.started ≡ 1 = rw s refl in
      let done : 1 ≤ bit z.inner.finished = omega (arith, a.ends, p, one) in
      (ground arith, omega (arith, c.finishes, q, done, bit-le z.inner.finished))

  -- Whatever calls came in and however their steps interleaved, and whether or not the bus took the
  -- signals: a task that was started is finished and has signalled `TaskFinished` once as soon as no call
  -- is in progress; and all calls come to an end, in at most 18 steps for each, when from some point on no
  -- call comes in, the thread in front makes its steps, jobs return and waits for a reply time out.
  pub task_ends :
      (first : TaskStateName) (message : Text) (as' : List (Action F V)) (ch : Choice V)
      → ch.timed_out ≡ true
      → let y = history v d (fresh v d first message) as' in
        let z = history v d y (front_steps ch (18 * count_calls as')) in
        (y.threads ≡ []
          → y.inner.started ≡ true
          → (y.inner.finished ≡ true) × (count_finished y.inner.signals ≡ 1))
        × (z.threads ≡ [])
        × (z.inner.started ≡ true
            → (z.inner.finished ≡ true) × (count_finished z.inner.signals ≡ 1))
  task_ends first message as' ch h =
      let start = fresh v d first message in
      let y = history v d start as' in
      let rest : List (Action F V) = front_steps ch (18 * count_calls as') in
      let c = history-Counts v d start as' (fresh-Counts v d first message) in
      let a = history-IsAlive start as' (fresh-IsAlive first message) in
      let end =
        front_steps-ends ch (18 * count_calls as') y h
          (omega (arith, history-steps_left start as')) in
      (
        at_rest_ends y c a,
        end,
        at_rest_ends (history v d y rest) (history-Counts v d y rest c) (history-IsAlive y rest a)
            end,
      )
