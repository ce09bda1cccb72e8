-- ===== src/Task/Once.antt =====
-- What holds under every interleaving: `TaskFinished` is signalled once, and the job runs once.
use linyaps_rust.Common.{
  ℕ, suc, ◌+◌, ◌≤◌, ◌≡◌, ap, Text, Option, none, some, List, [], ◌∷◌, Bool, true, false, get_elem?,
  arith, Option-cases, inl, inr,
}
use linyaps_rust.Task.{
  TaskStateName, Values, TaskInner, Signal, task_event, task_finished, request_interaction,
}
use linyaps_rust.Task.Thread.{Thread, Choice, step}
use linyaps_rust.Task.System.{
  Service, Call, Action, call, run, System, act, history, fresh, enter, total, total-append,
  total-replace_at,
}

abbrev pub bit : Bool → ℕ
bit false = 0
bit true = 1

pub bit-le : (b : Bool) → bit b ≤ 1
bit-le false = omega arith
bit-le true = omega arith

-- The `TaskFinished` signals of a log.
abbrev pub count_finished : {V : Type 0} → List (Signal V) → ℕ
count_finished [] = 0
count_finished (task_finished r ∷ es) = suc (count_finished es)
count_finished (task_event n m ∷ es) = count_finished es
count_finished (request_interaction i m ∷ es) = count_finished es

module _ {F V : Type 0} where
  -- A thread that won the swap of `finished` and has yet to send the signal.
  abbrev pub will_finish : Thread F V → ℕ
  will_finish Thread.cancel_finished = 1
  will_finish Thread.disconnect_store = 1
  will_finish Thread.disconnect_state = 1
  will_finish (Thread.disconnect_signal s) = 1
  will_finish Thread.disconnect_finished = 1
  will_finish (Thread.run_canceled c) = 1
  will_finish Thread.run_message = 1
  will_finish (Thread.run_canceled_signal m) = 1
  will_finish (Thread.run_complete c) = 1
  will_finish (Thread.run_last_signal s r) = 1
  will_finish (Thread.run_finished r) = 1
  will_finish _ = 0

  -- A thread that won the swap of `started`: it pushes the task to the queue, or runs it.
  abbrev pub is_runner : Thread F V → ℕ
  is_runner Thread.enqueue_check = 1
  is_runner Thread.enqueue_push = 1
  is_runner Thread.run_check = 1
  is_runner Thread.run_mark = 1
  is_runner Thread.run_recheck = 1
  is_runner Thread.run_unmark = 1
  is_runner Thread.run_take = 1
  is_runner Thread.run_state = 1
  is_runner (Thread.run_signal s) = 1
  is_runner Thread.run_job = 1
  is_runner (Thread.run_stop c) = 1
  is_runner (Thread.run_finish c) = 1
  is_runner (Thread.run_canceled c) = 1
  is_runner Thread.run_message = 1
  is_runner (Thread.run_canceled_signal m) = 1
  is_runner (Thread.run_complete c) = 1
  is_runner (Thread.run_last_signal s r) = 1
  is_runner (Thread.run_finished r) = 1
  is_runner _ = 0

  -- The signals sent and still to be sent are as many as the flag says.
  abbrev pub Balanced : TaskInner F V → List (Thread F V) → Type 0
  Balanced s ts = count_finished s.signals + total will_finish ts ≡ bit s.finished

  step-finish :
      (v : Values F V) (path : Text) (ch : Choice V) (s : TaskInner F V) (t : Thread F V)
      → count_finished (step v path ch s t).0.signals
          + total will_finish (step v path ch s t).1
          + bit s.finished
        ≡ count_finished s.signals + will_finish t + bit (step v path ch s t).0.finished
  unfolding step
  step-finish v path ch s Thread.start_lock = ground arith
  step-finish v path ch s _ = ground arith

  step-runner :
      (v : Values F V) (path : Text) (ch : Choice V) (s : TaskInner F V) (t : Thread F V)
      → total is_runner (step v path ch s t).1 + bit s.started
        ≤ is_runner t + bit (step v path ch s t).0.started
  unfolding step
  step-runner v path ch s Thread.start_lock = ground arith
  step-runner v path ch s _ = ground arith

  -- A thread that took the job and has not yet seen it return.
  abbrev pub has_job : Thread F V → ℕ
  has_job Thread.run_state = 1
  has_job (Thread.run_signal s) = 1
  has_job Thread.run_job = 1
  has_job _ = 0

  -- Whether the step of a thread is the run of the job.
  abbrev pub runs_job : Thread F V → ℕ
  runs_job Thread.run_job = 1
  runs_job _ = 0

  step-job :
      (v : Values F V) (path : Text) (ch : Choice V) (s : TaskInner F V) (t : Thread F V)
      → runs_job t + total has_job (step v path ch s t).1 + bit (step v path ch s t).0.job
        ≤ has_job t + bit s.job
  unfolding step
  step-job v path ch s Thread.start_lock = ground arith
  step-job v path ch s _ = ground arith

  enter-new :
      (d : Service) (c : Call F V)
      → (total will_finish (enter d c) ≡ 0)
        × (total is_runner (enter d c) ≡ 0)
        × (total has_job (enter d c) ≡ 0)
  unfolding enter
  enter-new d (Call.start sender) = ground arith
  enter-new d (Call.reply_interaction sender id none) = ground arith
  enter-new d (Call.reply_interaction sender id (some a)) = ground arith
  enter-new d _ = ground arith

-- What is kept by every action.
pub record Counts {F V : Type 0} (y : System F V) : Type 0 where
  pub finishes : count_finished y.inner.signals + total will_finish y.threads ≡ bit y.inner.finished
  pub runners : total is_runner y.threads ≤ bit y.inner.started
  pub jobs : total has_job y.threads + bit y.inner.job ≤ 1

module _ {F V : Type 0} (v : Values F V) (d : Service) where
  act-Counts : (y : System F V) (a : Action F V) → Counts y → Counts (act v d y a)
  unfolding act
  act-Counts y (call c) h = omega (
    arith,
    total-append will_finish (enter d c) y.threads,
    total-append is_runner (enter d c) y.threads,
    total-append has_job (enter d c) y.threads,
    enter-new d c,
  )
  act-Counts y (run i ch) h = elim (Option-cases (get_elem? y.threads i)) [
    | inl e ↦ rw (e, act) h
    | inr (t, e) ↦
        let n = step v d.path ch y.inner t in
        rw (e, act)
          (omega (
            arith,
            total-replace_at will_finish y.threads i t n.1 e,
            total-replace_at is_runner y.threads i t n.1 e,
            total-replace_at has_job y.threads i t n.1 e,
            step-finish v d.path ch y.inner t,
            step-runner v d.path ch y.inner t,
            step-job v d.path ch y.inner t,
          ))
  ]

  -- How often the job is run along a history.
  abbrev pub runs_of : Option (Thread F V) → ℕ
  runs_of none = 0
  runs_of (some t) = runs_job t

  abbrev pub job_runs_at : System F V → Action F V → ℕ
  job_runs_at y (call c) = 0
  job_runs_at y (run i ch) = runs_of (get_elem? y.threads i)

  unfoldable pub job_runs : System F V → List (Action F V) → ℕ
  unfolding act
  job_runs y [] = 0
  job_runs y (a ∷ as') = job_runs_at y a + job_runs (act v d y a) as'

  -- The runs that a thread or the untaken job can still make.
  abbrev jobs_left : System F V → ℕ
  jobs_left y = total has_job y.threads + bit y.inner.job

  act-job_runs :
      (y : System F V) (a : Action F V) → job_runs_at y a + jobs_left (act v d y a) ≤ jobs_left y
  unfolding act
  act-job_runs y (call c) = omega (arith, total-append has_job (enter d c) y.threads, enter-new d c)
  act-job_runs y (run i ch) = elim (Option-cases (get_elem? y.threads i)) [
    | inl e ↦ rw (ap runs_of e) (rw (e, act) (omega arith))
    | inr (t, e) ↦
        let n = step v d.path ch y.inner t in
        rw (ap runs_of e) (
          rw (e, act)
            (omega (
              arith,
              total-replace_at has_job y.threads i t n.1 e,
              step-job v d.path ch y.inner t,
            )))
  ]

  history-job_runs :
      (y : System F V) (as' : List (Action F V))
      → job_runs y as' + jobs_left (history v d y as') ≤ jobs_left y
  unfolding job_runs history
  history-job_runs y [] = omega arith
  history-job_runs y (a ∷ as') = omega (arith, act-job_runs y a, history-job_runs (act v d y a) as')

  pub history-Counts :
      (y : System F V) (as' : List (Action F V)) → Counts y → Counts (history v d y as')
  unfolding history
  history-Counts y [] h = h
  history-Counts y (a ∷ as') h = history-Counts (act v d y a) as' (act-Counts y a h)

  pub fresh-Counts : (first : TaskStateName) (message : Text) → Counts (fresh v d first message)
  fresh-Counts first message = omega arith

  -- Whatever calls come in and however their steps interleave, a task signals `TaskFinished` at
  -- most once; and once no call is in progress, it has signalled it exactly if it is finished.
  pub finished_once :
      (first : TaskStateName) (message : Text) (as' : List (Action F V))
      → let y = history v d (fresh v d first message) as' in
        (count_finished y.inner.signals ≤ 1)
        × (y.threads ≡ [] → count_finished y.inner.signals ≡ bit y.inner.finished)
  finished_once first message as' =
      let y = history v d (fresh v d first message) as' in
      let c = history-Counts (fresh v d first message) as' (fresh-Counts first message) in
      (
        omega (arith, c.finishes, bit-le y.inner.finished),
        λ e. omega (arith, c.finishes, ap (total will_finish) e),
      )

  -- However the steps interleave, at most one thread at a time runs the task, and the job is run at most
  -- once in the whole history; once it is run, no thread has it and it is not there to be taken.
  pub job_once :
      (first : TaskStateName) (message : Text) (as' : List (Action F V))
      → let y = history v d (fresh v d first message) as' in
        (total is_runner y.threads ≤ 1)
        × (job_runs (fresh v d first message) as' + (total has_job y.threads + bit y.inner.job) ≤ 1)
  job_once first message as' =
      let y = history v d (fresh v d first message) as' in
      let c = history-Counts (fresh v d first message) as' (fresh-Counts first message) in
      (
        omega (arith, c.runners, bit-le y.inner.started),
        history-job_runs (fresh v d first message) as',
      )
