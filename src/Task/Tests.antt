-- ===== src/Task/Tests.antt =====
-- Runs of a task, and instances of the theorems. Progress is a number and a value is a text here.
use linyaps_rust.Common.{
  ◌*◌, not, retain, ℕ, zero, suc, ◌+◌, ◌≤◌, ◌≡◌, refl, Text, codes, text_eq, split, none, some,
  List, [], ◌∷◌, ◌++◌, true, false, leb, length, pos, ok, pos_part,
}
use linyaps_rust.Task.{
  canceled, pending, processing, queued, succeed, Values, TaskInner, TaskCompletion, task_finished,
  with_state, common_result, completed, cancel_message,
}
use linyaps_rust.Task.Thread
use linyaps_rust.Task.Thread.{Choice, step}
use linyaps_rust.Task.System.{Service, Call, Action, call, run, System, history, fresh, total}
use linyaps_rust.Task.Once.{
  count_finished, bit, is_runner, has_job, job_runs, finished_once, job_once,
}
use linyaps_rust.Task.Sequential.{
  alone, run_task_alone, cancel_running_alone, in_state, state_event,
}
use linyaps_rust.Task.Progress.{in_range, progress_in_range}
use linyaps_rust.Task.Owner.{from_stranger, history-from_stranger}
use linyaps_rust.Task.Liveness.{front_steps, count_calls, task_ends}
use linyaps_rust.Task.Queue.{QueueAction, enqueue, work, queue_history, empty_queue, queue_fifo}

abbrev values : Values ℕ Text
values = record {
  le = leb;
  zero_progress = 0;
  full_progress = 100;
  owned_string = λ t. t;
  of_i64 = λ z. pos_part z ∷ [];
  of_f64 = λ p. p ∷ [];
}

abbrev service : Service
service = record { path = codes "/Task1/07"; owner = some (codes ":1.5") }

abbrev done : TaskCompletion Text
done = completed values (codes "done") []

abbrev choice : Choice Text
choice = record { sent = true; timed_out = true; completion = ok done }

abbrev times : ℕ → ℕ → List (Action ℕ Text)
times zero i = []
times (suc n) i = run i choice ∷ times n i

-- A queued task that nobody disturbs.
abbrev quiet : List (Action ℕ Text)
quiet = call Call.enqueue ∷ times 19 0

-- A cancel that has passed its check when the task finishes: it overwrites the state.
abbrev late_cancel : List (Action ℕ Text)
late_cancel =
    call Call.enqueue
    ∷ (times 10 0
        ++ (call (Call.cancel (some (codes ":1.5"))) ∷ (times 1 0 ++ (times 8 1 ++ times 7 0))))

-- The task succeeded and said so, and then shows as canceled.
late_cancel_result :
    let y = history values service (fresh values service queued []) late_cancel in
    (y.inner.snapshot.state ≡ canceled)
    × (y.inner.signals
        ≡ state_event values (record {
          state = canceled;
          progress = 0;
          message = codes "task 07 has been canceled by user";
        })
          ∷ task_finished []
          ∷ state_event values (record { state = succeed; progress = 0; message = codes "done" })
          ∷ state_event values (record { state = processing; progress = 0; message = [] })
          ∷ [])
    × (y.threads ≡ [])
unfolding history text_eq step split cancel_message
late_cancel_result = (refl, refl, refl)

-- A cancel that runs between the job's removal and the state `Processing`.
abbrev early_cancel : List (Action ℕ Text)
early_cancel =
    call Call.enqueue
    ∷ (times 8 0 ++ (call (Call.cancel (some (codes ":1.5"))) ∷ (times 6 0 ++ times 12 0)))

-- The task is finished as canceled, and its state stays `Processing`.
early_cancel_result :
    let y = history values service (fresh values service queued []) early_cancel in
    (y.inner.snapshot.state ≡ processing)
    × (y.inner.finished ≡ true)
    × (y.inner.canceled ≡ true)
    × (count_finished y.inner.signals ≡ 1)
    × (y.threads ≡ [])
unfolding history text_eq step
early_cancel_result = (refl, refl, refl, refl, refl)

quiet_result :
    let y = history values service (fresh values service queued []) quiet in
    (y.inner.snapshot.state ≡ succeed) × (y.inner.finished ≡ true) × (y.threads ≡ [])
unfolding history step
quiet_result = (refl, refl, refl)

finished_once_example :
    let y = history values service (fresh values service queued []) late_cancel in
    (count_finished y.inner.signals ≤ 1)
    × (y.threads ≡ [] → count_finished y.inner.signals ≡ bit y.inner.finished)
finished_once_example = finished_once values service queued [] late_cancel

job_once_example :
    let y = history values service (fresh values service queued []) early_cancel in
    (total is_runner y.threads ≤ 1)
    × (job_runs values service (fresh values service queued []) early_cancel
          + (total has_job y.threads + bit y.inner.job)
        ≤ 1)
job_once_example = job_once values service queued [] early_cancel

abbrev waiting : TaskInner ℕ Text
waiting = with_state values queued (codes "waiting")

-- A task whose cancel and run have just begun.
abbrev begun : List (Action ℕ Text)
begun = call Call.enqueue ∷ (times 4 0 ++ (call (Call.cancel (some (codes ":1.5"))) ∷ times 2 0))

task_ends_example :
    let y = history values service (fresh values service queued []) begun in
    let z = history values service y (front_steps choice (18 * count_calls begun)) in
    (y.threads ≡ []
      → y.inner.started ≡ true
      → (y.inner.finished ≡ true) × (count_finished y.inner.signals ≡ 1))
    × (z.threads ≡ [])
    × (z.inner.started ≡ true → (z.inner.finished ≡ true) × (count_finished z.inner.signals ≡ 1))
task_ends_example = task_ends values service queued [] begun choice refl

run_task_alone_example : alone values service.path choice 13 waiting (Thread.run_check ∷ []) ≡ (
  record waiting {
    snapshot = in_state waiting.snapshot succeed (codes "done");
    job = false;
    running = false;
    finished = true;
    signals =
        task_finished []
        ∷ state_event values (in_state waiting.snapshot succeed (codes "done"))
        ∷ state_event values (in_state waiting.snapshot processing (codes "waiting"))
        ∷ [];
  },
  [],
)
run_task_alone_example = run_task_alone values service.path choice waiting refl refl refl

abbrev idle_canceled : TaskInner ℕ Text
idle_canceled = record waiting {
  snapshot = in_state waiting.snapshot canceled (cancel_message service.path);
  interactions = [];
  canceled = true;
  finished = true;
  signals =
      task_finished (common_result values (pos 1) (cancel_message service.path))
      ∷ state_event values (in_state waiting.snapshot canceled (cancel_message service.path))
      ∷ [];
}

abbrev busy : TaskInner ℕ Text
busy = record waiting { running = true; job = false }

cancel_running_alone_example :
    let s' = record busy {
      snapshot = in_state busy.snapshot canceled (cancel_message service.path);
      interactions = [];
      canceled = true;
      signals =
          state_event values (in_state busy.snapshot canceled (cancel_message service.path)) ∷ [];
    } in
    (alone values service.path choice 8 busy (Thread.cancel_check ∷ []) ≡ (s', []))
    × (alone values service.path choice 6 s' (Thread.run_stop (ok done) ∷ []) ≡ (
      record s' {
        running = false;
        finished = true;
        signals =
            task_finished (common_result values (pos 1) (cancel_message service.path)) ∷ s'.signals;
      },
      [],
    ))
cancel_running_alone_example =
    cancel_running_alone values service.path choice busy (ok done) refl refl refl

abbrev reports : List (Action ℕ Text)
reports = call (Call.update_progress 40 []) ∷ call (Call.update_progress 140 []) ∷ times 6 0

progress_in_range_example :
    in_range values
      (history values service (fresh values service queued []) reports).inner.snapshot.progress
    ≡ true
progress_in_range_example = progress_in_range values service queued [] reports refl

abbrev questions : List (Action ℕ Text)
questions = call (Call.ask (codes "a") []) ∷ call (Call.ask (codes "b") []) ∷ times 4 0

abbrev start_system : System ℕ Text
start_system = fresh values service pending []

-- A stranger and a call without a sender between the owner's calls.
abbrev visits : List (Action ℕ Text)
visits =
    call (Call.cancel (some (codes ":1.6")))
    ∷ call (Call.start (some (codes ":1.5")))
    ∷ call (Call.reply_interaction none [] none)
    ∷ times 3 0

history-from_stranger_example :
    history values service start_system visits
    ≡ history values service start_system
        (retain (λ a. not (from_stranger (codes ":1.5") a)) visits)
history-from_stranger_example =
    history-from_stranger values service (codes ":1.5") start_system visits refl

-- Only the owner's call stays.
visits_kept :
    retain (λ a. not (from_stranger (codes ":1.5") a)) visits
    ≡ call (Call.start (some (codes ":1.5"))) ∷ times 3 0
unfolding from_stranger text_eq
visits_kept = refl

abbrev jobs : List (QueueAction ℕ)
jobs = enqueue 1 ∷ enqueue 2 ∷ work 0 ∷ work 0 ∷ enqueue 3 ∷ work 0 ∷ []

queue_fifo_example :
    let y = queue_history empty_queue jobs in
    (y.taken ++ y.queue.pending ≡ 1 ∷ 2 ∷ 3 ∷ [])
    × (length y.workers ≡ bit y.queue.running)
    × (y.queue.running ≡ false → y.queue.pending ≡ [])
queue_fifo_example = queue_fifo jobs
