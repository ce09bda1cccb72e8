-- ===== src/Task/Sequential.antt =====
-- What a handler does when no other thread interferes.
use linyaps_rust.Common.{
  ℕ, zero, suc, ◌≡◌, Text, codes, List, [], ◌∷◌, true, false, arith, ◌≢◌, pos, negsuc, Result, ok,
  err,
}
use linyaps_rust.Task.{
  TaskStateName, canceled, failed, pending, processing, Values, VariantMap, TaskInner, TaskSnapshot,
  TaskCompletion, Signal, task_event, task_finished, as_variant_map, common_result, cancel_message,
}
use linyaps_rust.Task.Thread.{Thread, Choice, step}

-- What a job's completion makes of the task.
abbrev pub final_state : {V : Type 0} → Result Text (TaskCompletion V) → TaskStateName
final_state (ok c) = c.terminal_state
final_state (err message) = failed

abbrev pub final_message : {V : Type 0} → Result Text (TaskCompletion V) → Text
final_message (ok c) = c.message
final_message (err message) = message

abbrev pub final_result :
    {F V : Type 0} → Values F V → Result Text (TaskCompletion V) → VariantMap V
final_result v (ok c) = c.result
final_result v (err message) = common_result v (negsuc 0) message

abbrev pub state_event : {F V : Type 0} → Values F V → TaskSnapshot F → Signal V
state_event v snap = task_event (codes "state") (as_variant_map v snap)

abbrev pub in_state : {F : Type 0} → TaskSnapshot F → TaskStateName → Text → TaskSnapshot F
in_state snap name message = record snap { state = name; message = message }

module _ {F V : Type 0} where
  -- A thread run on its own for a number of steps: the state, and the thread unless it returned.
  unfoldable pub alone :
      Values F V
      → Text
      → Choice V
      → ℕ
      → TaskInner F V
      → List (Thread F V)
      → TaskInner F V × List (Thread F V)
  unfolding step
  alone v path ch n s [] = (s, [])
  alone v path ch zero s (t ∷ ts) = (s, t ∷ ts)
  alone v path ch (suc n) s (t ∷ ts) = let r = step v path ch s t in alone v path ch n r.0 r.1

  -- A task that is neither finished nor canceled and still has its job runs it, with no other thread
  -- at work: it is signalled as processing, takes the state and the message of the completion,
  -- signals them, and finishes with the completion's result, an error being the failure -1.
  pub run_task_alone :
      (v : Values F V) (path : Text) (ch : Choice V) (s : TaskInner F V)
      → s.finished ≡ false
      → s.canceled ≡ false
      → s.job ≡ true
      → let busy = in_state s.snapshot processing s.snapshot.message in
        let done = in_state s.snapshot (final_state ch.completion) (final_message ch.completion) in
        alone v path ch 13 s (Thread.run_check ∷ []) ≡ (
          record s {
            snapshot = done;
            job = false;
            running = false;
            finished = true;
            signals =
                task_finished (final_result v ch.completion)
                ∷ state_event v done
                ∷ state_event v busy
                ∷ s.signals;
          },
          [],
        )
  unfolding alone
  run_task_alone v path ch s f c j = ground arith

  -- Canceling a task that is not finished and not running, with no other thread at work and the
  -- signal sent, drops its interactions, cancels and finishes it and signals both; its job stays
  -- where it is, and a run that comes later returns at once and changes nothing.
  pub cancel_idle_alone :
      (v : Values F V) (path : Text) (ch : Choice V) (s : TaskInner F V)
      → s.finished ≡ false
      → s.running ≡ false
      → ch.sent ≡ true
      → let done = in_state s.snapshot canceled (cancel_message path) in
        let s' = record s {
          snapshot = done;
          interactions = [];
          canceled = true;
          finished = true;
          signals =
              task_finished (common_result v (pos 1) (cancel_message path))
              ∷ state_event v done
              ∷ s.signals;
        } in
        (alone v path ch 8 s (Thread.cancel_check ∷ []) ≡ (s', []))
        × (alone v path ch 13 s' (Thread.run_check ∷ []) ≡ (s', []))
  unfolding alone
  cancel_idle_alone v path ch s f r h = (ground arith, ground arith)

  -- Canceling a task whose job runs, with no other thread at work and the signal sent, only marks and
  -- signals it as canceled; when the job returns, whatever it returns, the task finishes with the
  -- cancellation as its result and stays canceled.
  pub cancel_running_alone :
      (v : Values F V) (path : Text) (ch : Choice V) (s : TaskInner F V)
      (c : Result Text (TaskCompletion V))
      → s.finished ≡ false
      → s.running ≡ true
      → ch.sent ≡ true
      → let done = in_state s.snapshot canceled (cancel_message path) in
        let s' = record s {
          snapshot = done;
          interactions = [];
          canceled = true;
          signals = state_event v done ∷ s.signals;
        } in
        (alone v path ch 8 s (Thread.cancel_check ∷ []) ≡ (s', []))
        × (alone v path ch 6 s' (Thread.run_stop c ∷ []) ≡ (
          record s' {
            running = false;
            finished = true;
            signals = task_finished (common_result v (pos 1) (cancel_message path)) ∷ s'.signals;
          },
          [],
        ))
  unfolding alone
  cancel_running_alone v path ch s c f r h = (ground arith, ground arith)

  -- When the caller disconnects, with no other thread at work, an unfinished pending task is canceled
  -- and finished; a task in any other state only loses its interactions.
  pub caller_disconnected_alone :
      (v : Values F V) (path : Text) (ch : Choice V) (s : TaskInner F V)
      → s.finished ≡ false
      → let done = in_state s.snapshot canceled (codes "caller disconnected") in
        (s.snapshot.state ≡ pending
          → alone v path ch 7 s (Thread.disconnect_clear ∷ []) ≡ (
            record s {
              snapshot = done;
              interactions = [];
              canceled = true;
              finished = true;
              signals =
                  task_finished (common_result v (pos 1) (codes "caller disconnected"))
                  ∷ state_event v done
                  ∷ s.signals;
            },
            [],
          ))
        × (s.snapshot.state ≢ pending
            → alone v path ch 7 s (Thread.disconnect_clear ∷ [])
              ≡ (record s { interactions = [] }, []))
  unfolding alone
  caller_disconnected_alone v path ch s f = (λ p. ground arith, λ p. ground arith)
