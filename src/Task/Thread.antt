-- ===== src/Task/Thread.antt =====
-- The handlers of a task as sequences of atomic steps: each load, store or swap of a flag, each
-- section under the lock, and each signal is one step, and other threads may run between two steps. The
-- job is one step, at which it returns: while it works its thread does not run, and a job that never
-- returns is a thread that makes no step from some point on. A signal is logged as it is issued, whether
-- or not the bus takes it.
use linyaps_rust.Common.{
  pos, negsuc, Text, codes, text_eq, Option, none, some, List, [], ◌∷◌, Bool, true, false, not,
  ◌&&◌, ◌||◌, any, retain, if◌then◌else◌, Result, ok, err,
}
use linyaps_rust.Task.{
  TaskStateName, canceled, failed, pending, processing, queued, is_terminal, Values, VariantMap,
  TaskSnapshot, task_event, task_finished, request_interaction, TaskInner, TaskCompletion,
  as_variant_map, common_result, set_state, send, cancel_message,
}

-- Where a thread stands; the constructor names its next step.
pub data Thread (F V : Type 0) : Type 0 where
  -- `start`, then `enqueue`.
  start_lock : Thread F V
  start_signal : TaskSnapshot F → Thread F V
  enqueue_queued : Thread F V
  enqueue_swap : Thread F V
  enqueue_check : Thread F V
  enqueue_push : Thread F V
  -- `cancel_task`.
  cancel_check : Thread F V
  cancel_store : Thread F V
  cancel_clear : Thread F V
  cancel_state : Thread F V
  cancel_signal : TaskSnapshot F → Thread F V
  cancel_running : Thread F V
  cancel_finish : Thread F V
  cancel_finished : Thread F V
  -- `caller_disconnected`.
  disconnect_clear : Thread F V
  disconnect_check : Thread F V
  disconnect_finish : Bool → Thread F V
  disconnect_store : Thread F V
  disconnect_state : Thread F V
  disconnect_signal : TaskSnapshot F → Thread F V
  disconnect_finished : Thread F V
  -- `run_task`.
  run_check : Thread F V
  run_mark : Thread F V
  run_recheck : Thread F V
  run_unmark : Thread F V
  run_take : Thread F V
  run_state : Thread F V
  run_signal : TaskSnapshot F → Thread F V
  run_job : Thread F V
  run_stop : Result Text (TaskCompletion V) → Thread F V
  run_finish : Result Text (TaskCompletion V) → Thread F V
  run_canceled : Result Text (TaskCompletion V) → Thread F V
  run_message : Thread F V
  run_canceled_signal : Text → Thread F V
  run_complete : Result Text (TaskCompletion V) → Thread F V
  run_last_signal : TaskSnapshot F → VariantMap V → Thread F V
  run_finished : VariantMap V → Thread F V
  -- `update_progress`, `reset_progress`, `update_state_message` and `send_message`, of the job's context.
  progress_check : F → Text → Thread F V
  progress_lock : F → Text → Thread F V
  reset_check : Text → Thread F V
  reset_lock : Text → Thread F V
  message_check : Text → Thread F V
  message_lock : Text → Thread F V
  state_signal : TaskSnapshot F → Thread F V
  message_signal : Text → Thread F V
  -- `request_interaction` and `reply_interaction`.
  ask_check : Text → VariantMap V → Thread F V
  ask_insert : Text → VariantMap V → Thread F V
  ask_signal : Text → VariantMap V → Thread F V
  ask_wait : Text → Thread F V
  ask_undo : Text → Thread F V
  ask_remove : Text → Bool → Thread F V
  reply : Text → Bool → Thread F V

-- What the environment decides at a step: whether a signal could be sent, whether the wait for a
-- reply has run out of time, and what the job returns.
pub record Choice (V : Type 0) : Type 0 where
  pub sent : Bool
  pub timed_out : Bool
  pub completion : Result Text (TaskCompletion V)

-- The state after a step, and the threads that go on: none where the handler returns.
abbrev pub Next : Type 0 → Type 0 → Type 0
Next F V = TaskInner F V × List (Thread F V)

abbrev pub is_pending : TaskStateName → Bool
is_pending pending = true
is_pending _ = false

abbrev pub is_queued : TaskStateName → Bool
is_queued queued = true
is_queued _ = false

abbrev pub none_asked : List Text → Bool
none_asked [] = true
none_asked (i ∷ is) = false

-- What waits in the channel of an interaction.
abbrev pub reply_in : Text → List (Text × Bool) → Option Bool
reply_in id [] = none
reply_in id ((i, b) ∷ rs) = if text_eq i id then some b else reply_in id rs

module _ {F V : Type 0} where
  abbrev pub goes_on : TaskInner F V → Thread F V → Next F V
  goes_on s t = (s, t ∷ [])

  abbrev pub returns : TaskInner F V → Next F V
  returns s = (s, [])

  -- `start`: the match on the state under the lock.
  unfoldable pub start_from : TaskStateName → TaskInner F V → Next F V
  start_from pending s = let s' = set_state s queued none in goes_on s' (start_signal s'.snapshot)
  start_from queued s = goes_on s enqueue_swap
  start_from _ s = returns s

  -- The end of `run_task`: the state, the message and the result of a completion.
  unfoldable pub complete : Values F V → TaskInner F V → Result Text (TaskCompletion V) → Next F V
  complete v s (ok c) =
      let s' = set_state s c.terminal_state (some c.message) in
      goes_on s' (run_last_signal s'.snapshot c.result)
  complete v s (err message) =
      let s' = set_state s failed (some message) in
      goes_on s' (run_last_signal s'.snapshot (common_result v (negsuc 0) message))

  unfoldable pub is_asked : Text → TaskInner F V → Bool
  unfolding text_eq
  is_asked id s = any (λ i. text_eq i id) s.interactions

  abbrev pub forget : Text → TaskInner F V → TaskInner F V
  forget id s = record s { interactions = retain (λ i. not (text_eq i id)) s.interactions }

  -- `update_progress`: the test before the lock, and the section under it.
  unfoldable pub check_progress : Values F V → TaskInner F V → F → Text → Next F V
  check_progress v s p message =
      if not (v.le v.zero_progress p && v.le p v.full_progress) || s.canceled
      then returns s
      else goes_on s (progress_lock p message)

  unfoldable pub store_progress : Values F V → TaskInner F V → F → Text → Next F V
  store_progress v s p message =
      if v.le p s.snapshot.progress || is_terminal s.snapshot.state
      then returns s
      else (let snap = record s.snapshot { progress = p; message = message } in
          goes_on (record s { snapshot = snap }) (state_signal snap))

  -- The sections under the lock of `reset_progress` and of `update_state_message`.
  unfoldable pub store_reset : Values F V → TaskInner F V → Text → Next F V
  store_reset v s message =
      if is_terminal s.snapshot.state
      then returns s
      else (let snap = record s.snapshot { progress = v.zero_progress; message = message } in
          goes_on (record s { snapshot = snap }) (state_signal snap))

  unfoldable pub store_message : TaskInner F V → Text → Next F V
  store_message s message =
      if is_terminal s.snapshot.state
      then returns s
      else (let snap = record s.snapshot { message = message } in
          goes_on (record s { snapshot = snap }) (state_signal snap))

  -- `request_interaction`: the insertion of the sender, and the race of the reply and the timer.
  unfoldable pub insert_question : TaskInner F V → Text → VariantMap V → Next F V
  insert_question s id extra =
      if none_asked s.interactions
      then goes_on (record s { interactions = id ∷ [] }) (ask_signal id extra)
      else returns s

  unfoldable pub await_reply : Choice V → TaskInner F V → Text → Next F V
  unfolding is_asked
  await_reply ch s id = elim (reply_in id s.replies) [
    | some b ↦ goes_on s (ask_remove id b)
    | none ↦
        if not (is_asked id s) || ch.timed_out
        then goes_on s (ask_remove id false)
        else goes_on s (ask_wait id)
  ]

  -- `reply_interaction`: the sender is removed, and sends the answer.
  unfoldable pub take_reply : TaskInner F V → Text → Bool → Next F V
  unfolding is_asked
  take_reply s id answer =
      if is_asked id s
      then returns (record (forget id s) { replies = (id, answer) ∷ s.replies })
      else returns s

  -- `enqueue`: the swap of `started`.
  unfoldable pub swap_started : TaskInner F V → Next F V
  swap_started s =
      if s.started then returns s else goes_on (record s { started = true }) enqueue_check

  -- `enqueue_queued`: only a queued task goes on.
  unfoldable pub check_queued : TaskInner F V → Next F V
  check_queued s = if is_queued s.snapshot.state then goes_on s enqueue_swap else returns s

  -- One step of a thread of the task at `path`.
  unfoldable pub step : Values F V → Text → Choice V → TaskInner F V → Thread F V → Next F V
  unfolding start_from complete check_progress store_progress store_reset store_message
      insert_question await_reply take_reply swap_started check_queued
  step v path ch s start_lock = start_from s.snapshot.state s
  step v path ch s (start_signal snap) =
      let s' = send (task_event (codes "state") (as_variant_map v snap)) s in
      if ch.sent then goes_on s' enqueue_swap else returns s'
  step v path ch s enqueue_queued = check_queued s
  step v path ch s enqueue_swap = swap_started s
  step v path ch s enqueue_check = if s.finished then returns s else goes_on s enqueue_push
  step v path ch s enqueue_push = goes_on s run_check
  step v path ch s cancel_check = if s.finished then returns s else goes_on s cancel_store
  step v path ch s cancel_store = goes_on (record s { canceled = true }) cancel_clear
  step v path ch s cancel_clear = goes_on (record s { interactions = [] }) cancel_state
  step v path ch s cancel_state =
      let s' = set_state s canceled (some (cancel_message path)) in
      goes_on s' (cancel_signal s'.snapshot)
  step v path ch s (cancel_signal snap) =
      let s' = send (task_event (codes "state") (as_variant_map v snap)) s in
      if ch.sent then goes_on s' cancel_running else returns s'
  step v path ch s cancel_running = if s.running then returns s else goes_on s cancel_finish
  step v path ch s cancel_finish =
      if s.finished then returns s else goes_on (record s { finished = true }) cancel_finished
  step v path ch s cancel_finished =
      returns (send (task_finished (common_result v (pos 1) (cancel_message path))) s)
  step v path ch s disconnect_clear = goes_on (record s { interactions = [] }) disconnect_check
  step v path ch s disconnect_check = goes_on s (disconnect_finish (is_pending s.snapshot.state))
  step v path ch s (disconnect_finish false) = returns s
  step v path ch s (disconnect_finish true) =
      if s.finished then returns s else goes_on (record s { finished = true }) disconnect_store
  step v path ch s disconnect_store = goes_on (record s { canceled = true }) disconnect_state
  step v path ch s disconnect_state =
      let s' = set_state s canceled (some (codes "caller disconnected")) in
      goes_on s' (disconnect_signal s'.snapshot)
  step v path ch s (disconnect_signal snap) =
      goes_on (send (task_event (codes "state") (as_variant_map v snap)) s) disconnect_finished
  step v path ch s disconnect_finished =
      returns (send (task_finished (common_result v (pos 1) (codes "caller disconnected"))) s)
  step v path ch s run_check = if s.finished then returns s else goes_on s run_mark
  step v path ch s run_mark = goes_on (record s { running = true }) run_recheck
  step v path ch s run_recheck = if s.finished then goes_on s run_unmark else goes_on s run_take
  step v path ch s run_unmark = returns (record s { running = false })
  step v path ch s run_take =
      if s.job then goes_on (record s { job = false }) run_state else goes_on s run_unmark
  step v path ch s run_state =
      let s' = set_state s processing none in goes_on s' (run_signal s'.snapshot)
  step v path ch s (run_signal snap) =
      goes_on (send (task_event (codes "state") (as_variant_map v snap)) s) run_job
  step v path ch s run_job = goes_on s (run_stop ch.completion)
  step v path ch s (run_stop c) = goes_on (record s { running = false }) (run_finish c)
  step v path ch s (run_finish c) =
      if s.finished then returns s else goes_on (record s { finished = true }) (run_canceled c)
  step v path ch s (run_canceled c) =
      if s.canceled then goes_on s run_message else goes_on s (run_complete c)
  step v path ch s run_message = goes_on s (run_canceled_signal s.snapshot.message)
  step v path ch s (run_canceled_signal message) =
      returns (send (task_finished (common_result v (pos 1) message)) s)
  step v path ch s (run_complete c) = complete v s c
  step v path ch s (run_last_signal snap result) =
      goes_on (send (task_event (codes "state") (as_variant_map v snap)) s) (run_finished result)
  step v path ch s (run_finished result) = returns (send (task_finished result) s)
  step v path ch s (progress_check p message) = check_progress v s p message
  step v path ch s (progress_lock p message) = store_progress v s p message
  step v path ch s (reset_check message) =
      if s.canceled then returns s else goes_on s (reset_lock message)
  step v path ch s (reset_lock message) = store_reset v s message
  step v path ch s (message_check message) =
      if s.canceled then returns s else goes_on s (message_lock message)
  step v path ch s (message_lock message) = store_message s message
  step v path ch s (state_signal snap) =
      returns (send (task_event (codes "state") (as_variant_map v snap)) s)
  step v path ch s (message_signal message) =
      returns
        (send (task_event (codes "message") ((codes "message", v.owned_string message) ∷ [])) s)
  step v path ch s (ask_check id extra) =
      if s.canceled then returns s else goes_on s (ask_insert id extra)
  step v path ch s (ask_insert id extra) = insert_question s id extra
  step v path ch s (ask_signal id extra) =
      let s' = send (request_interaction id extra) s in
      goes_on s' (if ch.sent then ask_wait id else ask_undo id)
  step v path ch s (ask_wait id) = await_reply ch s id
  step v path ch s (ask_undo id) = returns (forget id s)
  step v path ch s (ask_remove id accepted) =
      returns (record (forget id s) { answers = (id, accepted) ∷ s.answers })
  step v path ch s (reply id answer) = take_reply s id answer
