-- ===== src/Task/Queue.antt =====
-- `TaskQueue` of crates/linyaps-dbus/src/task.rs: a queue of futures with a worker that is spawned
-- when it is needed. Each section under the lock is one step; `A` stands for the queued futures.
use linyaps_rust.Common.{
  ℕ, zero, suc, ◌+◌, ◌≡◌, refl, sym, ◌∙◌, ap, none, some, List, [], ◌∷◌, ◌++◌, Bool, true, false,
  get_elem?, if◌then◌else◌, arith, Option-cases, inl, inr, length, length-append,
}
use mathlib.Core.List.{append_assoc, append-nil}
use linyaps_rust.Task.System.{replace_at}
use linyaps_rust.Task.Once.{bit, bit-le}

pub record TaskQueueInner (A : Type 0) : Type 0 where
  pub pending : List A
  pub running : Bool

-- Where a worker stands: before `pop_front`, or awaiting a future.
pub data Worker (A : Type 0) : Type 0 where
  popping : Worker A
  awaiting : A → Worker A

-- The queue, its workers, and the futures that workers have taken, in order.
pub record QueueSystem (A : Type 0) : Type 0 where
  pub queue : TaskQueueInner A
  pub workers : List (Worker A)
  pub taken : List A

pub data QueueAction (A : Type 0) : Type 0 where
  enqueue : A → QueueAction A
  work : ℕ → QueueAction A

module _ {A : Type 0} where
  -- `enqueue`: the new queue, and whether a worker is spawned.
  unfoldable pub push : A → TaskQueueInner A → TaskQueueInner A × Bool
  push a q =
      if q.running
      then (record q { pending = q.pending ++ a ∷ [] }, false)
      else (record { pending = q.pending ++ a ∷ []; running = true }, true)

  -- The lock of `run`: the next future, or the end of the worker.
  unfoldable pub pop_from : List A → QueueSystem A → ℕ → QueueSystem A
  pop_from [] y i = record y {
    queue = record { pending = []; running = false };
    workers = replace_at y.workers i [];
  }
  pop_from (a ∷ as') y i = record {
    queue = record { pending = as'; running = y.queue.running };
    workers = replace_at y.workers i (awaiting a ∷ []);
    taken = y.taken ++ a ∷ [];
  }

  unfoldable pub work_step : Worker A → QueueSystem A → ℕ → QueueSystem A
  unfolding pop_from
  work_step popping y i = pop_from y.queue.pending y i
  work_step (awaiting a) y i = record y { workers = replace_at y.workers i (popping ∷ []) }

  unfoldable pub queue_act : QueueSystem A → QueueAction A → QueueSystem A
  unfolding push work_step
  queue_act y (enqueue a) =
      let (q, spawned) = push a y.queue in
      record y { queue = q; workers = if spawned then popping ∷ y.workers else y.workers }
  queue_act y (work i) = elim (get_elem? y.workers i) [ none ↦ y | some w ↦ work_step w y i ]

  unfoldable pub queue_history : QueueSystem A → List (QueueAction A) → QueueSystem A
  unfolding queue_act
  queue_history y [] = y
  queue_history y (a ∷ as') = queue_history (queue_act y a) as'

  -- `TaskQueue::default()`.
  abbrev pub empty_queue : QueueSystem A
  empty_queue = record {
    queue = record { pending = []; running = false };
    workers = [];
    taken = [];
  }

  -- The futures that a history enqueues, in order.
  abbrev pub enqueued : List (QueueAction A) → List A
  enqueued [] = []
  enqueued (enqueue a ∷ as') = a ∷ enqueued as'
  enqueued (work i ∷ as') = enqueued as'

  length-replace_at :
      (ws : List (Worker A)) (i : ℕ) (w : Worker A) (vs : List (Worker A))
      → get_elem? ws i ≡ some w
      → length (replace_at ws i vs) + 1 ≡ length ws + length vs
  length-replace_at [] i w vs g = ground arith
  length-replace_at (x ∷ ws) zero w vs g = omega (arith, length-append vs ws)
  length-replace_at (x ∷ ws) (suc i) w vs g = ground (arith, length-replace_at ws i w vs g)

-- One worker while the flag is up, none while it is down, and nothing waits while it is down.
pub record QueueIsValid {A : Type 0} (y : QueueSystem A) : Type 0 where
  pub one_worker : length y.workers ≡ bit y.queue.running
  pub none_lost : y.queue.running ≡ false → y.queue.pending ≡ []

module _ {A : Type 0} where
  pop_from-IsValid :
      (as' : List A) (y : QueueSystem A) (i : ℕ)
      → y.queue.pending ≡ as'
      → get_elem? y.workers i ≡ some popping
      → QueueIsValid y
      → QueueIsValid (pop_from as' y i)
  unfolding pop_from
  pop_from-IsValid [] y i e g h =
      ground (arith, length-replace_at y.workers i popping [] g, bit-le y.queue.running)
  pop_from-IsValid (a ∷ as') y i e g h = record {
    one_worker =
        omega (arith, h.one_worker, length-replace_at y.workers i popping (awaiting a ∷ []) g);
    none_lost = λ down. absurd (cons-ne-nil (sym e ∙ h.none_lost down));
  }
    where
      cons-ne-nil : a ∷ as' ≡ [] → ⊥
      cons-ne-nil q = cc

  work_step-IsValid :
      (w : Worker A) (y : QueueSystem A) (i : ℕ)
      → get_elem? y.workers i ≡ some w
      → QueueIsValid y
      → QueueIsValid (work_step w y i)
  unfolding work_step
  work_step-IsValid popping y i g h = pop_from-IsValid y.queue.pending y i refl g h
  work_step-IsValid (awaiting a) y i g h = record {
    one_worker =
        omega (arith, h.one_worker, length-replace_at y.workers i (awaiting a) (popping ∷ []) g);
    none_lost = h.none_lost;
  }

  queue_act-IsValid :
      (y : QueueSystem A) (a : QueueAction A) → QueueIsValid y → QueueIsValid (queue_act y a)
  unfolding queue_act push
  queue_act-IsValid y (enqueue a) h = ground arith
  queue_act-IsValid y (work i) h = elim (Option-cases (get_elem? y.workers i)) [
    | inl e ↦ rw (e, queue_act) h
    | inr (w, e) ↦ rw (e, queue_act) (work_step-IsValid w y i e h)
  ]

  work_step-order :
      (w : Worker A) (y : QueueSystem A) (i : ℕ)
      → (work_step w y i).taken ++ (work_step w y i).queue.pending ≡ y.taken ++ y.queue.pending
  unfolding work_step
  work_step-order popping y i = go y.queue.pending refl
    where
      go :
          (as' : List A)
          → y.queue.pending ≡ as'
          → (pop_from y.queue.pending y i).taken ++ (pop_from y.queue.pending y i).queue.pending
            ≡ y.taken ++ y.queue.pending
      go [] e = rw (e, pop_from) refl
      go (a ∷ as') e = rw (e, pop_from) (append_assoc y.taken _ _)
  work_step-order (awaiting a) y i = refl

  pending-push : (a : A) (q : TaskQueueInner A) → (push a q).0.pending ≡ q.pending ++ a ∷ []
  unfolding push
  pending-push a q = ground arith

  queue_act-order :
      (y : QueueSystem A) (a : QueueAction A)
      → (queue_act y a).taken ++ (queue_act y a).queue.pending
        ≡ (y.taken ++ y.queue.pending) ++ enqueued (a ∷ [])
  unfolding queue_act push
  queue_act-order y (enqueue a) =
      ap (λ l. y.taken ++ l) (pending-push a y.queue) ∙ sym (append_assoc y.taken _ _)
  queue_act-order y (work i) = elim (Option-cases (get_elem? y.workers i)) [
    | inl e ↦ rw (e, queue_act) (sym (append-nil _))
    | inr (w, e) ↦ rw (e, queue_act) (work_step-order w y i ∙ sym (append-nil _))
  ]

  enqueued-cons :
      (a : QueueAction A) (as' : List (QueueAction A))
      → enqueued (a ∷ as') ≡ enqueued (a ∷ []) ++ enqueued as'
  enqueued-cons (enqueue a) as' = refl
  enqueued-cons (work i) as' = refl

  history-order :
      (y : QueueSystem A) (as' : List (QueueAction A))
      → (queue_history y as').taken ++ (queue_history y as').queue.pending
        ≡ (y.taken ++ y.queue.pending) ++ enqueued as'
  unfolding queue_history
  history-order y [] = sym (append-nil _)
  history-order y (a ∷ as') =
      history-order (queue_act y a) as'
      ∙ ap (λ l. l ++ enqueued as') (queue_act-order y a)
      ∙ append_assoc (y.taken ++ y.queue.pending) _ _
      ∙ ap (λ l. (y.taken ++ y.queue.pending) ++ l) (sym (enqueued-cons a as'))

  history-IsValid :
      (y : QueueSystem A) (as' : List (QueueAction A))
      → QueueIsValid y
      → QueueIsValid (queue_history y as')
  unfolding queue_history
  history-IsValid y [] h = h
  history-IsValid y (a ∷ as') h = history-IsValid (queue_act y a) as' (queue_act-IsValid y a h)

  -- However enqueuing and the workers' steps interleave, the futures are taken in the order in
  -- which they were enqueued, none is lost or doubled, there is never more than one worker, and
  -- while none is running nothing is pending.
  pub queue_fifo :
      (as' : List (QueueAction A))
      → let y = queue_history empty_queue as' in
        (y.taken ++ y.queue.pending ≡ enqueued as')
        × (length y.workers ≡ bit y.queue.running)
        × (y.queue.running ≡ false → y.queue.pending ≡ [])
  queue_fifo as' =
      let h =
        history-IsValid empty_queue as' (record { one_worker = refl; none_lost = λ e. refl }) in
      (history-order empty_queue as', h.one_worker, h.none_lost)
