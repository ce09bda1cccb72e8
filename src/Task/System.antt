-- ===== src/Task/System.antt =====
-- A task with any number of calls in progress, interleaved step by step in any order.
use linyaps_rust.Common.{
  ℕ, zero, suc, ◌+◌, ◌≡◌, Text, codes, text_eq, Option, none, some, List, [], ◌∷◌, ◌++◌, ◌||◌,
  get_elem?, if◌then◌else◌, arith, subst,
}
use mathlib.Core.Option.{some-injective}
use linyaps_rust.Task.{TaskStateName, Values, VariantMap, TaskInner, authorize_caller, with_state}
use linyaps_rust.Task.Thread.{
  Thread, Choice, step, start_lock, enqueue_queued, cancel_check, disconnect_clear, progress_check,
  reset_check, message_check, message_signal, ask_check, reply,
}

-- `path` and `owner` of a `TaskService`, which never change.
pub record Service : Type 0 where
  pub path : Text
  pub owner : Option Text

-- A call of a handler. Those of the D-Bus interface carry the sender of the message.
pub data Call (F V : Type 0) : Type 0 where
  start : Option Text → Call F V
  cancel : Option Text → Call F V
  reply_interaction : Option Text → Text → Option Text → Call F V
  enqueue : Call F V
  caller_disconnected : Call F V
  update_progress : F → Text → Call F V
  reset_progress : Text → Call F V
  update_state_message : Text → Call F V
  send_message : Text → Call F V
  ask : Text → VariantMap V → Call F V

module _ {F V : Type 0} where
  abbrev pub if_authorized : Service → Option Text → Thread F V → List (Thread F V)
  if_authorized d sender t = if authorize_caller d.owner sender then t ∷ [] else []

  -- `reply_interaction` takes "yes" and "no".
  abbrev pub reply_thread : Text → Option Text → List (Thread F V)
  reply_thread id none = []
  reply_thread id (some action) =
      if text_eq action (codes "yes") || text_eq action (codes "no")
      then reply id (text_eq action (codes "yes")) ∷ []
      else []

  -- The thread of a call; none where the caller or the arguments are refused.
  unfoldable pub enter : Service → Call F V → List (Thread F V)
  unfolding authorize_caller text_eq
  enter d (start sender) = if_authorized d sender start_lock
  enter d (cancel sender) = if_authorized d sender cancel_check
  enter d (reply_interaction sender id action) =
      if authorize_caller d.owner sender then reply_thread id action else []
  enter d enqueue = enqueue_queued ∷ []
  enter d caller_disconnected = disconnect_clear ∷ []
  enter d (update_progress p message) = progress_check p message ∷ []
  enter d (reset_progress message) = reset_check message ∷ []
  enter d (update_state_message message) = message_check message ∷ []
  enter d (send_message message) = message_signal message ∷ []
  enter d (ask id extra) = ask_check id extra ∷ []

-- What happens next: a call comes in, or the thread at an index makes its step.
pub data Action (F V : Type 0) : Type 0 where
  call : Call F V → Action F V
  run : ℕ → Choice V → Action F V

pub record System (F V : Type 0) : Type 0 where
  pub inner : TaskInner F V
  pub threads : List (Thread F V)

-- The list with the element at an index replaced by a list.
abbrev pub replace_at {ℓ} : {A : Type ℓ} → List A → ℕ → List A → List A
replace_at [] i ys = []
replace_at (x ∷ xs) zero ys = ys ++ xs
replace_at (x ∷ xs) (suc i) ys = x ∷ replace_at xs i ys

module _ {F V : Type 0} (v : Values F V) (d : Service) where
  unfoldable pub act : System F V → Action F V → System F V
  unfolding enter
  act y (call c) = record y { threads = enter d c ++ y.threads }
  act y (run i ch) = elim (get_elem? y.threads i) [
    | none ↦ y
    | some t ↦
        let n = step v d.path ch y.inner t in
        record { inner = n.0; threads = replace_at y.threads i n.1 }
  ]

  unfoldable pub history : System F V → List (Action F V) → System F V
  unfolding act
  history y [] = y
  history y (a ∷ as') = history (act y a) as'

  -- A new task, pending or queued, with no call in progress.
  abbrev pub fresh : TaskStateName → Text → System F V
  fresh first message = record { inner = with_state v first message; threads = [] }

-- The sum of a weight over the threads.
abbrev pub total {ℓ} : {A : Type ℓ} → (A → ℕ) → List A → ℕ
total w [] = 0
total w (t ∷ ts) = w t + total w ts

pub total-append {ℓ} :
    {A : Type ℓ} (w : A → ℕ) (xs ys : List A) → total w (xs ++ ys) ≡ total w xs + total w ys
total-append w [] ys = omega arith
total-append w (x ∷ xs) ys = omega (arith, total-append w xs ys)

pub total-replace_at {ℓ} :
    {A : Type ℓ} (w : A → ℕ) (xs : List A) (i : ℕ) (x : A) (ys : List A)
    → get_elem? xs i ≡ some x
    → total w (replace_at xs i ys) + w x ≡ total w xs + total w ys
total-replace_at w [] i x ys g = ground arith
total-replace_at w (z ∷ xs) zero x ys g = ground (arith, total-append w ys xs)
total-replace_at w (z ∷ xs) (suc i) x ys g = ground (arith, total-replace_at w xs i x ys g)

-- A predicate on every thread.
abbrev pub All {ℓ κ} : {A : Type ℓ} → (A → Type κ) → List A → Type κ
All P [] = Unit
All P (x ∷ xs) = P x × All P xs

pub All-append {ℓ κ} :
    {A : Type ℓ} (P : A → Type κ) (xs ys : List A) → All P xs → All P ys → All P (xs ++ ys)
All-append P [] ys a b = b
All-append P (x ∷ xs) ys a b = (a.0, All-append P xs ys a.1 b)

pub All-get {ℓ κ} :
    {A : Type ℓ} (P : A → Type κ) (xs : List A) (i : ℕ) (x : A)
    → get_elem? xs i ≡ some x
    → All P xs
    → P x
All-get P [] i x g a = absurd (ground arith)
All-get P (y ∷ xs) zero x g a = subst P (some-injective y x g) a.0
All-get P (y ∷ xs) (suc i) x g a = All-get P xs i x g a.1

pub All-replace_at {ℓ κ} :
    {A : Type ℓ} (P : A → Type κ) (xs : List A) (i : ℕ) (ys : List A)
    → All P xs
    → All P ys
    → All P (replace_at xs i ys)
All-replace_at P [] i ys a b = tt
All-replace_at P (x ∷ xs) zero ys a b = All-append P ys xs b a.1
All-replace_at P (x ∷ xs) (suc i) ys a b = (a.0, All-replace_at P xs i ys a.1 b)
