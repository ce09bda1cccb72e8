-- ===== src/Task.antt =====
-- A package manager task (crates/linyaps-dbus/src/task.rs and `TaskStateName` of
-- crates/linyaps-api/src/lib.rs): its shared state and its signals. `f64` and zvariant's
-- `OwnedValue` are parameters; the operations that the code uses of them are `Values`.
pub mod Progress
pub mod Thread
pub mod System
pub mod Once
pub mod Owner
pub mod Sequential
pub mod Liveness
pub mod Queue
pub mod Tests
use linyaps_rust.Common.{
  ℕ, zero, suc, ℤ, pos, Text, codes, text_eq, split, Option, none, some, List, [], ◌∷◌, ◌++◌, Bool,
  true, false, Result, ok, err,
}

pub data TaskStateName : Type 0 where
  canceled failed pending processing queued succeed unknown : TaskStateName

pub as_str : TaskStateName → Text
as_str unknown = codes "Unknown"
as_str queued = codes "Queued"
as_str pending = codes "Pending"
as_str processing = codes "Processing"
as_str succeed = codes "Succeed"
as_str failed = codes "Failed"
as_str canceled = codes "Canceled"

abbrev pub is_terminal : TaskStateName → Bool
is_terminal canceled = true
is_terminal failed = true
is_terminal succeed = true
is_terminal _ = false

-- What the code uses of `f64` (F) and `OwnedValue` (V).
pub record Values (F V : Type 0) : Type 0 where
  pub le : F → F → Bool
  pub zero_progress : F
  pub full_progress : F
  pub owned_string : Text → V
  pub of_i64 : ℤ → V
  pub of_f64 : F → V

-- A `VariantMap`, as the list of its entries.
abbrev pub VariantMap : Type 0 → Type 0
VariantMap V = List (Text × V)

pub record TaskSnapshot (F : Type 0) : Type 0 where
  pub state : TaskStateName
  pub progress : F
  pub message : Text

-- The signals that the code sends, and the data of each.
pub data Signal (V : Type 0) : Type 0 where
  task_event : Text → VariantMap V → Signal V
  task_finished : VariantMap V → Signal V
  request_interaction : Text → VariantMap V → Signal V

-- `job` tells whether the job is still there to be taken. `interactions` holds the ids whose sender
-- is alive, `replies` what was sent to the channel of an id, `answers` what `request_interaction`
-- returned for an id. `signals` is the log of the signals that were issued, whether or not the bus took
-- them, the newest first.
pub record TaskInner (F V : Type 0) : Type 0 where
  pub snapshot : TaskSnapshot F
  pub job : Bool
  pub interactions : List Text
  pub replies : List (Text × Bool)
  pub answers : List (Text × Bool)
  pub started : Bool
  pub running : Bool
  pub canceled : Bool
  pub finished : Bool
  pub signals : List (Signal V)

pub record TaskCompletion (V : Type 0) : Type 0 where
  pub message : Text
  pub result : VariantMap V
  pub terminal_state : TaskStateName

module _ {F V : Type 0} (v : Values F V) where
  abbrev pub as_variant_map : TaskSnapshot F → VariantMap V
  unfolding as_str
  as_variant_map s =
      (codes "message", v.owned_string s.message)
      ∷ (codes "progress", v.of_f64 s.progress)
      ∷ (codes "state", v.owned_string (as_str s.state))
      ∷ []

  abbrev pub common_result : ℤ → Text → VariantMap V
  common_result code message =
      (codes "code", v.of_i64 code)
      ∷ (codes "message", v.owned_string message)
      ∷ (codes "type", v.owned_string [])
      ∷ []

  -- `TaskCompletion::new`, `failed` and `canceled`.
  abbrev pub completed : Text → VariantMap V → TaskCompletion V
  completed message result = record { message = message; result = result; terminal_state = succeed }

  abbrev pub failed_completion : ℤ → Text → TaskCompletion V
  failed_completion code message = record {
    message = message;
    result = common_result code message;
    terminal_state = failed;
  }

  abbrev pub canceled_completion : Text → TaskCompletion V
  canceled_completion message = record {
    message = message;
    result = common_result (pos 1) message;
    terminal_state = canceled;
  }

  -- `with_state`: a task of a given first state.
  abbrev pub with_state : TaskStateName → Text → TaskInner F V
  with_state first message = record {
    snapshot = record { state = first; progress = v.zero_progress; message = message };
    job = true;
    interactions = [];
    replies = [];
    answers = [];
    started = false;
    running = false;
    canceled = false;
    finished = false;
    signals = [];
  }

abbrev pub message_or : Option Text → Text → Text
message_or none old = old
message_or (some new) old = new

module _ {F V : Type 0} where
  abbrev pub set_state : TaskInner F V → TaskStateName → Option Text → TaskInner F V
  set_state s name message = record s {
    snapshot = record s.snapshot { state = name; message = message_or message s.snapshot.message };
  }

  abbrev pub send : Signal V → TaskInner F V → TaskInner F V
  send e s = record s { signals = e ∷ s.signals }

-- `path.rsplit('/').next()`.
abbrev pub last_part : List Text → Text
last_part [] = []
last_part (p ∷ []) = p
last_part (p ∷ q ∷ ps) = last_part (q ∷ ps)

unfoldable pub cancel_message : Text → Text
unfolding split
cancel_message path =
    codes "task " ++ (last_part (split b'/' path) ++ codes " has been canceled by user")

-- `authorize_caller`: a task with an owner obeys only its owner.
unfoldable pub authorize_caller : Option Text → Option Text → Bool
unfolding text_eq
authorize_caller none sender = true
authorize_caller (some owner) none = false
authorize_caller (some owner) (some name) = text_eq name owner
