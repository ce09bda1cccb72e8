-- ===== src/Task/Owner.antt =====
-- A task with an owner obeys only its owner (crates/linyaps-dbus/src/task.rs, `authorize_caller`).
use linyaps_rust.Common.{
  ◌≡◌, refl, Text, text_eq, Option, none, some, List, [], ◌∷◌, Bool, true, false, not, retain,
  Bool-cases, inl, inr, arith,
}
use linyaps_rust.Task.{Values, authorize_caller}
use linyaps_rust.Task.System.{Service, Call, Action, call, run, System, act, history, enter}

-- The sender of a message, whom the bus may leave out, is the owner.
abbrev pub is_owner : Text → Option Text → Bool
unfolding text_eq
is_owner owner none = false
is_owner owner (some sender) = text_eq sender owner

-- A call of the D-Bus interface by someone else.
unfoldable pub from_stranger : {F V : Type 0} → Text → Action F V → Bool
unfolding is_owner
from_stranger owner (call (Call.start sender)) = not (is_owner owner sender)
from_stranger owner (call (Call.cancel sender)) = not (is_owner owner sender)
from_stranger owner (call (Call.reply_interaction sender id action)) = not (is_owner owner sender)
from_stranger owner (call c) = false
from_stranger owner (run i ch) = false

module _ {F V : Type 0} (v : Values F V) (d : Service) where
  refused :
      (owner : Text) (sender : Option Text)
      → d.owner ≡ some owner
      → not (is_owner owner sender) ≡ true
      → authorize_caller d.owner sender ≡ false
  unfolding authorize_caller is_owner
  refused owner none o h = rw o refl
  refused owner (some name) o h = rw o (ground arith)

  act-from_stranger :
      (owner : Text) (y : System F V) (a : Action F V)
      → d.owner ≡ some owner
      → from_stranger owner a ≡ true
      → act v d y a ≡ y
  unfolding act enter from_stranger
  act-from_stranger owner y (call (Call.start sender)) o h = rw (refused owner sender o h) refl
  act-from_stranger owner y (call (Call.cancel sender)) o h = rw (refused owner sender o h) refl
  act-from_stranger owner y (call (Call.reply_interaction sender id action)) o h =
      rw (refused owner sender o h) refl
  act-from_stranger owner y (call Call.enqueue) o h = absurd (ground arith)
  act-from_stranger owner y (call Call.caller_disconnected) o h = absurd (ground arith)
  act-from_stranger owner y (call (Call.update_progress p m)) o h = absurd (ground arith)
  act-from_stranger owner y (call (Call.reset_progress m)) o h = absurd (ground arith)
  act-from_stranger owner y (call (Call.update_state_message m)) o h = absurd (ground arith)
  act-from_stranger owner y (call (Call.send_message m)) o h = absurd (ground arith)
  act-from_stranger owner y (call (Call.ask id extra)) o h = absurd (ground arith)
  act-from_stranger owner y (run i ch) o h = absurd (ground arith)

  -- The calls of `start`, `cancel` and `reply_interaction` that come from anyone but the owner of a task
  -- have no effect: whatever else happens, in any order, the history without them ends in the same state,
  -- with the same calls in progress.
  pub history-from_stranger :
      (owner : Text) (y : System F V) (as' : List (Action F V))
      → d.owner ≡ some owner
      → history v d y as' ≡ history v d y (retain (λ a. not (from_stranger owner a)) as')
  unfolding history
  history-from_stranger owner y [] o = refl
  history-from_stranger owner y (a ∷ as') o = elim (Bool-cases (from_stranger owner a)) [
    | inl h ↦ rw (h, act-from_stranger owner y a o h) (history-from_stranger owner y as' o)
    | inr h ↦ rw h (history-from_stranger owner (act v d y a) as' o)
  ]
