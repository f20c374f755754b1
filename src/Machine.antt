-- ===== src/Machine.antt =====
-- The state machine that jetblack_fixengine/admin/state_transitions.py and admin/state_processor.py
-- write for the admin messages, and transports/ once more for the transport's: a state, a table of
-- transitions, and a table of handlers whose answer is the next message.
pub mod Keeps
pub mod Settles
use jetblack_fixengine.Prelude.{Option, none, some, suc, zero, ℕ}
use jetblack_fixengine.Exceptions.{
  M, gets, invalid_state_transition, modify, out_of_fuel, pure, raise, ◌>>=◌, ◌>>◌,
}

-- `W` is the world of the object; a missing row and a missing entry of a table are both `none`.
pub record Machine (W State Event Message : Type 0) : Type 0 where
  pub state : W → State
  pub set_state : State → W → W
  pub transitions : State → Event → Option State
  pub event : Message → Event
  pub handlers : State → Event → Option (Message → M W (Option Message))

module _ {W State Event Message : Type 0} (m : Machine W State Event Message) where
  abbrev pub enter : Option State → M W State
  enter none = raise invalid_state_transition
  enter (some s) = modify (m.set_state s) >> pure s

  -- The KeyError of the tables becomes an InvalidStateTransitionError, and the state stays.
  unfoldable pub transition : Event → M W State
  transition e w = enter (m.transitions (m.state w) e) w

  abbrev pub dispatch :
      (Option Message → M W State) → Option (Message → M W (Option Message)) → Message → M W State
  dispatch again none message = gets m.state
  dispatch again (some handler) message = handler message >>= again

  -- The `while` loop of `process`: the handler is looked up before the transition.
  unfoldable pub process : ℕ → Option Message → M W State
  process fuel none = gets m.state
  process zero (some message) = raise out_of_fuel
  process (suc fuel) (some message) = λ w.
      let handler = m.handlers (m.state w) (m.event message) in
      (transition (m.event message) >> dispatch (process fuel) handler message) w
