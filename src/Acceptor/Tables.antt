-- ===== src/Acceptor/Tables.antt =====
-- The tables of handlers and of transitions of jetblack_fixengine/initiator/state_machine.py and
-- acceptor/state_machine.py.
use jetblack_fixengine.Acceptor.{acceptor_handlers, acceptor_transitions}
use jetblack_fixengine.Initiator.{initiator_handlers, initiator_transitions}
use jetblack_fixengine.Prelude.{Option, arith, none, refl, ◌≡◌, ◌≢◌, ◌⊎◌}
use jetblack_fixengine.Admin.{AdminEvent, AdminState}
use jetblack_fixengine.Engine.{Environment, FixApplication, SessionOps}

-- A pair of a state and an event that has a handler has a transition, but for one; that one has a handler
-- and no transition; and an authenticated machine handles every event for which it has a transition.
pub record IsConsistent {H : Type 0} (handlers : AdminState → AdminEvent → Option H)
    (transitions : AdminState → AdminEvent → Option AdminState) : Type 0 where
  pub allowed :
      (s : AdminState) (e : AdminEvent)
      → (handlers s e ≡ none)
        ⊎ ((transitions s e ≢ none)
            ⊎ ((s ≡ AdminState.send_test_heartbeat) × (e ≡ AdminEvent.test_request_sent)))
  pub dead_handler : handlers AdminState.send_test_heartbeat AdminEvent.test_request_sent ≢ none
  pub no_transition : transitions AdminState.send_test_heartbeat AdminEvent.test_request_sent ≡ none
  pub complete :
      (e : AdminEvent)
      → (transitions AdminState.authenticated e ≡ none)
        ⊎ (handlers AdminState.authenticated e ≢ none)

module _ {S : Type 0} (env : Environment) (ops : SessionOps S) (app : FixApplication S) where
  initiator-IsConsistent : IsConsistent (initiator_handlers env ops app) initiator_transitions
  initiator-IsConsistent = record {
    allowed = λ s e. ground arith;
    dead_handler = λ h. absurd (ground (arith, h));
    no_transition = refl;
    complete = λ e. ground arith;
  }

  acceptor-IsConsistent : IsConsistent (acceptor_handlers env ops app) acceptor_transitions
  acceptor-IsConsistent = record {
    allowed = λ s e. ground arith;
    dead_handler = λ h. absurd (ground (arith, h));
    no_transition = refl;
    complete = λ e. ground arith;
  }

  -- In the tables of both admin state machines, each pair of a state and an event that has a handler has a
  -- transition, with one exception, the state send_test_heartbeat with the event test_request_sent, which
  -- has a handler and no transition in either machine. An authenticated machine has a handler for every
  -- event for which it has a transition.
  pub tables-IsConsistent :
      IsConsistent (initiator_handlers env ops app) initiator_transitions
      × IsConsistent (acceptor_handlers env ops app) acceptor_transitions
  tables-IsConsistent = (initiator-IsConsistent, acceptor-IsConsistent)
