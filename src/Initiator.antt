-- ===== src/Initiator.antt =====
-- jetblack_fixengine/initiator/state_transitions.py, state_machine.py and initiator.py: the admin state
-- machine and the engine of an initiator.
pub mod Call
pub mod Numbering
pub mod Runs
pub mod Settles
pub mod Replies
pub mod Heartbeats
use text.Mathlib.Text.{◌==◌}
use jetblack_fixengine.Prelude.{
  Bool, Option, String, [], false, if◌then◌else◌, none, some, ℕ, ◌+◌, ◌∷◌,
}
use jetblack_fixengine.Exceptions.{M, assertion_error, gets, modify, pure, raise, ◌>>=◌, ◌>>◌}
use jetblack_fixengine.Machine.{Machine, process}
use jetblack_fixengine.Admin.{
  AdminEvent, AdminMessage, AdminState, Fields, acknowledge_heartbeat, acknowledge_logout,
  authenticated, connected, disconnected, heartbeat_acknowledged, heartbeat_received,
  incoming_seqnum_set, logon_expected, logon_received, logon_requested, logon_sent,
  logout_acknowledged, logout_received, lookup, reject_logon, reject_received,
  resend_request_received, send_test_heartbeat, sequence_reset_received, sequence_reset_requested,
  sequence_reset_sent, set_incoming_seqnum, signal, test_heartbeat_invalid, test_heartbeat_required,
  test_heartbeat_sent, test_heartbeat_valid, test_request_received, test_request_requested,
  test_request_sent, validate_test_heartbeat,
}
use jetblack_fixengine.Transport.{TransportMessage, TransportState, fix}
use jetblack_fixengine.Engine.{
  Engine, Environment, FixApplication, SessionOps, new_uuid, outgoing, send_message, set_incoming,
}
use jetblack_fixengine.TransportMachine.{process_transport}

-- `INITIATOR_ADMIN_TRANSITIONS`
abbrev pub initiator_transitions : AdminState → AdminEvent → Option AdminState
initiator_transitions disconnected connected = some logon_requested
initiator_transitions logon_requested logon_sent = some logon_expected
initiator_transitions logon_expected logon_received = some authenticated
initiator_transitions logon_expected reject_received = some disconnected
initiator_transitions authenticated heartbeat_received = some acknowledge_heartbeat
initiator_transitions authenticated test_request_received = some test_request_requested
initiator_transitions authenticated resend_request_received = some sequence_reset_requested
initiator_transitions authenticated AdminEvent.sequence_reset_received = some set_incoming_seqnum
initiator_transitions authenticated logout_received = some acknowledge_logout
initiator_transitions authenticated test_heartbeat_required = some send_test_heartbeat
initiator_transitions acknowledge_heartbeat heartbeat_acknowledged = some authenticated
initiator_transitions test_request_requested test_request_sent = some authenticated
initiator_transitions sequence_reset_requested sequence_reset_sent = some authenticated
initiator_transitions set_incoming_seqnum incoming_seqnum_set = some authenticated
initiator_transitions acknowledge_logout logout_acknowledged = some disconnected
initiator_transitions send_test_heartbeat test_heartbeat_sent = some validate_test_heartbeat
initiator_transitions validate_test_heartbeat test_heartbeat_valid = some authenticated
initiator_transitions validate_test_heartbeat test_heartbeat_invalid = some reject_logon
initiator_transitions _ _ = none

-- A message with one text field, and one with one integer field.
abbrev pub text_field : String → String → Fields
text_field key value = record { ints = []; texts = (key, value) ∷ []; flags = [] }

abbrev pub logon_fields : ℕ → Fields
logon_fields heartbeat_timeout = record {
  ints = ("HeartBtInt", heartbeat_timeout) ∷ [];
  texts = ("EncryptMethod", "NONE") ∷ [];
  flags = [];
}

abbrev pub reset_fields : ℕ → Fields
reset_fields new_seq_no = record {
  ints = ("NewSeqNo", new_seq_no) ∷ [];
  texts = [];
  flags = ("GapFillFlag", false) ∷ [];
}

abbrev pub is_same : String → Option String → Bool
is_same token none = false
is_same token (some sent) = token == sent

module _ {S : Type 0} (env : Environment) (ops : SessionOps S) (app : FixApplication S) where
  abbrev pub Handler : Type 0
  Handler = AdminMessage → M (Engine S) (Option AdminMessage)

  abbrev pub answer : AdminEvent → M (Engine S) (Option AdminMessage)
  answer event = pure (some (signal event))

  -- `_send_logon`
  unfoldable pub send_logon : Handler
  send_logon message =
      send_message env ops "LOGON" (logon_fields env.heartbeat_timeout) >> answer logon_sent

  -- `_logon_received`
  unfoldable pub logon_received_handler : Handler
  logon_received_handler message = app.on_logon message.fix >> pure none

  -- `_acknowledge_heartbeat`
  unfoldable pub acknowledge_heartbeat_handler : Handler
  acknowledge_heartbeat_handler message =
      app.on_heartbeat message.fix >> answer heartbeat_acknowledged

  -- `_send_test_request`: the token is sent back.
  abbrev pub return_token : Option String → M (Engine S) (Option AdminMessage)
  return_token none = raise assertion_error
  return_token (some token) =
      send_message env ops "TEST_REQUEST" (text_field "TestReqID" token) >> answer test_request_sent

  unfoldable pub send_test_request : Handler
  send_test_request message = return_token (lookup "TestReqID" message.fix.texts)

  -- `_send_sequence_reset`
  unfoldable pub send_sequence_reset_handler : Handler
  send_sequence_reset_handler message = do
    seqnum ← gets (outgoing ops)
    send_message env ops "SEQUENCE_RESET" (reset_fields (seqnum + 2))
    answer sequence_reset_sent

  -- `_reset_incoming_seqnum`
  abbrev pub reset_to : Option ℕ → M (Engine S) (Option AdminMessage)
  reset_to none = raise assertion_error
  reset_to (some seqnum) = set_incoming ops seqnum >> answer sequence_reset_sent

  unfoldable pub reset_incoming_seqnum : Handler
  reset_incoming_seqnum message = reset_to (lookup "NewSeqNo" message.fix.ints)

  -- `_acknowledge_logout`
  unfoldable pub acknowledge_logout_handler : Handler
  acknowledge_logout_handler message = app.on_logout message.fix >> answer logout_acknowledged

  -- `_send_test_heartbeat`
  abbrev pub send_token : String → M (Engine S) (Option AdminMessage)
  send_token token =
      modify (λ e. record e { test_heartbeat_message = some token })
      >> (send_message env ops "TEST_REQUEST" (text_field "TestReqID" token)
          >> answer test_heartbeat_sent)

  unfoldable pub send_test_heartbeat_handler : Handler
  send_test_heartbeat_handler message = new_uuid env >>= send_token

  -- `_validate_test_heartbeat`
  abbrev pub compare_token : Option String → M (Engine S) (Option AdminMessage)
  compare_token none = raise assertion_error
  compare_token (some token) = do
    sent ← gets (λ e. e.test_heartbeat_message)
    answer (if is_same token sent then test_heartbeat_valid else test_heartbeat_invalid)

  unfoldable pub validate_test_heartbeat_handler : Handler
  validate_test_heartbeat_handler message = compare_token (lookup "TestReqID" message.fix.texts)

  -- The handlers of `InitiatorAdminStateMachine`.
  abbrev pub initiator_handlers : AdminState → AdminEvent → Option Handler
  initiator_handlers disconnected connected = some send_logon
  initiator_handlers logon_expected logon_received = some logon_received_handler
  initiator_handlers authenticated heartbeat_received = some acknowledge_heartbeat_handler
  initiator_handlers authenticated test_request_received = some send_test_request
  initiator_handlers authenticated resend_request_received = some send_sequence_reset_handler
  initiator_handlers authenticated AdminEvent.sequence_reset_received = some reset_incoming_seqnum
  initiator_handlers authenticated logout_received = some acknowledge_logout_handler
  initiator_handlers authenticated test_heartbeat_required = some send_test_heartbeat_handler
  initiator_handlers send_test_heartbeat test_request_sent = some validate_test_heartbeat_handler
  initiator_handlers _ _ = none

  -- `InitiatorAdminStateMachine`
  abbrev pub initiator_machine : Machine (Engine S) AdminState AdminEvent AdminMessage
  initiator_machine = record {
    state = λ e. e.admin_state;
    set_state = λ s e. record e { admin_state = s };
    transitions = initiator_transitions;
    event = λ m. m.event;
    handlers = initiator_handlers;
  }

  -- `process` of the admin state machine. A handled event is followed by one event without a handler,
  -- so two rounds are enough.
  unfoldable pub process_admin : AdminMessage → M (Engine S) AdminState
  process_admin message = process initiator_machine 2 (some message)

  -- `self._transport_state_machine.process`
  unfoldable pub process_message : TransportMessage → M (Engine S) TransportState
  process_message = process_transport env ops app process_admin
