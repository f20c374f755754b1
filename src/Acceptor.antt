-- ===== src/Acceptor.antt =====
-- jetblack_fixengine/acceptor/state_transitions.py and state_machine.py: the admin state machine of an
-- acceptor. The shapes of its messages are those of the initiator.
pub mod Call
pub mod Numbering
pub mod Runs
pub mod Protocol
pub mod Settles
pub mod Replies
pub mod Tables
pub mod Heartbeats
use jetblack_fixengine.Prelude.{Option, String, if◌then◌else◌, none, some, ℕ, ◌+◌}
use jetblack_fixengine.Exceptions.{
  Exception, M, Result, assertion_error, cancelled_error, err, gets, modify, ok, out_of_fuel, pure,
  raise, ◌>>=◌, ◌>>◌,
}
use jetblack_fixengine.Machine.{Machine, process}
use jetblack_fixengine.Admin.{
  AdminEvent, AdminMessage, AdminState, authenticated, authenticating, connected, disconnected,
  heartbeat_received, incoming_seqnum_set, logon_accepted, logon_expected, logon_received,
  logon_rejected, logout_received, lookup, no_fields, reject_logon, resend_request_received,
  send_logout, send_sequence_reset, send_test_heartbeat, sequence_reset_received,
  sequence_reset_sent, set_incoming_seqnum, signal, test_heartbeat_invalid, test_heartbeat_required,
  test_heartbeat_sent, test_heartbeat_valid, test_request_received, test_request_requested,
  test_request_sent, validate_test_heartbeat,
}
use jetblack_fixengine.Transport.{TransportMessage, TransportState, fix}
use jetblack_fixengine.Engine.{
  Engine, Environment, FixApplication, SessionOps, local_now, new_uuid, outgoing, send_message,
  set_incoming,
}
use jetblack_fixengine.TransportMachine.{process_transport}
use jetblack_fixengine.DateUtils.{Waited, cancelled, until, wait_for_time_period}
use jetblack_fixengine.Initiator.{is_same, logon_fields, reset_fields, text_field}

-- `ACCEPTOR_ADMIN_TRANSITIONS`
abbrev pub acceptor_transitions : AdminState → AdminEvent → Option AdminState
acceptor_transitions disconnected connected = some logon_expected
acceptor_transitions logon_expected logon_received = some authenticating
acceptor_transitions authenticating logon_accepted = some authenticated
acceptor_transitions authenticating logon_rejected = some reject_logon
acceptor_transitions reject_logon send_logout = some disconnected
acceptor_transitions authenticated heartbeat_received = some authenticated
acceptor_transitions authenticated test_request_received = some test_request_requested
acceptor_transitions authenticated resend_request_received = some send_sequence_reset
acceptor_transitions authenticated AdminEvent.sequence_reset_received = some set_incoming_seqnum
acceptor_transitions authenticated logout_received = some disconnected
acceptor_transitions authenticated test_heartbeat_required = some send_test_heartbeat
acceptor_transitions test_request_requested test_request_sent = some authenticated
acceptor_transitions send_sequence_reset sequence_reset_sent = some authenticated
acceptor_transitions set_incoming_seqnum incoming_seqnum_set = some authenticated
acceptor_transitions send_test_heartbeat test_heartbeat_sent = some validate_test_heartbeat
acceptor_transitions validate_test_heartbeat test_heartbeat_valid = some authenticated
acceptor_transitions validate_test_heartbeat test_heartbeat_invalid = some reject_logon
acceptor_transitions _ _ = none

module _ {S : Type 0} (env : Environment) (ops : SessionOps S) (app : FixApplication S) where
  abbrev pub Handler : Type 0
  Handler = AdminMessage → M (Engine S) (Option AdminMessage)

  abbrev pub answer : AdminEvent → M (Engine S) (Option AdminMessage)
  answer event = pure (some (signal event))

  -- The end of the wait for the logon window.
  abbrev pub set_logout_time : Waited → M (Engine S) (Option AdminMessage)
  set_logout_time (until end_datetime) =
      modify (λ e. record e { logout_time = some end_datetime }) >> pure none
  set_logout_time cancelled = raise cancelled_error
  set_logout_time Waited.out_of_fuel = raise Exception.out_of_fuel

  abbrev pub wait_for_window : ℕ → ℕ → ℕ → M (Engine S) (Option AdminMessage)
  wait_for_window start_time end_time time e =
      set_logout_time (wait_for_time_period (env.is_cancelled e.waits) time start_time end_time)
        (record e { waits = e.waits + 1 })

  abbrev pub await_logon_time : Option (ℕ × ℕ) → M (Engine S) (Option AdminMessage)
  await_logon_time none = pure none
  await_logon_time (some (start_time, end_time)) =
      local_now env >>= wait_for_window start_time end_time

  -- `_handle_connected`
  unfoldable pub await_logon_window : Handler
  await_logon_window message = await_logon_time env.logon_time_range

  -- `_validate_logon`: whatever the application raises rejects the logon.
  abbrev pub judge : Engine S × Result (Unit {0}) → Engine S × Result (Option AdminMessage)
  judge (e, ok tt) = (e, ok (some (signal logon_accepted)))
  judge (e, err x) = (e, ok (some (signal logon_rejected)))

  unfoldable pub validate_logon : Handler
  validate_logon message e = judge (app.on_logon message.fix e)

  -- `_send_logon`
  unfoldable pub send_logon : Handler
  send_logon message =
      send_message env ops "LOGON" (logon_fields env.heartbeat_timeout) >> pure none

  -- `_send_logout`
  unfoldable pub send_logout_handler : Handler
  send_logout_handler message =
      send_message env ops "LOGOUT" no_fields >> app.on_logout message.fix >> pure none

  -- `_receive_heartbeat`
  unfoldable pub receive_heartbeat : Handler
  receive_heartbeat message = app.on_heartbeat message.fix >> pure none

  -- `_receive_test_request`
  abbrev pub return_token : Option String → M (Engine S) (Option AdminMessage)
  return_token none = raise assertion_error
  return_token (some token) =
      send_message env ops "TEST_REQUEST" (text_field "TestReqID" token) >> answer test_request_sent

  unfoldable pub receive_test_request : Handler
  receive_test_request message = return_token (lookup "TestReqID" message.fix.texts)

  -- `_send_sequence_reset`
  unfoldable pub send_sequence_reset_handler : Handler
  send_sequence_reset_handler message = do
    seqnum ← gets (outgoing ops)
    send_message env ops "SEQUENCE_RESET" (reset_fields (seqnum + 2))
    answer sequence_reset_sent

  -- `_handle_sequence_reset`
  abbrev pub reset_to : Option ℕ → M (Engine S) (Option AdminMessage)
  reset_to none = raise assertion_error
  reset_to (some seqnum) = set_incoming ops seqnum >> answer incoming_seqnum_set

  unfoldable pub handle_sequence_reset : Handler
  handle_sequence_reset message = reset_to (lookup "NewSeqNo" message.fix.ints)

  -- `_receive_logout`
  unfoldable pub receive_logout : Handler
  receive_logout message = app.on_logout message.fix >> pure none

  -- `_send_test_heartbeat`
  abbrev pub send_token : String → M (Engine S) (Option AdminMessage)
  send_token token =
      modify (λ e. record e { test_heartbeat_message = some token })
      >> (send_message env ops "TEST_REQUEST" (text_field "TestReqID" token)
          >> answer test_heartbeat_sent)

  unfoldable pub send_test_heartbeat_handler : Handler
  send_test_heartbeat_handler message = new_uuid env >>= send_token

  -- `_validate_test_heartbeat`
  abbrev pub compare_token : Option String → M (Engine S) (Option AdminMessage)
  compare_token none = raise assertion_error
  compare_token (some token) = do
    sent ← gets (λ e. e.test_heartbeat_message)
    answer (if is_same token sent then test_heartbeat_valid else test_heartbeat_invalid)

  unfoldable pub validate_test_heartbeat_handler : Handler
  validate_test_heartbeat_handler message = compare_token (lookup "TestReqID" message.fix.texts)

  -- The handlers of `AcceptorAdminStateMachine`.
  abbrev pub acceptor_handlers : AdminState → AdminEvent → Option Handler
  acceptor_handlers disconnected connected = some await_logon_window
  acceptor_handlers logon_expected logon_received = some validate_logon
  acceptor_handlers authenticating logon_accepted = some send_logon
  acceptor_handlers authenticating logon_rejected = some send_logout_handler
  acceptor_handlers authenticated heartbeat_received = some receive_heartbeat
  acceptor_handlers authenticated test_request_received = some receive_test_request
  acceptor_handlers authenticated resend_request_received = some send_sequence_reset_handler
  acceptor_handlers authenticated AdminEvent.sequence_reset_received = some handle_sequence_reset
  acceptor_handlers authenticated logout_received = some receive_logout
  acceptor_handlers authenticated test_heartbeat_required = some send_test_heartbeat_handler
  acceptor_handlers send_test_heartbeat test_request_sent = some validate_test_heartbeat_handler
  acceptor_handlers reject_logon send_logout = some send_logout_handler
  acceptor_handlers _ _ = none

  -- `AcceptorAdminStateMachine`
  abbrev pub acceptor_machine : Machine (Engine S) AdminState AdminEvent AdminMessage
  acceptor_machine = record {
    state = λ e. e.admin_state;
    set_state = λ s e. record e { admin_state = s };
    transitions = acceptor_transitions;
    event = λ m. m.event;
    handlers = acceptor_handlers;
  }

  -- `process` of the admin state machine: a logon is followed by its verdict, so two rounds are
  -- enough.
  unfoldable pub process_admin : AdminMessage → M (Engine S) AdminState
  process_admin message = process acceptor_machine 2 (some message)

  -- `self._transport_state_machine.process`
  unfoldable pub process_message : TransportMessage → M (Engine S) TransportState
  process_message = process_transport env ops app process_admin
