-- ===== src/TransportMachine.antt =====
-- jetblack_fixengine/transports/state_machine.py and state_processor.py: the handlers of the
-- transport's state machine, over the admin state machine of an engine.
pub mod Numbering
pub mod Receiving
pub mod Settles
use jetblack_fixengine.Machine.{Machine, process}
use jetblack_fixengine.Prelude.{Bool, Option, String, if◌then◌else◌, ltb, none, some, ℕ, ◌*◌, ◌+◌}
use jetblack_fixengine.Exceptions.{
  M, assertion_error, branch, decode_error, key_error, modify, pure, raise, runtime_error,
  value_error, ◌>>=◌, ◌>>◌,
}
use jetblack_fixengine.Admin.{
  AdminEvent, AdminMessage, AdminState, Fields, connected, disconnected, from_msg_type,
  is_authenticated, lookup, signal, test_heartbeat_required,
}
use jetblack_fixengine.Transport.{
  TransportEvent, TransportMessage, TransportState, connection_received, disconnect_received, fix,
  fix_handled, fix_received, notice, timeout_handled, timeout_received, transport_transitions,
}
use text.Mathlib.Text.{◌==◌}
use jetblack_fixengine.Engine.{
  Engine, Environment, FixApplication, FixMessage, SessionOps, now, save_message, set_incoming,
}

abbrev pub seconds : ℕ → ℕ
seconds n = n * 1000000

-- `admin` is `self._admin_state_machine.process`.
module _ {S : Type 0} (env : Environment) (ops : SessionOps S) (app : FixApplication S)
    (admin : AdminMessage → M (Engine S) AdminState) where
  -- `_handle_connected`
  unfoldable pub handle_connected : TransportMessage → M (Engine S) (Option TransportMessage)
  handle_connected message = admin (signal AdminEvent.connected) >> pure none

  -- `AdminEvent.from_msg_type(...)`, and the call of the admin state machine.
  abbrev pub process_event : Option AdminEvent → Fields → M (Engine S) (Unit {0})
  process_event none message = raise value_error
  process_event (some event) message = admin (record { event = event; fix = message }) >> pure tt

  -- `assert 'MsgType' in message`
  abbrev pub with_type : Option String → Fields → M (Engine S) (Unit {0})
  with_type none message = raise assertion_error
  with_type (some msg_type) message =
      app.on_admin_message message >> process_event (from_msg_type msg_type) message

  -- `_handle_admin_message`
  unfoldable pub handle_admin_message : Fields → M (Engine S) (Unit {0})
  handle_admin_message message = with_type (lookup "MsgType" message.texts) message

  abbrev pub handle_message : FixMessage → M (Engine S) (Unit {0})
  handle_message m =
      if m.msgcat == "admin"
      then handle_admin_message m.message
      else app.on_application_message m.message

  -- `fix_message.message['MsgSeqNum']` becomes the incoming sequence number.
  abbrev pub record_seqnum : Option ℕ → M (Engine S) (Unit {0})
  record_seqnum none = raise key_error
  record_seqnum (some msg_seq_num) = set_incoming ops msg_seq_num

  abbrev pub received : ℕ → M (Engine S) (Option TransportMessage)
  received time =
      modify (λ e. record e { last_receive_time_utc = time })
      >> pure (some (notice TransportEvent.fix_handled))

  -- What follows the decoding of a message.
  abbrev pub handle_decoded : Option FixMessage → M (Engine S) (Option TransportMessage)
  handle_decoded none = raise decode_error
  handle_decoded (some m) =
      handle_message m
      >> record_seqnum (lookup "MsgSeqNum" m.message.ints)
      >> (now env >>= received)

  -- `_handle_fix`
  unfoldable pub handle_fix : TransportMessage → M (Engine S) (Option TransportMessage)
  handle_fix message = save_message ops message.buffer >> handle_decoded (env.decode message.buffer)

  -- `elapsed > heartbeat_threshold`, with both sides raised by what is subtracted.
  abbrev pub is_silent : ℕ → Engine S → Bool
  is_silent time e =
      ltb (e.last_receive_time_utc + seconds (env.heartbeat_timeout + env.heartbeat_threshold)) time

  abbrev pub probe : ℕ → M (Engine S) (Unit {0})
  probe time =
      branch (is_silent time) (admin (signal AdminEvent.test_heartbeat_required) >> pure tt)
        (pure tt)

  -- `_handle_timeout`
  unfoldable pub handle_timeout : TransportMessage → M (Engine S) (Option TransportMessage)
  handle_timeout message =
      branch (λ e. is_authenticated e.admin_state)
        (now env >>= probe >> pure (some (notice TransportEvent.timeout_handled)))
        (raise runtime_error)

  -- `_handle_disconnect`
  unfoldable pub handle_disconnect : TransportMessage → M (Engine S) (Option TransportMessage)
  handle_disconnect message = pure none

  abbrev pub transport_handlers :
      TransportState
      → TransportEvent
      → Option (TransportMessage → M (Engine S) (Option TransportMessage))
  transport_handlers TransportState.disconnected TransportEvent.connection_received =
      some handle_connected
  transport_handlers TransportState.connected TransportEvent.fix_received = some handle_fix
  transport_handlers TransportState.connected TransportEvent.timeout_received = some handle_timeout
  transport_handlers TransportState.connected TransportEvent.disconnect_received =
      some handle_disconnect
  transport_handlers _ _ = none

  -- `TransportStateMachine`
  abbrev pub transport_machine : Machine (Engine S) TransportState TransportEvent TransportMessage
  transport_machine = record {
    state = λ e. e.transport_state;
    set_state = λ s e. record e { transport_state = s };
    transitions = transport_transitions;
    event = λ m. m.event;
    handlers = transport_handlers;
  }

  -- `process` of the transport: two rounds of its loop are enough.
  unfoldable pub process_transport : TransportMessage → M (Engine S) TransportState
  process_transport message = process transport_machine 2 (some message)
