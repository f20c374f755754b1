-- ===== src/TransportMachine/Numbering.antt =====
-- The transport's handlers keep the numbering, if the admin state machine and the application do.
use jetblack_fixengine.Engine.{Engine, Environment, FixApplication, FixMessage, SessionOps}
use jetblack_fixengine.Admin.{
  AdminEvent, AdminMessage, AdminState, Fields, from_msg_type, lookup, signal,
  test_heartbeat_required,
}
use jetblack_fixengine.Prelude.{Option, String, none, some, ℕ}
use jetblack_fixengine.Exceptions.{M, assertion_error, decode_error, key_error, value_error}
use jetblack_fixengine.Transport.{
  TransportEvent, TransportMessage, TransportState, connection_received, disconnect_received,
  fix_received, timeout_received,
}
use jetblack_fixengine.Engine.Numbering.{
  AppInStep, InStep, now-InStep, save_message-InStep, set_incoming-InStep, set_received-InStep,
}
use jetblack_fixengine.TransportMachine.{
  handle_admin_message, handle_connected, handle_decoded, handle_disconnect, handle_fix,
  handle_message, handle_timeout, probe, process_event, process_transport, received, record_seqnum,
  transport_handlers, transport_machine, with_type,
}
use jetblack_fixengine.Machine.Keeps.{KeepsEntry, process-Keeps}
use jetblack_fixengine.Exceptions.Keeps.{
  Keeps, Keeps-bind, Keeps-branch, Keeps-if, Keeps-pure, Keeps-raise, Keeps-then,
}

module _ {S : Type 0} (env : Environment) (ops : SessionOps S) (app : FixApplication S)
    (admin : AdminMessage → M (Engine S) AdminState) (start : ℕ) (k : AppInStep env ops start app)
    (ka : (x : AdminMessage) → Keeps (InStep env ops start) (admin x)) where
  abbrev Numbered : Engine S → Type 0
  Numbered = InStep env ops start

  handle_connected-keeps :
      (x : TransportMessage) → Keeps Numbered (handle_connected env ops app admin x)
  unfolding handle_connected
  handle_connected-keeps x = search (Keeps-then, Keeps-pure, ka)

  process_event-keeps :
      (o : Option AdminEvent) (m : Fields) → Keeps Numbered (process_event env ops app admin o m)
  process_event-keeps none m = Keeps-raise value_error
  process_event-keeps (some event) m = search (Keeps-then, Keeps-pure, ka)

  with_type-keeps :
      (o : Option String) (m : Fields) → Keeps Numbered (with_type env ops app admin o m)
  with_type-keeps none m = Keeps-raise assertion_error
  with_type-keeps (some t) m =
      Keeps-then _ _ (k.admin_message m) (process_event-keeps (from_msg_type t) m)

  handle_message-keeps : (m : FixMessage) → Keeps Numbered (handle_message env ops app admin m)
  unfolding handle_admin_message
  handle_message-keeps m =
      Keeps-if _ _ _ (with_type-keeps (lookup "MsgType" m.message.texts) m.message)
        (k.application_message m.message)

  record_seqnum-keeps : (o : Option ℕ) → Keeps Numbered (record_seqnum env ops app admin o)
  record_seqnum-keeps none = Keeps-raise key_error
  record_seqnum-keeps (some n) = set_incoming-InStep env ops start n

  received-keeps : (time : ℕ) → Keeps Numbered (received env ops app admin time)
  received-keeps time = search (Keeps-then, Keeps-pure, set_received-InStep)

  handle_decoded-keeps :
      (o : Option FixMessage) → Keeps Numbered (handle_decoded env ops app admin o)
  handle_decoded-keeps none = Keeps-raise decode_error
  handle_decoded-keeps (some m) =
      Keeps-then _ _
        (Keeps-then _ _ (handle_message-keeps m)
          (record_seqnum-keeps (lookup "MsgSeqNum" m.message.ints)))
        (Keeps-bind _ _ (now-InStep env ops start) received-keeps)

  handle_fix-keeps : (x : TransportMessage) → Keeps Numbered (handle_fix env ops app admin x)
  unfolding handle_fix
  handle_fix-keeps x =
      Keeps-then _ _ (save_message-InStep env ops start x.buffer)
        (handle_decoded-keeps (env.decode x.buffer))

  probe-keeps : (time : ℕ) → Keeps Numbered (probe env ops app admin time)
  probe-keeps time =
      Keeps-branch _ _ _ (Keeps-then _ _ (ka (signal test_heartbeat_required)) (Keeps-pure tt))
        (Keeps-pure tt)

  handle_timeout-keeps :
      (x : TransportMessage) → Keeps Numbered (handle_timeout env ops app admin x)
  unfolding handle_timeout
  handle_timeout-keeps x =
      Keeps-branch _ _ _
        (Keeps-then _ _ (Keeps-bind _ _ (now-InStep env ops start) probe-keeps) (Keeps-pure _))
        (Keeps-raise _)

  handlers-keep :
      (s : TransportState) (e : TransportEvent)
      → KeepsEntry Numbered (transport_handlers env ops app admin s e)
  handlers-keep TransportState.disconnected connection_received = handle_connected-keeps
  handlers-keep TransportState.connected fix_received = handle_fix-keeps
  handlers-keep TransportState.connected timeout_received = handle_timeout-keeps
  handlers-keep TransportState.connected disconnect_received =
      λ x. unfold handle_disconnect in Keeps-pure none
  handlers-keep _ _ = tt

  set_state-keeps :
      (s : TransportState) (e : Engine S) → Numbered e → Numbered (record e { transport_state = s })
  set_state-keeps s e h = record { is_up = h.is_up; counted = h.counted; numbered = h.numbered }

  pub process_transport-InStep :
      (x : TransportMessage) → Keeps Numbered (process_transport env ops app admin x)
  unfolding process_transport
  process_transport-InStep x =
      process-Keeps (transport_machine env ops app admin) Numbered set_state-keeps handlers-keep 2
        (some x)
