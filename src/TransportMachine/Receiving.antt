-- ===== src/TransportMachine/Receiving.antt =====
-- What the transport's state machine makes of a FIX message and of a timeout.
use jetblack_fixengine.Prelude.{arith, some, ℕ, ◌+◌, ◌<◌, ◌≡◌, ◌≢◌, ◌≤◌}
use jetblack_fixengine.Exceptions.{M, after, err, ok, runtime_error}
use jetblack_fixengine.Machine.{process, transition}
use jetblack_fixengine.Bytes.{Bytes}
use jetblack_fixengine.Admin.{
  AdminMessage, AdminState, authenticated, lookup, signal, test_heartbeat_required,
}
use jetblack_fixengine.Transport.{TransportEvent, TransportState, fix, notice, timeout_received}
use jetblack_fixengine.Engine.{
  Engine, Environment, FixApplication, FixMessage, SessionOps, incoming,
}
use jetblack_fixengine.TransportMachine.{
  handle_fix, handle_message, handle_timeout, process_transport, seconds,
}

module _ {S : Type 0} (env : Environment) (ops : SessionOps S) (app : FixApplication S)
    (admin : AdminMessage → M (Engine S) AdminState) (e : Engine S) where
  abbrev saved : Bytes → Engine S
  saved buffer = record e {
    session = after (ops.save_message buffer e.session);
    transport_state = fix;
  }

  -- An engine whose transport is connected receives a FIX message, which is saved, decoded, and handled
  -- by the admin state machine or the application, all without an exception. Then the transport is
  -- connected again, and the incoming number is the message's MsgSeqNum, whatever number the handling
  -- of the message left.
  pub fix_handled_seqnum :
      (buffer : Bytes) (m : FixMessage) (msg_seq_num : ℕ) (e2 : Engine S)
      → e.transport_state ≡ TransportState.connected
      → (ops.save_message buffer e.session).1 ≡ ok tt
      → env.decode buffer ≡ some m
      → lookup "MsgSeqNum" m.message.ints ≡ some msg_seq_num
      → handle_message env ops app admin m (saved buffer) ≡ (e2, ok tt)
      → e2.transport_state ≡ fix
      → let (e', r) =
          process_transport env ops app admin
            (record { event = TransportEvent.fix_received; buffer = buffer })
            e in
        (r ≡ ok TransportState.connected)
        × (e'.transport_state ≡ TransportState.connected)
        × (incoming ops e' ≡ msg_seq_num)
        × (e'.last_receive_time_utc ≡ env.clock e2.readings)
        × (e'.sent ≡ e2.sent)
  unfolding process_transport process transition handle_fix
  fix_handled_seqnum buffer m n e2 c s d l h t =
      ground (arith, ops.incoming-set_incoming n e2.session)

  -- A timeout of an engine whose transport is connected: it raises a RuntimeError where the engine is
  -- not authenticated; where it is, the admin state machine is told that a test heartbeat is required
  -- exactly if the last message was received longer ago than the heartbeat timeout and the threshold.
  pub timeout_branches :
      e.transport_state ≡ TransportState.connected
      → let result = process_transport env ops app admin (notice timeout_received) e in
        let time = env.clock e.readings in
        let limit =
          e.last_receive_time_utc + seconds (env.heartbeat_timeout + env.heartbeat_threshold) in
        let idle = record e {
          transport_state = TransportState.timeout;
          readings = e.readings + 1;
        } in
        (e.admin_state ≢ authenticated → result.1 ≡ err runtime_error)
        × (e.admin_state ≡ authenticated
            → time ≤ limit
            → result ≡ (
              record idle { transport_state = TransportState.connected },
              ok TransportState.connected,
            ))
        × ((e2 : Engine S) (s : AdminState)
            → e.admin_state ≡ authenticated
            → limit < time
            → admin (signal test_heartbeat_required) idle ≡ (e2, ok s)
            → e2.transport_state ≡ TransportState.timeout
            → result ≡ (
              record e2 { transport_state = TransportState.connected },
              ok TransportState.connected,
            ))
  unfolding process_transport process transition handle_timeout
  timeout_branches c = ground arith
