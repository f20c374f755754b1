-- ===== src/Peers/Dialling.antt =====
-- An initiator of jetblack_fixengine/initiator/initiator.py that connects, and is answered.
use jetblack_fixengine.Prelude.{
  String, [], ap, arith, pos, refl, some, sub_ℕ, true, ℕ, ◌+◌, ◌∙◌, ◌∷◌, ◌≡◌,
}
use jetblack_fixengine.Exceptions.{Exception, Result, continue, err, ok}
use jetblack_fixengine.Machine.{process, transition}
use jetblack_fixengine.Admin.{AdminEvent, AdminState, Fields, from_msg_type}
use jetblack_fixengine.Transport.{TransportEvent, TransportMessage, TransportState, notice}
use jetblack_fixengine.Engine.{
  Engine, Environment, FixApplication, FixMessage, SessionOps, next_outgoing_seqnum, send_message,
  send_transport_message, waiting,
}
use jetblack_fixengine.Engine.Sending.{fix_message, sent_from}
use jetblack_fixengine.TransportMachine.{handle_connected, process_transport, seconds}
use jetblack_fixengine.Initiator.{
  logon_fields, logon_received_handler, process_admin, process_message, send_logon,
}
use jetblack_fixengine.Initiator.Call.{
  call, call_loop, call_round, new_engine, next_message, send_heartbeat_if_required,
}
use jetblack_fixengine.Bytes.{Bytes}
use jetblack_fixengine.Peers.{IsPassive, IsRead, Saves}
use jetblack_fixengine.Peers.Receiving.{
  arrived, process_transport-arrived, process_transport-failed, saved,
}

pub logon_type : from_msg_type "LOGON" ≡ some AdminEvent.logon_received
unfolding from_msg_type
logon_type = refl

module _ {S : Type 0} (env : Environment) (ops : SessionOps S) (app : FixApplication S)
    (s : S) where
  -- The initiator's LOGON, and the engine that has sent it.
  abbrev pub logon_message : TransportMessage
  logon_message = fix_message (
      env.create "LOGON" (ops.get_outgoing_seqnum s + 1) (env.clock 0)
        (logon_fields env.heartbeat_timeout))

  abbrev pub connecting : Engine S
  connecting = record (new_engine env s) { is_connected = true }

  abbrev pub dialled : Engine S
  dialled = record (sent_from env ops "LOGON" (logon_fields env.heartbeat_timeout) connecting) {
    timeout = pos (seconds env.logon_timeout);
    admin_state = AdminState.logon_expected;
    transport_state = TransportState.connected;
  }

  call_round-dialled :
      call_round env ops app (some (notice TransportEvent.connection_received)) connecting
      ≡ (dialled, ok TransportState.connected)
  unfolding call_round next_message send_heartbeat_if_required process_message process_transport
      process transition handle_connected process_admin send_logon send_message next_outgoing_seqnum
      send_transport_message
  call_round-dialled = refl

  -- Before the message comes, no heartbeat is due, since the initiator is not authenticated.
  abbrev pub expecting : Engine S
  expecting = record dialled {
    readings = 2;
    timeout = sub_ℕ (seconds env.heartbeat_timeout + env.clock 0) (env.clock 1);
  }

  next_message-expecting :
      (m : TransportMessage) → next_message env ops app (some m) dialled ≡ (expecting, ok m)
  unfolding next_message send_heartbeat_if_required
  next_message-expecting m = ground arith

  process_admin-authenticated :
      (fields : Fields) (e : Engine S)
      → IsPassive app
      → e.admin_state ≡ AdminState.logon_expected
      → process_admin env ops app (record { event = AdminEvent.logon_received; fix = fields }) e
        ≡ (record e { admin_state = AdminState.authenticated }, ok AdminState.authenticated)
  unfolding process_admin process transition logon_received_handler
  process_admin-authenticated fields e p h =
      ground (arith, h, p.logon fields (record e { admin_state = AdminState.authenticated }))

  module _ (buffer : Bytes) (n : ℕ) where
    abbrev pub logged_on : Engine S
    logged_on =
        arrived env ops app (process_admin env ops app) n
          (record (saved env ops app (process_admin env ops app) buffer expecting) {
            admin_state = AdminState.authenticated;
          })

    call_round-logged_on :
        (m : FixMessage) (fields : Fields)
        → Saves ops
        → IsPassive app
        → env.decode buffer ≡ some m
        → IsRead "LOGON" n fields m
        → call_round env ops app (some (fix_message buffer)) dialled
          ≡ (logged_on, ok TransportState.connected)
    unfolding call_round process_message
    call_round-logged_on m fields sv p d r =
        ap
          (λ (x : Engine S × Result TransportMessage).
            continue x (process_transport env ops app (process_admin env ops app)))
          (next_message-expecting (fix_message buffer))
        ∙ process_transport-arrived env ops app (process_admin env ops app) buffer m "LOGON" n
            fields AdminEvent.logon_received expecting _ AdminState.authenticated refl (sv buffer _)
            d r logon_type p.admin_message (process_admin-authenticated m.message _ p refl) refl

    -- An initiator over a session, that connects and then receives a LOGON.
    pub call-logged_on :
        (m : FixMessage) (fields : Fields)
        → Saves ops
        → IsPassive app
        → env.decode buffer ≡ some m
        → IsRead "LOGON" n fields m
        → call env ops app
            (some (notice TransportEvent.connection_received) ∷ some (fix_message buffer) ∷ [])
            (new_engine env s)
          ≡ (logged_on, ok waiting)
    unfolding call call_loop
    call-logged_on m fields sv p d r =
        rw (call_round-dialled, call_round-logged_on m fields sv p d r) refl

  -- An initiator over a session, that connects and then receives another message for which its admin
  -- state machine raises.
  pub call-failed :
      (buffer : Bytes) (n : ℕ) (m : FixMessage) (msg_type : String) (fields : Fields)
      (event : AdminEvent) (e2 : Engine S) (x : Exception)
      → Saves ops
      → ((fields : Fields) (e : Engine S) → app.on_admin_message fields e ≡ (e, ok tt))
      → env.decode buffer ≡ some m
      → IsRead msg_type n fields m
      → from_msg_type msg_type ≡ some event
      → process_admin env ops app
          (record { event = event; fix = m.message })
          (saved env ops app (process_admin env ops app) buffer expecting)
        ≡ (e2, err x)
      → call env ops app
          (some (notice TransportEvent.connection_received) ∷ some (fix_message buffer) ∷ [])
          (new_engine env s)
        ≡ (e2, err x)
  unfolding call call_loop call_round process_message
  call-failed buffer n m msg_type fields event e2 x sv p d r t h =
      rw
        (
          call_round-dialled,
          next_message-expecting (fix_message buffer),
          process_transport-failed env ops app (process_admin env ops app) buffer m msg_type n
              fields event expecting e2 x refl (sv buffer expecting.session) d r t p h,
        )
        refl
