-- ===== src/Peers/Receiving.antt =====
-- A round of an engine that receives an administrative message of its peer.
use jetblack_fixengine.Peers.{IsRead}
use jetblack_fixengine.Prelude.{String, arith, refl, some, ℕ, ◌+◌, ◌≡◌}
use jetblack_fixengine.Exceptions.{Exception, M, after, err, ok}
use jetblack_fixengine.Bytes.{Bytes}
use jetblack_fixengine.Machine.{process, transition}
use jetblack_fixengine.Admin.{AdminEvent, AdminMessage, AdminState, Fields, from_msg_type}
use jetblack_fixengine.Transport.{TransportState, fix}
use jetblack_fixengine.Engine.{Engine, Environment, FixApplication, FixMessage, SessionOps}
use jetblack_fixengine.Engine.Sending.{fix_message}
use jetblack_fixengine.TransportMachine.{
  handle_admin_message, handle_fix, handle_message, process_transport,
}

module _ {S : Type 0} (env : Environment) (ops : SessionOps S) (app : FixApplication S)
    (admin : AdminMessage → M (Engine S) AdminState) where
  -- An engine that has saved a message, and one that has handled it.
  abbrev pub saved : Bytes → Engine S → Engine S
  saved buffer e = record e {
    session = after (ops.save_message buffer e.session);
    transport_state = fix;
  }

  abbrev pub arrived : ℕ → Engine S → Engine S
  arrived n e = record e {
    session = ops.set_incoming_seqnum n e.session;
    readings = e.readings + 1;
    last_receive_time_utc = env.clock e.readings;
    transport_state = TransportState.connected;
  }

  handled :
      (m : FixMessage) (msg_type : String) (n : ℕ) (fields : Fields) (event : AdminEvent)
      (e e2 : Engine S) (s : AdminState)
      → IsRead msg_type n fields m
      → from_msg_type msg_type ≡ some event
      → ((fields : Fields) (e : Engine S) → app.on_admin_message fields e ≡ (e, ok tt))
      → admin (record { event = event; fix = m.message }) e ≡ (e2, ok s)
      → handle_message env ops app admin m e ≡ (e2, ok tt)
  unfolding handle_admin_message
  handled m msg_type n fields event e e2 s r t p a = rw (r.category, r.typed, p, t, a) refl

  pub process_transport-arrived :
      (buffer : Bytes) (m : FixMessage) (msg_type : String) (n : ℕ) (fields : Fields)
      (event : AdminEvent) (e e2 : Engine S) (s : AdminState)
      → e.transport_state ≡ TransportState.connected
      → (ops.save_message buffer e.session).1 ≡ ok tt
      → env.decode buffer ≡ some m
      → IsRead msg_type n fields m
      → from_msg_type msg_type ≡ some event
      → ((fields : Fields) (e : Engine S) → app.on_admin_message fields e ≡ (e, ok tt))
      → admin (record { event = event; fix = m.message }) (saved buffer e) ≡ (e2, ok s)
      → e2.transport_state ≡ fix
      → process_transport env ops app admin (fix_message buffer) e
        ≡ (arrived n e2, ok TransportState.connected)
  unfolding process_transport process transition handle_fix
  process_transport-arrived buffer m msg_type n fields event e e2 s c sv d r t p a f = ground (
    arith,
    c,
    sv,
    d,
    r.numbered,
    f,
    handled m msg_type n fields event (saved buffer e) e2 s r t p a,
  )

  failed :
      (m : FixMessage) (msg_type : String) (n : ℕ) (fields : Fields) (event : AdminEvent)
      (e e2 : Engine S) (x : Exception)
      → IsRead msg_type n fields m
      → from_msg_type msg_type ≡ some event
      → ((fields : Fields) (e : Engine S) → app.on_admin_message fields e ≡ (e, ok tt))
      → admin (record { event = event; fix = m.message }) e ≡ (e2, err x)
      → handle_message env ops app admin m e ≡ (e2, err x)
  unfolding handle_admin_message
  failed m msg_type n fields event e e2 x r t p a = rw (r.category, r.typed, p, t, a) refl

  -- The message is saved, but its number is not taken, and the transport stays in the state fix.
  pub process_transport-failed :
      (buffer : Bytes) (m : FixMessage) (msg_type : String) (n : ℕ) (fields : Fields)
      (event : AdminEvent) (e e2 : Engine S) (x : Exception)
      → e.transport_state ≡ TransportState.connected
      → (ops.save_message buffer e.session).1 ≡ ok tt
      → env.decode buffer ≡ some m
      → IsRead msg_type n fields m
      → from_msg_type msg_type ≡ some event
      → ((fields : Fields) (e : Engine S) → app.on_admin_message fields e ≡ (e, ok tt))
      → admin (record { event = event; fix = m.message }) (saved buffer e) ≡ (e2, err x)
      → process_transport env ops app admin (fix_message buffer) e ≡ (e2, err x)
  unfolding process_transport process transition handle_fix
  process_transport-failed buffer m msg_type n fields event e e2 x c sv d r t p a =
      ground (arith, c, sv, d, failed m msg_type n fields event (saved buffer e) e2 x r t p a)
