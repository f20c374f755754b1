-- ===== src/Peers/Leaving.antt =====
-- The logout of jetblack_fixengine's initiator at its acceptor.
use jetblack_fixengine.Peers.{IsPassive, Reads, Saves}
use jetblack_fixengine.Acceptor as Accept
use jetblack_fixengine.Acceptor.{process_admin, process_message, receive_logout}
use jetblack_fixengine.Prelude.{[], arith, refl, some, sym, ◌++◌, ◌+◌, ◌∷◌, ◌≡◌}
use jetblack_fixengine.Exceptions.{Result, err, ok, runtime_error}
use jetblack_fixengine.Engine.{
  Engine, Environment, FixApplication, SessionOps, next_outgoing_seqnum, outgoing, send_message,
  send_transport_message,
}
use jetblack_fixengine.Admin.{AdminEvent, AdminState, Fields, from_msg_type, no_fields}
use jetblack_fixengine.Transport.{TransportEvent, TransportMessage, TransportState, notice}
use jetblack_fixengine.Machine.{process, transition}
use jetblack_fixengine.Peers.Echo.{IsOnline}
use jetblack_fixengine.Peers.Receiving.{arrived, process_transport-arrived, saved}
use jetblack_fixengine.Engine.Sending.{fix_message}
use jetblack_fixengine.Initiator.Call.{logout}
use mathlib.Core.Path.{subst}
use jetblack_fixengine.TransportMachine.{handle_timeout, process_transport}

pub logout_type : from_msg_type "LOGOUT" ≡ some AdminEvent.logout_received
unfolding from_msg_type
logout_type = refl

module _ {S : Type 0} (env : Environment) (ops : SessionOps S) (app : FixApplication S) where
  process_admin-left :
      (fields : Fields) (e : Engine S)
      → IsPassive app
      → e.admin_state ≡ AdminState.authenticated
      → Accept.process_admin env ops app
          (record { event = AdminEvent.logout_received; fix = fields })
          e
        ≡ (record e { admin_state = AdminState.disconnected }, ok AdminState.disconnected)
  unfolding Accept.process_admin process transition receive_logout
  process_admin-left fields e p h =
      ground (arith, h, p.logout fields (record e { admin_state = AdminState.disconnected }))

  -- A timeout of an acceptor whose session is over.
  abbrev pub Fails : Engine S → Type 0
  Fails e =
      let (e', r) = Accept.process_message env ops app (notice TransportEvent.timeout_received) e in
      (r ≡ err runtime_error) × (e'.sent ≡ e.sent)

  timeout-Fails :
      (e : Engine S)
      → e.admin_state ≡ AdminState.disconnected
      → e.transport_state ≡ TransportState.connected
      → Fails e
  unfolding Accept.process_message process_transport process transition handle_timeout
  timeout-Fails e h c = ground arith

module _ {S T : Type 0} (env : Environment) (ops : SessionOps S) (app : FixApplication S)
    (env' : Environment) (ops' : SessionOps T) (app' : FixApplication T) where
  abbrev pub logout_message : Engine S → TransportMessage
  logout_message e =
      fix_message (env.create "LOGOUT" (outgoing ops e + 1) (env.clock e.readings) no_fields)

  abbrev gone : Engine S → Engine T → Engine T
  gone e e' =
      arrived env' ops' app' (Accept.process_admin env' ops' app') (outgoing ops e + 1)
        (record (saved env' ops' app' (Accept.process_admin env' ops' app')
          (logout_message e).buffer e') { admin_state = AdminState.disconnected })

  -- The initiator has sent its LOGOUT and is still authenticated.
  abbrev pub Leaves : Engine S → Engine S × Result (Unit {0}) → Type 0
  Leaves e (f, r) =
      (r ≡ ok tt)
      × (f.admin_state ≡ AdminState.authenticated)
      × (f.sent ≡ e.sent ++ logout_message e ∷ [])

  -- The acceptor has sent nothing, stays connected and is disconnected for the protocol, and its next
  -- timeout fails.
  abbrev pub IsLeft : Engine T → Engine T × Result TransportState → Type 0
  IsLeft e' (f', r) =
      (r ≡ ok TransportState.connected)
      × (f'.admin_state ≡ AdminState.disconnected)
      × (f'.sent ≡ e'.sent)
      × Fails env' ops' app' f'

  gone-lem :
      (e : Engine S) (e' : Engine T)
      → Reads env env' "LOGOUT" no_fields
      → IsPassive app'
      → Saves ops'
      → IsOnline e'
      → Accept.process_message env' ops' app' (logout_message e) e'
        ≡ (gone e e', ok TransportState.connected)
  unfolding Accept.process_message
  gone-lem e e' there p sv h =
      let (m, d, r) = there (outgoing ops e + 1) (env.clock e.readings) in
      let admin = Accept.process_admin env' ops' app' in
      let buffer = (logout_message e).buffer in
      process_transport-arrived env' ops' app' admin buffer m "LOGOUT" (outgoing ops e + 1)
        no_fields AdminEvent.logout_received e'
        (record (saved env' ops' app' admin buffer e') { admin_state = AdminState.disconnected })
        AdminState.disconnected h.connected (sv buffer e'.session) d r logout_type p.admin_message
        (process_admin-left env' ops' app' m.message (saved env' ops' app' admin buffer e') p
          h.authenticated)
        refl

  logout-Leaves : (e : Engine S) → IsOnline e → Leaves e (logout env ops app e)
  unfolding logout send_message next_outgoing_seqnum send_transport_message
  logout-Leaves e h = ground (arith, h.authenticated, h.sending)

  -- An initiator that is online logs out, and an acceptor that is online receives its LOGOUT. Where the
  -- acceptor's parser reads that message, its application only looks on, and its session saves every
  -- message, the initiator has sent its LOGOUT and is still authenticated. The acceptor sends nothing, so
  -- the LOGOUT is not answered; it is disconnected, but its transport is not, and its next timeout raises
  -- a RuntimeError.
  pub logout_unanswered :
      (e : Engine S) (e' : Engine T)
      → Reads env env' "LOGOUT" no_fields
      → IsPassive app'
      → Saves ops'
      → IsOnline e
      → IsOnline e'
      → Leaves e (logout env ops app e)
        × IsLeft e' (Accept.process_message env' ops' app' (logout_message e) e')
  logout_unanswered e e' there p sv h h' = (
    logout-Leaves e h,
    subst (IsLeft e') (sym (gone-lem e e' there p sv h'))
        (refl, refl, refl, timeout-Fails env' ops' app' (gone e e') refl refl),
  )
