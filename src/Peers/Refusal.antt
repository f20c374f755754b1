-- ===== src/Peers/Refusal.antt =====
-- A logon that jetblack_fixengine's acceptor refuses, at its initiator.
use jetblack_fixengine.Peers.{IsPassive, Reads, Saves}
use jetblack_fixengine.Peers.Receiving.{saved}
use jetblack_fixengine.Peers.Dialling.{call-failed, expecting, logon_message}
use jetblack_fixengine.Peers.Answering.{call-answered, opened-up, ready}
use jetblack_fixengine.Peers.Leaving.{logout_type}
use jetblack_fixengine.Acceptor as Accept
use jetblack_fixengine.Acceptor.{process_admin, send_logout_handler, validate_logon}
use jetblack_fixengine.Acceptor.Call as Answer
use jetblack_fixengine.Initiator.Call as Dial
use jetblack_fixengine.Initiator as Start
use jetblack_fixengine.Initiator.{logon_fields}
use jetblack_fixengine.Prelude.{
  List, [], ap, arith, false, refl, some, sym, true, ℕ, ◌++◌, ◌+◌, ◌∙◌, ◌∷◌, ◌≡◌,
}
use jetblack_fixengine.Exceptions.{Exception, Result, err, invalid_state_transition, ok}
use jetblack_fixengine.Engine.{
  CallEnd, Engine, Environment, FixApplication, Input, SessionOps, next_outgoing_seqnum, outgoing,
  send_message, send_transport_message, waiting,
}
use jetblack_fixengine.Admin.{AdminEvent, AdminState, Fields, no_fields}
use jetblack_fixengine.Transport.{TransportEvent, TransportMessage, notice}
use jetblack_fixengine.Machine.{process, transition}
use jetblack_fixengine.Engine.Sending.{fix_message, sent_from}
use jetblack_fixengine.Bytes.{Bytes}
use mathlib.Core.Path.{subst}

-- What an engine receives first: the notice of the connection, and a message.
abbrev pub first_inputs : TransportMessage → List Input
first_inputs message = some (notice TransportEvent.connection_received) ∷ some message ∷ []

-- An application that refuses every logon with an exception, and does nothing else.
pub record IsRefusing {S : Type 0} (app : FixApplication S) (x : Exception) : Type 0 where
  pub admin_message : (fields : Fields) (e : Engine S) → app.on_admin_message fields e ≡ (e, ok tt)
  pub logon : (fields : Fields) (e : Engine S) → app.on_logon fields e ≡ (e, err x)
  pub logout : (fields : Fields) (e : Engine S) → app.on_logout fields e ≡ (e, ok tt)

module _ {S : Type 0} (env : Environment) (ops : SessionOps S) (app : FixApplication S) where
  -- The acceptor has sent LOGOUT.
  abbrev refusing : Engine S → Engine S
  refusing e =
      sent_from env ops "LOGOUT" no_fields (record e { admin_state = AdminState.reject_logon })

  process_admin-refusing :
      (fields : Fields) (e : Engine S) (x : Exception)
      → IsRefusing app x
      → e.admin_state ≡ AdminState.logon_expected
      → e.is_connected ≡ true
      → Accept.process_admin env ops app
          (record { event = AdminEvent.logon_received; fix = fields })
          e
        ≡ (refusing e, ok AdminState.reject_logon)
  unfolding Accept.process_admin process transition validate_logon send_logout_handler send_message
      next_outgoing_seqnum send_transport_message
  process_admin-refusing fields e x p h c = ground (
    arith,
    h,
    c,
    p.logon fields (record e { admin_state = AdminState.authenticating }),
    p.logout no_fields (refusing e),
  )

  -- The initiator has no transition for a LOGOUT while it expects a LOGON.
  process_admin-lost :
      (fields : Fields) (e : Engine S)
      → e.admin_state ≡ AdminState.logon_expected
      → Start.process_admin env ops app
          (record { event = AdminEvent.logout_received; fix = fields })
          e
        ≡ (e, err invalid_state_transition)
  unfolding Start.process_admin process transition
  process_admin-lost fields e h = ground (arith, h)

module _ {S T : Type 0} (env : Environment) (ops : SessionOps S) (app : FixApplication S) (s : S)
    (env' : Environment) (ops' : SessionOps T) (app' : FixApplication T) (t : T) where
  abbrev pub refusal : TransportMessage
  refusal = fix_message (
      env'.create "LOGOUT" (ops'.get_outgoing_seqnum t + 1)
        (env'.clock (ready env' ops' app' t).readings) no_fields)

  abbrev kept : Bytes → Engine T
  kept buffer =
      saved env' ops' app' (Accept.process_admin env' ops' app') buffer (ready env' ops' app' t)

  abbrev pub IsRefused : Engine T × Result CallEnd → Type 0
  IsRefused (e, r) =
      (r ≡ ok waiting) × (e.admin_state ≡ AdminState.reject_logon) × (e.sent ≡ refusal ∷ [])

  abbrev pub IsLost : Engine S × Result CallEnd → Type 0
  IsLost (e, r) =
      (r ≡ err invalid_state_transition)
      × (e.admin_state ≡ AdminState.logon_expected)
      × (e.sent ≡ logon_message env ops app s ∷ [])

  abbrev goodbye : ℕ → TransportMessage
  goodbye n =
      fix_message (env'.create "LOGOUT" n (env'.clock (ready env' ops' app' t).readings) no_fields)

  refusing-sent : (buffer : Bytes) → (refusing env' ops' app' (kept buffer)).sent ≡ refusal ∷ []
  refusing-sent buffer =
      ap (λ (l : List TransportMessage). l ++ goodbye (outgoing ops' (kept buffer) + 1) ∷ [])
        (opened-up env' ops' app' t env'.logon_time_range).5
      ∙ ap (λ (n : ℕ). goodbye (n + 1) ∷ [])
          (ops'.outgoing-save_message buffer _
            ∙ ap ops'.get_outgoing_seqnum (opened-up env' ops' app' t env'.logon_time_range).4)

  -- An initiator and an acceptor, each over any session, are connected: the acceptor receives the
  -- initiator's LOGON, its application raises an exception, whichever, in `on_logon`, and the initiator
  -- receives the acceptor's answer. Where each one's parser reads the other's message, the applications
  -- do nothing else, the sessions save every message, and the acceptor's wait for its logon window, if it
  -- has one, is not cancelled, the acceptor has sent LOGOUT and nothing else, is in the state
  -- reject_logon and waits. The initiator raises an InvalidStateTransitionError at this LOGOUT, still
  -- expecting a LOGON, and has sent its own LOGON and nothing else.
  pub logon-IsRefused :
      (x : Exception)
      → Reads env env' "LOGON" (logon_fields env.heartbeat_timeout)
      → Reads env' env "LOGOUT" no_fields
      → IsPassive app
      → IsRefusing app' x
      → Saves ops
      → Saves ops'
      → env'.is_cancelled 0 ≡ false
      → IsRefused (
          Answer.call env' ops' app'
            (first_inputs (logon_message env ops app s))
            (Answer.new_engine t))
        × IsLost (Dial.call env ops app (first_inputs refusal) (Dial.new_engine env s))
  logon-IsRefused x there back p p' sv sv' c =
      let number = ops.get_outgoing_seqnum s + 1 in
      let number' = ops'.get_outgoing_seqnum t + 1 in
      let (m, d, r) = there number (env.clock 0) in
      let (m', d', r') = back number' (env'.clock (ready env' ops' app' t).readings) in
      let buffer = (logon_message env ops app s).buffer in
      let up = opened-up env' ops' app' t env'.logon_time_range in
      let before =
        saved env ops app (Start.process_admin env ops app) refusal.buffer
          (expecting env ops app s) in
      (
        subst IsRefused
            (sym (
              call-answered env' ops' app' t buffer number m (logon_fields env.heartbeat_timeout)
                (refusing env' ops' app' (kept buffer)) AdminState.reject_logon c sv'
                p'.admin_message d r
                (process_admin-refusing env' ops' app' m.message (kept buffer) x p' up.1 up.2)
                refl))
            (refl, refl, refusing-sent buffer),
        subst IsLost
            (sym (
              call-failed env ops app s refusal.buffer number' m' "LOGOUT" no_fields
                AdminEvent.logout_received before invalid_state_transition sv p.admin_message d' r'
                logout_type (process_admin-lost env ops app m'.message before refl)))
            (refl, refl, refl),
      )
