-- ===== src/Peers/Handshake.antt =====
-- The logon of jetblack_fixengine's initiator at its acceptor.
use jetblack_fixengine.Peers.{IsPassive, Reads, Saves}
use jetblack_fixengine.Peers.Dialling.{call-logged_on, logged_on, logon_message}
use jetblack_fixengine.Peers.Answering.{call-welcomed, opened-up, ready, welcomed}
use jetblack_fixengine.Initiator.Call as Dial
use jetblack_fixengine.Acceptor.Call as Accept
use jetblack_fixengine.Acceptor
use mathlib.Core.Path.{subst}
use jetblack_fixengine.Prelude.{List, [], ap, false, refl, some, sym, ℕ, ◌++◌, ◌+◌, ◌∙◌, ◌∷◌, ◌≡◌}
use jetblack_fixengine.Exceptions.{Result, ok}
use jetblack_fixengine.Admin.{AdminState}
use jetblack_fixengine.Transport.{TransportEvent, TransportMessage, notice}
use jetblack_fixengine.Engine.{
  CallEnd, Engine, Environment, FixApplication, Input, SessionOps, incoming, outgoing, waiting,
}
use jetblack_fixengine.Engine.Sending.{fix_message}
use jetblack_fixengine.Peers.Receiving.{saved}
use jetblack_fixengine.Bytes.{Bytes}
use jetblack_fixengine.Initiator.{logon_fields}

module _ {S T : Type 0} (env : Environment) (ops : SessionOps S) (app : FixApplication S) (s : S)
    (env' : Environment) (ops' : SessionOps T) (app' : FixApplication T) (t : T) where
  -- The acceptor's LOGON, which answers the initiator's.
  abbrev pub answer_message : TransportMessage
  answer_message = fix_message (
      env'.create "LOGON" (ops'.get_outgoing_seqnum t + 1)
        (env'.clock (ready env' ops' app' t).readings) (logon_fields env'.heartbeat_timeout))

  abbrev pub initiator_inputs : List Input
  initiator_inputs = some (notice TransportEvent.connection_received) ∷ some answer_message ∷ []

  abbrev pub acceptor_inputs : List Input
  acceptor_inputs =
      some (notice TransportEvent.connection_received) ∷ some (logon_message env ops app s) ∷ []

  -- Both wait for the next message, are authenticated, have sent their LOGON and nothing else, and each one's incoming
  -- number is the other's outgoing number.
  abbrev pub Agree : Engine S × Result CallEnd → Engine T × Result CallEnd → Type 0
  Agree (e, r) (e', r') =
      ((r ≡ ok waiting) × (r' ≡ ok waiting))
      × ((e.admin_state ≡ AdminState.authenticated) × (e'.admin_state ≡ AdminState.authenticated))
      × ((e.sent ≡ logon_message env ops app s ∷ []) × (e'.sent ≡ answer_message ∷ []))
      × ((incoming ops e ≡ outgoing ops' e') × (incoming ops' e' ≡ outgoing ops e))

  abbrev number : ℕ
  number = ops.get_outgoing_seqnum s + 1

  abbrev number' : ℕ
  number' = ops'.get_outgoing_seqnum t + 1

  logged_on-outgoing :
      (buffer : Bytes) (n : ℕ) → outgoing ops (logged_on env ops app s buffer n) ≡ number
  logged_on-outgoing buffer n =
      ops.outgoing-set_incoming n _
      ∙ ops.outgoing-save_message buffer _
      ∙ ops.outgoing-set_outgoing number s

  saved-number :
      (buffer : Bytes)
      → outgoing ops' (
            saved env' ops' app'
              (Acceptor.process_admin env' ops' app')
              buffer
              (ready env' ops' app' t))
          + 1
        ≡ number'
  saved-number buffer =
      ap (λ (n : ℕ). n + 1)
        (ops'.outgoing-save_message buffer _
          ∙ ap ops'.get_outgoing_seqnum (opened-up env' ops' app' t env'.logon_time_range).4)

  welcomed-outgoing :
      (buffer : Bytes) (n : ℕ) → outgoing ops' (welcomed env' ops' app' t buffer n) ≡ number'
  welcomed-outgoing buffer n =
      ops'.outgoing-set_incoming n _ ∙ ops'.outgoing-set_outgoing _ _ ∙ saved-number buffer

  abbrev answering : Bytes → TransportMessage
  answering buffer = fix_message (
      env'.create "LOGON"
        (outgoing ops' (
            saved env' ops' app' (Acceptor.process_admin env' ops' app') buffer
              (ready env' ops' app' t))
          + 1)
        (env'.clock (ready env' ops' app' t).readings) (logon_fields env'.heartbeat_timeout))

  welcomed-sent :
      (buffer : Bytes) (n : ℕ) → (welcomed env' ops' app' t buffer n).sent ≡ answer_message ∷ []
  welcomed-sent buffer n =
      ap (λ (l : List TransportMessage). l ++ answering buffer ∷ [])
        (opened-up env' ops' app' t env'.logon_time_range).5
      ∙ ap
          (λ (k : ℕ).
            fix_message (
              env'.create "LOGON" k (env'.clock (ready env' ops' app' t).readings)
                (logon_fields env'.heartbeat_timeout))
            ∷ [])
          (saved-number buffer)

  agree :
      (buffer buffer' : Bytes)
      → Agree
          (logged_on env ops app s buffer' number', ok waiting)
          (welcomed env' ops' app' t buffer number, ok waiting)
  agree buffer buffer' = (
    (refl, refl),
    (refl, refl),
    (refl, welcomed-sent buffer number),
    (
      ops.incoming-set_incoming number' _ ∙ sym (welcomed-outgoing buffer number),
      ops'.incoming-set_incoming number _ ∙ sym (logged_on-outgoing buffer' number'),
    ),
  )

  -- An initiator and an acceptor, each over any session, are connected: the initiator receives the
  -- acceptor's LOGON and the acceptor the initiator's. Where each one's parser reads the other's LOGON,
  -- the applications only look on, the sessions save every message, and the acceptor's wait for its
  -- logon window, if it has one, is not cancelled, both are authenticated and wait for the next message,
  -- each has sent its LOGON, with the next number of its session, and nothing else, and each one's
  -- incoming number is the other's outgoing number.
  pub handshake :
      Reads env env' "LOGON" (logon_fields env.heartbeat_timeout)
      → Reads env' env "LOGON" (logon_fields env'.heartbeat_timeout)
      → IsPassive app
      → IsPassive app'
      → Saves ops
      → Saves ops'
      → env'.is_cancelled 0 ≡ false
      → Agree
          (Dial.call env ops app initiator_inputs (Dial.new_engine env s))
          (Accept.call env' ops' app' acceptor_inputs (Accept.new_engine t))
  handshake there back p p' sv sv' c =
      let (m, d, r) = there number (env.clock 0) in
      let (m', d', r') = back number' (env'.clock (ready env' ops' app' t).readings) in
      let called = call-logged_on env ops app s answer_message.buffer number' m' _ sv p d' r' in
      let called' =
        call-welcomed env' ops' app' t (logon_message env ops app s).buffer number m _ c sv' p' d
          r in
      subst
        (λ (x : Engine T × Result CallEnd).
          Agree (Dial.call env ops app initiator_inputs (Dial.new_engine env s)) x)
        (sym called')
        (subst
          (λ (x : Engine S × Result CallEnd).
            Agree x
              (welcomed env' ops' app' t (logon_message env ops app s).buffer number, ok waiting))
          (sym called) (agree (logon_message env ops app s).buffer answer_message.buffer))
