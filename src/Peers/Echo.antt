-- ===== src/Peers/Echo.antt =====
-- Test requests between an initiator and an acceptor of jetblack_fixengine: each one is answered by
-- another.
use jetblack_fixengine.Peers.{IsPassive, IsRead, Saves}
use jetblack_fixengine.Acceptor as Accept
use jetblack_fixengine.Initiator as Dial
use jetblack_fixengine.Initiator.{process_admin, send_test_request, text_field}
use jetblack_fixengine.Acceptor.{receive_test_request}
use jetblack_fixengine.Prelude.{
  List, Option, String, [], ap, arith, none, refl, some, true, ℕ, ◌++◌, ◌+◌, ◌∙◌, ◌∷◌, ◌≡◌,
}
use jetblack_fixengine.Exceptions.{M, Result, err, ok}
use jetblack_fixengine.Engine.{
  Engine, Environment, FixApplication, FixMessage, SessionOps, next_outgoing_seqnum, outgoing,
  send_message, send_transport_message,
}
use jetblack_fixengine.Admin.{AdminEvent, AdminMessage, AdminState, Fields, from_msg_type, lookup}
use jetblack_fixengine.Transport.{TransportMessage, TransportState}
use jetblack_fixengine.Machine.{process, transition}
use jetblack_fixengine.Engine.Sending.{fix_message, sent_from}
use jetblack_fixengine.Peers.Receiving.{arrived, process_transport-arrived, saved}
use jetblack_fixengine.TransportMachine.{process_transport}
use jetblack_fixengine.Bytes.{Bytes}

-- The message that an engine sent last.
abbrev pub newest : List TransportMessage → Option TransportMessage
newest [] = none
newest (m ∷ []) = some m
newest (m ∷ k ∷ ms) = newest (k ∷ ms)

pub newest-snoc :
    (ms : List TransportMessage) (m : TransportMessage) → newest (ms ++ m ∷ []) ≡ some m
newest-snoc [] m = refl
newest-snoc (k ∷ []) m = refl
newest-snoc (k ∷ l ∷ ms) m = newest-snoc (l ∷ ms) m

-- An engine in a session: authenticated, and connected.
pub record IsOnline {S : Type 0} (e : Engine S) : Type 0 where
  pub authenticated : e.admin_state ≡ AdminState.authenticated
  pub sending : e.is_connected ≡ true
  pub connected : e.transport_state ≡ TransportState.connected

-- A message that the environment reads as a test request with a token.
abbrev pub IsTestRequest : Environment → String → Bytes → Type 0
IsTestRequest env token buffer =
    (n : ℕ) × (m : FixMessage) × (env.decode buffer ≡ some m)
    × IsRead "TEST_REQUEST" n (text_field "TestReqID" token) m

test_request_type : from_msg_type "TEST_REQUEST" ≡ some AdminEvent.test_request_received
unfolding from_msg_type
test_request_type = refl

abbrev settled : {E : Type 0} → E × Result TransportState → Option E
settled (e, ok s) = some e
settled (e, err x) = none

-- An engine is given a message, if there is one.
abbrev pub give :
    {E : Type 0} → (TransportMessage → M E TransportState) → Option TransportMessage → E → Option E
give process none e = none
give process (some m) e = settled (process m e)

module _ {S : Type 0} (env : Environment) (ops : SessionOps S) (app : FixApplication S)
    (token : String) where
  -- An engine that has sent the token back.
  abbrev pub returned : Engine S → Engine S
  returned e = record (sent_from env ops "TEST_REQUEST" (text_field "TestReqID" token) e) {
    admin_state = AdminState.authenticated;
  }

  pub initiator-returned :
      (fields : Fields) (e : Engine S)
      → lookup "TestReqID" fields.texts ≡ some token
      → e.admin_state ≡ AdminState.authenticated
      → e.is_connected ≡ true
      → Dial.process_admin env ops app
          (record { event = AdminEvent.test_request_received; fix = fields })
          e
        ≡ (returned e, ok AdminState.authenticated)
  unfolding Dial.process_admin process transition Dial.send_test_request send_message
      next_outgoing_seqnum send_transport_message
  initiator-returned fields e l h c = ground arith

  pub acceptor-returned :
      (fields : Fields) (e : Engine S)
      → lookup "TestReqID" fields.texts ≡ some token
      → e.admin_state ≡ AdminState.authenticated
      → e.is_connected ≡ true
      → Accept.process_admin env ops app
          (record { event = AdminEvent.test_request_received; fix = fields })
          e
        ≡ (returned e, ok AdminState.authenticated)
  unfolding Accept.process_admin process transition receive_test_request send_message
      next_outgoing_seqnum send_transport_message
  acceptor-returned fields e l h c = ground arith

  -- What is left when a test request has arrived and was answered.
  abbrev pub echoed : Bytes → ℕ → (AdminMessage → M (Engine S) AdminState) → Engine S → Engine S
  echoed buffer n admin e =
      arrived env ops app admin n (returned (saved env ops app admin buffer e))

  pub echoed-lem :
      (admin : AdminMessage → M (Engine S) AdminState)
      → ((fields : Fields) (e : Engine S)
          → lookup "TestReqID" fields.texts ≡ some token
          → e.admin_state ≡ AdminState.authenticated
          → e.is_connected ≡ true
          → admin (record { event = AdminEvent.test_request_received; fix = fields }) e
            ≡ (returned e, ok AdminState.authenticated))
      → IsPassive app
      → Saves ops
      → (buffer : Bytes) (n : ℕ) (m : FixMessage) → env.decode buffer ≡ some m
      → IsRead "TEST_REQUEST" n (text_field "TestReqID" token) m
      → (e : Engine S) → IsOnline e
      → process_transport env ops app admin (fix_message buffer) e
        ≡ (echoed buffer n admin e, ok TransportState.connected)
  unfolding lookup
  echoed-lem admin returns p sv buffer n m d r e h =
      process_transport-arrived env ops app admin buffer m "TEST_REQUEST" n
        (text_field "TestReqID" token) AdminEvent.test_request_received e
        (returned (saved env ops app admin buffer e)) AdminState.authenticated h.connected
        (sv buffer e.session) d r test_request_type p.admin_message
        (returns m.message (saved env ops app admin buffer e) (r.texts "TestReqID" token refl)
          h.authenticated h.sending)
        refl

  pub echoed-outgoing :
      (buffer : Bytes) (n : ℕ) (admin : AdminMessage → M (Engine S) AdminState) (e : Engine S)
      → outgoing ops (echoed buffer n admin e) ≡ outgoing ops e + 1
  echoed-outgoing buffer n admin e =
      ops.outgoing-set_incoming n _
      ∙ ops.outgoing-set_outgoing _ _
      ∙ ap (λ (k : ℕ). k + 1) (ops.outgoing-save_message buffer e.session)
