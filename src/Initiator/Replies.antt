-- ===== src/Initiator/Replies.antt =====
-- What an initiator answers to the admin messages that it receives, and where it gets stuck.
use jetblack_fixengine.Prelude.{Bool, String, [], arith, false, some, true, ℕ, ◌++◌, ◌+◌, ◌∷◌, ◌≡◌}
use jetblack_fixengine.Exceptions.{err, invalid_state_transition, ok}
use jetblack_fixengine.Machine.{process, transition}
use jetblack_fixengine.Engine.Sending.{fix_message}
use jetblack_fixengine.Initiator.{
  process_admin, reset_fields, reset_incoming_seqnum, send_sequence_reset_handler,
  send_test_heartbeat_handler, send_test_request, text_field,
}
use jetblack_fixengine.Admin.{
  AdminEvent, AdminState, Fields, authenticated, from_msg_type, lookup, resend_request_received,
  set_incoming_seqnum, signal, test_heartbeat_required, test_request_received,
  validate_test_heartbeat,
}
use jetblack_fixengine.Engine.{
  Engine, Environment, FixApplication, SessionOps, incoming, next_outgoing_seqnum, outgoing,
  send_message, send_transport_message,
}

-- The states that the initiator enters when it is told of a new number, and when it has sent a test
-- heartbeat.
abbrev is_stuck : AdminState → Bool
is_stuck set_incoming_seqnum = true
is_stuck validate_test_heartbeat = true
is_stuck _ = false

module _ {S : Type 0} (env : Environment) (ops : SessionOps S) (app : FixApplication S)
    (fields : Fields) (e : Engine S) where
  -- An authenticated and connected initiator that receives a resend request sends exactly one message,
  -- a SEQUENCE_RESET, whose NewSeqNo is the number that the message after it will have, and is
  -- authenticated again.
  pub resend_request_reply :
      e.admin_state ≡ authenticated
      → e.is_connected ≡ true
      → let (e', r) =
          process_admin env ops app (record { event = resend_request_received; fix = fields }) e in
        (r ≡ ok authenticated)
        × (e'.admin_state ≡ authenticated)
        × (outgoing ops e' ≡ outgoing ops e + 1)
        × (e'.sent
            ≡ e.sent
              ++ fix_message (
                  env.create "SEQUENCE_RESET"
                    (outgoing ops e')
                    (env.clock e.readings)
                    (reset_fields (outgoing ops e' + 1)))
                ∷ [])
  unfolding process_admin process transition send_sequence_reset_handler send_message
      next_outgoing_seqnum send_transport_message
  resend_request_reply h c =
      ground (arith, ops.outgoing-set_outgoing (outgoing ops e + 1) e.session)

  -- An authenticated and connected initiator that receives a test request with a TestReqID sends exactly
  -- one message, a TEST_REQUEST with the same TestReqID, and is authenticated again.
  pub test_request_reply :
      (token : String)
      → lookup "TestReqID" fields.texts ≡ some token
      → e.admin_state ≡ authenticated
      → e.is_connected ≡ true
      → let (e', r) =
          process_admin env ops app (record { event = test_request_received; fix = fields }) e in
        (r ≡ ok authenticated)
        × (e'.admin_state ≡ authenticated)
        × (e'.sent
            ≡ e.sent
              ++ fix_message (
                  env.create "TEST_REQUEST"
                    (outgoing ops e + 1)
                    (env.clock e.readings)
                    (text_field "TestReqID" token))
                ∷ [])
  unfolding process_admin process transition send_test_request send_message next_outgoing_seqnum
      send_transport_message
  test_request_reply token l h c = ground arith

  -- An authenticated initiator that receives a sequence reset with a NewSeqNo takes that number as its
  -- incoming number, sends nothing, and raises an InvalidStateTransitionError in the state
  -- set_incoming_seqnum: it is not authenticated again.
  pub sequence_reset_reply :
      (new_seq_no : ℕ)
      → lookup "NewSeqNo" fields.ints ≡ some new_seq_no
      → e.admin_state ≡ authenticated
      → let (e', r) =
          process_admin env ops app
            (record { event = AdminEvent.sequence_reset_received; fix = fields })
            e in
        (r ≡ err invalid_state_transition)
        × (e'.admin_state ≡ set_incoming_seqnum)
        × (incoming ops e' ≡ new_seq_no)
        × (e'.sent ≡ e.sent)
  unfolding process_admin process transition reset_incoming_seqnum
  sequence_reset_reply n l h = ground (arith, ops.incoming-set_incoming n e.session)

  -- An authenticated and connected initiator that requires a test heartbeat sends exactly one message, a
  -- TEST_REQUEST with a new UUID as its TestReqID, keeps that UUID, and is in the state
  -- validate_test_heartbeat.
  pub test_heartbeat_request :
      e.admin_state ≡ authenticated
      → e.is_connected ≡ true
      → let (e', r) = process_admin env ops app (signal test_heartbeat_required) e in
        let token = env.uuid4 e.uuids in
        (r ≡ ok validate_test_heartbeat)
        × (e'.admin_state ≡ validate_test_heartbeat)
        × (e'.test_heartbeat_message ≡ some token)
        × (e'.uuids ≡ e.uuids + 1)
        × (e'.sent
            ≡ e.sent
              ++ fix_message (
                  env.create "TEST_REQUEST"
                    (outgoing ops e + 1)
                    (env.clock e.readings)
                    (text_field "TestReqID" token))
                ∷ [])
  unfolding process_admin process transition send_test_heartbeat_handler send_message
      next_outgoing_seqnum send_transport_message
  test_heartbeat_request h c = ground arith

  -- In the state set_incoming_seqnum, and in the state validate_test_heartbeat that follows a test
  -- heartbeat, every admin message that an initiator can receive raises an InvalidStateTransitionError
  -- and changes nothing.
  pub stuck_initiator :
      (msg_type : String) (event : AdminEvent)
      → from_msg_type msg_type ≡ some event
      → is_stuck e.admin_state ≡ true
      → process_admin env ops app (record { event = event; fix = fields }) e
        ≡ (e, err invalid_state_transition)
  unfolding process_admin process transition from_msg_type
  stuck_initiator msg_type event h k = ground arith
