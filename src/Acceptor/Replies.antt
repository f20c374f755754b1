-- ===== src/Acceptor/Replies.antt =====
-- What an acceptor answers to the admin messages that it receives, and where it gets stuck.
use jetblack_fixengine.Acceptor.{
  acceptor_machine, handle_sequence_reset, judge, process_admin, receive_test_request, send_logon,
  send_logout_handler, send_sequence_reset_handler, send_test_heartbeat_handler, validate_logon,
}
use jetblack_fixengine.Initiator.{logon_fields, reset_fields, text_field}
use jetblack_fixengine.Prelude.{
  String, [], arith, some, true, ℕ, ◌++◌, ◌+◌, ◌<◌, ◌∷◌, ◌≡◌, ◌≢◌, ◌≤◌,
}
use jetblack_fixengine.Exceptions.{Exception, Result, continue, err, invalid_state_transition, ok}
use jetblack_fixengine.Machine.{process, transition}
use jetblack_fixengine.Engine.Sending.{fix_message, sent_from}
use jetblack_fixengine.Admin.{
  AdminEvent, Fields, authenticated, authenticating, from_msg_type, logon_expected, logon_received,
  lookup, no_fields, reject_logon, resend_request_received, signal, test_heartbeat_required,
  test_request_received, validate_test_heartbeat,
}
use jetblack_fixengine.Acceptor.Call.{send_logout_if_login_expired}
use jetblack_fixengine.Engine.{
  Engine, Environment, FixApplication, SessionOps, incoming, next_outgoing_seqnum, outgoing,
  send_message, send_transport_message,
}

module _ {S : Type 0} (env : Environment) (ops : SessionOps S) (app : FixApplication S)
    (fields : Fields) (e : Engine S) where
  -- An authenticated and connected acceptor that receives a resend request sends exactly one message,
  -- a SEQUENCE_RESET, whose NewSeqNo is the number that the message after it will have, and is
  -- authenticated again.
  pub resend_request_reset :
      e.admin_state ≡ authenticated
      → e.is_connected ≡ true
      → let (e', r) =
          process_admin env ops app (record { event = resend_request_received; fix = fields }) e in
        (r ≡ ok authenticated)
        × (e'.admin_state ≡ authenticated)
        × (outgoing ops e' ≡ outgoing ops e + 1)
        × (e'.sent
            ≡ e.sent
              ++ fix_message (
                  env.create "SEQUENCE_RESET"
                    (outgoing ops e')
                    (env.clock e.readings)
                    (reset_fields (outgoing ops e' + 1)))
                ∷ [])
  unfolding process_admin process transition send_sequence_reset_handler send_message
      next_outgoing_seqnum send_transport_message
  resend_request_reset h c =
      ground (arith, ops.outgoing-set_outgoing (outgoing ops e + 1) e.session)

  -- An authenticated and connected acceptor that receives a test request with a TestReqID sends exactly
  -- one message, a TEST_REQUEST with the same TestReqID, and is authenticated again.
  pub test_request_echo :
      (token : String)
      → lookup "TestReqID" fields.texts ≡ some token
      → e.admin_state ≡ authenticated
      → e.is_connected ≡ true
      → let (e', r) =
          process_admin env ops app (record { event = test_request_received; fix = fields }) e in
        (r ≡ ok authenticated)
        × (e'.admin_state ≡ authenticated)
        × (e'.sent
            ≡ e.sent
              ++ fix_message (
                  env.create "TEST_REQUEST"
                    (outgoing ops e + 1)
                    (env.clock e.readings)
                    (text_field "TestReqID" token))
                ∷ [])
  unfolding process_admin process transition receive_test_request send_message next_outgoing_seqnum
      send_transport_message
  test_request_echo token l h c = ground arith

  -- An authenticated acceptor that receives a sequence reset with a NewSeqNo takes that number as its
  -- incoming number, sends nothing, and is authenticated again.
  pub sequence_reset_accepted :
      (new_seq_no : ℕ)
      → lookup "NewSeqNo" fields.ints ≡ some new_seq_no
      → e.admin_state ≡ authenticated
      → let (e', r) =
          process_admin env ops app
            (record { event = AdminEvent.sequence_reset_received; fix = fields })
            e in
        (r ≡ ok authenticated)
        × (e'.admin_state ≡ authenticated)
        × (incoming ops e' ≡ new_seq_no)
        × (e'.sent ≡ e.sent)
  unfolding process_admin process transition handle_sequence_reset
  sequence_reset_accepted n l h = ground (arith, ops.incoming-set_incoming n e.session)

  -- What the acceptor does with the application's verdict `r`.
  verdict_branches :
      (r : Engine S × Result (Unit {0}))
      → r.0.admin_state ≡ authenticating
      → r.0.is_connected ≡ true
      → let result = continue (judge env ops app r) (process (acceptor_machine env ops app) 1) in
        let e1 = r.0 in
        (r.1 ≡ ok tt
          → (result.1 ≡ ok authenticated)
            × (result.0.admin_state ≡ authenticated)
            × (result.0.sent
                ≡ e1.sent
                  ++ fix_message (
                      env.create "LOGON"
                        (outgoing ops e1 + 1)
                        (env.clock e1.readings)
                        (logon_fields env.heartbeat_timeout))
                    ∷ []))
        × ((x : Exception) (e2 : Engine S)
            → r.1 ≡ err x
            → app.on_logout no_fields
                (record (sent_from env ops "LOGOUT" no_fields e1) { admin_state = reject_logon })
              ≡ (e2, ok tt)
            → result ≡ (e2, ok e2.admin_state))
  unfolding process transition send_logon send_logout_handler send_message next_outgoing_seqnum
      send_transport_message
  verdict_branches (w, ok tt) h c = (λ p. ground arith, λ x e2 p q. absurd (ground arith))
  verdict_branches (w, err x) h c = (λ p. absurd (ground arith), λ y e2 p q. ground (arith, q))

  logon_step :
      e.admin_state ≡ logon_expected
      → process_admin env ops app (record { event = logon_received; fix = fields }) e
        ≡ continue
            (judge env ops app (app.on_logon fields (record e { admin_state = authenticating })))
            (process (acceptor_machine env ops app) 1)
  unfolding process_admin process transition validate_logon
  logon_step h = ground arith

  -- A LOGON that an acceptor receives when it expects one, and that leaves it connected and
  -- authenticating after `on_logon`. Where `on_logon` returns, the acceptor answers LOGON and is
  -- authenticated. Where `on_logon` raises, whatever it raises, the acceptor answers LOGOUT, and calls
  -- `on_logout` in the state reject_logon; where that returns, so does the acceptor, in the state that
  -- it left.
  pub logon_verdict :
      let r = app.on_logon fields (record e { admin_state = authenticating }) in
      let e1 = r.0 in
      e.admin_state ≡ logon_expected
      → e1.admin_state ≡ authenticating
      → e1.is_connected ≡ true
      → let result =
          process_admin env ops app (record { event = logon_received; fix = fields }) e in
        (r.1 ≡ ok tt
          → (result.1 ≡ ok authenticated)
            × (result.0.admin_state ≡ authenticated)
            × (result.0.sent
                ≡ e1.sent
                  ++ fix_message (
                      env.create "LOGON"
                        (outgoing ops e1 + 1)
                        (env.clock e1.readings)
                        (logon_fields env.heartbeat_timeout))
                    ∷ []))
        × ((x : Exception) (e2 : Engine S)
            → r.1 ≡ err x
            → app.on_logout no_fields
                (record (sent_from env ops "LOGOUT" no_fields e1) { admin_state = reject_logon })
              ≡ (e2, ok tt)
            → result ≡ (e2, ok e2.admin_state))
  logon_verdict h a c =
      rw (logon_step h)
        (verdict_branches (app.on_logon fields (record e { admin_state = authenticating })) a c)

  -- An authenticated and connected acceptor that requires a test heartbeat sends exactly one message, a
  -- TEST_REQUEST with a new UUID as its TestReqID, keeps that UUID, and is in the state
  -- validate_test_heartbeat.
  pub test_heartbeat_demand :
      e.admin_state ≡ authenticated
      → e.is_connected ≡ true
      → let (e', r) = process_admin env ops app (signal test_heartbeat_required) e in
        let token = env.uuid4 e.uuids in
        (r ≡ ok validate_test_heartbeat)
        × (e'.admin_state ≡ validate_test_heartbeat)
        × (e'.test_heartbeat_message ≡ some token)
        × (e'.uuids ≡ e.uuids + 1)
        × (e'.sent
            ≡ e.sent
              ++ fix_message (
                  env.create "TEST_REQUEST"
                    (outgoing ops e + 1)
                    (env.clock e.readings)
                    (text_field "TestReqID" token))
                ∷ [])
  unfolding process_admin process transition send_test_heartbeat_handler send_message
      next_outgoing_seqnum send_transport_message
  test_heartbeat_demand h c = ground arith

  -- In the state validate_test_heartbeat, which follows a test heartbeat, every admin message that an
  -- acceptor can receive raises an InvalidStateTransitionError and changes nothing.
  pub stuck_acceptor :
      (msg_type : String) (event : AdminEvent)
      → from_msg_type msg_type ≡ some event
      → e.admin_state ≡ validate_test_heartbeat
      → process_admin env ops app (record { event = event; fix = fields }) e
        ≡ (e, err invalid_state_transition)
  unfolding process_admin process transition from_msg_type
  stuck_acceptor msg_type event h k = ground arith

  -- An acceptor with a logout time, before a round of its loop: it never sends anything and keeps its
  -- admin state. Where it is authenticated and the local time has reached the logout time, it raises an
  -- InvalidStateTransitionError; where it is not authenticated, or the time is not reached, it goes on.
  pub logout_expiry :
      (logout_time : ℕ)
      → e.logout_time ≡ some logout_time
      → let (e', r) = send_logout_if_login_expired env ops app e in
        (e'.sent ≡ e.sent)
        × (e'.admin_state ≡ e.admin_state)
        × (e.admin_state ≡ authenticated
            → logout_time ≤ env.to_local (env.clock e.readings)
            → r ≡ err invalid_state_transition)
        × (e.admin_state ≢ authenticated → r ≡ ok tt)
        × (env.to_local (env.clock e.readings) < logout_time → r ≡ ok tt)
  unfolding send_logout_if_login_expired process_admin process transition
  logout_expiry logout_time h = ground arith
