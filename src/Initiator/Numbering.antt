-- ===== src/Initiator/Numbering.antt =====
-- The initiator numbers what it sends without a gap, whatever it receives.
use jetblack_fixengine.Prelude.{Option, String, if◌then◌else◌, none, some, ℕ, ◌+◌}
use jetblack_fixengine.Exceptions.{M, assertion_error, gets}
use jetblack_fixengine.Exceptions.Keeps.{
  Keeps, Keeps-bind, Keeps-gets, Keeps-pure, Keeps-raise, Keeps-then,
}
use jetblack_fixengine.Machine.Keeps.{KeepsEntry, process-Keeps}
use jetblack_fixengine.Admin.{
  AdminEvent, AdminMessage, AdminState, Fields, authenticated, connected, disconnected,
  heartbeat_received, logon_expected, logon_received, logout_received, lookup,
  resend_request_received, send_test_heartbeat, sequence_reset_sent, signal, test_heartbeat_invalid,
  test_heartbeat_required, test_heartbeat_sent, test_heartbeat_valid, test_request_received,
  test_request_sent,
}
use jetblack_fixengine.Transport.{TransportMessage}
use jetblack_fixengine.Engine.{
  Engine, Environment, FixApplication, SessionOps, outgoing, send_message,
}
use jetblack_fixengine.Engine.Numbering.{
  AppInStep, InStep, new_uuid-InStep, send_message-InStep, set_incoming-InStep, set_token-InStep,
}
use jetblack_fixengine.TransportMachine.Numbering.{process_transport-InStep}
use jetblack_fixengine.Initiator.{
  acknowledge_heartbeat_handler, acknowledge_logout_handler, compare_token, initiator_handlers,
  initiator_machine, is_same, logon_fields, logon_received_handler, process_admin, process_message,
  reset_fields, reset_incoming_seqnum, reset_to, return_token, send_logon,
  send_sequence_reset_handler, send_test_heartbeat_handler, send_test_request, text_field,
  validate_test_heartbeat_handler,
}

module _ {S : Type 0} (env : Environment) (ops : SessionOps S) (app : FixApplication S) (start : ℕ)
    (k : AppInStep env ops start app) where
  abbrev Numbered : Engine S → Type 0
  Numbered = InStep env ops start

  abbrev AllKeep : (AdminMessage → M (Engine S) (Option AdminMessage)) → Type 0
  AllKeep h = (x : AdminMessage) → Keeps Numbered (h x)

  send : (t : String) (fields : Fields) → Keeps Numbered (send_message env ops t fields)
  send = send_message-InStep env ops start

  send_test_heartbeat-keeps : AllKeep (send_test_heartbeat_handler env ops app)
  unfolding send_test_heartbeat_handler
  send_test_heartbeat-keeps x = Keeps-bind _ _ (new_uuid-InStep env ops start) (λ t.
      Keeps-then _ _ (set_token-InStep env ops start t) (
        Keeps-then _ _ (send "TEST_REQUEST" (text_field "TestReqID" t))
          (Keeps-pure (some (signal test_heartbeat_sent)))))

  compare_token-keeps : (o : Option String) → Keeps Numbered (compare_token env ops app o)
  compare_token-keeps none = Keeps-raise assertion_error
  compare_token-keeps (some t) =
      Keeps-bind (gets (λ (e : Engine S). e.test_heartbeat_message)) _ (Keeps-gets _) (λ o.
        Keeps-pure
          (some (signal (if is_same t o then test_heartbeat_valid else test_heartbeat_invalid))))

  validate_test_heartbeat-keeps : AllKeep (validate_test_heartbeat_handler env ops app)
  unfolding validate_test_heartbeat_handler
  validate_test_heartbeat-keeps x = compare_token-keeps (lookup "TestReqID" x.fix.texts)

  return_token-keeps : (o : Option String) → Keeps Numbered (return_token env ops app o)
  return_token-keeps none = Keeps-raise assertion_error
  return_token-keeps (some t) =
      Keeps-then _ _ (send "TEST_REQUEST" (text_field "TestReqID" t)) (Keeps-pure _)

  reset_to-keeps : (o : Option ℕ) → Keeps Numbered (reset_to env ops app o)
  reset_to-keeps none = Keeps-raise assertion_error
  reset_to-keeps (some n) = Keeps-then _ _ (set_incoming-InStep env ops start n) (Keeps-pure _)

  handlers-keep :
      (s : AdminState) (e : AdminEvent) → KeepsEntry Numbered (initiator_handlers env ops app s e)
  handlers-keep disconnected connected = λ x.
      unfold send_logon in
      Keeps-then _ _ (send "LOGON" (logon_fields env.heartbeat_timeout)) (Keeps-pure _)
  handlers-keep logon_expected logon_received =
      λ x. unfold logon_received_handler in Keeps-then _ _ (k.logon x.fix) (Keeps-pure _)
  handlers-keep authenticated heartbeat_received =
      λ x. unfold acknowledge_heartbeat_handler in Keeps-then _ _ (k.heartbeat x.fix) (Keeps-pure _)
  handlers-keep authenticated test_request_received =
      λ x. unfold send_test_request in return_token-keeps (lookup "TestReqID" x.fix.texts)
  handlers-keep authenticated resend_request_received = λ x.
      unfold send_sequence_reset_handler in
      Keeps-bind (gets (outgoing ops)) _ (Keeps-gets _) (λ n.
        Keeps-then _ _ (send "SEQUENCE_RESET" (reset_fields (n + 2)))
          (Keeps-pure (some (signal sequence_reset_sent))))
  handlers-keep authenticated AdminEvent.sequence_reset_received =
      λ x. unfold reset_incoming_seqnum in reset_to-keeps (lookup "NewSeqNo" x.fix.ints)
  handlers-keep authenticated logout_received =
      λ x. unfold acknowledge_logout_handler in Keeps-then _ _ (k.logout x.fix) (Keeps-pure _)
  handlers-keep authenticated test_heartbeat_required = send_test_heartbeat-keeps
  handlers-keep send_test_heartbeat test_request_sent = validate_test_heartbeat-keeps
  handlers-keep _ _ = tt

  set_state-keeps :
      (s : AdminState) (e : Engine S) → Numbered e → Numbered (record e { admin_state = s })
  set_state-keeps s e h = record { is_up = h.is_up; counted = h.counted; numbered = h.numbered }

  pub process_admin-InStep : (x : AdminMessage) → Keeps Numbered (process_admin env ops app x)
  unfolding process_admin
  process_admin-InStep x =
      process-Keeps (initiator_machine env ops app) Numbered set_state-keeps handlers-keep 2
        (some x)

  pub process_message-InStep :
      (x : TransportMessage) → Keeps Numbered (process_message env ops app x)
  unfolding process_message
  process_message-InStep =
      process_transport-InStep env ops app (process_admin env ops app) start k process_admin-InStep
