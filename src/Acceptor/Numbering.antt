-- ===== src/Acceptor/Numbering.antt =====
-- The acceptor numbers what it sends without a gap, whatever it receives.
use jetblack_fixengine.Prelude.{Option, String, if◌then◌else◌, none, refl, some, ℕ, ◌+◌}
use jetblack_fixengine.Exceptions.{
  Exception, M, Result, after, assertion_error, cancelled_error, err, gets, ok,
}
use jetblack_fixengine.Exceptions.Keeps.{
  Keeps, Keeps-bind, Keeps-gets, Keeps-pure, Keeps-raise, Keeps-then,
}
use jetblack_fixengine.Machine.Keeps.{KeepsEntry, process-Keeps}
use jetblack_fixengine.Admin.{
  AdminEvent, AdminMessage, AdminState, Fields, authenticated, authenticating, connected,
  disconnected, heartbeat_received, logon_accepted, logon_expected, logon_received, logon_rejected,
  logout_received, lookup, no_fields, reject_logon, resend_request_received, send_logout,
  send_test_heartbeat, sequence_reset_sent, signal, test_heartbeat_invalid, test_heartbeat_required,
  test_heartbeat_sent, test_heartbeat_valid, test_request_received, test_request_sent,
}
use jetblack_fixengine.Transport.{TransportMessage}
use jetblack_fixengine.Engine.{
  Engine, Environment, FixApplication, SessionOps, outgoing, send_message,
}
use jetblack_fixengine.Engine.Numbering.{
  AppInStep, InStep, local_now-InStep, modify-InStep, new_uuid-InStep, send_message-InStep,
  set_incoming-InStep, set_token-InStep,
}
use jetblack_fixengine.TransportMachine.Numbering.{process_transport-InStep}
use jetblack_fixengine.DateUtils.{Waited, cancelled, until, wait_for_time_period}
use jetblack_fixengine.Acceptor.{
  acceptor_handlers, acceptor_machine, await_logon_time, await_logon_window, compare_token,
  handle_sequence_reset, judge, process_admin, process_message, receive_heartbeat, receive_logout,
  receive_test_request, reset_to, return_token, send_logon, send_logout_handler,
  send_sequence_reset_handler, send_test_heartbeat_handler, set_logout_time, validate_logon,
  validate_test_heartbeat_handler, wait_for_window,
}
use jetblack_fixengine.Initiator.{is_same, logon_fields, reset_fields, text_field}

module _ {S : Type 0} (env : Environment) (ops : SessionOps S) (app : FixApplication S) (start : ℕ)
    (k : AppInStep env ops start app) where
  abbrev Numbered : Engine S → Type 0
  Numbered = InStep env ops start

  abbrev AllKeep : (AdminMessage → M (Engine S) (Option AdminMessage)) → Type 0
  AllKeep h = (x : AdminMessage) → Keeps Numbered (h x)

  send : (t : String) (fields : Fields) → Keeps Numbered (send_message env ops t fields)
  send = send_message-InStep env ops start

  send_test_heartbeat-keeps : AllKeep (send_test_heartbeat_handler env ops app)
  unfolding send_test_heartbeat_handler
  send_test_heartbeat-keeps x = Keeps-bind _ _ (new_uuid-InStep env ops start) (λ t.
      Keeps-then _ _ (set_token-InStep env ops start t) (
        Keeps-then _ _ (send "TEST_REQUEST" (text_field "TestReqID" t))
          (Keeps-pure (some (signal test_heartbeat_sent)))))

  compare_token-keeps : (o : Option String) → Keeps Numbered (compare_token env ops app o)
  compare_token-keeps none = Keeps-raise assertion_error
  compare_token-keeps (some t) =
      Keeps-bind (gets (λ (e : Engine S). e.test_heartbeat_message)) _ (Keeps-gets _) (λ o.
        Keeps-pure
          (some (signal (if is_same t o then test_heartbeat_valid else test_heartbeat_invalid))))

  validate_test_heartbeat-keeps : AllKeep (validate_test_heartbeat_handler env ops app)
  unfolding validate_test_heartbeat_handler
  validate_test_heartbeat-keeps x = compare_token-keeps (lookup "TestReqID" x.fix.texts)

  return_token-keeps : (o : Option String) → Keeps Numbered (return_token env ops app o)
  return_token-keeps none = Keeps-raise assertion_error
  return_token-keeps (some t) =
      Keeps-then _ _ (send "TEST_REQUEST" (text_field "TestReqID" t)) (Keeps-pure _)

  reset_to-keeps : (o : Option ℕ) → Keeps Numbered (reset_to env ops app o)
  reset_to-keeps none = Keeps-raise assertion_error
  reset_to-keeps (some n) = Keeps-then _ _ (set_incoming-InStep env ops start n) (Keeps-pure _)

  set_logout_time-keeps : (r : Waited) → Keeps Numbered (set_logout_time env ops app r)
  set_logout_time-keeps (until end_datetime) =
      Keeps-then _ _ (modify-InStep env ops start _ (λ e. (refl, refl, refl))) (Keeps-pure none)
  set_logout_time-keeps cancelled = Keeps-raise cancelled_error
  set_logout_time-keeps Waited.out_of_fuel = Keeps-raise Exception.out_of_fuel

  wait_for_window-keeps :
      (start_time end_time time : ℕ)
      → Keeps Numbered (wait_for_window env ops app start_time end_time time)
  wait_for_window-keeps start_time end_time time = record {
    at = λ e h.
        (set_logout_time-keeps
            (wait_for_time_period (env.is_cancelled e.waits) time start_time end_time)).at
          (record e { waits = e.waits + 1 })
          (record { is_up = h.is_up; counted = h.counted; numbered = h.numbered });
  }

  await_logon_time-keeps : (o : Option (ℕ × ℕ)) → Keeps Numbered (await_logon_time env ops app o)
  await_logon_time-keeps none = Keeps-pure none
  await_logon_time-keeps (some (a, b)) =
      Keeps-bind _ _ (local_now-InStep env ops start) (wait_for_window-keeps a b)

  judge-keeps :
      (r : Engine S × Result (Unit {0}))
      → Numbered (after r)
      → Numbered (after (judge env ops app r))
  judge-keeps (e, ok tt) h = h
  judge-keeps (e, err x) h = h

  validate_logon-keeps : AllKeep (validate_logon env ops app)
  unfolding validate_logon
  validate_logon-keeps x = record {
    at = λ e h. judge-keeps (app.on_logon x.fix e) ((k.logon x.fix).at e h);
  }

  send_logout-keeps : AllKeep (send_logout_handler env ops app)
  unfolding send_logout_handler
  send_logout-keeps x =
      Keeps-then _ _ (Keeps-then _ _ (send "LOGOUT" no_fields) (k.logout x.fix)) (Keeps-pure none)

  handlers-keep :
      (s : AdminState) (e : AdminEvent) → KeepsEntry Numbered (acceptor_handlers env ops app s e)
  handlers-keep disconnected connected =
      λ x. unfold await_logon_window in await_logon_time-keeps env.logon_time_range
  handlers-keep logon_expected logon_received = validate_logon-keeps
  handlers-keep authenticating logon_accepted = λ x.
      unfold send_logon in
      Keeps-then _ _ (send "LOGON" (logon_fields env.heartbeat_timeout)) (Keeps-pure _)
  handlers-keep authenticating logon_rejected = send_logout-keeps
  handlers-keep authenticated heartbeat_received =
      λ x. unfold receive_heartbeat in Keeps-then _ _ (k.heartbeat x.fix) (Keeps-pure _)
  handlers-keep authenticated test_request_received =
      λ x. unfold receive_test_request in return_token-keeps (lookup "TestReqID" x.fix.texts)
  handlers-keep authenticated resend_request_received = λ x.
      unfold send_sequence_reset_handler in
      Keeps-bind (gets (outgoing ops)) _ (Keeps-gets _) (λ n.
        Keeps-then _ _ (send "SEQUENCE_RESET" (reset_fields (n + 2)))
          (Keeps-pure (some (signal sequence_reset_sent))))
  handlers-keep authenticated AdminEvent.sequence_reset_received =
      λ x. unfold handle_sequence_reset in reset_to-keeps (lookup "NewSeqNo" x.fix.ints)
  handlers-keep authenticated logout_received =
      λ x. unfold receive_logout in Keeps-then _ _ (k.logout x.fix) (Keeps-pure _)
  handlers-keep authenticated test_heartbeat_required = send_test_heartbeat-keeps
  handlers-keep send_test_heartbeat test_request_sent = validate_test_heartbeat-keeps
  handlers-keep reject_logon send_logout = send_logout-keeps
  handlers-keep _ _ = tt

  set_state-keeps :
      (s : AdminState) (e : Engine S) → Numbered e → Numbered (record e { admin_state = s })
  set_state-keeps s e h = record { is_up = h.is_up; counted = h.counted; numbered = h.numbered }

  pub process_admin-InStep : (x : AdminMessage) → Keeps Numbered (process_admin env ops app x)
  unfolding process_admin
  process_admin-InStep x =
      process-Keeps (acceptor_machine env ops app) Numbered set_state-keeps handlers-keep 2 (some x)

  pub process_message-InStep :
      (x : TransportMessage) → Keeps Numbered (process_message env ops app x)
  unfolding process_message
  process_message-InStep =
      process_transport-InStep env ops app (process_admin env ops app) start k process_admin-InStep
