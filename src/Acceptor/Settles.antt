-- ===== src/Acceptor/Settles.antt =====
-- The admin protocol of an acceptor, as its state machine carries it out.
use jetblack_fixengine.Prelude.{
  Option, String, arith, inl, inr, none, refl, some, sym, true, ℕ, ◌+◌, ◌<◌, ◌∙◌, ◌≡◌,
}
use jetblack_fixengine.Machine.Settles.{Answers, Fits, Settled, process_settles}
use jetblack_fixengine.Engine.Stays.{
  AppStays, At, Stays, new_uuid-Stays, send_message-Stays, set_incoming-Stays, set_token-Stays,
}
use jetblack_fixengine.Acceptor.Protocol.{
  AcceptorProtocol, is_over, rounds_left, rounds_left_bound, wait_for_time_period-ends,
}
use jetblack_fixengine.Acceptor.{
  acceptor_handlers, acceptor_machine, acceptor_transitions, answer, await_logon_time,
  await_logon_window, handle_sequence_reset, judge, process_admin, receive_heartbeat,
  receive_logout, receive_test_request, reset_to, return_token, send_logon, send_logout_handler,
  send_sequence_reset_handler, send_test_heartbeat_handler, send_token, set_logout_time,
  validate_logon,
}
use jetblack_fixengine.Admin.{
  AdminEvent, AdminMessage, AdminState, Fields, authenticated, authenticating, connected,
  disconnected, heartbeat_received, incoming_seqnum_set, logon_accepted, logon_expected,
  logon_received, logon_rejected, logout_received, lookup, no_fields, reject_logon,
  resend_request_received, send_logout, send_sequence_reset, send_test_heartbeat,
  sequence_reset_sent, set_incoming_seqnum, test_heartbeat_invalid, test_heartbeat_required,
  test_heartbeat_sent, test_heartbeat_valid, test_request_received, test_request_requested,
  test_request_sent, validate_test_heartbeat,
}
use jetblack_fixengine.Exceptions.Ensures.{
  Ensures, Ensures-answer, Ensures-bind, Ensures-then, Holds,
}
use jetblack_fixengine.Exceptions.{M, Result, after, err, ok, pure, ◌>>=◌, ◌>>◌}
use mathlib.Core.Path.{subst}
use jetblack_fixengine.DateUtils.{Waited, cancelled, until}
use jetblack_fixengine.Engine.{
  Engine, Environment, FixApplication, SessionOps, new_uuid, send_message,
}

module _ {S : Type 0} (env : Environment) (ops : SessionOps S) (app : FixApplication S)
    (k : AppStays app) where
  abbrev Answered : AdminState → AdminEvent → Option AdminMessage → Engine S → Type 0
  Answered = Answers (acceptor_machine env ops app) AcceptorProtocol rounds_left

  -- A method that stays in `t`, and then the answer `y`.
  answer_fits :
      {A : Type 0} (s t : AdminState) (x y : AdminEvent) (m : M (Engine S) A)
      → Stays t m
      → ((u : AdminState) → AcceptorProtocol t y u → AcceptorProtocol s x u)
      → rounds_left t y < rounds_left s x
      → Ensures (At t) (m >> answer env ops app y) (Answered s x)
  answer_fits s t x y m stays p r = Ensures-answer m _ (Answered s x) stays (λ w h. (
    λ u q. p u (subst (λ (v : AdminState). AcceptorProtocol v y u) h q),
    subst (λ (u : AdminState). rounds_left u y < rounds_left s x) (sym h) r,
  ))

  send_fits :
      (s t : AdminState) (x y : AdminEvent) (msg_type : String) (fields : Fields)
      → ((u : AdminState) → AcceptorProtocol t y u → AcceptorProtocol s x u)
      → rounds_left t y < rounds_left s x
      → Ensures (At t) (send_message env ops msg_type fields >> answer env ops app y) (Answered s x)
  send_fits s t x y msg_type fields =
      answer_fits s t x y _ (send_message-Stays env ops t msg_type fields)

  send_test_request-fits :
      (o : Option String)
      → Ensures
          (At test_request_requested)
          (return_token env ops app o)
          (Answered authenticated test_request_received)
  unfolding AcceptorProtocol
  send_test_request-fits none = record { at = λ w h. refl }
  send_test_request-fits (some token) =
      send_fits authenticated test_request_requested test_request_received test_request_sent _ _
        (λ u q. q) (omega arith)

  reset_to-fits :
      (o : Option ℕ)
      → Ensures
          (At set_incoming_seqnum)
          (reset_to env ops app o)
          (Answered authenticated AdminEvent.sequence_reset_received)
  unfolding AcceptorProtocol
  reset_to-fits none = record { at = λ w h. refl }
  reset_to-fits (some n) =
      answer_fits authenticated set_incoming_seqnum AdminEvent.sequence_reset_received
        incoming_seqnum_set _ (set_incoming-Stays ops set_incoming_seqnum n) (λ u q. q)
        (omega arith)

  test_heartbeat-fits :
      Ensures
        (At send_test_heartbeat)
        (new_uuid env >>= send_token env ops app)
        (Answered authenticated test_heartbeat_required)
  unfolding AcceptorProtocol
  test_heartbeat-fits =
      Ensures-bind (new_uuid env) (send_token env ops app) (λ _. At send_test_heartbeat) _
        (new_uuid-Stays env send_test_heartbeat)
        (λ token. Ensures-then _ _ _ (set_token-Stays send_test_heartbeat token) (
          send_fits authenticated send_test_heartbeat test_heartbeat_required test_heartbeat_sent _
            _ (λ u q. q) (omega arith)))

  callback_fits :
      (s t : AdminState) (x : AdminEvent) (m : M (Engine S) (Unit {0}))
      → Stays t m
      → AcceptorProtocol s x t
      → Ensures (At t) (m >> pure none) (Answered s x)
  callback_fits s t x m stays p =
      Ensures-answer m none (Answered s x) stays (λ w h. subst (AcceptorProtocol s x) (sym h) p)

  logout_fits :
      (s t : AdminState) (x : AdminEvent) (fields : Fields)
      → AcceptorProtocol s x t
      → Ensures
          (At t)
          (send_message env ops "LOGOUT" no_fields >> app.on_logout fields >> pure none)
          (Answered s x)
  logout_fits s t x fields p =
      callback_fits s t x _
        (Ensures-then _ _ _ (send_message-Stays env ops t "LOGOUT" no_fields) (k.logout t fields)) p

  judge_fits :
      (r : Engine S × Result (Unit {0}))
      → (after r).admin_state ≡ authenticating
      → Holds (Answered logon_expected logon_received) (judge env ops app r)
  unfolding AcceptorProtocol
  judge_fits (w, ok tt) h = rw h ((λ u q. inl q), omega arith)
  judge_fits (w, err x) h = rw h ((λ u q. inr q), omega arith)

  set_logout_time_fits :
      (o : Waited) (w : Engine S)
      → w.admin_state ≡ logon_expected
      → is_over o ≡ true
      → Holds (Answered disconnected connected) (set_logout_time env ops app o w)
  unfolding AcceptorProtocol
  set_logout_time_fits (until t) w h p = h
  set_logout_time_fits cancelled w h p = refl
  set_logout_time_fits Waited.out_of_fuel w h p = absurd (ground arith)

  window_fits :
      (o : Option (ℕ × ℕ))
      → Ensures
          (At logon_expected)
          (await_logon_time env ops app o)
          (Answered disconnected connected)
  unfolding AcceptorProtocol
  window_fits none = record { at = λ w h. h }
  window_fits (some (start_time, end_time)) = record {
    at = λ w h.
        set_logout_time_fits _ (record w { readings = w.readings + 1; waits = w.waits + 1 }) h
          (wait_for_time_period-ends (env.is_cancelled w.waits)
            (env.to_local (env.clock w.readings)) start_time end_time);
  }

  fits :
      (s : AdminState) (x : AdminEvent)
      → Fits
          (acceptor_machine env ops app)
          AcceptorProtocol
          rounds_left
          s
          x
          (acceptor_transitions s x)
          (acceptor_handlers env ops app s x)
  unfolding AcceptorProtocol await_logon_window validate_logon send_logon send_logout_handler
      receive_heartbeat receive_test_request send_sequence_reset_handler handle_sequence_reset
      receive_logout send_test_heartbeat_handler
  fits disconnected connected = λ x. window_fits env.logon_time_range
  fits logon_expected logon_received =
      λ x. record { at = λ w h. judge_fits (app.on_logon x.fix w) (k.logon_keeps x.fix w ∙ h) }
  fits authenticating logon_accepted = λ x.
      callback_fits authenticating authenticated logon_accepted _
        (send_message-Stays env ops authenticated "LOGON" _) refl
  fits authenticating logon_rejected =
      λ x. logout_fits authenticating reject_logon logon_rejected x.fix refl
  fits reject_logon send_logout = λ x. logout_fits reject_logon disconnected send_logout x.fix refl
  fits authenticated heartbeat_received = λ x.
      callback_fits authenticated authenticated heartbeat_received _
        (k.heartbeat authenticated x.fix) refl
  fits authenticated test_request_received =
      λ x. send_test_request-fits (lookup "TestReqID" x.fix.texts)
  fits authenticated resend_request_received = λ x. record {
    at = λ w.
        (send_fits authenticated send_sequence_reset resend_request_received sequence_reset_sent _ _
            (λ u q. q) (omega arith)).at
          w;
  }
  fits authenticated AdminEvent.sequence_reset_received =
      λ x. reset_to-fits (lookup "NewSeqNo" x.fix.ints)
  fits authenticated logout_received = λ x.
      callback_fits authenticated disconnected logout_received _ (k.logout disconnected x.fix) refl
  fits authenticated test_heartbeat_required = λ x. test_heartbeat-fits
  fits test_request_requested test_request_sent = refl
  fits send_sequence_reset sequence_reset_sent = refl
  fits set_incoming_seqnum incoming_seqnum_set = refl
  fits send_test_heartbeat test_heartbeat_sent = refl
  fits validate_test_heartbeat test_heartbeat_valid = refl
  fits validate_test_heartbeat test_heartbeat_invalid = refl
  fits s x = tt

  -- Where the callbacks leave the admin state alone, `on_logon` even where it raises, and raise only
  -- exceptions of their own: whatever admin event an acceptor processes, in whatever state, its loop
  -- ends within the two rounds of the model. It returns one of the states that the protocol names,
  -- and the engine is in it, or it raises. So it raises wherever the protocol names no state.
  pub acceptor_settles :
      (x : AdminMessage) (e : Engine S)
      → Holds
          (Settled
            (acceptor_machine env ops app)
            AcceptorProtocol
            rounds_left
            (AcceptorProtocol e.admin_state x.event))
          (process_admin env ops app x e)
  unfolding process_admin
  acceptor_settles x e =
      process_settles (acceptor_machine env ops app) AcceptorProtocol rounds_left (λ s w. refl) fits
        2 x e (rounds_left_bound e.admin_state x.event)
