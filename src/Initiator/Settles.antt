-- ===== src/Initiator/Settles.antt =====
-- The admin protocol of an initiator, as its state machine carries it out.
use jetblack_fixengine.Prelude.{Option, String, ap, arith, none, refl, some, sym, ℕ, ◌<◌, ◌≡◌}
use jetblack_fixengine.Machine.Settles.{Answers, Fits, Settled, process_settles}
use jetblack_fixengine.Engine.Stays.{
  AppStays, At, Stays, new_uuid-Stays, send_message-Stays, set_incoming-Stays, set_token-Stays,
}
use jetblack_fixengine.Initiator.{
  acknowledge_heartbeat_handler, acknowledge_logout_handler, answer, initiator_handlers,
  initiator_machine, initiator_transitions, logon_received_handler, process_admin,
  reset_incoming_seqnum, reset_to, return_token, send_logon, send_sequence_reset_handler,
  send_test_heartbeat_handler, send_test_request, send_token,
}
use jetblack_fixengine.Admin.{
  AdminEvent, AdminMessage, AdminState, Fields, acknowledge_heartbeat, acknowledge_logout,
  authenticated, connected, disconnected, heartbeat_acknowledged, heartbeat_received,
  incoming_seqnum_set, logon_expected, logon_received, logon_requested, logon_sent,
  logout_acknowledged, logout_received, lookup, reject_logon, reject_received,
  resend_request_received, send_test_heartbeat, sequence_reset_requested, sequence_reset_sent,
  set_incoming_seqnum, test_heartbeat_invalid, test_heartbeat_required, test_heartbeat_sent,
  test_heartbeat_valid, test_request_received, test_request_requested, test_request_sent,
  validate_test_heartbeat,
}
use jetblack_fixengine.Exceptions.Ensures.{
  Ensures, Ensures-answer, Ensures-bind, Ensures-then, Holds,
}
use jetblack_fixengine.Exceptions.{M, ◌>>=◌, ◌>>◌}
use mathlib.Core.Path.{subst}
use jetblack_fixengine.Engine.{
  Engine, Environment, FixApplication, SessionOps, new_uuid, send_message,
}

-- Where an event that the initiator processes leaves it: the protocol without its passing states. An
-- event that is none of the protocol's, and the reset of a sequence, settle nowhere.
unfoldable pub initiator_protocol : AdminState → AdminEvent → Option AdminState
initiator_protocol disconnected connected = some logon_expected
initiator_protocol logon_requested logon_sent = some logon_expected
initiator_protocol logon_expected logon_received = some authenticated
initiator_protocol logon_expected reject_received = some disconnected
initiator_protocol authenticated heartbeat_received = some authenticated
initiator_protocol authenticated test_request_received = some authenticated
initiator_protocol authenticated resend_request_received = some authenticated
initiator_protocol authenticated logout_received = some disconnected
initiator_protocol authenticated test_heartbeat_required = some validate_test_heartbeat
initiator_protocol acknowledge_heartbeat heartbeat_acknowledged = some authenticated
initiator_protocol test_request_requested test_request_sent = some authenticated
initiator_protocol sequence_reset_requested sequence_reset_sent = some authenticated
initiator_protocol set_incoming_seqnum incoming_seqnum_set = some authenticated
initiator_protocol acknowledge_logout logout_acknowledged = some disconnected
initiator_protocol send_test_heartbeat test_heartbeat_sent = some validate_test_heartbeat
initiator_protocol validate_test_heartbeat test_heartbeat_valid = some authenticated
initiator_protocol validate_test_heartbeat test_heartbeat_invalid = some reject_logon
initiator_protocol _ _ = none

abbrev pub Protocol : AdminState → AdminEvent → AdminState → Type 0
Protocol s x t = initiator_protocol s x ≡ some t

-- The rounds that follow the first.
abbrev pub rounds_left : AdminState → AdminEvent → ℕ
rounds_left disconnected _ = 1
rounds_left authenticated _ = 1
rounds_left _ _ = 0

rounds_left_bound : (s : AdminState) (x : AdminEvent) → rounds_left s x < 2
rounds_left_bound s x = ground arith

module _ {S : Type 0} (env : Environment) (ops : SessionOps S) (app : FixApplication S)
    (k : AppStays app) where
  abbrev Answered : AdminState → AdminEvent → Option AdminMessage → Engine S → Type 0
  Answered = Answers (initiator_machine env ops app) Protocol rounds_left

  -- A method that stays in `t`, and then the answer `y`.
  answer_fits :
      {A : Type 0} (s t : AdminState) (x y : AdminEvent) (m : M (Engine S) A)
      → Stays t m
      → ((u : AdminState) → Protocol t y u → Protocol s x u)
      → rounds_left t y < rounds_left s x
      → Ensures (At t) (m >> answer env ops app y) (Answered s x)
  answer_fits s t x y m stays p r = Ensures-answer m _ (Answered s x) stays (λ w h. (
    λ u q. p u (subst (λ (v : AdminState). Protocol v y u) h q),
    subst (λ (u : AdminState). rounds_left u y < rounds_left s x) (sym h) r,
  ))

  send_fits :
      (s t : AdminState) (x y : AdminEvent) (msg_type : String) (fields : Fields)
      → ((u : AdminState) → Protocol t y u → Protocol s x u)
      → rounds_left t y < rounds_left s x
      → Ensures (At t) (send_message env ops msg_type fields >> answer env ops app y) (Answered s x)
  send_fits s t x y msg_type fields =
      answer_fits s t x y _ (send_message-Stays env ops t msg_type fields)

  send_test_request-fits :
      (o : Option String)
      → Ensures
          (At test_request_requested)
          (return_token env ops app o)
          (Answered authenticated test_request_received)
  unfolding initiator_protocol
  send_test_request-fits none = record { at = λ w h. refl }
  send_test_request-fits (some token) =
      send_fits authenticated test_request_requested test_request_received test_request_sent _ _
        (λ u q. q) (omega arith)

  reset_to-fits :
      (o : Option ℕ)
      → Ensures
          (At set_incoming_seqnum)
          (reset_to env ops app o)
          (Answered authenticated AdminEvent.sequence_reset_received)
  unfolding initiator_protocol
  reset_to-fits none = record { at = λ w h. refl }
  reset_to-fits (some n) =
      answer_fits authenticated set_incoming_seqnum AdminEvent.sequence_reset_received
        sequence_reset_sent _ (set_incoming-Stays ops set_incoming_seqnum n) (λ u q. q)
        (omega arith)

  test_heartbeat-fits :
      Ensures
        (At send_test_heartbeat)
        (new_uuid env >>= send_token env ops app)
        (Answered authenticated test_heartbeat_required)
  unfolding initiator_protocol
  test_heartbeat-fits =
      Ensures-bind (new_uuid env) (send_token env ops app) (λ _. At send_test_heartbeat) _
        (new_uuid-Stays env send_test_heartbeat)
        (λ token. Ensures-then _ _ _ (set_token-Stays send_test_heartbeat token) (
          send_fits authenticated send_test_heartbeat test_heartbeat_required test_heartbeat_sent _
            _ (λ u q. q) (omega arith)))

  fits :
      (s : AdminState) (x : AdminEvent)
      → Fits
          (initiator_machine env ops app)
          Protocol
          rounds_left
          s
          x
          (initiator_transitions s x)
          (initiator_handlers env ops app s x)
  unfolding initiator_protocol send_logon logon_received_handler acknowledge_heartbeat_handler
      send_test_request send_sequence_reset_handler reset_incoming_seqnum acknowledge_logout_handler
      send_test_heartbeat_handler
  fits disconnected connected =
      λ x. send_fits disconnected logon_requested connected logon_sent _ _ (λ u q. q) (omega arith)
  fits logon_expected logon_received =
      λ x. Ensures-answer _ _ _ (k.logon authenticated x.fix) (λ w h. ap some (sym h))
  fits authenticated heartbeat_received = λ x.
      answer_fits authenticated acknowledge_heartbeat heartbeat_received heartbeat_acknowledged _
        (k.heartbeat acknowledge_heartbeat x.fix) (λ u q. q) (omega arith)
  fits authenticated test_request_received =
      λ x. send_test_request-fits (lookup "TestReqID" x.fix.texts)
  fits authenticated resend_request_received = λ x. record {
    at = λ w.
        (send_fits authenticated sequence_reset_requested resend_request_received
            sequence_reset_sent _ _ (λ u q. q) (omega arith)).at
          w;
  }
  fits authenticated AdminEvent.sequence_reset_received =
      λ x. reset_to-fits (lookup "NewSeqNo" x.fix.ints)
  fits authenticated logout_received = λ x.
      answer_fits authenticated acknowledge_logout logout_received logout_acknowledged _
        (k.logout acknowledge_logout x.fix) (λ u q. q) (omega arith)
  fits authenticated test_heartbeat_required = λ x. test_heartbeat-fits
  fits logon_requested logon_sent = refl
  fits logon_expected reject_received = refl
  fits acknowledge_heartbeat heartbeat_acknowledged = refl
  fits test_request_requested test_request_sent = refl
  fits sequence_reset_requested sequence_reset_sent = refl
  fits set_incoming_seqnum incoming_seqnum_set = refl
  fits acknowledge_logout logout_acknowledged = refl
  fits send_test_heartbeat test_heartbeat_sent = refl
  fits validate_test_heartbeat test_heartbeat_valid = refl
  fits validate_test_heartbeat test_heartbeat_invalid = refl
  fits send_test_heartbeat test_request_sent = tt
  fits s x = tt

  -- Where the callbacks leave the admin state alone and raise only exceptions of their own: whatever
  -- admin event an initiator processes, in whatever state, its loop ends within the two rounds of
  -- the model. It returns the state that the protocol names, and the engine is in it, or it raises.
  -- So it raises wherever the protocol names no state.
  pub initiator_settles :
      (x : AdminMessage) (e : Engine S)
      → Holds
          (Settled
            (initiator_machine env ops app)
            Protocol
            rounds_left
            (Protocol e.admin_state x.event))
          (process_admin env ops app x e)
  unfolding process_admin
  initiator_settles x e =
      process_settles (initiator_machine env ops app) Protocol rounds_left (λ s w. refl) fits 2 x e
        (rounds_left_bound e.admin_state x.event)
