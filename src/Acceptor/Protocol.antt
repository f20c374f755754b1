-- ===== src/Acceptor/Protocol.antt =====
-- The abstract admin protocol of an acceptor, and what bounds its rounds.
use jetblack_fixengine.Prelude.{Bool, arith, false, true, ℕ, ◌<◌, ◌≡◌, ◌⊎◌}
use jetblack_fixengine.Admin.{
  AdminEvent, AdminState, authenticated, authenticating, connected, disconnected,
  heartbeat_received, incoming_seqnum_set, logon_accepted, logon_expected, logon_received,
  logon_rejected, logout_received, reject_logon, resend_request_received, send_logout,
  send_sequence_reset, send_test_heartbeat, sequence_reset_sent, set_incoming_seqnum,
  test_heartbeat_invalid, test_heartbeat_required, test_heartbeat_sent, test_heartbeat_valid,
  test_request_received, test_request_requested, test_request_sent, validate_test_heartbeat,
}
use jetblack_fixengine.DateUtils.{Waited, wait_for_time_period}
use jetblack_fixengine.Engine.{now}

-- Where an event that the acceptor processes may leave it: the protocol without its passing states.
-- The application decides on a logon. An event that is none of the protocol's settles nowhere.
unfoldable pub AcceptorProtocol : AdminState → AdminEvent → AdminState → Type 0
AcceptorProtocol disconnected connected t = t ≡ logon_expected
AcceptorProtocol logon_expected logon_received t = (t ≡ authenticated) ⊎ (t ≡ reject_logon)
AcceptorProtocol authenticating logon_accepted t = t ≡ authenticated
AcceptorProtocol authenticating logon_rejected t = t ≡ reject_logon
AcceptorProtocol reject_logon send_logout t = t ≡ disconnected
AcceptorProtocol authenticated heartbeat_received t = t ≡ authenticated
AcceptorProtocol authenticated test_request_received t = t ≡ authenticated
AcceptorProtocol authenticated resend_request_received t = t ≡ authenticated
AcceptorProtocol authenticated AdminEvent.sequence_reset_received t = t ≡ authenticated
AcceptorProtocol authenticated logout_received t = t ≡ disconnected
AcceptorProtocol authenticated test_heartbeat_required t = t ≡ validate_test_heartbeat
AcceptorProtocol test_request_requested test_request_sent t = t ≡ authenticated
AcceptorProtocol send_sequence_reset sequence_reset_sent t = t ≡ authenticated
AcceptorProtocol set_incoming_seqnum incoming_seqnum_set t = t ≡ authenticated
AcceptorProtocol send_test_heartbeat test_heartbeat_sent t = t ≡ validate_test_heartbeat
AcceptorProtocol validate_test_heartbeat test_heartbeat_valid t = t ≡ authenticated
AcceptorProtocol validate_test_heartbeat test_heartbeat_invalid t = t ≡ reject_logon
AcceptorProtocol _ _ t = ⊥

-- The wait ended, and not for want of fuel.
abbrev pub is_over : Waited → Bool
is_over Waited.out_of_fuel = false
is_over _ = true

pub wait_for_time_period-ends :
    (c : Bool) (now start_time end_time : ℕ)
    → is_over (wait_for_time_period c now start_time end_time) ≡ true
unfolding wait_for_time_period
wait_for_time_period-ends c now start_time end_time = ground arith

-- The rounds that follow the first.
abbrev pub rounds_left : AdminState → AdminEvent → ℕ
rounds_left logon_expected _ = 1
rounds_left authenticated _ = 1
rounds_left _ _ = 0

pub rounds_left_bound : (s : AdminState) (x : AdminEvent) → rounds_left s x < 2
rounds_left_bound s x = ground arith
