-- ===== src/Tests/Acceptors.antt =====
-- The theorems on acceptors at concrete data.
use jetblack_fixengine.Acceptor.Call.{send_logout_if_login_expired}
use jetblack_fixengine.Acceptor.{
  acceptor_handlers, acceptor_machine, acceptor_transitions, process_admin,
}
use jetblack_fixengine.Acceptor.Protocol.{AcceptorProtocol, rounds_left}
use jetblack_fixengine.Acceptor.Settles.{acceptor_settles}
use jetblack_fixengine.Initiator.{initiator_handlers, initiator_transitions, logon_fields}
use jetblack_fixengine.Acceptor.Tables.{IsConsistent, tables-IsConsistent}
use jetblack_fixengine.Acceptor.Replies.{logon_verdict, logout_expiry, stuck_acceptor}
use jetblack_fixengine.Prelude.{[], refl, ℕ, ◌<◌, ◌∷◌, ◌≡◌, ◌≢◌, ◌≤◌}
use jetblack_fixengine.Exceptions.{
  Exception, Result, err, invalid_state_transition, login_error, ok,
}
use jetblack_fixengine.Exceptions.Ensures.{Holds}
use jetblack_fixengine.Machine.Settles.{Settled}
use jetblack_fixengine.Admin.{
  AdminMessage, authenticated, authenticating, from_msg_type, heartbeat_received, logon_expected,
  logon_received, no_fields, reject_logon, validate_test_heartbeat,
}
use jetblack_fixengine.Engine.{Engine}
use jetblack_fixengine.Engine.Sending.{fix_message, sent_from}
use jetblack_fixengine.Tests.Data.{
  engine, memory, quiet, received_fields, strict, strict-AppStays, world,
}

abbrev logon : AdminMessage
logon = record { event = logon_received; fix = received_fields }

acceptor_settles_example :
    Holds
      (Settled
        (acceptor_machine world memory strict)
        AcceptorProtocol
        rounds_left
        (AcceptorProtocol logon_expected logon_received))
      (process_admin world memory strict logon (engine logon_expected))
acceptor_settles_example =
    acceptor_settles world memory strict strict-AppStays logon (engine logon_expected)

logon_verdict_example :
    let result = process_admin world memory strict logon (engine logon_expected) in
    (◌≡◌ {A = Result (Unit {0})} (err login_error) (ok tt)
      → (result.1 ≡ ok authenticated)
        × (result.0.admin_state ≡ authenticated)
        × (result.0.sent ≡ fix_message (world.create "LOGON" 6 100000000 (logon_fields 30)) ∷ []))
    × ((x : Exception) (e2 : Engine (ℕ × ℕ))
        → ◌≡◌ {A = Result (Unit {0})} (err login_error) (err x)
        → strict.on_logout no_fields
            (record (sent_from world memory "LOGOUT" no_fields (engine authenticating)) {
              admin_state = reject_logon;
            })
          ≡ (e2, ok tt)
        → result ≡ (e2, ok e2.admin_state))
logon_verdict_example =
    logon_verdict world memory strict received_fields (engine logon_expected) refl refl refl

stuck_acceptor_example :
    process_admin world memory quiet
      (record { event = heartbeat_received; fix = received_fields })
      (engine validate_test_heartbeat)
    ≡ (engine validate_test_heartbeat, err invalid_state_transition)
unfolding from_msg_type
stuck_acceptor_example =
    stuck_acceptor world memory quiet received_fields (engine validate_test_heartbeat) "HEARTBEAT"
      heartbeat_received refl refl

logout_expiry_example :
    let (e', r) = send_logout_if_login_expired world memory quiet (engine authenticated) in
    (e'.sent ≡ [])
    × (e'.admin_state ≡ authenticated)
    × (authenticated ≡ authenticated → 3600000000 ≤ 3700000000 → r ≡ err invalid_state_transition)
    × (authenticated ≢ authenticated → r ≡ ok tt)
    × (3700000000 < 3600000000 → r ≡ ok tt)
logout_expiry_example =
    logout_expiry world memory quiet received_fields (engine authenticated) 3600000000 refl

tables-IsConsistent_example :
    IsConsistent (initiator_handlers world memory quiet) initiator_transitions
    × IsConsistent (acceptor_handlers world memory quiet) acceptor_transitions
tables-IsConsistent_example = tables-IsConsistent world memory quiet
