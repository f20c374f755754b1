-- ===== src/Tests/Initiators.antt =====
-- The theorems on initiators at concrete data.
use jetblack_fixengine.Initiator.Call.{send_heartbeat_if_required}
use jetblack_fixengine.Initiator.{initiator_machine, process_admin, reset_fields}
use jetblack_fixengine.Initiator.Settles.{Protocol, initiator_settles, rounds_left}
use jetblack_fixengine.Initiator.Replies.{
  resend_request_reply, sequence_reset_reply, stuck_initiator,
}
use jetblack_fixengine.Initiator.Heartbeats.{initiator_heartbeat}
use jetblack_fixengine.Prelude.{[], pos, refl, some, ◌+◌, ◌-◌, ◌<◌, ◌∷◌, ◌≡◌, ◌≢◌, ◌≤◌}
use jetblack_fixengine.Exceptions.{err, invalid_state_transition, ok}
use jetblack_fixengine.Exceptions.Ensures.{Holds}
use jetblack_fixengine.Machine.Settles.{Settled}
use jetblack_fixengine.Admin.{
  AdminEvent, AdminMessage, authenticated, from_msg_type, heartbeat_received, lookup, no_fields,
  resend_request_received, set_incoming_seqnum, signal, test_heartbeat_required,
  validate_test_heartbeat,
}
use jetblack_fixengine.Engine.{incoming, outgoing}
use jetblack_fixengine.Engine.Sending.{fix_message}
use jetblack_fixengine.Tests.Data.{
  engine, memory, quiet, received_fields, strict, strict-AppStays, world,
}
use jetblack_fixengine.TransportMachine.{seconds}

abbrev due : AdminMessage
due = signal test_heartbeat_required

initiator_settles_example :
    Holds
      (Settled
        (initiator_machine world memory strict)
        Protocol
        rounds_left
        (Protocol authenticated test_heartbeat_required))
      (process_admin world memory strict due (engine authenticated))
initiator_settles_example =
    initiator_settles world memory strict strict-AppStays due (engine authenticated)

initiator_heartbeat_example :
    let (e', r) = send_heartbeat_if_required world memory quiet (engine authenticated) in
    (r ≡ ok tt)
    × (authenticated ≡ authenticated
        → 0 + seconds 30 ≤ 100000000
        → (e'.sent ≡ fix_message (world.create "HEARTBEAT" 6 101000000 no_fields) ∷ [])
          × (e'.last_send_time_utc ≡ some 101000000)
          × (e'.timeout ≡ pos (seconds 30)))
    × (authenticated ≢ authenticated → e'.sent ≡ [])
    × (100000000 < 0 + seconds 30
        → (e'.sent ≡ []) × (e'.timeout ≡ pos (0 + seconds 30 - 100000000)))
initiator_heartbeat_example =
    initiator_heartbeat world memory quiet 0 (engine authenticated) refl refl refl

resend_request_reply_example :
    let (e', r) =
      process_admin world memory quiet
        (record { event = resend_request_received; fix = received_fields })
        (engine authenticated) in
    (r ≡ ok authenticated)
    × (e'.admin_state ≡ authenticated)
    × (outgoing memory e' ≡ 6)
    × (e'.sent
        ≡ fix_message (
            world.create "SEQUENCE_RESET"
              (outgoing memory e')
              100000000
              (reset_fields (outgoing memory e' + 1)))
          ∷ [])
resend_request_reply_example =
    resend_request_reply world memory quiet received_fields (engine authenticated) refl refl

sequence_reset_reply_example :
    let (e', r) =
      process_admin world memory quiet
        (record { event = AdminEvent.sequence_reset_received; fix = received_fields })
        (engine authenticated) in
    (r ≡ err invalid_state_transition)
    × (e'.admin_state ≡ set_incoming_seqnum)
    × (incoming memory e' ≡ 12)
    × (e'.sent ≡ [])
unfolding lookup
sequence_reset_reply_example =
    sequence_reset_reply world memory quiet received_fields (engine authenticated) 12 refl refl

stuck_initiator_example :
    process_admin world memory quiet
      (record { event = heartbeat_received; fix = received_fields })
      (engine validate_test_heartbeat)
    ≡ (engine validate_test_heartbeat, err invalid_state_transition)
unfolding from_msg_type
stuck_initiator_example =
    stuck_initiator world memory quiet received_fields (engine validate_test_heartbeat) "HEARTBEAT"
      heartbeat_received refl refl
