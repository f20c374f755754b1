-- ===== src/Tests/Transports.antt =====
-- The theorems on sending and receiving at concrete data.
use jetblack_fixengine.Prelude.{
  String, [], false, if◌then◌else◌, ltb, refl, some, true, ℕ, ◌++◌, ◌<◌, ◌∷◌, ◌≡◌, ◌≢◌, ◌≤◌,
}
use jetblack_fixengine.Bytes.{Bytes, codes}
use jetblack_fixengine.Exceptions.{
  Exception, M, Result, err, ok, pure, runtime_error, value_error, ◌>>◌,
}
use jetblack_fixengine.Admin.{
  AdminMessage, AdminState, Fields, authenticated, from_msg_type, lookup, no_fields, signal,
  test_heartbeat_required,
}
use jetblack_fixengine.Transport.{TransportEvent, TransportState, fix, notice, timeout_received}
use jetblack_fixengine.Engine.{Engine, incoming, outgoing, send_encoded, set_incoming}
use jetblack_fixengine.Engine.Sending.{fix_message, send_encoded-branches}
use jetblack_fixengine.Tests.Data.{engine, memory, quiet, received_fields, world}
use jetblack_fixengine.TransportMachine.{
  handle_admin_message, process_transport, seconds, transport_machine,
}
use jetblack_fixengine.TransportMachine.Settles.{
  PartsStay, Protocol, rounds_left, transport_settles,
}
use jetblack_fixengine.Machine.Settles.{Settled}
use jetblack_fixengine.Exceptions.Ensures.{Holds}
use jetblack_fixengine.TransportMachine.Receiving.{fix_handled_seqnum, timeout_branches}

-- A factory that writes one digit for the number.
abbrev small_only : String → ℕ → ℕ → Fields → Result Bytes
small_only msg_type msg_seq_num send_time fields =
    if ltb msg_seq_num 10 then ok (codes msg_type ++ msg_seq_num ∷ []) else err value_error

send_encoded-branches_example :
    let (e', r) = send_encoded world memory small_only "LOGOUT" no_fields (engine authenticated) in
    let encoded = small_only "LOGOUT" (outgoing memory e') 100000000 no_fields in
    (outgoing memory e' ≡ 6)
    × (incoming memory e' ≡ 6)
    × ((x : Exception) → encoded ≡ err x → (r ≡ err x) × (e'.sent ≡ []))
    × ((buffer : Bytes)
        → encoded ≡ ok buffer
        → (true ≡ true
            → (r ≡ ok tt)
              × (e'.last_send_time_utc ≡ some 100000000)
              × (e'.sent ≡ fix_message buffer ∷ []))
          × (true ≡ false → (r ≡ err value_error) × (e'.sent ≡ [])))
send_encoded-branches_example =
    send_encoded-branches world memory small_only "LOGOUT" no_fields (engine authenticated)

-- An admin state machine that takes NewSeqNo as the incoming number.
abbrev reset_admin : AdminMessage → M (Engine (ℕ × ℕ)) AdminState
reset_admin message = set_incoming memory 12 >> pure authenticated

fix_handled_seqnum_example :
    let (e', r) =
      process_transport world memory quiet reset_admin
        (record { event = TransportEvent.fix_received; buffer = codes "reset" })
        (engine authenticated) in
    (r ≡ ok TransportState.connected)
    × (e'.transport_state ≡ TransportState.connected)
    × (incoming memory e' ≡ 7)
    × (e'.last_receive_time_utc ≡ 100000000)
    × (e'.sent ≡ [])
unfolding lookup from_msg_type handle_admin_message
fix_handled_seqnum_example =
    fix_handled_seqnum world memory quiet reset_admin (engine authenticated) (codes "reset")
      (record { msgcat = "admin"; message = received_fields }) 7
      (record (engine authenticated) { session = (5, 12); transport_state = fix }) refl refl refl
      refl refl refl

timeout_branches_example :
    let result =
      process_transport world memory quiet reset_admin
        (notice timeout_received)
        (engine authenticated) in
    let idle = record (engine authenticated) {
      transport_state = TransportState.timeout;
      readings = 1;
    } in
    (authenticated ≢ authenticated → result.1 ≡ err runtime_error)
    × (authenticated ≡ authenticated
        → 100000000 ≤ seconds 31
        → result ≡ (
          record idle { transport_state = TransportState.connected },
          ok TransportState.connected,
        ))
    × ((e2 : Engine (ℕ × ℕ)) (s : AdminState)
        → authenticated ≡ authenticated
        → seconds 31 < 100000000
        → reset_admin (signal test_heartbeat_required) idle ≡ (e2, ok s)
        → e2.transport_state ≡ TransportState.timeout
        → result
          ≡ (record e2 { transport_state = TransportState.connected }, ok TransportState.connected))
timeout_branches_example =
    timeout_branches world memory quiet reset_admin (engine authenticated) refl

quiet-PartsStay : PartsStay world memory quiet reset_admin
quiet-PartsStay = record {
  saving = λ t buffer. record { at = λ e h. h };
  admin_message = λ t f. record { at = λ e h. h };
  application_message = λ t f. record { at = λ e h. h };
  admin_machine = λ t x. record { at = λ e h. h };
}

transport_settles_example :
    Holds
      (Settled
        (transport_machine world memory quiet reset_admin)
        Protocol
        (λ u y. rounds_left u)
        (Protocol TransportState.connected timeout_received))
      (process_transport world memory quiet reset_admin
        (notice timeout_received)
        (engine authenticated))
transport_settles_example =
    transport_settles world memory quiet reset_admin quiet-PartsStay (notice timeout_received)
      (engine authenticated)
