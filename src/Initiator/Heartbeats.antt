-- ===== src/Initiator/Heartbeats.antt =====
-- When an initiator sends heartbeats, and how long it waits.
use jetblack_fixengine.Prelude.{
  [], arith, pos, some, true, ℕ, ◌++◌, ◌+◌, ◌-◌, ◌<◌, ◌∷◌, ◌≡◌, ◌≢◌, ◌≤◌,
}
use jetblack_fixengine.Exceptions.{ok}
use jetblack_fixengine.Admin.{authenticated, no_fields}
use jetblack_fixengine.Transport.{TransportState}
use jetblack_fixengine.Engine.{
  Engine, Environment, FixApplication, SessionOps, next_outgoing_seqnum, outgoing, send_message,
  send_transport_message,
}
use jetblack_fixengine.Engine.Sending.{fix_message}
use jetblack_fixengine.TransportMachine.{seconds}
use jetblack_fixengine.Initiator.Call.{send_heartbeat_if_required}

module _ {S : Type 0} (env : Environment) (ops : SessionOps S) (app : FixApplication S) (last : ℕ)
    (e : Engine S) where
  -- A connected initiator whose transport is connected, and that last sent at the time `last`. Where it
  -- is authenticated and the heartbeat timeout has passed, it sends exactly one message, a HEARTBEAT;
  -- else it sends nothing. Where the heartbeat is due only later, the timeout is the time that is left;
  -- after a heartbeat it is the heartbeat timeout.
  pub initiator_heartbeat :
      e.transport_state ≡ TransportState.connected
      → e.is_connected ≡ true
      → e.last_send_time_utc ≡ some last
      → let (e', r) = send_heartbeat_if_required env ops app e in
        let time = env.clock e.readings in
        let period = seconds env.heartbeat_timeout in
        (r ≡ ok tt)
        × (e.admin_state ≡ authenticated
            → last + period ≤ time
            → (e'.sent
                ≡ e.sent
                  ++ fix_message (
                      env.create "HEARTBEAT"
                        (outgoing ops e + 1)
                        (env.clock (e.readings + 1))
                        no_fields)
                    ∷ [])
              × (e'.last_send_time_utc ≡ some (env.clock (e.readings + 1)))
              × (e'.timeout ≡ pos period))
        × (e.admin_state ≢ authenticated → e'.sent ≡ e.sent)
        × (time < last + period → (e'.sent ≡ e.sent) × (e'.timeout ≡ pos (last + period - time)))
  unfolding send_heartbeat_if_required send_message next_outgoing_seqnum send_transport_message
  initiator_heartbeat u c l = ground arith
