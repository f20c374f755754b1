-- ===== src/Peers/Answering.antt =====
-- An acceptor of jetblack_fixengine/acceptor/acceptor.py to which an initiator connects and logs on.
use jetblack_fixengine.Acceptor.Call.{
  call, call_loop, call_round, new_engine, next_transport_message, send_heartbeat_if_required,
  send_logout_if_login_expired,
}
use jetblack_fixengine.Acceptor.{
  await_logon_time, await_logon_window, process_admin, process_message, send_logon, validate_logon,
}
use jetblack_fixengine.Prelude.{
  Bool-cases, Option, [], ap, arith, false, inl, inr, none, refl, some, true, ℕ, ◌==◌, ◌∙◌, ◌∷◌,
  ◌≡◌,
}
use jetblack_fixengine.Exceptions.{Result, continue, ok, ◌>>=◌}
use jetblack_fixengine.Machine.{process, transition}
use jetblack_fixengine.Admin.{AdminEvent, AdminState, Fields, signal}
use jetblack_fixengine.Transport.{TransportEvent, TransportMessage, TransportState, fix, notice}
use jetblack_fixengine.Engine.{
  Engine, Environment, FixApplication, FixMessage, SessionOps, next_outgoing_seqnum, now,
  send_message, send_transport_message, waiting,
}
use jetblack_fixengine.DateUtils.{delay_for_time_period, until, wait_for_time_period}
use jetblack_fixengine.Bytes.{Bytes}
use jetblack_fixengine.Peers.{IsPassive, IsRead, Saves}
use jetblack_fixengine.Engine.Sending.{fix_message, sent_from}
use jetblack_fixengine.Peers.Receiving.{arrived, process_transport-arrived, saved}
use jetblack_fixengine.Initiator.{logon_fields}
use jetblack_fixengine.Peers.Dialling.{logon_type}
use jetblack_fixengine.TransportMachine.{handle_connected, process_transport}

open_after_wait :
    (now start_time end_time : ℕ)
    → wait_for_time_period false now start_time end_time
      ≡ until (delay_for_time_period now start_time end_time).1
unfolding wait_for_time_period
open_after_wait now start_time end_time =
    elim (Bool-cases ((delay_for_time_period now start_time end_time).0 == 0)) [
      | inl y ↦ rw y refl
      | inr n ↦ rw n refl
    ]

module _ {S : Type 0} (env : Environment) (ops : SessionOps S) (app : FixApplication S)
    (s : S) where
  abbrev pub starting : Engine S
  starting = record (new_engine s) {
    is_connected = true;
    admin_state = AdminState.logon_expected;
    transport_state = TransportState.connected;
  }

  -- The acceptor after its wait for the logon window, if it has one.
  abbrev pub opened : Option (ℕ × ℕ) → Engine S
  opened none = starting
  opened (some (start_time, end_time)) = record starting {
    readings = 1;
    waits = 1;
    logout_time = some (delay_for_time_period (env.to_local (env.clock 0)) start_time end_time).1;
  }

  await_logon_time-opened :
      (range : Option (ℕ × ℕ))
      → env.is_cancelled 0 ≡ false
      → await_logon_time env ops app range starting ≡ (opened range, ok none)
  await_logon_time-opened none c = refl
  await_logon_time-opened (some (start_time, end_time)) c =
      rw (c, open_after_wait (env.to_local (env.clock 0)) start_time end_time) refl

  pub opened-up :
      (range : Option (ℕ × ℕ))
      → ((opened range).transport_state ≡ TransportState.connected)
        × ((opened range).admin_state ≡ AdminState.logon_expected)
        × ((opened range).is_connected ≡ true)
        × ((opened range).last_send_time_utc ≡ none)
        × ((opened range).session ≡ s)
        × ((opened range).sent ≡ [])
  opened-up none = (refl, refl, refl, refl, refl, refl)
  opened-up (some (a, b)) = (refl, refl, refl, refl, refl, refl)

  abbrev pub ready : Engine S
  ready = opened env.logon_time_range

  process_admin-ready :
      env.is_cancelled 0 ≡ false
      → process_admin env ops app (signal AdminEvent.connected) (record (new_engine s) {
        is_connected = true;
        transport_state = TransportState.connected;
      })
        ≡ (ready, ok AdminState.logon_expected)
  unfolding process_admin process transition await_logon_window
  process_admin-ready c =
      rw (await_logon_time-opened env.logon_time_range c)
        (ap (λ (a : AdminState). (ready, ok a)) (opened-up env.logon_time_range).1)

  call_round-ready :
      env.is_cancelled 0 ≡ false
      → call_round env ops app
          (some (notice TransportEvent.connection_received))
          (record (new_engine s) { is_connected = true })
        ≡ (ready, ok TransportState.connected)
  unfolding call_round next_transport_message send_logout_if_login_expired
      send_heartbeat_if_required process_message process_transport process transition
      handle_connected
  call_round-ready c =
      rw (process_admin-ready c)
        (ap (λ (t : TransportState). (ready, ok t)) (opened-up env.logon_time_range).0)

  send_logout-ready :
      (range : Option (ℕ × ℕ))
      → send_logout_if_login_expired env ops app (opened range) ≡ (opened range, ok tt)
  unfolding send_logout_if_login_expired
  send_logout-ready none = refl
  send_logout-ready (some (start_time, end_time)) = refl

  next_transport_message-ready :
      (m : TransportMessage) (range : Option (ℕ × ℕ))
      → next_transport_message env ops app (some m) (opened range) ≡ (opened range, ok m)
  unfolding next_transport_message send_heartbeat_if_required
  next_transport_message-ready m none = refl
  next_transport_message-ready m (some (start_time, end_time)) = refl

  -- The acceptor's LOGON, from an engine that has accepted the initiator's.
  abbrev pub welcoming : Engine S → Engine S
  welcoming e =
      sent_from env ops "LOGON" (logon_fields env.heartbeat_timeout)
        (record e { admin_state = AdminState.authenticated })

  process_admin-welcoming :
      (fields : Fields) (e : Engine S)
      → IsPassive app
      → e.admin_state ≡ AdminState.logon_expected
      → e.is_connected ≡ true
      → process_admin env ops app (record { event = AdminEvent.logon_received; fix = fields }) e
        ≡ (welcoming e, ok AdminState.authenticated)
  unfolding process_admin process transition validate_logon send_logon send_message
      next_outgoing_seqnum send_transport_message
  process_admin-welcoming fields e p h c =
      ground (arith, h, c, p.logon fields (record e { admin_state = AdminState.authenticating }))

  module _ (buffer : Bytes) (n : ℕ) (m : FixMessage) (fields : Fields) (e2 : Engine S)
      (a : AdminState) where
    call_round-answered :
        Saves ops
        → ((fields : Fields) (e : Engine S) → app.on_admin_message fields e ≡ (e, ok tt))
        → env.decode buffer ≡ some m
        → IsRead "LOGON" n fields m
        → process_admin env ops app
            (record { event = AdminEvent.logon_received; fix = m.message })
            (saved env ops app (process_admin env ops app) buffer ready)
          ≡ (e2, ok a)
        → e2.transport_state ≡ fix
        → call_round env ops app (some (fix_message buffer)) ready
          ≡ (arrived env ops app (process_admin env ops app) n e2, ok TransportState.connected)
    unfolding call_round process_message
    call_round-answered sv p d r h f =
        ap
          (λ (x : Engine S × Result (Unit {0})). continue x (λ _.
            next_transport_message env ops app (some (fix_message buffer))
            >>= process_transport env ops app (process_admin env ops app)))
          (send_logout-ready env.logon_time_range)
        ∙ ap
            (λ (x : Engine S × Result TransportMessage).
              continue x (process_transport env ops app (process_admin env ops app)))
            (next_transport_message-ready (fix_message buffer) env.logon_time_range)
        ∙ process_transport-arrived env ops app (process_admin env ops app) buffer m "LOGON" n
            fields AdminEvent.logon_received ready e2 a (opened-up env.logon_time_range).0
            (sv buffer ready.session) d r logon_type p h f

    -- An acceptor over a session, to which an initiator connects and sends a LOGON, by what its state
    -- machine makes of it.
    pub call-answered :
        env.is_cancelled 0 ≡ false
        → Saves ops
        → ((fields : Fields) (e : Engine S) → app.on_admin_message fields e ≡ (e, ok tt))
        → env.decode buffer ≡ some m
        → IsRead "LOGON" n fields m
        → process_admin env ops app
            (record { event = AdminEvent.logon_received; fix = m.message })
            (saved env ops app (process_admin env ops app) buffer ready)
          ≡ (e2, ok a)
        → e2.transport_state ≡ fix
        → call env ops app
            (some (notice TransportEvent.connection_received) ∷ some (fix_message buffer) ∷ [])
            (new_engine s)
          ≡ (arrived env ops app (process_admin env ops app) n e2, ok waiting)
    unfolding call call_loop
    call-answered c sv p d r h f = rw (call_round-ready c, call_round-answered sv p d r h f) refl

  module _ (buffer : Bytes) (n : ℕ) where
    abbrev pub welcomed : Engine S
    welcomed =
        arrived env ops app (process_admin env ops app) n
          (welcoming (saved env ops app (process_admin env ops app) buffer ready))

    -- An acceptor over a session, to which an initiator connects and sends a LOGON.
    pub call-welcomed :
        (m : FixMessage) (fields : Fields)
        → env.is_cancelled 0 ≡ false
        → Saves ops
        → IsPassive app
        → env.decode buffer ≡ some m
        → IsRead "LOGON" n fields m
        → call env ops app
            (some (notice TransportEvent.connection_received) ∷ some (fix_message buffer) ∷ [])
            (new_engine s)
          ≡ (welcomed, ok waiting)
    call-welcomed m fields c sv p d r =
        let up = opened-up env.logon_time_range in
        call-answered buffer n m fields
          (welcoming (saved env ops app (process_admin env ops app) buffer ready))
          AdminState.authenticated c sv p.admin_message d r
          (process_admin-welcoming m.message
            (saved env ops app (process_admin env ops app) buffer ready) p up.1 up.2)
          refl
