-- ===== src/Acceptor/Call.antt =====
-- jetblack_fixengine/acceptor/acceptor.py: the main loop of the engine, its heartbeats, the end of its
-- session and its resend requests.
use jetblack_fixengine.Prelude.{
  Bool, List, Option, [], false, if◌then◌else◌, leb, none, pos, some, sub_ℕ, true, ℕ, ℤ, ◌&&◌, ◌+◌,
  ◌∷◌,
}
use jetblack_fixengine.Exceptions.{M, branch, modify, pure, ◌>>=◌, ◌>>◌}
use jetblack_fixengine.Admin.{AdminState, is_authenticated, no_fields, send_logout, signal}
use jetblack_fixengine.Transport.{TransportMessage, TransportState}
use jetblack_fixengine.Engine.{
  CallEnd, Engine, Environment, FixApplication, Input, SessionOps, is_up, left, local_now,
  message_of, now, send_message, waiting,
}
use jetblack_fixengine.TransportMachine.{seconds}
use jetblack_fixengine.Acceptor.{process_admin, process_message}

module _ {S : Type 0} (env : Environment) (ops : SessionOps S) (app : FixApplication S) where
  abbrev pub log_out_at : ℕ → ℕ → M (Engine S) (Unit {0})
  log_out_at logout_time time =
      if leb logout_time time
      then process_admin env ops app (signal send_logout) >> pure tt
      else pure tt

  abbrev pub log_out_if_expired : Option ℕ → M (Engine S) (Unit {0})
  log_out_if_expired none = pure tt
  log_out_if_expired (some logout_time) =
      branch (λ e. is_authenticated e.admin_state) (local_now env >>= log_out_at logout_time)
        (pure tt)

  -- `_send_logout_if_login_expired`
  unfoldable pub send_logout_if_login_expired : M (Engine S) (Unit {0})
  send_logout_if_login_expired e = log_out_if_expired e.logout_time e

  abbrev pub is_due : ℕ → ℕ → Engine S → Bool
  is_due last time e =
      leb (last + seconds env.heartbeat_timeout) time && is_authenticated e.admin_state

  -- The time until the next heartbeat is due, in microseconds.
  abbrev pub till_heartbeat : ℕ → ℕ → ℤ
  till_heartbeat last time = sub_ℕ (seconds env.heartbeat_timeout + last) time

  abbrev pub heartbeat_at : ℕ → ℕ → M (Engine S) ℤ
  heartbeat_at last time =
      branch (is_due last time)
        (send_message env ops "HEARTBEAT" no_fields >> pure (till_heartbeat 0 0))
        (pure (till_heartbeat last time))

  abbrev pub heartbeat_since : Option ℕ → M (Engine S) ℤ
  heartbeat_since none = pure (pos (seconds env.logon_timeout))
  heartbeat_since (some last) =
      branch (λ e. is_up e.transport_state) (now env >>= heartbeat_at last)
        (pure (pos (seconds env.logon_timeout)))

  -- `_send_heartbeat_if_required`
  unfoldable pub send_heartbeat_if_required : M (Engine S) ℤ
  send_heartbeat_if_required e = heartbeat_since e.last_send_time_utc e

  -- `_next_transport_message`
  unfoldable pub next_transport_message : Input → M (Engine S) TransportMessage
  next_transport_message input = send_heartbeat_if_required >> pure (message_of input)

  -- One round of the loop of `__call__`.
  unfoldable pub call_round : Input → M (Engine S) TransportState
  call_round input =
      send_logout_if_login_expired >> (next_transport_message input >>= process_message env ops app)

  abbrev pub go_on : M (Engine S) CallEnd → TransportState → M (Engine S) CallEnd
  go_on again s = if is_up s then again else pure left

  unfoldable pub call_loop : List Input → M (Engine S) CallEnd
  call_loop [] = pure waiting
  call_loop (input ∷ inputs) = call_round input >>= go_on (call_loop inputs)

  -- `__call__`
  unfoldable pub call : List Input → M (Engine S) CallEnd
  call inputs = modify (λ e. record e { is_connected = true }) >> call_loop inputs

  -- `_set_seqnums`
  unfoldable pub set_seqnums : ℕ → ℕ → M (Engine S) (Unit {0})
  set_seqnums outgoing_seqnum incoming_seqnum =
      modify (λ e. record e { session = ops.set_seqnums outgoing_seqnum incoming_seqnum e.session })

  -- `send_resend_request`
  unfoldable pub send_resend_request : ℕ → ℕ → M (Engine S) (Unit {0})
  send_resend_request begin_seqnum end_seqnum = send_message env ops "RESEND_REQUEST" (record {
    ints = ("BeginSeqNo", begin_seqnum) ∷ ("EndSeqNo", end_seqnum) ∷ [];
    texts = [];
    flags = [];
  })

-- `__init__`: the engine before it is called.
abbrev pub new_engine : {S : Type 0} → S → Engine S
new_engine session = record {
  session = session;
  is_connected = false;
  sent = [];
  last_send_time_utc = none;
  admin_state = AdminState.disconnected;
  test_heartbeat_message = none;
  transport_state = TransportState.disconnected;
  last_receive_time_utc = 0;
  timeout = pos 0;
  is_stopped = false;
  logout_time = none;
  readings = 0;
  uuids = 0;
  waits = 0;
}
