-- ===== src/Initiator/Call.antt =====
-- jetblack_fixengine/initiator/initiator.py: the main loop of the engine, its heartbeats and logout.
use jetblack_fixengine.Prelude.{
  Bool, List, Option, [], false, if◌then◌else◌, leb, none, pos, some, sub_ℕ, true, ℕ, ◌&&◌, ◌+◌,
  ◌∷◌,
}
use jetblack_fixengine.Exceptions.{M, branch, modify, pure, raise, type_error, ◌>>=◌, ◌>>◌}
use jetblack_fixengine.Admin.{AdminState, is_authenticated, no_fields}
use jetblack_fixengine.Transport.{TransportMessage, TransportState}
use jetblack_fixengine.Engine.{
  CallEnd, Engine, Environment, FixApplication, Input, SessionOps, is_up, left, message_of, now,
  send_message, waiting,
}
use jetblack_fixengine.TransportMachine.{seconds}
use jetblack_fixengine.Initiator.{process_message}

module _ {S : Type 0} (env : Environment) (ops : SessionOps S) (app : FixApplication S) where
  -- `self._timeout` until the next heartbeat is due, in microseconds.
  abbrev pub set_timeout : ℕ → ℕ → M (Engine S) (Unit {0})
  set_timeout last time =
      modify (λ e. record e { timeout = sub_ℕ (seconds env.heartbeat_timeout + last) time })

  -- `seconds_since_last_send >= self._heartbeat_timeout and ... AUTHENTICATED`
  abbrev pub is_due : ℕ → ℕ → Engine S → Bool
  is_due last time e =
      leb (last + seconds env.heartbeat_timeout) time && is_authenticated e.admin_state

  abbrev pub heartbeat_since : Option ℕ → ℕ → M (Engine S) (Unit {0})
  heartbeat_since none time = raise type_error
  heartbeat_since (some last) time =
      branch (is_due last time) (send_message env ops "HEARTBEAT" no_fields >> set_timeout 0 0)
        (set_timeout last time)

  abbrev pub heartbeat_at : ℕ → M (Engine S) (Unit {0})
  heartbeat_at time e = heartbeat_since e.last_send_time_utc time e

  -- `_send_heartbeat_if_required`
  unfoldable pub send_heartbeat_if_required : M (Engine S) (Unit {0})
  send_heartbeat_if_required =
      branch (λ e. is_up e.transport_state) (now env >>= heartbeat_at)
        (modify (λ e. record e { timeout = pos (seconds env.logon_timeout) }))

  -- `_next_message`
  unfoldable pub next_message : Input → M (Engine S) TransportMessage
  next_message input = send_heartbeat_if_required >> pure (message_of input)

  -- One round of the loop of `__call__`.
  unfoldable pub call_round : Input → M (Engine S) TransportState
  call_round input = next_message input >>= process_message env ops app

  abbrev pub go_on : M (Engine S) CallEnd → TransportState → M (Engine S) CallEnd
  go_on again s =
      if is_up s then again else modify (λ e. record e { is_stopped = true }) >> pure left

  unfoldable pub call_loop : List Input → M (Engine S) CallEnd
  call_loop [] = pure waiting
  call_loop (input ∷ inputs) = call_round input >>= go_on (call_loop inputs)

  -- `__call__`
  unfoldable pub call : List Input → M (Engine S) CallEnd
  call inputs = modify (λ e. record e { is_connected = true }) >> call_loop inputs

  -- `logout`
  unfoldable pub logout : M (Engine S) (Unit {0})
  logout = send_message env ops "LOGOUT" no_fields

-- `__init__`: the engine before it is called.
abbrev pub new_engine : {S : Type 0} → Environment → S → Engine S
new_engine env session = record {
  session = session;
  is_connected = false;
  sent = [];
  last_send_time_utc = some 0;
  admin_state = AdminState.disconnected;
  test_heartbeat_message = none;
  transport_state = TransportState.disconnected;
  last_receive_time_utc = 0;
  timeout = pos (seconds env.heartbeat_timeout);
  is_stopped = false;
  logout_time = none;
  readings = 0;
  uuids = 0;
  waits = 0;
}
