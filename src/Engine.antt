-- ===== src/Engine.antt =====
-- What the engines of initiator/initiator.py and acceptor/acceptor.py share: their state, what they
-- take from outside, and the way a message is numbered, encoded and sent.
pub mod Numbering
pub mod Stays
pub mod Sending
use jetblack_fixengine.Prelude.{
  Bool, List, Option, String, [], false, if◌then◌else◌, none, some, true, ℕ, ℤ, ◌++◌, ◌+◌, ◌∷◌, ◌≡◌,
}
use jetblack_fixengine.Bytes.{Bytes}
use jetblack_fixengine.Exceptions.{
  M, Result, after, err, gets, modify, ok, pure, raise, value_error, ◌>>=◌, ◌>>◌,
}
use jetblack_fixengine.Admin.{AdminState, Fields, connected, set_incoming_seqnum}
use jetblack_fixengine.Transport.{
  TransportEvent, TransportMessage, TransportState, fix_received, notice, timeout, timeout_received,
}

-- The interface `Session` of types.py over the state `S` of an implementation, with the laws that
-- its clients rely on. `save_message` may raise.
pub record SessionOps (S : Type 0) : Type 0 where
  pub get_seqnums : S → ℕ × ℕ  -- the outgoing and the incoming number
  pub set_seqnums : ℕ → ℕ → S → S
  pub get_outgoing_seqnum : S → ℕ
  pub get_incoming_seqnum : S → ℕ
  pub set_outgoing_seqnum : ℕ → S → S
  pub set_incoming_seqnum : ℕ → S → S
  pub save_message : Bytes → S → S × Result (Unit {0})
  pub get_seqnums_lem : (s : S) → get_seqnums s ≡ (get_outgoing_seqnum s, get_incoming_seqnum s)
  pub get-set_seqnums : (o i : ℕ) (s : S) → get_seqnums (set_seqnums o i s) ≡ (o, i)
  pub outgoing-set_outgoing : (n : ℕ) (s : S) → get_outgoing_seqnum (set_outgoing_seqnum n s) ≡ n
  pub incoming-set_outgoing :
      (n : ℕ) (s : S) → get_incoming_seqnum (set_outgoing_seqnum n s) ≡ get_incoming_seqnum s
  pub incoming-set_incoming : (n : ℕ) (s : S) → get_incoming_seqnum (set_incoming_seqnum n s) ≡ n
  pub outgoing-set_incoming :
      (n : ℕ) (s : S) → get_outgoing_seqnum (set_incoming_seqnum n s) ≡ get_outgoing_seqnum s
  pub outgoing-save_message :
      (bytes : Bytes) (s : S)
      → get_outgoing_seqnum (after (save_message bytes s)) ≡ get_outgoing_seqnum s
  pub incoming-save_message :
      (bytes : Bytes) (s : S)
      → get_incoming_seqnum (after (save_message bytes s)) ≡ get_incoming_seqnum s

-- An engine with its two state machines, and the world about it. Times are microseconds.
pub record Engine (S : Type 0) : Type 0 where
  pub session : S
  pub is_connected : Bool  -- `self._send` is not None
  pub sent : List TransportMessage  -- what `self._send` was given
  pub last_send_time_utc : Option ℕ
  pub admin_state : AdminState
  pub test_heartbeat_message : Option String
  pub transport_state : TransportState
  pub last_receive_time_utc : ℕ
  pub timeout : ℤ  -- of the initiator
  pub is_stopped : Bool  -- of the initiator: `self._stop_event`
  pub logout_time : Option ℕ  -- of the acceptor
  pub readings : ℕ  -- how often the clock was read
  pub uuids : ℕ  -- how many UUIDs were drawn
  pub waits : ℕ  -- how often the acceptor waited for its logon window

-- A decoded message: `meta_data.msgcat` and its fields.
pub record FixMessage : Type 0 where
  pub msgcat : String
  pub message : Fields

-- What comes from outside: the clock and the UUIDs by the number of their use, jetblack_fixparser's
-- message factory (`create` with `encode`, for messages that it encodes, and `decode`, which may raise),
-- whether a wait was cut short by the cancellation event, and the configuration, its timeouts in seconds.
pub record Environment : Type 0 where
  pub clock : ℕ → ℕ  -- UTC
  pub to_local : ℕ → ℕ  -- the local clock of the configured time zone
  pub uuid4 : ℕ → String
  pub create : String → ℕ → ℕ → Fields → Bytes
  pub decode : Bytes → Option FixMessage
  pub is_cancelled : ℕ → Bool
  pub heartbeat_timeout : ℕ
  pub heartbeat_threshold : ℕ
  pub logon_timeout : ℕ
  pub logon_time_range : Option (ℕ × ℕ)

-- `FIXApplication`: the application's callbacks, which may use the engine and may raise.
pub record FixApplication (S : Type 0) : Type 0 where
  pub on_admin_message : Fields → M (Engine S) (Unit {0})
  pub on_heartbeat : Fields → M (Engine S) (Unit {0})
  pub on_application_message : Fields → M (Engine S) (Unit {0})
  pub on_logon : Fields → M (Engine S) (Unit {0})
  pub on_logout : Fields → M (Engine S) (Unit {0})

module _ {S : Type 0} (env : Environment) where
  -- `self._time_provider.now(timezone.utc)`
  abbrev pub now : M (Engine S) ℕ
  now e = (record e { readings = e.readings + 1 }, ok (env.clock e.readings))

  -- `now(tz)`, in the configured time zone.
  abbrev pub local_now : M (Engine S) ℕ
  local_now e = (record e { readings = e.readings + 1 }, ok (env.to_local (env.clock e.readings)))

  -- `str(uuid.uuid4())`
  abbrev pub new_uuid : M (Engine S) String
  new_uuid e = (record e { uuids = e.uuids + 1 }, ok (env.uuid4 e.uuids))

module _ {S : Type 0} (ops : SessionOps S) where
  abbrev pub outgoing : Engine S → ℕ
  outgoing e = ops.get_outgoing_seqnum e.session

  abbrev pub incoming : Engine S → ℕ
  incoming e = ops.get_incoming_seqnum e.session

  abbrev pub set_outgoing : ℕ → M (Engine S) (Unit {0})
  set_outgoing n = modify (λ e. record e { session = ops.set_outgoing_seqnum n e.session })

  abbrev pub set_incoming : ℕ → M (Engine S) (Unit {0})
  set_incoming n = modify (λ e. record e { session = ops.set_incoming_seqnum n e.session })

  abbrev pub save_message : Bytes → M (Engine S) (Unit {0})
  save_message bytes e =
      let (session, r) = ops.save_message bytes e.session in (record e { session = session }, r)

  -- `_next_outgoing_seqnum`
  unfoldable pub next_outgoing_seqnum : M (Engine S) ℕ
  next_outgoing_seqnum = do seqnum ← gets outgoing; set_outgoing (seqnum + 1); pure (seqnum + 1)

-- `_send_transport_message`
unfoldable pub send_transport_message :
    {S : Type 0} → TransportMessage → ℕ → M (Engine S) (Unit {0})
send_transport_message message send_time e =
    if e.is_connected
    then (record e { sent = e.sent ++ message ∷ []; last_send_time_utc = some send_time }, ok tt)
    else (e, err value_error)

-- The encoded message goes out, or what `create` or `encode` has raised is raised.
abbrev pub transmit : {S : Type 0} → Result Bytes → ℕ → M (Engine S) (Unit {0})
transmit (ok buffer) send_time =
    send_transport_message (record { event = TransportEvent.fix_received; buffer = buffer })
      send_time
transmit (err x) send_time = raise x

module _ {S : Type 0} (env : Environment) (ops : SessionOps S) where
  -- `send_message`, with the factory's `create` and `encode`, which may raise.
  abbrev pub send_encoded :
      (String → ℕ → ℕ → Fields → Result Bytes) → String → Fields → M (Engine S) (Unit {0})
  send_encoded encode msg_type message = do
    send_time ← now env
    msg_seq_num ← next_outgoing_seqnum ops
    transmit (encode msg_type msg_seq_num send_time message) send_time

  -- `send_message` of messages that the factory encodes.
  unfoldable pub send_message : String → Fields → M (Engine S) (Unit {0})
  send_message = send_encoded (λ msg_type msg_seq_num send_time message.
      ok (env.create msg_type msg_seq_num send_time message))

-- `state == TransportState.CONNECTED`
abbrev pub is_up : TransportState → Bool
is_up TransportState.connected = true
is_up _ = false

-- A message of `receive`, or `none` where `asyncio.wait_for` times out.
abbrev pub Input : Type 0
Input = Option TransportMessage

abbrev pub message_of : Input → TransportMessage
message_of none = notice TransportEvent.timeout_received
message_of (some m) = m

-- How `__call__` ends: by its `break`, or, in the model, because no more input comes.
pub data CallEnd : Type 0 where
  left : CallEnd
  waiting : CallEnd
