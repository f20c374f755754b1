-- ===== src/Tests/Data.antt =====
-- A session in memory, a world, applications and engines, for the tests.
use jetblack_fixengine.Prelude.{
  List, [], false, none, pos, refl, some, true, ℕ, ◌*◌, ◌++◌, ◌+◌, ◌∷◌,
}
use jetblack_fixengine.Bytes.{codes}
use jetblack_fixengine.Exceptions.{login_error, ok, pure, raise}
use jetblack_fixengine.Exceptions.Keeps.{Keeps-pure}
use jetblack_fixengine.Admin.{AdminState, Fields}
use jetblack_fixengine.Transport.{TransportEvent, TransportState, notice}
use jetblack_fixengine.Engine.{Engine, Environment, FixApplication, Input, SessionOps}
use jetblack_fixengine.Engine.Numbering.{AppInStep}
use jetblack_fixengine.Engine.Stays.{AppStays}

-- A session of an outgoing and an incoming number, which stores no messages.
abbrev pub memory : SessionOps (ℕ × ℕ)
memory = record {
  get_seqnums = λ s. s;
  set_seqnums = λ o i s. (o, i);
  get_outgoing_seqnum = λ s. s.0;
  get_incoming_seqnum = λ s. s.1;
  set_outgoing_seqnum = λ n s. (n, s.1);
  set_incoming_seqnum = λ n s. (s.0, n);
  save_message = λ bytes s. (s, ok tt);
  get_seqnums_lem = λ s. refl;
  get-set_seqnums = λ o i s. refl;
  outgoing-set_outgoing = λ n s. refl;
  incoming-set_outgoing = λ n s. refl;
  incoming-set_incoming = λ n s. refl;
  outgoing-set_incoming = λ n s. refl;
  outgoing-save_message = λ bytes s. refl;
  incoming-save_message = λ bytes s. refl;
}

-- The fields of the message that the environment decodes.
abbrev pub received_fields : Fields
received_fields = record {
  ints = ("MsgSeqNum", 7) ∷ ("NewSeqNo", 12) ∷ [];
  texts = ("MsgType", "SEQUENCE_RESET") ∷ ("TestReqID", "again") ∷ [];
  flags = [];
}

-- A clock that starts after a hundred seconds and goes a second at each reading.
abbrev pub world : Environment
world = record {
  clock = λ n. 100000000 + n * 1000000;
  to_local = λ t. t + 3600000000;
  uuid4 = λ n. "token";
  create = λ t n time fields. codes t ++ n ∷ [];
  decode = λ bytes. some (record { msgcat = "admin"; message = received_fields });
  is_cancelled = λ n. false;
  heartbeat_timeout = 30;
  heartbeat_threshold = 1;
  logon_timeout = 60;
  logon_time_range = some (0, 72000000000);
}

-- An application that does nothing, and one that accepts no logon.
abbrev pub quiet : FixApplication (ℕ × ℕ)
quiet = record {
  on_admin_message = λ fields. pure tt;
  on_heartbeat = λ fields. pure tt;
  on_application_message = λ fields. pure tt;
  on_logon = λ fields. pure tt;
  on_logout = λ fields. pure tt;
}

abbrev pub strict : FixApplication (ℕ × ℕ)
strict = record quiet { on_logon = λ fields. raise login_error }

pub quiet-AppInStep : (start : ℕ) → AppInStep world memory start quiet
quiet-AppInStep start = record {
  admin_message = λ fields. Keeps-pure tt;
  heartbeat = λ fields. Keeps-pure tt;
  application_message = λ fields. Keeps-pure tt;
  logon = λ fields. Keeps-pure tt;
  logout = λ fields. Keeps-pure tt;
}

pub strict-AppStays : AppStays strict
strict-AppStays = record {
  heartbeat = λ s fields. record { at = λ e h. h };
  logon_keeps = λ fields e. refl;
  logon = λ s fields. record { at = λ e h. refl };
  logout = λ s fields. record { at = λ e h. h };
}

-- An engine in the middle of a session: connected, and last active at the start of time.
abbrev pub engine : AdminState → Engine (ℕ × ℕ)
engine s = record {
  session = (5, 6);
  is_connected = true;
  sent = [];
  last_send_time_utc = some 0;
  admin_state = s;
  test_heartbeat_message = none;
  transport_state = TransportState.connected;
  last_receive_time_utc = 0;
  timeout = pos 0;
  is_stopped = false;
  logout_time = some 3600000000;
  readings = 0;
  uuids = 0;
  waits = 0;
}

abbrev pub inputs : List Input
inputs =
    some (notice TransportEvent.connection_received)
    ∷ none
    ∷ some (record { event = TransportEvent.fix_received; buffer = codes "logon" })
    ∷ []
