-- ===== src/Tests/Peers.antt =====
-- An initiator and an acceptor over sessions in memory, that read each other's messages.
use jetblack_fixengine.Prelude.{List, Option, String, [], arith, none, refl, some, ℕ, ◌∷◌, ◌≡◌}
use jetblack_fixengine.Bytes.{Bytes, codes}
use jetblack_fixengine.Engine.{Engine, Environment, FixMessage}
use jetblack_fixengine.Peers.{IsPassive, IsRead, Reads}
use jetblack_fixengine.Initiator.{logon_fields, text_field}
use jetblack_fixengine.Peers.Refusal.{
  IsLost, IsRefused, IsRefusing, first_inputs, logon-IsRefused, refusal,
}
use jetblack_fixengine.Exceptions.{login_error}
use jetblack_fixengine.Transport.{TransportMessage}
use jetblack_fixengine.Peers.Dialling.{logon_message}
use jetblack_fixengine.Peers.Leaving.{IsLeft, Leaves, logout_message, logout_unanswered}
use jetblack_fixengine.Peers.Rally.{IsLonger, IsRallying, rally, rally-endless}
use jetblack_fixengine.Engine.Sending.{fix_message}
use jetblack_fixengine.Peers.Handshake.{Agree, acceptor_inputs, handshake, initiator_inputs}
use jetblack_fixengine.Tests.Data.{engine, memory, quiet, strict, world}
use jetblack_fixengine.Initiator.Call.{call, logout, new_engine}
use jetblack_fixengine.Initiator.Call as Dial
use jetblack_fixengine.Admin.{AdminState, lookup, no_fields}
use jetblack_fixengine.Peers.Echo.{IsOnline}
use jetblack_fixengine.Acceptor as Answer
use jetblack_fixengine.Acceptor.Call as Accept

-- A wire that carries the number of a LOGON, and a code of its type.
abbrev read_logon : Bytes → Option FixMessage
read_logon [] = none
read_logon (n ∷ _) = some (record {
  msgcat = "admin";
  message = record {
    ints = ("MsgSeqNum", n) ∷ [];
    texts = ("EncryptMethod", "NONE") ∷ ("MsgType", "LOGON") ∷ [];
    flags = [];
  };
})

abbrev wire : Environment
wire = record world { create = λ t n time fields. n ∷ codes t; decode = read_logon }

-- A text that one field has is found first among more fields.
lookup-first :
    (j v key value : String) (rest : List (String × String))
    → lookup key ((j, v) ∷ []) ≡ some value
    → lookup key ((j, v) ∷ rest) ≡ some value
unfolding lookup
lookup-first j v key value rest h = ground (arith, h)

wire-Reads : Reads wire wire "LOGON" (logon_fields 30)
unfolding lookup
wire-Reads n time = (
  _,
  refl,
  record {
    category = refl;
    typed = refl;
    numbered = refl;
    texts =
        λ key value h. lookup-first "EncryptMethod" "NONE" key value (("MsgType", "LOGON") ∷ []) h;
  },
)

quiet-IsPassive : IsPassive quiet
quiet-IsPassive = record {
  admin_message = λ fields e. refl;
  heartbeat = λ fields e. refl;
  logon = λ fields e. refl;
  logout = λ fields e. refl;
}

handshake_example :
    Agree wire memory quiet
      (5, 6)
      wire
      memory
      quiet
      (7, 8)
      (Dial.call wire memory quiet
        (initiator_inputs wire memory quiet (5, 6) wire memory quiet (7, 8))
        (Dial.new_engine wire (5, 6)))
      (Accept.call wire memory quiet
        (acceptor_inputs wire memory quiet (5, 6) wire memory quiet (7, 8))
        (Accept.new_engine (7, 8)))
handshake_example =
    handshake wire memory quiet (5, 6) wire memory quiet (7, 8) wire-Reads wire-Reads
      quiet-IsPassive quiet-IsPassive (λ _ _. refl) (λ _ _. refl) refl

-- A wire that carries the number of a test request.
abbrev read_test : Bytes → Option FixMessage
read_test [] = none
read_test (n ∷ _) = some (record {
  msgcat = "admin";
  message = record {
    ints = ("MsgSeqNum", n) ∷ [];
    texts = ("TestReqID", "again") ∷ ("MsgType", "TEST_REQUEST") ∷ [];
    flags = [];
  };
})

abbrev test_wire : Environment
test_wire = record wire { decode = read_test }

test_wire-IsRead :
    (n : ℕ) (rest : Bytes)
    → (m : FixMessage) × (read_test (n ∷ rest) ≡ some m)
      × IsRead "TEST_REQUEST" n (text_field "TestReqID" "again") m
unfolding lookup
test_wire-IsRead n rest = (
  _,
  refl,
  record {
    category = refl;
    typed = refl;
    numbered = refl;
    texts = λ key value h.
        lookup-first "TestReqID" "again" key value (("MsgType", "TEST_REQUEST") ∷ []) h;
  },
)

test_wire-Reads : Reads test_wire test_wire "TEST_REQUEST" (text_field "TestReqID" "again")
test_wire-Reads n time = test_wire-IsRead n (codes "TEST_REQUEST")

abbrev asking : Engine (ℕ × ℕ)
asking = record (engine AdminState.authenticated) {
  session = (7, 5);
  sent = fix_message (7 ∷ []) ∷ [];
}

asking-IsRallying :
    IsRallying test_wire memory quiet test_wire memory quiet "again"
      (engine AdminState.authenticated, asking)
asking-IsRallying = record {
  initiator = record { authenticated = refl; sending = refl; connected = refl };
  acceptor = record { authenticated = refl; sending = refl; connected = refl };
  buffer = 7 ∷ [];
  served = refl;
  read = let (m, d, r) = test_wire-IsRead 7 [] in (7, m, d, r);
  numbered = refl;
  heard = refl;
  due = refl;
}

rally-endless_example :
    (pair : Engine (ℕ × ℕ) × Engine (ℕ × ℕ)) × (rally test_wire memory quiet test_wire memory quiet
        3
        (some (engine AdminState.authenticated, asking))
      ≡ some pair)
    × IsRallying test_wire memory quiet test_wire memory quiet "again" pair
    × IsLonger test_wire memory quiet test_wire memory quiet "again"
        (engine AdminState.authenticated, asking)
        pair
        3
rally-endless_example =
    rally-endless test_wire memory quiet test_wire memory quiet "again" test_wire-Reads
      test_wire-Reads quiet-IsPassive quiet-IsPassive (λ _ _. refl) (λ _ _. refl) 3
      (engine AdminState.authenticated) asking asking-IsRallying

-- A wire that carries the number of a LOGOUT.
abbrev read_logout : Bytes → Option FixMessage
read_logout [] = none
read_logout (n ∷ _) = some (record {
  msgcat = "admin";
  message = record { ints = ("MsgSeqNum", n) ∷ []; texts = ("MsgType", "LOGOUT") ∷ []; flags = [] };
})

abbrev last_wire : Environment
last_wire = record wire { decode = read_logout }

last_wire-Reads : Reads last_wire last_wire "LOGOUT" no_fields
unfolding lookup
last_wire-Reads n time = (
  _,
  refl,
  record {
    category = refl;
    typed = refl;
    numbered = refl;
    texts = λ key value h. absurd (ground (arith, h));
  },
)

engine-IsOnline : IsOnline (engine AdminState.authenticated)
engine-IsOnline = record { authenticated = refl; sending = refl; connected = refl }

abbrev online : Engine (ℕ × ℕ)
online = engine AdminState.authenticated

logout_unanswered_example :
    Leaves last_wire memory quiet last_wire memory quiet online
      (logout last_wire memory quiet online)
    × IsLeft last_wire memory quiet last_wire memory quiet online (
        Answer.process_message last_wire memory quiet
          (logout_message last_wire memory quiet last_wire memory quiet online)
          online)
logout_unanswered_example =
    logout_unanswered last_wire memory quiet last_wire memory quiet online online last_wire-Reads
      quiet-IsPassive (λ _ _. refl) engine-IsOnline engine-IsOnline

strict-IsRefusing : IsRefusing strict login_error
strict-IsRefusing = record {
  admin_message = λ fields e. refl;
  logon = λ fields e. refl;
  logout = λ fields e. refl;
}

abbrev farewell : TransportMessage
farewell = refusal last_wire memory quiet (5, 6) wire memory strict (7, 8)

logon-IsRefused_example :
    IsRefused last_wire memory quiet
      (5, 6)
      wire
      memory
      strict
      (7, 8)
      (Accept.call wire memory strict
        (first_inputs (logon_message last_wire memory quiet (5, 6)))
        (Accept.new_engine (7, 8)))
    × IsLost last_wire memory quiet
        (5, 6)
        wire
        memory
        strict
        (7, 8)
        (Dial.call last_wire memory quiet
          (first_inputs farewell)
          (Dial.new_engine last_wire (5, 6)))
logon-IsRefused_example =
    logon-IsRefused last_wire memory quiet (5, 6) wire memory strict (7, 8) login_error wire-Reads
      last_wire-Reads quiet-IsPassive strict-IsRefusing (λ _ _. refl) (λ _ _. refl) refl
