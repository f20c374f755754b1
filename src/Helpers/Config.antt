-- ===== src/Helpers/Config.antt =====
-- The configurations of jetblack_fixengine/acceptor/types.py and initiator/types.py, and what an engine
-- takes of them.

use jetblack_fixengine.Prelude.{Bool, Option, String, [], false, none, true, ℕ, ◌∷◌, ◌≡◌}
use jetblack_fixengine.Bytes.{Bytes}
use jetblack_fixengine.Admin.{Fields}
use jetblack_fixengine.Exceptions.{M, ok}
use jetblack_fixengine.Engine.{Environment, FixMessage}

-- `SOH` of jetblack_fixparser
abbrev pub soh : Bytes
soh = 1 ∷ []

-- `AcceptorConfig`, and its defaults. `Protocol`, `Zone` and `Context` are the types of the protocols of
-- jetblack_fixparser, of time zones and of SSL contexts, `St` that of the stores. Times are microseconds.
pub record AcceptorConfig (Protocol Zone Context St : Type 0) : Type 0 where
  pub host : String
  pub port : ℕ
  pub protocol : Protocol
  pub sender_comp_id : String
  pub target_comp_id : String
  pub store : St
  pub ssl : Option Context
  pub client_shutdown_timeout : ℕ
  pub sep : Bytes
  pub convert_sep_to_soh_for_checksum : Bool
  pub validate : Bool
  pub heartbeat_timeout : ℕ
  pub heartbeat_threshold : ℕ
  pub logon_time_range : Option (ℕ × ℕ)
  pub tz : Option Zone

abbrev pub acceptor_config :
    {Protocol Zone Context St : Type 0}
    → String
    → ℕ
    → Protocol
    → String
    → String
    → St
    → AcceptorConfig Protocol Zone Context St
acceptor_config host port protocol sender_comp_id target_comp_id store = record {
  host = host;
  port = port;
  protocol = protocol;
  sender_comp_id = sender_comp_id;
  target_comp_id = target_comp_id;
  store = store;
  ssl = none;
  client_shutdown_timeout = 10000000;
  sep = soh;
  convert_sep_to_soh_for_checksum = false;
  validate = true;
  heartbeat_timeout = 30;
  heartbeat_threshold = 1;
  logon_time_range = none;
  tz = none;
}

-- `InitiatorConfig`, and its defaults.
pub record InitiatorConfig (Protocol Context St : Type 0) : Type 0 where
  pub host : String
  pub port : ℕ
  pub protocol : Protocol
  pub sender_comp_id : String
  pub target_comp_id : String
  pub store : St
  pub ssl : Option Context
  pub logon_timeout : ℕ
  pub heartbeat_timeout : ℕ
  pub shutdown_timeout : ℕ
  pub heartbeat_threshold : ℕ

abbrev pub initiator_config :
    {Protocol Context St : Type 0}
    → String
    → ℕ
    → Protocol
    → String
    → String
    → St
    → InitiatorConfig Protocol Context St
initiator_config host port protocol sender_comp_id target_comp_id store = record {
  host = host;
  port = port;
  protocol = protocol;
  sender_comp_id = sender_comp_id;
  target_comp_id = target_comp_id;
  store = store;
  ssl = none;
  logon_timeout = 60;
  heartbeat_timeout = 30;
  shutdown_timeout = 10000000;
  heartbeat_threshold = 1;
}

-- The interface `Store` of types.py over the state `St` of an implementation, whose sessions have the
-- state `S`. A session is an object that the store holds: `keep_session` is the store once the session
-- has changed, and gives the session that was kept.
pub record StoreOps (St S : Type 0) : Type 0 where
  pub get_session : String → String → M St S
  pub keep_session : String → String → S → St → St
  pub get-keep_session :
      (sender target : String) (s : S) (st : St)
      → get_session sender target (keep_session sender target s st)
        ≡ (keep_session sender target s st, ok s)

-- `FixMessageFactory` of jetblack_fixparser, for a protocol and the names.
pub record Factory : Type 0 where
  pub create : String → ℕ → ℕ → Fields → Bytes
  pub decode : Bytes → Option FixMessage

-- What one connection takes from outside: the clocks, the UUIDs, and whether a wait is cancelled.
pub record Surroundings (Zone : Type 0) : Type 0 where
  pub clock : ℕ → ℕ
  pub in_zone : Option Zone → ℕ → ℕ
  pub uuid4 : ℕ → String
  pub is_cancelled : ℕ → Bool

module _ {Protocol Zone Context St : Type 0} (factory : Protocol → String → String → Factory) where
  -- `AcceptorEngine(...)` in `accept`: what the engine takes from the configuration, and its own default
  -- for the logon timeout.
  abbrev pub acceptor_environment :
      AcceptorConfig Protocol Zone Context St → Surroundings Zone → Environment
  acceptor_environment config outside =
      let codec = factory config.protocol config.sender_comp_id config.target_comp_id in
      record {
        clock = outside.clock;
        to_local = outside.in_zone config.tz;
        uuid4 = outside.uuid4;
        create = codec.create;
        decode = codec.decode;
        is_cancelled = outside.is_cancelled;
        heartbeat_timeout = config.heartbeat_timeout;
        heartbeat_threshold = config.heartbeat_threshold;
        logon_timeout = 60;
        logon_time_range = config.logon_time_range;
      }

  -- `InitiatorEngine(...)`, in `start_initiator` and in `initiator_factory`.
  abbrev pub initiator_environment :
      InitiatorConfig Protocol Context St → Surroundings Zone → Environment
  initiator_environment config outside =
      let codec = factory config.protocol config.sender_comp_id config.target_comp_id in
      record {
        clock = outside.clock;
        to_local = outside.in_zone none;
        uuid4 = outside.uuid4;
        create = codec.create;
        decode = codec.decode;
        is_cancelled = outside.is_cancelled;
        heartbeat_timeout = config.heartbeat_timeout;
        heartbeat_threshold = config.heartbeat_threshold;
        logon_timeout = config.logon_timeout;
        logon_time_range = none;
      }
