-- ===== src/Helpers/Connections.antt =====
-- The engines of jetblack_fixengine/acceptor/helpers.py, initiator/helpers.py and
-- managers/initiator_manager.py over the sessions of a store, and one connection after another.
use jetblack_fixengine.Helpers.Config.{
  AcceptorConfig, Factory, InitiatorConfig, StoreOps, Surroundings, acceptor_environment,
  initiator_environment, soh,
}
use jetblack_fixengine.FixTransport.Ends.{connect}
use jetblack_fixengine.FixTransport.{AtShutdown, Event, Processor}
use jetblack_fixengine.Bytes.{Bytes}
use jetblack_fixengine.Acceptor.Call as Accept
use jetblack_fixengine.Initiator.Call as Dial
use jetblack_fixengine.Prelude.{
  Bool, List, Option, String, [], false, none, some, true, ℕ, ◌++◌, ◌∷◌,
}
use jetblack_fixengine.Exceptions.{Exception, M, Result, after, err, pure, raise, ◌>>=◌, ◌>>◌}
use jetblack_fixengine.Transport.{TransportMessage}
use jetblack_fixengine.Engine.{
  CallEnd, Engine, Environment, FixApplication, Input, SessionOps, left, waiting,
}

-- The store, and what the engines have given their connections to send, one connection after another.
pub record Exchange (St : Type 0) : Type 0 where
  pub store : St
  pub sent : List TransportMessage

-- How `initiate` ends: the processor returns or raises, the session's time is over before, or it goes on.
-- Where the time is over, `asyncio.wait` of coroutines may raise: from Python 3.11 on a TypeError.
pub data Ending : Type 0 where
  returned : Ending
  raised : Exception → Ending
  timed_out : Option Exception → Ending
  still_open : Ending

-- A connection: what is about it, what the engine receives, or nothing where it could not be opened, and
-- how it ends.
pub record Visit (Zone : Type 0) : Type 0 where
  pub outside : Surroundings Zone
  pub inputs : Option (List Input)
  pub ending : Ending

module _ {St S : Type 0} (stores : StoreOps St S) where
  -- An engine is made over the session of the names, and works. What it has done to the session it has
  -- done to that of the store.
  abbrev pub worked : {A : Type 0} → String → String → Engine S × Result A → M (Exchange St) A
  worked sender target (e, r) w = (
    record w {
      store = stores.keep_session sender target e.session w.store;
      sent = w.sent ++ e.sent;
    },
    r,
  )

  abbrev pub work :
      {A : Type 0}
      → String
      → String
      → (S → Engine S)
      → M (Engine S) A
      → St × Result S
      → M (Exchange St) A
  work sender target make body (store, Result.ok s) w =
      worked sender target (body (make s)) (record w { store = store })
  work sender target make body (store, err x) w = (record w { store = store }, err x)

  abbrev pub with_session :
      {A : Type 0} → String → String → (S → Engine S) → M (Engine S) A → M (Exchange St) A
  with_session sender target make body w =
      work sender target make body (stores.get_session sender target w.store) w

abbrev pub raise_if : {W : Type 0} → Option Exception → M W (Unit {0})
raise_if none = pure tt
raise_if (some x) = raise x

module _ {S : Type 0} (ops : SessionOps S) (app : FixApplication S) where
  -- `initiate`, as far as the engine goes: nothing where the connection is not opened, and otherwise its
  -- work. Whether the processor raises what the engine has raised is said by the ending.
  abbrev pub initiate : Environment → Option (List Input) → M (Engine S) (Unit {0})
  initiate env none e = (e, Result.ok tt)
  initiate env (some inputs) e = (after (Dial.call env ops app inputs e), Result.ok tt)

  -- What follows `initiate`: the logout and the wait, where the session's time is over.
  abbrev pub finish : Environment → Ending → M (Engine S) CallEnd
  finish env returned = pure left
  finish env (raised x) = raise x
  finish env (timed_out x) = Dial.logout env ops app >> raise_if x >> pure left
  finish env still_open = pure waiting

-- The stream of a connection that `accept` serves, with the options of the configuration, and of one of
-- `initiate`, with its defaults.
unfoldable pub accept_stream :
    {Protocol Zone Context St : Type 0}
    → (Bytes → Bytes → Bool → Bytes)
    → AcceptorConfig Protocol Zone Context St
    → ℕ
    → List Bytes
    → Bool
    → List Event
    → AtShutdown
    → Processor × Result CallEnd
accept_stream calc_checksum config rounds chunks is_set events later =
    connect calc_checksum config.sep config.convert_sep_to_soh_for_checksum config.validate rounds
      chunks is_set events later

unfoldable pub initiate_stream :
    (Bytes → Bytes → Bool → Bytes)
    → ℕ
    → List Bytes
    → Bool
    → List Event
    → AtShutdown
    → Processor × Result CallEnd
initiate_stream calc_checksum rounds chunks is_set events later =
    connect calc_checksum soh false true rounds chunks is_set events later

abbrev pub next_round : {St : Type 0} → M (Exchange St) CallEnd → CallEnd → M (Exchange St) CallEnd
next_round again left = again
next_round again waiting = pure waiting

-- The application's callbacks are given the engine, so they depend on the environment of its connection.
module _ {Protocol Zone Context St S : Type 0} (factory : Protocol → String → String → Factory)
    (stores : StoreOps St S) (ops : SessionOps S) (app : Environment → FixApplication S) where
  -- `accept`: the engine works until its connection is over, or has failed.
  unfoldable pub accept :
      AcceptorConfig Protocol Zone Context St
      → Surroundings Zone
      → List Input
      → M (Exchange St) CallEnd
  accept config outside inputs =
      with_session stores config.sender_comp_id config.target_comp_id Accept.new_engine (
        let env = acceptor_environment factory config outside in
        Accept.call env ops (app env) inputs)

  -- The server goes on, whatever happens in a connection.
  unfoldable pub serve_forever :
      AcceptorConfig Protocol Zone Context St
      → List (Surroundings Zone × List Input)
      → Exchange St
      → Exchange St
  serve_forever config [] w = w
  serve_forever config ((outside, inputs) ∷ rest) w =
      serve_forever config rest (after (accept config outside inputs w))

  -- `start_acceptor`, whose connections come one after another.
  abbrev pub start_acceptor :
      AcceptorConfig Protocol Zone Context St → List (Surroundings Zone × List Input) → Exchange St
  start_acceptor config connections =
      serve_forever config connections (record { store = config.store; sent = [] })

  -- `start_initiator`: one connection, and what `initiate` raises, if it raises.
  unfoldable pub start_initiator :
      InitiatorConfig Protocol Context St
      → Surroundings Zone
      → Option (List Input)
      → Option Exception
      → Exchange St × Result (Unit {0})
  start_initiator config outside inputs x =
      let env = initiator_environment factory config outside in
      with_session stores config.sender_comp_id config.target_comp_id (Dial.new_engine env)
        (initiate ops (app env) env inputs >> raise_if x)
        (record { store = config.store; sent = [] })

  -- One round of the manager: `initiator_factory`, `initiate` and what follows.
  unfoldable pub connect_once :
      InitiatorConfig Protocol Context St → Visit Zone → M (Exchange St) CallEnd
  connect_once config visit =
      let env = initiator_environment factory config visit.outside in
      with_session stores config.sender_comp_id config.target_comp_id (Dial.new_engine env)
        (initiate ops (app env) env visit.inputs >> finish ops (app env) env visit.ending)

  -- The rounds of the manager that `start_initiator_manager` builds. Their times are in Manager.
  unfoldable pub manage :
      InitiatorConfig Protocol Context St → List (Visit Zone) → M (Exchange St) CallEnd
  manage config [] = pure waiting
  manage config (visit ∷ visits) = connect_once config visit >>= next_round (manage config visits)

  abbrev pub start_initiator_manager :
      InitiatorConfig Protocol Context St → List (Visit Zone) → Exchange St × Result CallEnd
  start_initiator_manager config visits =
      manage config visits (record { store = config.store; sent = [] })
