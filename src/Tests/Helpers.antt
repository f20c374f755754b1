-- ===== src/Tests/Helpers.antt =====
-- A server and a manager over a (5, 6), at concrete data.
use jetblack_fixengine.Helpers.Config.{
  AcceptorConfig, Factory, InitiatorConfig, StoreOps, Surroundings, acceptor_config,
  acceptor_environment, initiator_config, initiator_environment,
}
use jetblack_fixengine.Helpers.Connections.{
  Visit, manage, returned, start_acceptor, start_initiator_manager, timed_out,
}
use jetblack_fixengine.Helpers.Continues.{Continues}
use jetblack_fixengine.Helpers.Accepts.{start_acceptor-Continues}
use jetblack_fixengine.Helpers.Reconnects.{start_initiator_manager-Continues, unopened_session}
use jetblack_fixengine.Prelude.{List, String, [], arith, none, refl, some, ℕ, ◌+◌, ◌∷◌, ◌≡◌}
use jetblack_fixengine.Exceptions.{after, err, login_error, ok, pure, raise, value_error}
use jetblack_fixengine.Exceptions.Keeps.{Keeps-pure, Keeps-raise}
use jetblack_fixengine.Admin.{no_fields}
use jetblack_fixengine.Engine.{Environment, FixApplication, Input, send_message}
use jetblack_fixengine.Engine.Numbering.{AppInStep, send_message-InStep}
use jetblack_fixengine.Tests.Data.{inputs, memory, world}

-- A store of one session.
abbrev single : StoreOps (ℕ × ℕ) (ℕ × ℕ)
single = record {
  get_session = λ sender target st. (st, ok st);
  keep_session = λ sender target s st. s;
  get-keep_session = λ sender target s st. refl;
}

-- An application that answers each administrative message with news, and each refused logon.
abbrev talking : Environment → FixApplication (ℕ × ℕ)
talking env = record {
  on_admin_message = λ fields. send_message env memory "NEWS" no_fields;
  on_heartbeat = λ fields. pure tt;
  on_application_message = λ fields. pure tt;
  on_logon = λ fields. raise login_error;
  on_logout = λ fields. send_message env memory "NEWS" no_fields;
}

talking-AppInStep : (env : Environment) (start : ℕ) → AppInStep env memory start (talking env)
talking-AppInStep env start = record {
  admin_message = λ fields. send_message-InStep env memory start "NEWS" no_fields;
  heartbeat = λ fields. Keeps-pure tt;
  application_message = λ fields. Keeps-pure tt;
  logon = λ fields. Keeps-raise login_error;
  logout = λ fields. send_message-InStep env memory start "NEWS" no_fields;
}

abbrev factory : Unit {0} → String → String → Factory
factory protocol sender target = record { create = world.create; decode = world.decode }

abbrev serving : AcceptorConfig (Unit {0}) (Unit {0}) (Unit {0}) (ℕ × ℕ)
serving = acceptor_config "localhost" 9801 tt "ME" "THEM" (5, 6)

abbrev dialling : InitiatorConfig (Unit {0}) (Unit {0}) (ℕ × ℕ)
dialling = initiator_config "localhost" 9801 tt "ME" "THEM" (5, 6)

abbrev about : ℕ → Surroundings (Unit {0})
about day = record {
  clock = λ n. day + world.clock n;
  in_zone = λ tz t. t;
  uuid4 = world.uuid4;
  is_cancelled = world.is_cancelled;
}

abbrev day : ℕ
day = 86400000000

abbrev callers : List (Surroundings (Unit {0}) × List Input)
callers = (about 0, inputs) ∷ (about day, inputs) ∷ []

start_acceptor-Continues_example :
    Continues single memory
      (acceptor_environment factory serving (about 0))
      "ME"
      "THEM"
      5
      (start_acceptor factory single memory talking serving callers)
start_acceptor-Continues_example =
    start_acceptor-Continues factory single memory talking talking-AppInStep 5 serving (about 0)
      callers (5, 6) (5, 6) refl refl

abbrev visits : List (Visit (Unit {0}))
visits =
    record { outside = about 0; inputs = some inputs; ending = timed_out none }
    ∷ record { outside = about day; inputs = some inputs; ending = returned }
    ∷ []

start_initiator_manager-Continues_example :
    Continues single memory
      (initiator_environment factory dialling (about 0))
      "ME"
      "THEM"
      5
      (after (start_initiator_manager factory single memory talking dialling visits))
start_initiator_manager-Continues_example =
    start_initiator_manager-Continues factory single memory talking talking-AppInStep 5 dialling
      (about 0) visits (5, 6) (5, 6) refl refl
      ((λ n. absurd (ground (arith, n))), ((λ n. absurd (ground (arith, n))), tt))

abbrev refused : Visit (Unit {0})
refused = record { outside = about 0; inputs = none; ending = timed_out none }

unopened_session_example :
    let (w, r) =
      manage factory single memory talking dialling
        (refused ∷ visits)
        (record { store = (5, 6); sent = [] }) in
    (r ≡ err value_error)
    × (w.sent ≡ [])
    × ((s : ℕ × ℕ) × (single.get_session "ME" "THEM" w.store ≡ (w.store, ok s)) × (s.0 ≡ 6))
unopened_session_example =
    unopened_session factory single memory talking dialling refused visits none
      (record { store = (5, 6); sent = [] }) (5, 6) (5, 6) refl refl refl
