-- ===== src/Helpers/Accepts.antt =====
-- The numbers of the messages over the connections of jetblack_fixengine's server.
use jetblack_fixengine.Helpers.Continues.{
  Continues, InStep-Sends, InStep-create, with_session-Continues,
}
use jetblack_fixengine.Helpers.Config.{
  AcceptorConfig, Factory, StoreOps, Surroundings, acceptor_environment,
}
use jetblack_fixengine.Helpers.Connections.{Exchange, accept, serve_forever, start_acceptor}
use jetblack_fixengine.Acceptor.Call as Accept
use jetblack_fixengine.Engine.Numbering.{AppInStep}
use jetblack_fixengine.Exceptions.Keeps.{Keeps}
use jetblack_fixengine.Prelude.{List, String, [], arith, refl, ℕ, ◌∷◌, ◌≡◌}
use jetblack_fixengine.Exceptions.{ok}
use jetblack_fixengine.Engine.{Environment, FixApplication, Input, SessionOps}
use jetblack_fixengine.Acceptor.Runs.{accept-InStep}

module _ {Protocol Zone Context St S : Type 0} (factory : Protocol → String → String → Factory)
    (stores : StoreOps St S) (ops : SessionOps S) (app : Environment → FixApplication S)
    (k : (env : Environment) (start : ℕ) → AppInStep env ops start (app env)) (start : ℕ) where
  module _ (config : AcceptorConfig Protocol Zone Context St) (outside : Surroundings Zone) where
    abbrev acceptor_env : Environment
    acceptor_env = acceptor_environment factory config outside

    abbrev Accepts : Exchange St → Type 0
    Accepts = Continues stores ops acceptor_env config.sender_comp_id config.target_comp_id start

    accept-Continues :
        (other : Surroundings Zone) (inputs : List Input)
        → Keeps Accepts (accept factory stores ops app config other inputs)
    unfolding accept
    accept-Continues other inputs =
        let env = acceptor_environment factory config other in
        with_session-Continues stores ops acceptor_env config.sender_comp_id config.target_comp_id
          start Accept.new_engine (Accept.call env ops (app env) inputs)
          (λ s.
            let n = ops.get_outgoing_seqnum s in
            InStep-Sends acceptor_env ops n s _ refl (
              InStep-create env acceptor_env ops n _ refl (
                accept-InStep env ops (app env) n (k env n) inputs (Accept.new_engine s) refl
                  refl)))

    serve_forever-Continues :
        (connections : List (Surroundings Zone × List Input)) (w : Exchange St)
        → Accepts w
        → Accepts (serve_forever factory stores ops app config connections w)
    unfolding serve_forever
    serve_forever-Continues [] w h = h
    serve_forever-Continues ((other, inputs) ∷ rest) w h =
        serve_forever-Continues rest _ ((accept-Continues other inputs).at w h)

  -- A server over a store that gives the session of its names, whose outgoing number is `start`: over any
  -- number of connections, one after another, whatever each one receives and whether it ends, waits or
  -- raises, the messages that its engines send carry the numbers that follow `start`, one by one and
  -- without a gap, from the first connection to the last, and the store's session has the number of the
  -- last one. The application may send messages, in any of its callbacks, but must keep the numbering of
  -- the connection's engine, as sending through it does.
  pub start_acceptor-Continues :
      (config : AcceptorConfig Protocol Zone Context St) (outside : Surroundings Zone)
      (connections : List (Surroundings Zone × List Input)) (st : St) (s : S)
      → stores.get_session config.sender_comp_id config.target_comp_id config.store ≡ (st, ok s)
      → ops.get_outgoing_seqnum s ≡ start
      → Continues stores ops
          (acceptor_environment factory config outside)
          config.sender_comp_id
          config.target_comp_id
          start
          (start_acceptor factory stores ops app config connections)
  start_acceptor-Continues config outside connections st s g o =
      serve_forever-Continues config outside connections
        (record { store = config.store; sent = [] })
        (record { session = s; store = st; given = g; counted = omega (arith, o); numbered = tt })
