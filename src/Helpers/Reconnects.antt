-- ===== src/Helpers/Reconnects.antt =====
-- The numbers of the messages over the connections of jetblack_fixengine's manager.
use jetblack_fixengine.Helpers.Continues.{
  Continues, InStep-Sends, IsNumbered-create, with_session-Continues,
}
use jetblack_fixengine.Helpers.Config.{
  Factory, InitiatorConfig, StoreOps, Surroundings, initiator_environment,
}
use jetblack_fixengine.Admin.{no_fields}
use jetblack_fixengine.Helpers.Connections.{
  Ending, Exchange, Visit, connect_once, finish, initiate, manage, next_round, raise_if, raised,
  returned, start_initiator_manager, still_open, timed_out,
}
use jetblack_fixengine.Initiator.Call as Dial
use jetblack_fixengine.Engine.Numbering.{AppInStep, InStep, IsNumbered, send_message-InStep}
use jetblack_fixengine.Exceptions.Keeps.{Keeps, Keeps-bind, Keeps-pure, Keeps-raise, Keeps-then}
use jetblack_fixengine.Prelude.{
  List, Option, String, [], append-nil, arith, length, none, refl, some, ℕ, ◌+◌, ◌∷◌, ◌≡◌, ◌≢◌,
}
use jetblack_fixengine.Exceptions.{Exception, M, after, err, ok, value_error, ◌>>◌}
use jetblack_fixengine.Engine.{
  CallEnd, Environment, FixApplication, Input, SessionOps, left, next_outgoing_seqnum, send_message,
  send_transport_message, waiting,
}
use jetblack_fixengine.Initiator.Runs.{call-InStep}

-- The manager's connection is opened before the session's time is over.
abbrev pub IsOpened : {Zone : Type 0} → Visit Zone → Type 0
IsOpened visit = visit.inputs ≡ none → (x : Option Exception) → visit.ending ≢ timed_out x

abbrev pub AllOpened : {Zone : Type 0} → List (Visit Zone) → Type 0
AllOpened [] = Unit {0}
AllOpened (visit ∷ visits) = IsOpened visit × AllOpened visits

module _ {S : Type 0} (env : Environment) (ops : SessionOps S) (app : FixApplication S) where
  raise_if-InStep : (first : ℕ) (x : Option Exception) → Keeps (InStep env ops first) (raise_if x)
  raise_if-InStep first none = Keeps-pure tt
  raise_if-InStep first (some x) = Keeps-raise x

  finish-InStep :
      (first : ℕ) (ending : Ending) → Keeps (InStep env ops first) (finish ops app env ending)
  unfolding Dial.logout
  finish-InStep first returned = Keeps-pure left
  finish-InStep first (raised x) = Keeps-raise x
  finish-InStep first (timed_out x) =
      Keeps-then _ _
        (Keeps-then _ _ (send_message-InStep env ops first "LOGOUT" no_fields)
          (raise_if-InStep first x))
        (Keeps-pure left)
  finish-InStep first still_open = Keeps-pure waiting

  idle-Sends :
      (s : S) (ending : Ending)
      → ((x : Option Exception) → ending ≢ timed_out x)
      → let e = after (finish ops app env ending (Dial.new_engine env s)) in
        (ops.get_outgoing_seqnum e.session ≡ ops.get_outgoing_seqnum s + length e.sent)
        × IsNumbered env (ops.get_outgoing_seqnum s) e.sent
  idle-Sends s returned h = (omega arith, tt)
  idle-Sends s (raised x) h = (omega arith, tt)
  idle-Sends s (timed_out x) h = absurd (h x refl)
  idle-Sends s still_open h = (omega arith, tt)

  visit-Sends :
      (s : S) (inputs : Option (List Input)) (ending : Ending)
      → AppInStep env ops (ops.get_outgoing_seqnum s) app
      → (inputs ≡ none → (x : Option Exception) → ending ≢ timed_out x)
      → let e =
          after
            ((initiate ops app env inputs >> finish ops app env ending) (Dial.new_engine env s)) in
        (ops.get_outgoing_seqnum e.session ≡ ops.get_outgoing_seqnum s + length e.sent)
        × IsNumbered env (ops.get_outgoing_seqnum s) e.sent
  visit-Sends s none ending k h = idle-Sends s ending (h refl)
  visit-Sends s (some inputs) ending k h =
      let n = ops.get_outgoing_seqnum s in
      InStep-Sends env ops n s _ refl (
        (finish-InStep n ending).at _
          (call-InStep env ops app n k inputs (Dial.new_engine env s) refl refl))

module _ {Protocol Zone Context St S : Type 0} (factory : Protocol → String → String → Factory)
    (stores : StoreOps St S) (ops : SessionOps S) (app : Environment → FixApplication S)
    (k : (env : Environment) (start : ℕ) → AppInStep env ops start (app env)) (start : ℕ) where
  module _ (config : InitiatorConfig Protocol Context St) (outside : Surroundings Zone) where
    abbrev initiator_env : Environment
    initiator_env = initiator_environment factory config outside

    abbrev Connects : Exchange St → Type 0
    Connects = Continues stores ops initiator_env config.sender_comp_id config.target_comp_id start

    connect_once-Continues :
        (visit : Visit Zone)
        → IsOpened visit
        → Keeps Connects (connect_once factory stores ops app config visit)
    unfolding connect_once
    connect_once-Continues visit h =
        let env = initiator_environment factory config visit.outside in
        with_session-Continues stores ops initiator_env config.sender_comp_id config.target_comp_id
          start (Dial.new_engine env)
          (initiate ops (app env) env visit.inputs >> finish ops (app env) env visit.ending)
          (λ s.
            let (c, n) =
              visit-Sends env ops (app env) s visit.inputs visit.ending
                (k env (ops.get_outgoing_seqnum s)) h in
            (c, IsNumbered-create env initiator_env (ops.get_outgoing_seqnum s) _ refl n))

    next-Continues :
        (again : M (Exchange St) CallEnd) (r : CallEnd)
        → Keeps Connects again
        → Keeps Connects (next_round again r)
    next-Continues again left h = h
    next-Continues again waiting h = Keeps-pure waiting

    manage-Continues :
        (visits : List (Visit Zone))
        → AllOpened visits
        → Keeps Connects (manage factory stores ops app config visits)
    unfolding manage
    manage-Continues [] h = Keeps-pure waiting
    manage-Continues (visit ∷ visits) h = Keeps-bind _ _ (connect_once-Continues visit h.0) (λ r.
        next-Continues (manage factory stores ops app config visits) r
          (manage-Continues visits h.1))

  -- A manager over a store that gives the session of its names, whose outgoing number is `start`: over any
  -- number of connections, whatever each one receives, and whether it is over, raises, or is logged out
  -- when the session's time has passed, the messages that its engines send carry the numbers that follow
  -- `start`, one by one and without a gap, from the first connection to the last, and the store's session
  -- has the number of the last one. The application may send messages, but must keep the numbering of the
  -- connection's engine, as sending through it does, and each connection must have been opened where the
  -- session's time passes.
  pub start_initiator_manager-Continues :
      (config : InitiatorConfig Protocol Context St) (outside : Surroundings Zone)
      (visits : List (Visit Zone)) (st : St) (s : S)
      → stores.get_session config.sender_comp_id config.target_comp_id config.store ≡ (st, ok s)
      → ops.get_outgoing_seqnum s ≡ start
      → AllOpened visits
      → Continues stores ops
          (initiator_environment factory config outside)
          config.sender_comp_id
          config.target_comp_id
          start
          (after (start_initiator_manager factory stores ops app config visits))
  start_initiator_manager-Continues config outside visits st s g o h =
      (manage-Continues config outside visits h).at (record { store = config.store; sent = [] })
        (record { session = s; store = st; given = g; counted = omega (arith, o); numbered = tt })

module _ {Protocol Zone Context St S : Type 0} (factory : Protocol → String → String → Factory)
    (stores : StoreOps St S) (ops : SessionOps S) (app : Environment → FixApplication S) where
  -- A manager, over a store that gives the session of its names, whose session's time passes before the
  -- connection is opened: the logout of the engine, which is not connected, raises a ValueError, which ends
  -- the manager, whatever rounds were to come. Nothing has been sent, but the session's outgoing number has
  -- gone up by one.
  pub unopened_session :
      (config : InitiatorConfig Protocol Context St) (visit : Visit Zone)
      (visits : List (Visit Zone)) (waits : Option Exception) (w : Exchange St) (st : St) (s : S)
      → stores.get_session config.sender_comp_id config.target_comp_id w.store ≡ (st, ok s)
      → visit.inputs ≡ none
      → visit.ending ≡ timed_out waits
      → let (w', r) = manage factory stores ops app config (visit ∷ visits) w in
        (r ≡ err value_error)
        × (w'.sent ≡ w.sent)
        × ((s' : S) × (stores.get_session config.sender_comp_id config.target_comp_id w'.store
              ≡ (w'.store, ok s'))
            × (ops.get_outgoing_seqnum s' ≡ ops.get_outgoing_seqnum s + 1))
  unfolding manage connect_once Dial.logout send_message next_outgoing_seqnum send_transport_message
  unopened_session config visit visits waits w st s g i t =
      rw (g, i, t)
        (
          refl,
          append-nil w.sent,
          (
            ops.set_outgoing_seqnum (ops.get_outgoing_seqnum s + 1) s,
            stores.get-keep_session config.sender_comp_id config.target_comp_id _ st,
            ops.outgoing-set_outgoing _ s,
          ),
        )
