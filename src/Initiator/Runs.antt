-- ===== src/Initiator/Runs.antt =====
-- The numbering over whole runs of the initiator's `__call__`.
use jetblack_fixengine.Prelude.{
  List, Option, [], arith, none, pos, refl, some, true, ℕ, ◌∙◌, ◌∷◌, ◌≡◌,
}
use jetblack_fixengine.Exceptions.{M, after, modify, type_error, ◌>>=◌}
use jetblack_fixengine.Exceptions.Keeps.{
  Keeps, Keeps-bind, Keeps-branch, Keeps-if, Keeps-pure, Keeps-raise, Keeps-then,
}
use jetblack_fixengine.Admin.{no_fields}
use jetblack_fixengine.Transport.{TransportState}
use jetblack_fixengine.Engine.{
  CallEnd, Engine, Environment, FixApplication, Input, SessionOps, is_up, left, message_of, now,
  outgoing, waiting,
}
use jetblack_fixengine.Engine.Numbering.{
  AppInStep, InStep, modify-InStep, now-InStep, send_message-InStep,
}
use jetblack_fixengine.Initiator.Numbering.{process_message-InStep}
use jetblack_fixengine.TransportMachine.{seconds}
use jetblack_fixengine.Initiator.Call.{
  call, call_loop, call_round, go_on, heartbeat_at, heartbeat_since, next_message,
  send_heartbeat_if_required, set_timeout,
}

module _ {S : Type 0} (env : Environment) (ops : SessionOps S) (app : FixApplication S) (start : ℕ)
    (k : AppInStep env ops start app) where
  abbrev Numbered : Engine S → Type 0
  Numbered = InStep env ops start

  set_timeout-keeps : (last time : ℕ) → Keeps Numbered (set_timeout env ops app last time)
  set_timeout-keeps last time = modify-InStep env ops start _ (λ e. (refl, refl, refl))

  heartbeat_since-keeps :
      (o : Option ℕ) (time : ℕ) → Keeps Numbered (heartbeat_since env ops app o time)
  heartbeat_since-keeps none time = Keeps-raise type_error
  heartbeat_since-keeps (some last) time =
      Keeps-branch _ _ _
        (Keeps-then _ _ (send_message-InStep env ops start "HEARTBEAT" no_fields)
          (set_timeout-keeps 0 0))
        (set_timeout-keeps last time)

  heartbeat_at-keeps : (time : ℕ) → Keeps Numbered (heartbeat_at env ops app time)
  heartbeat_at-keeps time = record {
    at = λ e. (heartbeat_since-keeps e.last_send_time_utc time).at e;
  }

  abbrev idle_timeout : Engine S → Engine S
  idle_timeout e = record e { timeout = pos (seconds env.logon_timeout) }

  heartbeat-keeps : Keeps Numbered (send_heartbeat_if_required env ops app)
  unfolding send_heartbeat_if_required
  heartbeat-keeps =
      Keeps-branch _ (now env >>= heartbeat_at env ops app) (modify idle_timeout)
        (Keeps-bind (now env) (heartbeat_at env ops app) (now-InStep env ops start)
          heartbeat_at-keeps)
        (modify-InStep env ops start idle_timeout (λ e. (refl, refl, refl)))

  call_round-keeps : (input : Input) → Keeps Numbered (call_round env ops app input)
  unfolding call_round next_message
  call_round-keeps input =
      Keeps-bind _ _ (Keeps-then _ _ heartbeat-keeps (Keeps-pure (message_of input)))
        (process_message-InStep env ops app start k)

  go_on-keeps :
      (again : M (Engine S) CallEnd)
      → Keeps Numbered again
      → (s : TransportState) → Keeps Numbered (go_on env ops app again s)
  go_on-keeps again ka s =
      Keeps-if (is_up s) _ _ ka
        (Keeps-then _ _ (modify-InStep env ops start _ (λ e. (refl, refl, refl))) (Keeps-pure left))

  call_loop-keeps : (inputs : List Input) → Keeps Numbered (call_loop env ops app inputs)
  unfolding call_loop
  call_loop-keeps [] = Keeps-pure waiting
  call_loop-keeps (input ∷ inputs) =
      Keeps-bind _ _ (call_round-keeps input)
        (go_on-keeps (call_loop env ops app inputs) (call_loop-keeps inputs))

  -- Whatever an initiator receives, in whatever order, and whether it ends, waits or raises: the
  -- messages that it has sent carry the numbers that follow the session's outgoing number at the start,
  -- one by one and without a gap, and the session holds the number of the last one.
  pub call-InStep :
      (inputs : List Input) (e : Engine S)
      → outgoing ops e ≡ start
      → e.sent ≡ []
      → InStep env ops start (after (call env ops app inputs e))
  unfolding call
  call-InStep inputs e o s =
      (call_loop-keeps inputs).at (record e { is_connected = true })
        (record { is_up = refl; counted = o ∙ rw s (omega arith); numbered = rw s tt })
