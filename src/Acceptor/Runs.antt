-- ===== src/Acceptor/Runs.antt =====
-- The numbering over whole runs of the acceptor's `__call__`.
use jetblack_fixengine.Prelude.{
  List, Option, [], arith, leb, none, refl, some, true, ℕ, ◌∙◌, ◌∷◌, ◌≡◌,
}
use jetblack_fixengine.Exceptions.{M, after}
use jetblack_fixengine.Exceptions.Keeps.{
  Keeps, Keeps-bind, Keeps-branch, Keeps-if, Keeps-pure, Keeps-then,
}
use jetblack_fixengine.Admin.{no_fields, send_logout, signal}
use jetblack_fixengine.Transport.{TransportState}
use jetblack_fixengine.Engine.{
  CallEnd, Engine, Environment, FixApplication, Input, SessionOps, is_up, left, message_of,
  outgoing, waiting,
}
use jetblack_fixengine.Engine.Numbering.{
  AppInStep, InStep, local_now-InStep, now-InStep, send_message-InStep,
}
use jetblack_fixengine.Acceptor.Numbering.{process_admin-InStep, process_message-InStep}
use jetblack_fixengine.Acceptor.Call.{
  call, call_loop, call_round, go_on, heartbeat_at, heartbeat_since, log_out_at, log_out_if_expired,
  next_transport_message, send_heartbeat_if_required, send_logout_if_login_expired,
}

module _ {S : Type 0} (env : Environment) (ops : SessionOps S) (app : FixApplication S) (start : ℕ)
    (k : AppInStep env ops start app) where
  abbrev Numbered : Engine S → Type 0
  Numbered = InStep env ops start

  log_out_at-keeps :
      (logout_time time : ℕ) → Keeps Numbered (log_out_at env ops app logout_time time)
  log_out_at-keeps logout_time time =
      Keeps-if (leb logout_time time) _ _
        (Keeps-then _ _ (process_admin-InStep env ops app start k (signal send_logout))
          (Keeps-pure tt))
        (Keeps-pure tt)

  log_out-keeps : (o : Option ℕ) → Keeps Numbered (log_out_if_expired env ops app o)
  log_out-keeps none = Keeps-pure tt
  log_out-keeps (some t) =
      Keeps-branch _ _ _ (Keeps-bind _ _ (local_now-InStep env ops start) (log_out_at-keeps t))
        (Keeps-pure tt)

  heartbeat_at-keeps : (last time : ℕ) → Keeps Numbered (heartbeat_at env ops app last time)
  heartbeat_at-keeps last time =
      Keeps-branch _ _ _
        (Keeps-then _ _ (send_message-InStep env ops start "HEARTBEAT" no_fields) (Keeps-pure _))
        (Keeps-pure _)

  heartbeat_since-keeps : (o : Option ℕ) → Keeps Numbered (heartbeat_since env ops app o)
  heartbeat_since-keeps none = Keeps-pure _
  heartbeat_since-keeps (some last) =
      Keeps-branch _ _ _ (Keeps-bind _ _ (now-InStep env ops start) (heartbeat_at-keeps last))
        (Keeps-pure _)

  log_out_if_expired-keeps : Keeps Numbered (send_logout_if_login_expired env ops app)
  unfolding send_logout_if_login_expired
  log_out_if_expired-keeps = record { at = λ e. (log_out-keeps e.logout_time).at e }

  heartbeat-keeps : Keeps Numbered (send_heartbeat_if_required env ops app)
  unfolding send_heartbeat_if_required
  heartbeat-keeps = record { at = λ e. (heartbeat_since-keeps e.last_send_time_utc).at e }

  call_round-keeps : (input : Input) → Keeps Numbered (call_round env ops app input)
  unfolding call_round next_transport_message
  call_round-keeps input = Keeps-then _ _ log_out_if_expired-keeps (
      Keeps-bind _ _ (Keeps-then _ _ heartbeat-keeps (Keeps-pure (message_of input)))
        (process_message-InStep env ops app start k))

  go_on-keeps :
      (again : M (Engine S) CallEnd)
      → Keeps Numbered again
      → (s : TransportState) → Keeps Numbered (go_on env ops app again s)
  go_on-keeps again ka s = Keeps-if (is_up s) _ _ ka (Keeps-pure left)

  call_loop-keeps : (inputs : List Input) → Keeps Numbered (call_loop env ops app inputs)
  unfolding call_loop
  call_loop-keeps [] = Keeps-pure waiting
  call_loop-keeps (input ∷ inputs) =
      Keeps-bind _ _ (call_round-keeps input)
        (go_on-keeps (call_loop env ops app inputs) (call_loop-keeps inputs))

  -- Whatever an acceptor receives, in whatever order, and whether it ends, waits or raises: the
  -- messages that it has sent carry the numbers that follow the session's outgoing number at the start,
  -- one by one and without a gap, and the session holds the number of the last one.
  pub accept-InStep :
      (inputs : List Input) (e : Engine S)
      → outgoing ops e ≡ start
      → e.sent ≡ []
      → InStep env ops start (after (call env ops app inputs e))
  unfolding call
  accept-InStep inputs e o s =
      (call_loop-keeps inputs).at (record e { is_connected = true })
        (record { is_up = refl; counted = o ∙ rw s (omega arith); numbered = rw s tt })
