-- ===== src/Engine/Stays.antt =====
-- What the engines' own methods do to the admin state: nothing.
use jetblack_fixengine.Prelude.{String, arith, some, ℕ, ◌≡◌}
use jetblack_fixengine.Exceptions.{M, after, modify}
use jetblack_fixengine.Exceptions.Ensures.{Ensures}
use jetblack_fixengine.Admin.{AdminState, Fields}
use jetblack_fixengine.Engine.{
  Engine, Environment, FixApplication, SessionOps, new_uuid, next_outgoing_seqnum, send_message,
  send_transport_message, set_incoming,
}

module _ {S : Type 0} where
  abbrev pub At : AdminState → Engine S → Type 0
  At s e = e.admin_state ≡ s

  -- From the admin state `s`, a method that returns leaves `s`; it never runs out of fuel.
  abbrev pub Stays : {A : Type 0} → AdminState → M (Engine S) A → Type 0
  Stays s m = Ensures (At s) m (λ _. At s)

  -- What the application's callbacks must do to the admin state: nothing; `on_logon`, whose exceptions
  -- an acceptor catches, even where it raises.
  pub record AppStays (app : FixApplication S) : Type 0 where
    pub heartbeat : (s : AdminState) (fields : Fields) → Stays s (app.on_heartbeat fields)
    pub logon_keeps :
        (fields : Fields) (e : Engine S)
        → (after (app.on_logon fields e)).admin_state ≡ e.admin_state
    pub logon : (s : AdminState) (fields : Fields) → Stays s (app.on_logon fields)
    pub logout : (s : AdminState) (fields : Fields) → Stays s (app.on_logout fields)

  pub send_message-Stays :
      (env : Environment) (ops : SessionOps S) (s : AdminState) (t : String) (fields : Fields)
      → Stays s (send_message env ops t fields)
  unfolding send_message next_outgoing_seqnum send_transport_message
  send_message-Stays env ops s t fields = record { at = λ e h. ground arith }

  pub set_incoming-Stays :
      (ops : SessionOps S) (s : AdminState) (n : ℕ) → Stays s (set_incoming ops n)
  set_incoming-Stays ops s n = record { at = λ e h. h }

  pub new_uuid-Stays : (env : Environment) (s : AdminState) → Stays s (new_uuid env)
  new_uuid-Stays env s = record { at = λ e h. h }

  pub set_token-Stays :
      (s : AdminState) (t : String)
      → Stays s (modify (λ e. record e { test_heartbeat_message = some t }))
  set_token-Stays s t = record { at = λ e h. h }
