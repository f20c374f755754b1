-- ===== src/Engine/Numbering.antt =====
-- The sequence numbers of what an engine sends.
use mathlib.Core.Path.{subst}
use native.Mathlib.Nat.{add-zero}
use jetblack_fixengine.Prelude.{
  List, String, [], ap, arith, length, length-snoc, refl, some, sym, true, ℕ, ◌++◌, ◌+◌, ◌∙◌, ◌∷◌,
  ◌≡◌,
}
use jetblack_fixengine.Exceptions.Keeps.{Keeps}
use jetblack_fixengine.Transport.{TransportEvent, TransportMessage}
use jetblack_fixengine.Admin.{Fields}
use jetblack_fixengine.Bytes.{Bytes}
use jetblack_fixengine.Exceptions.{modify}
use jetblack_fixengine.Engine.{
  Engine, Environment, FixApplication, SessionOps, local_now, new_uuid, next_outgoing_seqnum, now,
  outgoing, save_message, send_message, send_transport_message, set_incoming,
}

module _ (env : Environment) where
  -- Each message is an encoded FIX message with the number that follows that of the one before.
  abbrev pub IsNumbered : ℕ → List TransportMessage → Type 0
  IsNumbered n [] = Unit {0}
  IsNumbered n (m ∷ ms) =
      ((msg_type : String) × (time : ℕ) × (fields : Fields) × (m.buffer
          ≡ env.create msg_type (n + 1) time fields))
      × (m.event ≡ TransportEvent.fix_received)
      × IsNumbered (n + 1) ms

  IsNumbered-append :
      (n k : ℕ) (ms : List TransportMessage) (t : String) (time : ℕ) (fields : Fields)
      → k ≡ n + length ms
      → IsNumbered n ms
      → IsNumbered n (
          ms
          ++ record {
            event = TransportEvent.fix_received;
            buffer = env.create t (k + 1) time fields;
          }
            ∷ [])
  IsNumbered-append n k [] t time fields e h = ((t, time, fields, rw (e, add-zero)), refl, tt)
  IsNumbered-append n k (m ∷ ms) t time fields e h =
      (h.0, h.1, IsNumbered-append (n + 1) k ms t time fields (omega arith) h.2)

module _ {S : Type 0} (env : Environment) (ops : SessionOps S) (start : ℕ) where
  -- The engine is connected, its messages are numbered from `start` on without a gap, and the session
  -- holds the number of the last one.
  pub record InStep (e : Engine S) : Type 0 where
    pub is_up : e.is_connected ≡ true
    pub counted : outgoing ops e ≡ start + length e.sent
    pub numbered : IsNumbered env start e.sent

  pub send_message-InStep :
      (t : String) (fields : Fields) → Keeps InStep (send_message env ops t fields)
  unfolding send_message next_outgoing_seqnum send_transport_message
  send_message-InStep t fields = record {
    at = λ e h. rw h.is_up (record {
      is_up = refl;
      counted = rw (ops.outgoing-set_outgoing, length-snoc) (omega (arith, h.counted));
      numbered =
          IsNumbered-append env start (outgoing ops e) e.sent t _ fields h.counted h.numbered;
    });
  }

  pub set_incoming-InStep : (n : ℕ) → Keeps InStep (set_incoming ops n)
  set_incoming-InStep n = record {
    at = λ e h. record {
      is_up = h.is_up;
      counted = ops.outgoing-set_incoming n e.session ∙ h.counted;
      numbered = h.numbered;
    };
  }

  pub save_message-InStep : (bytes : Bytes) → Keeps InStep (save_message ops bytes)
  save_message-InStep bytes = record {
    at = λ e h. record {
      is_up = h.is_up;
      counted = ops.outgoing-save_message bytes e.session ∙ h.counted;
      numbered = h.numbered;
    };
  }

  -- What the application's callbacks must keep.
  pub record AppInStep (app : FixApplication S) : Type 0 where
    pub admin_message : (fields : Fields) → Keeps InStep (app.on_admin_message fields)
    pub heartbeat : (fields : Fields) → Keeps InStep (app.on_heartbeat fields)
    pub application_message : (fields : Fields) → Keeps InStep (app.on_application_message fields)
    pub logon : (fields : Fields) → Keeps InStep (app.on_logon fields)
    pub logout : (fields : Fields) → Keeps InStep (app.on_logout fields)

  -- A change of the fields that the numbering does not read.
  pub modify-InStep :
      (f : Engine S → Engine S)
      → ((e : Engine S)
          → ((f e).session ≡ e.session)
            × ((f e).sent ≡ e.sent)
            × ((f e).is_connected ≡ e.is_connected))
      → Keeps InStep (modify f)
  modify-InStep f same = record {
    at = λ e h.
        let (s, m, c) = same e in
        record {
          is_up = c ∙ h.is_up;
          counted =
              ap ops.get_outgoing_seqnum s
              ∙ h.counted
              ∙ ap (λ (l : List TransportMessage). start + length l) (sym m);
          numbered = subst (IsNumbered env start) (sym m) h.numbered;
        };
  }

  pub now-InStep : Keeps InStep (now env)
  now-InStep = record {
    at = λ e h. record { is_up = h.is_up; counted = h.counted; numbered = h.numbered };
  }

  pub local_now-InStep : Keeps InStep (local_now env)
  local_now-InStep = record {
    at = λ e h. record { is_up = h.is_up; counted = h.counted; numbered = h.numbered };
  }

  pub new_uuid-InStep : Keeps InStep (new_uuid env)
  new_uuid-InStep = record {
    at = λ e h. record { is_up = h.is_up; counted = h.counted; numbered = h.numbered };
  }

  pub set_token-InStep :
      (t : String) → Keeps InStep (modify (λ e. record e { test_heartbeat_message = some t }))
  set_token-InStep t = modify-InStep _ (λ e. (refl, refl, refl))

  pub set_received-InStep :
      (time : ℕ) → Keeps InStep (modify (λ e. record e { last_receive_time_utc = time }))
  set_received-InStep time = modify-InStep _ (λ e. (refl, refl, refl))
