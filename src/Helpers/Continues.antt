-- ===== src/Helpers/Continues.antt =====
-- What stays true of a store of jetblack_fixengine while one engine after another works over its sessions.
use jetblack_fixengine.Helpers.Config.{StoreOps}
use jetblack_fixengine.Admin.{Fields}
use jetblack_fixengine.Helpers.Connections.{Exchange, with_session, work}
use jetblack_fixengine.Engine.Numbering.{InStep, IsNumbered}
use jetblack_fixengine.Exceptions.Keeps.{Keeps}
use jetblack_fixengine.Prelude.{
  List, String, [], ap, arith, length, length-append, sym, ℕ, ◌++◌, ◌+◌, ◌∙◌, ◌∷◌, ◌≡◌,
}
use jetblack_fixengine.Exceptions.{M, Result, after, ok}
use jetblack_fixengine.Transport.{TransportMessage}
use jetblack_fixengine.Engine.{Engine, Environment, SessionOps}
use jetblack_fixengine.Bytes.{Bytes}
use mathlib.Core.Path.{subst}

pub IsNumbered-create :
    (env env' : Environment) (n : ℕ) (ms : List TransportMessage)
    → env.create ≡ env'.create
    → IsNumbered env n ms
    → IsNumbered env' n ms
IsNumbered-create env env' n [] c h = tt
IsNumbered-create env env' n (m ∷ ms) c h =
    let (t, time, fields, e) = h.0 in
    (
      (
        t,
        time,
        fields,
        e ∙ ap (λ (f : String → ℕ → ℕ → Fields → Bytes). f t (n + 1) time fields) c,
      ),
      h.1,
      IsNumbered-create env env' (n + 1) ms c h.2,
    )

IsNumbered-concat :
    (env : Environment) (n k : ℕ) (xs ys : List TransportMessage)
    → k ≡ n + length xs
    → IsNumbered env n xs
    → IsNumbered env k ys
    → IsNumbered env n (xs ++ ys)
IsNumbered-concat env n k [] ys e h l = subst (λ (i : ℕ). IsNumbered env i ys) (omega (arith, e)) l
IsNumbered-concat env n k (x ∷ xs) ys e h l =
    (h.0, h.1, IsNumbered-concat env (n + 1) k xs ys (omega (arith, e)) h.2 l)

module _ {St S : Type 0} (stores : StoreOps St S) (ops : SessionOps S) (env : Environment)
    (sender target : String) (start : ℕ) where
  -- The store's session has the number of the last message, and the messages are numbered from `start`
  -- on.
  pub record Continues (w : Exchange St) : Type 0 where
    pub session : S
    pub store : St
    pub given : stores.get_session sender target w.store ≡ (store, ok session)
    pub counted : ops.get_outgoing_seqnum session ≡ start + length w.sent
    pub numbered : IsNumbered env start w.sent

  -- What an engine over a session has sent.
  abbrev pub Sends : S → Engine S → Type 0
  Sends s e =
      (ops.get_outgoing_seqnum e.session ≡ ops.get_outgoing_seqnum s + length e.sent)
      × IsNumbered env (ops.get_outgoing_seqnum s) e.sent

  pub with_session-Continues :
      {A : Type 0} (make : S → Engine S) (body : M (Engine S) A)
      → ((s : S) → Sends s (after (body (make s))))
      → Keeps Continues (with_session stores sender target make body)
  with_session-Continues make body k = record {
    at = λ w h.
        let e = after (body (make h.session)) in
        let (c, n) = k h.session in
        subst (λ (x : St × Result S). Continues (after (work stores sender target make body x w)))
          (sym h.given)
          (record {
            session = e.session;
            store = stores.keep_session sender target e.session h.store;
            given = stores.get-keep_session sender target e.session h.store;
            counted = omega (arith, c, h.counted, length-append w.sent e.sent);
            numbered =
                IsNumbered-concat env start (ops.get_outgoing_seqnum h.session) w.sent e.sent
                  h.counted h.numbered n;
          });
  }

pub InStep-create :
    {S : Type 0} (env env' : Environment) (ops : SessionOps S) (start : ℕ) (e : Engine S)
    → env.create ≡ env'.create
    → InStep env ops start e
    → InStep env' ops start e
InStep-create env env' ops start e c h = record {
  is_up = h.is_up;
  counted = h.counted;
  numbered = IsNumbered-create env env' start e.sent c h.numbered;
}

module _ {S : Type 0} (env : Environment) (ops : SessionOps S) (start : ℕ) where
  pub InStep-Sends :
      (s : S) (e : Engine S)
      → ops.get_outgoing_seqnum s ≡ start
      → InStep env ops start e
      → (ops.get_outgoing_seqnum e.session ≡ ops.get_outgoing_seqnum s + length e.sent)
        × IsNumbered env (ops.get_outgoing_seqnum s) e.sent
  InStep-Sends s e h i =
      (omega (arith, h, i.counted), subst (λ (n : ℕ). IsNumbered env n e.sent) (sym h) i.numbered)
