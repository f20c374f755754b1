-- ===== src/Peers/Rally.antt =====
-- An initiator and an acceptor of jetblack_fixengine that exchange test requests for ever.
use jetblack_fixengine.Peers.{IsPassive, Reads, Saves}
use jetblack_fixengine.Peers.Echo.{
  IsOnline, IsTestRequest, acceptor-returned, echoed, echoed-lem, echoed-outgoing, give,
  initiator-returned, newest, newest-snoc,
}
use jetblack_fixengine.Acceptor as Accept
use jetblack_fixengine.Initiator as Dial
use jetblack_fixengine.Initiator.{process_admin, process_message, text_field}
use jetblack_fixengine.Prelude.{
  Option, String, ap, arith, none, refl, some, suc, sym, zero, ℕ, ◌+◌, ◌∙◌, ◌≡◌,
}
use jetblack_fixengine.Engine.{Engine, Environment, FixApplication, SessionOps, incoming, outgoing}
use jetblack_fixengine.Engine.Sending.{fix_message}
use jetblack_fixengine.Transport.{TransportMessage}
use jetblack_fixengine.Peers.Receiving.{saved}
use jetblack_fixengine.Bytes.{Bytes}

module _ {S T : Type 0} (env : Environment) (ops : SessionOps S) (app : FixApplication S)
    (env' : Environment) (ops' : SessionOps T) (app' : FixApplication T) where
  abbrev beside : Engine S → Option (Engine T) → Option (Engine S × Engine T)
  beside e none = none
  beside e (some e') = some (e, e')

  abbrev then_back : Engine T → Option (Engine S) → Option (Engine S × Engine T)
  then_back e' none = none
  then_back e' (some e) = beside e (give (Accept.process_message env' ops' app') (newest e.sent) e')

  -- The initiator receives what the acceptor sent last, and then the acceptor what the initiator sent
  -- last.
  abbrev pub volley : Engine S × Engine T → Option (Engine S × Engine T)
  volley (e, e') = then_back e' (give (Dial.process_message env ops app) (newest e'.sent) e)

  abbrev pub rally : ℕ → Option (Engine S × Engine T) → Option (Engine S × Engine T)
  rally zero pair = pair
  rally (suc n) none = none
  rally (suc n) (some pair) = rally n (volley pair)

  module _ (token : String) where
    -- Both engines are online, what the acceptor sent last is a test request with the token and with its
    -- outgoing number, and but for this message each one's incoming number is the other's outgoing number.
    pub record IsRallying (pair : Engine S × Engine T) : Type 0 where
      pub initiator : IsOnline pair.0
      pub acceptor : IsOnline pair.1
      pub buffer : Bytes
      pub served : newest pair.1.sent ≡ some (fix_message buffer)
      pub read : IsTestRequest env token buffer
      pub numbered : read.0 ≡ outgoing ops' pair.1
      pub heard : incoming ops' pair.1 ≡ outgoing ops pair.0
      pub due : outgoing ops' pair.1 ≡ incoming ops pair.0 + 1

    abbrev pub IsLonger : Engine S × Engine T → Engine S × Engine T → ℕ → Type 0
    IsLonger (e, e') (f, f') n =
        (outgoing ops f ≡ outgoing ops e + n) × (outgoing ops' f' ≡ outgoing ops' e' + n)

    module _ (there : Reads env env' "TEST_REQUEST" (text_field "TestReqID" token))
        (back : Reads env' env "TEST_REQUEST" (text_field "TestReqID" token)) (p : IsPassive app)
        (p' : IsPassive app') (sv : Saves ops) (sv' : Saves ops') where
      abbrev initiator_after : Bytes → ℕ → Engine S → Engine S
      initiator_after buffer n e =
          echoed env ops app token buffer n (Dial.process_admin env ops app) e

      abbrev acceptor_after : Bytes → ℕ → Engine T → Engine T
      acceptor_after buffer n e =
          echoed env' ops' app' token buffer n (Accept.process_admin env' ops' app') e

      abbrev number : Engine S → Bytes → ℕ
      number e buffer =
          outgoing ops (saved env ops app (Dial.process_admin env ops app) buffer e) + 1

      abbrev reply : Engine S → Bytes → Bytes
      reply e buffer =
          env.create "TEST_REQUEST" (number e buffer) (env.clock e.readings)
            (text_field "TestReqID" token)

      abbrev number' : Engine T → Bytes → ℕ
      number' e buffer =
          outgoing ops' (saved env' ops' app' (Accept.process_admin env' ops' app') buffer e) + 1

      abbrev reply' : Engine T → Bytes → Bytes
      reply' e buffer =
          env'.create "TEST_REQUEST" (number' e buffer) (env'.clock e.readings)
            (text_field "TestReqID" token)

      give_initiator :
          (e : Engine S) (buffer : Bytes)
          → IsOnline e
          → (r : IsTestRequest env token buffer)
          → give (Dial.process_message env ops app) (some (fix_message buffer)) e
            ≡ some (initiator_after buffer r.0 e)
      unfolding Dial.process_message
      give_initiator e buffer h (n, m, d, r) =
          rw
            (echoed-lem env ops app token (Dial.process_admin env ops app)
              (initiator-returned env ops app token) p sv buffer n m d r e h)
            refl

      give_acceptor :
          (e : Engine T) (buffer : Bytes)
          → IsOnline e
          → (r : IsTestRequest env' token buffer)
          → give (Accept.process_message env' ops' app') (some (fix_message buffer)) e
            ≡ some (acceptor_after buffer r.0 e)
      unfolding Accept.process_message
      give_acceptor e buffer h (n, m, d, r) =
          rw
            (echoed-lem env' ops' app' token (Accept.process_admin env' ops' app')
              (acceptor-returned env' ops' app' token) p' sv' buffer n m d r e h)
            refl

      volley-rallies :
          (e : Engine S) (e' : Engine T)
          → IsRallying (e, e')
          → (pair : Engine S × Engine T) × (volley (e, e') ≡ some pair)
            × IsRallying pair
            × IsLonger (e, e') pair 1
      volley-rallies e e' h =
          let (m, d, r) = there (number e h.buffer) (env.clock e.readings) in
          let read' : IsTestRequest env' token (reply e h.buffer) = (number e h.buffer, m, d, r) in
          let f = initiator_after h.buffer h.read.0 e in
          let f' = acceptor_after (reply e h.buffer) (number e h.buffer) e' in
          let sent =
            echoed-outgoing env ops app token h.buffer h.read.0 (Dial.process_admin env ops app)
              e in
          let sent' =
            echoed-outgoing env' ops' app' token (reply e h.buffer) (number e h.buffer)
              (Accept.process_admin env' ops' app') e' in
          let up = ap (λ (k : ℕ). k + 1) (ops.outgoing-save_message h.buffer e.session) in
          let up' =
            ap (λ (k : ℕ). k + 1) (ops'.outgoing-save_message (reply e h.buffer) e'.session) in
          let (m', d', r') = back (number' e' (reply e h.buffer)) (env'.clock e'.readings) in
          (
            (f, f'),
            ap
                  (λ (o : Option TransportMessage).
                    then_back e' (give (Dial.process_message env ops app) o e))
                  h.served
                ∙ ap (then_back e') (give_initiator e h.buffer h.initiator h.read)
                ∙ ap
                    (λ (o : Option TransportMessage).
                      beside f (give (Accept.process_message env' ops' app') o e'))
                    (newest-snoc e.sent (fix_message (reply e h.buffer)))
                ∙ ap (beside f) (give_acceptor e' (reply e h.buffer) h.acceptor read'),
            record {
              initiator = record {
                authenticated = refl;
                sending = h.initiator.sending;
                connected = refl;
              };
              acceptor = record {
                authenticated = refl;
                sending = h.acceptor.sending;
                connected = refl;
              };
              buffer = reply' e' (reply e h.buffer);
              served = newest-snoc e'.sent (fix_message (reply' e' (reply e h.buffer)));
              read = (number' e' (reply e h.buffer), m', d', r');
              numbered = up' ∙ sym sent';
              heard = ops'.incoming-set_incoming (number e h.buffer) _ ∙ up ∙ sym sent;
              due =
                  sent'
                  ∙ ap (λ (k : ℕ). k + 1)
                      (sym h.numbered ∙ sym (ops.incoming-set_incoming h.read.0 _));
            },
            (sent, sent'),
          )

      -- An initiator and an acceptor are online, what the acceptor sent last is a test request that the
      -- initiator reads, with the acceptor's outgoing number, and but for this message each one's incoming
      -- number is the other's outgoing number. Where each one's parser reads the other's test requests with
      -- that token, the applications only look on, and the sessions save every message, they go on for ever:
      -- in n rounds, in each of which first the initiator and then the acceptor processes what the other
      -- sent last, the outgoing number of each goes up by n, nothing is raised, and all that is said above
      -- of the two engines is true again, with the same token.
      pub rally-endless :
          (n : ℕ) (e : Engine S) (e' : Engine T)
          → IsRallying (e, e')
          → (pair : Engine S × Engine T) × (rally n (some (e, e')) ≡ some pair)
            × IsRallying pair
            × IsLonger (e, e') pair n
      rally-endless zero e e' h = ((e, e'), refl, h, (omega arith, omega arith))
      rally-endless (suc n) e e' h =
          let ((f, f'), v, k, l) = volley-rallies e e' h in
          let (pair, t, j, m) = rally-endless n f f' k in
          (pair, ap (rally n) v ∙ t, j, (omega (arith, l.0, m.0), omega (arith, l.1, m.1)))
