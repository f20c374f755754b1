-- ===== src/Engine/Sending.antt =====
-- `send_message` of the engines, connected and not.
use jetblack_fixengine.Prelude.{
  String, [], ap, arith, false, refl, some, sym, true, ℕ, ◌++◌, ◌+◌, ◌∙◌, ◌∷◌, ◌≡◌,
}
use jetblack_fixengine.Bytes.{Bytes}
use jetblack_fixengine.Exceptions.{Exception, Result, err, ok, value_error}
use jetblack_fixengine.Admin.{Fields}
use jetblack_fixengine.Transport.{TransportEvent, TransportMessage}
use jetblack_fixengine.Engine.{
  Engine, Environment, SessionOps, incoming, next_outgoing_seqnum, outgoing, send_encoded,
  send_message, send_transport_message, transmit,
}

-- An encoded FIX message on its way out.
abbrev pub fix_message : Bytes → TransportMessage
fix_message buffer = record { event = TransportEvent.fix_received; buffer = buffer }

module _ {S : Type 0} (env : Environment) (ops : SessionOps S) where
  -- What an engine leaves that sent a message.
  abbrev pub sent_from : String → Fields → Engine S → Engine S
  sent_from msg_type fields e = record e {
    session = ops.set_outgoing_seqnum (outgoing ops e + 1) e.session;
    readings = e.readings + 1;
    last_send_time_utc = some (env.clock e.readings);
    sent =
        e.sent
        ++ fix_message (env.create msg_type (outgoing ops e + 1) (env.clock e.readings) fields)
          ∷ [];
  }

  -- The engine when the message is numbered.
  abbrev numbered : Engine S → Engine S
  numbered e = record e {
    session = ops.set_outgoing_seqnum (outgoing ops e + 1) e.session;
    readings = e.readings + 1;
  }

  pub send_message-connected :
      (msg_type : String) (fields : Fields) (e : Engine S)
      → e.is_connected ≡ true
      → send_message env ops msg_type fields e ≡ (sent_from msg_type fields e, ok tt)
  unfolding send_message next_outgoing_seqnum send_transport_message
  send_message-connected msg_type fields e h = rw h refl

  transmitted-branches :
      (encoded : Result Bytes) (e : Engine S)
      → let (e', r) = transmit encoded (env.clock e.readings) (numbered e) in
        (outgoing ops e' ≡ outgoing ops e + 1)
        × (incoming ops e' ≡ incoming ops e)
        × ((x : Exception) → encoded ≡ err x → (r ≡ err x) × (e'.sent ≡ e.sent))
        × ((buffer : Bytes)
            → encoded ≡ ok buffer
            → (e.is_connected ≡ true
                → (r ≡ ok tt)
                  × (e'.last_send_time_utc ≡ some (env.clock e.readings))
                  × (e'.sent ≡ e.sent ++ fix_message buffer ∷ []))
              × (e.is_connected ≡ false → (r ≡ err value_error) × (e'.sent ≡ e.sent)))
  unfolding send_transport_message
  transmitted-branches encoded e =
      let o = ops.outgoing-set_outgoing (outgoing ops e + 1) e.session in
      let i = ops.incoming-set_outgoing (outgoing ops e + 1) e.session in ground (arith, o, i)

  -- Sending a message counts the outgoing number up by one, whatever follows, and leaves the incoming
  -- number. Where the factory raises an exception, that is raised, and nothing goes out. Where it
  -- encodes the message, with that number and the time that the clock read, a connected engine returns,
  -- and the message goes out last; an engine that is not connected raises a ValueError and nothing goes
  -- out. So the number is lost in two of the three cases.
  pub send_encoded-branches :
      (encode : String → ℕ → ℕ → Fields → Result Bytes) (msg_type : String) (fields : Fields)
      (e : Engine S)
      → let (e', r) = send_encoded env ops encode msg_type fields e in
        let encoded = encode msg_type (outgoing ops e') (env.clock e.readings) fields in
        (outgoing ops e' ≡ outgoing ops e + 1)
        × (incoming ops e' ≡ incoming ops e)
        × ((x : Exception) → encoded ≡ err x → (r ≡ err x) × (e'.sent ≡ e.sent))
        × ((buffer : Bytes)
            → encoded ≡ ok buffer
            → (e.is_connected ≡ true
                → (r ≡ ok tt)
                  × (e'.last_send_time_utc ≡ some (env.clock e.readings))
                  × (e'.sent ≡ e.sent ++ fix_message buffer ∷ []))
              × (e.is_connected ≡ false → (r ≡ err value_error) × (e'.sent ≡ e.sent)))
  unfolding next_outgoing_seqnum send_transport_message
  send_encoded-branches encode msg_type fields e =
      let (o, i, fails, goes) =
        transmitted-branches (encode msg_type (outgoing ops e + 1) (env.clock e.readings) fields)
          e in
      let same = ap (λ (n : ℕ). encode msg_type n (env.clock e.readings) fields) (sym o) in
      (o, i, (λ x h. fails x (same ∙ h)), λ buffer h. goes buffer (same ∙ h))
