-- ===== src/Peers/Wire.antt =====
-- A whole connection of jetblack_fixengine, from the engine that sends, over its writer, the bytes on the
-- wire and the reader of its peer, to the handler there.
use jetblack_fixengine.FixTransport.{AtShutdown, Event, Processor, eof, fix_message_of}
use jetblack_fixengine.ReadBuffer.Frame.{
  AllWellFormed, Frame, IsWellFormed, encode, encode_all, stream,
}
use jetblack_fixengine.Prelude.{
  Bool, List, String, [], ap, append-nil, arith, concat, false, length, map, refl, sym, ℕ, ◌++◌,
  ◌+◌, ◌∙◌, ◌∷◌, ◌≡◌, ◌≤◌,
}
use jetblack_fixengine.Bytes.{Bytes}
use jetblack_fixengine.Transport.{TransportEvent, TransportMessage, notice}
use jetblack_fixengine.Admin.{Fields}
use jetblack_fixengine.Engine.{
  Engine, Environment, FixApplication, Input, SessionOps, left, outgoing,
}
use jetblack_fixengine.Engine.Numbering.{AppInStep, IsNumbered}
use jetblack_fixengine.ReadAsync.{Yields}
use jetblack_fixengine.Exceptions.{Result, after}
use jetblack_fixengine.FixTransport.Order.{Reach, Reach-InOrder}
use jetblack_fixengine.ReadAsync.RoundTrip.{AllNonEmpty}
use jetblack_fixengine.FixTransport.Ends.{connect, connect-IsDelivered}
use jetblack_fixengine.FixTransport.Delivery.{wire-IsNumbered}
use jetblack_fixengine.Initiator.Call as Dial

fix_message_of-same :
    (m : TransportMessage) (buffer : Bytes)
    → m.event ≡ TransportEvent.fix_received
    → m.buffer ≡ buffer
    → fix_message_of buffer ≡ m
fix_message_of-same m buffer h e =
    ap fix_message_of (sym e)
    ∙ ap (λ (x : TransportEvent). record { event = x; buffer = m.buffer }) (sym h)

-- What an initiator sends.
abbrev pub sent_by :
    {S : Type 0}
    → Environment
    → SessionOps S
    → FixApplication S
    → List Input
    → Engine S
    → List TransportMessage
sent_by env ops app inputs e = (after (Dial.call env ops app inputs e)).sent

module _ (calc_checksum : Bytes → Bytes → Bool → Bytes) (s : ℕ) (validate convert : Bool) where
  -- What jetblack_fixparser promises of its encoding: it is a well-formed message.
  abbrev pub Encodes : Environment → Type 0
  Encodes env =
      (msg_type : String) (n time : ℕ) (fields : Fields)
      → (f : Frame) × IsWellFormed calc_checksum s validate convert f
        × (env.create msg_type n time fields ≡ encode s f)

  -- The messages that are numbered are well-formed messages on the wire.
  abbrev Framed : List TransportMessage → Type 0
  Framed ms =
      (fs : List Frame) × AllWellFormed calc_checksum s validate convert fs
      × (map (λ m. m.buffer) ms ≡ encode_all s fs)
      × (map fix_message_of (encode_all s fs) ≡ ms)
      × (length (encode_all s fs) ≡ length fs)
      × (concat (encode_all s fs) ≡ stream s fs)

  IsNumbered-Framed :
      (env : Environment) (n : ℕ) (ms : List TransportMessage)
      → Encodes env
      → IsNumbered env n ms
      → Framed ms
  IsNumbered-Framed env n [] k h = ([], tt, refl, refl, refl, refl)
  IsNumbered-Framed env n (m ∷ ms) k h =
      let (t, time, fields, e) = h.0 in
      let (f, w, d) = k t (n + 1) time fields in
      let (fs, ws, b, o, l, c) = IsNumbered-Framed env (n + 1) ms k h.2 in
      (
        f ∷ fs,
        (w, ws),
        rw (e, d, b) refl,
        ap (λ (x : TransportMessage). x ∷ map fix_message_of (encode_all s fs))
              (fix_message_of-same m (encode s f) h.1 (e ∙ d))
            ∙ ap (λ (l : List TransportMessage). m ∷ l) o,
        omega (arith, l),
        ap (λ (x : Bytes). encode s f ++ x) c,
      )

  module _ {S : Type 0} (env : Environment) (ops : SessionOps S) (app : FixApplication S)
      (start : ℕ) (k : AppInStep env ops start app) where
    -- An initiator that has sent nothing before, whose messages are encoded as well-formed messages and whose
    -- application keeps the numbering, over its connection, whose loop has written all that the engine has
    -- sent; and a connection of its peer, to which the bytes come that were written, cut into non-empty
    -- chunks at any places, whose reader has a round for each chunk and each message and two more, and which
    -- is over, without an exception, at the end of the stream. Whatever the initiator received, and whatever
    -- happened on the peer's side and in whatever order: the handler there has been given, or finds in the
    -- queue, the notice of the connection, exactly the messages that the initiator has sent, each whole and
    -- once, in their order, and the notice that the connection is gone.
    pub sent-received :
        (source : Yields) (p : Processor) (inputs : List Input) (e : Engine S) (chunks : List Bytes)
        (rounds : ℕ) (events : List Event) (later : AtShutdown) (q : Processor)
        → Encodes env
        → Reach source p
        → outgoing ops e ≡ start
        → e.sent ≡ []
        → p.handed ≡ sent_by env ops app inputs e
        → p.write_queue ≡ []
        → AllNonEmpty chunks
        → concat chunks ≡ concat p.written
        → length chunks + length p.written + 2 ≤ rounds
        → connect calc_checksum (s ∷ []) convert validate rounds chunks false events later
          ≡ (q, Result.ok left)
        → q.state ≡ eof
        → q.received ++ q.read_queue
          ≡ notice TransportEvent.connection_received
            ∷ (sent_by env ops app inputs e ++ notice TransportEvent.disconnect_received ∷ [])
    sent-received source p inputs e chunks rounds events later q enc r o z h w full cut long c g =
        let i = Reach-InOrder source r in
        let taken =
          sym (append-nil p.taken)
          ∙ ap (λ (t : List TransportMessage). p.taken ++ t) (sym w)
          ∙ i.handed
          ∙ h in
        let (numbered, wrote) =
          wire-IsNumbered env ops app start k source p inputs e [] r o z
            (append-nil p.handed ∙ h) in
        let (fs, wf, b, same, l, whole) = IsNumbered-Framed env start p.taken enc numbered in
        connect-IsDelivered calc_checksum s validate convert fs chunks rounds events later q wf full
          (cut ∙ ap concat (wrote ∙ b) ∙ whole) (omega (arith, long, l, ap length (wrote ∙ b))) c g
        ∙ ap
            (λ (ms : List TransportMessage).
              notice TransportEvent.connection_received
              ∷ (ms ++ notice TransportEvent.disconnect_received ∷ []))
            (same ∙ taken)
