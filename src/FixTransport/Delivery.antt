-- ===== src/FixTransport/Delivery.antt =====
-- A whole connection: the messages from the stream's bytes to the handler, and from an engine to the
-- writer.
use jetblack_fixengine.FixTransport.Serving.{fix_buffers}
use jetblack_fixengine.FixTransport.{Processor, eof, fix_message_of}
use jetblack_fixengine.FixTransport.Order.{Reach, Reach-InOrder}
use jetblack_fixengine.Prelude.{
  Bool, List, [], ap, append_assoc, concat, length, map, refl, sym, ℕ, ◌++◌, ◌+◌, ◌∙◌, ◌∷◌, ◌≡◌,
  ◌≤◌,
}
use jetblack_fixengine.Bytes.{Bytes}
use jetblack_fixengine.Exceptions.{after}
use jetblack_fixengine.Transport.{TransportEvent, TransportMessage, notice}
use jetblack_fixengine.ReadBuffer.{new_buffer}
use jetblack_fixengine.ReadBuffer.Frame.{AllWellFormed, Frame, encode_all, stream}
use jetblack_fixengine.ReadAsync.{Yields, fix_read_async}
use jetblack_fixengine.ReadAsync.RoundTrip.{AllNonEmpty, fix_read_async-encode}
use jetblack_fixengine.Engine.{Engine, Environment, FixApplication, Input, SessionOps, outgoing}
use jetblack_fixengine.Engine.Numbering.{AppInStep, IsNumbered}
use jetblack_fixengine.Initiator.Call.{call}
use jetblack_fixengine.Initiator.Runs.{call-InStep}
use mathlib.Core.Path.{subst}

module _ (calc_checksum : Bytes → Bytes → Bool → Bytes) (s : ℕ) (validate convert : Bool) where
  -- A connection whose stream is the encoding of well-formed messages, cut into non-empty chunks at any
  -- places, at any moment of any run without an exception: the handler has been given, or waits for, the
  -- notice of the connection and then the first of these messages, each one whole and once, in their
  -- order; all of them, where the loop has seen the end of the stream.
  pub connection_delivers :
      (fs : List Frame) (chunks : List Bytes) (rounds : ℕ) (p : Processor)
      → AllWellFormed calc_checksum s validate convert fs
      → AllNonEmpty chunks
      → concat chunks ≡ stream s fs
      → length chunks + length fs + 2 ≤ rounds
      → Reach (fix_read_async calc_checksum rounds (new_buffer (s ∷ []) convert validate) chunks) p
      → (yielded : List Bytes) × (rest : List Bytes) × (yielded ++ rest ≡ encode_all s fs)
        × (p.received ++ p.read_queue
            ≡ notice TransportEvent.connection_received ∷ map fix_message_of yielded)
        × (p.state ≡ eof → rest ≡ [])
  connection_delivers fs chunks rounds p wf full e h r =
      let o = Reach-InOrder _ r in
      let whole =
        fix_read_async-encode calc_checksum s validate convert fs chunks rounds wf full e h in
      (
        o.yielded,
        p.source.0,
        o.left ∙ ap (λ (y : Yields). y.0) whole,
        o.delivered,
        λ q. (o.done q).0,
      )

IsNumbered-prefix :
    (env : Environment) (n : ℕ) (xs ys : List TransportMessage)
    → IsNumbered env n (xs ++ ys)
    → IsNumbered env n xs × (fix_buffers xs ≡ map (λ m. m.buffer) xs)
IsNumbered-prefix env n [] ys h = (tt, refl)
IsNumbered-prefix env n (m ∷ xs) ys h =
    let (k, e) = IsNumbered-prefix env (n + 1) xs ys h.2 in ((h.0, h.1, k), rw (h.1, e) refl)

module _ {S : Type 0} (env : Environment) (ops : SessionOps S) (app : FixApplication S) (start : ℕ)
    (k : AppInStep env ops start app) where
  -- A connection of an initiator that starts at an outgoing number, at any moment of any run without an
  -- exception, where the handler has sent the first of the messages that the initiator sends when it
  -- receives some inputs: what has been written are encoded messages that carry the numbers which follow
  -- that number, one by one and without a gap.
  pub wire-IsNumbered :
      (source : Yields) (p : Processor) (inputs : List Input) (e : Engine S)
      (more : List TransportMessage)
      → Reach source p
      → outgoing ops e ≡ start
      → e.sent ≡ []
      → p.handed ++ more ≡ (after (call env ops app inputs e)).sent
      → IsNumbered env start p.taken × (p.written ≡ map (λ m. m.buffer) p.taken)
  wire-IsNumbered source p inputs e more r o q h =
      let i = Reach-InOrder source r in
      let sent = (call-InStep env ops app start k inputs e o q).numbered in
      let whole =
        sym (append_assoc p.taken p.write_queue more)
        ∙ ap (λ (t : List TransportMessage). t ++ more) i.handed
        ∙ h in
      let (n, b) =
        IsNumbered-prefix env start p.taken (p.write_queue ++ more)
          (subst (IsNumbered env start) (sym whole) sent) in
      (n, i.written ∙ b)
