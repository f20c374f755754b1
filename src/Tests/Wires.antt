-- ===== src/Tests/Wires.antt =====
-- A message on its way from an initiator to the handler of its peer.
use jetblack_fixengine.Peers.Wire.{Encodes, sent-received, sent_by}
use jetblack_fixengine.Initiator.Call.{
  call, call_loop, call_round, new_engine, next_message, send_heartbeat_if_required,
}
use jetblack_fixengine.Initiator.{process_admin, process_message, send_logon}
use jetblack_fixengine.TransportMachine.{handle_connected, handle_timeout, process_transport}
use jetblack_fixengine.Machine.{process, transition}
use jetblack_fixengine.Engine.{
  Environment, left, next_outgoing_seqnum, send_message, send_transport_message,
}
use jetblack_fixengine.Engine.Numbering.{AppInStep}
use jetblack_fixengine.Exceptions.Keeps.{Keeps-pure}
use jetblack_fixengine.Prelude.{
  List, [], ap, arith, false, none, refl, some, true, ◌++◌, ◌∙◌, ◌∷◌, ◌≡◌,
}
use jetblack_fixengine.Bytes.Text.{continues}
use jetblack_fixengine.Exceptions.{Result}
use jetblack_fixengine.FixTransport.{
  AtShutdown, Event, Processor, complete, eof, fix_message_of, fix_stream_processor, new_processor,
  process_events, receive, returned, send, serve, serve_all, shutdown, write_task,
}
use jetblack_fixengine.FixTransport.Order.{Reach, begin, happens, next}
use jetblack_fixengine.FixTransport.Liveness.{reading}
use jetblack_fixengine.ReadAsync.{Yields, finished}
use jetblack_fixengine.ReadBuffer.Frame.{encode, encode_all}
use jetblack_fixengine.Tests.Reading.{checksum_007, heartbeat, heartbeat-IsWellFormed}
use jetblack_fixengine.Tests.Data.{inputs, memory, quiet, world}
use jetblack_fixengine.FixTransport.Ends.{connect}
use jetblack_fixengine.ReadAsync.RoundTrip.{fix_read_async-encode}
use jetblack_fixengine.Transport.{TransportEvent, TransportMessage, notice}

-- A parser that encodes every message as the same well-formed one.
abbrev framing : Environment
framing = record world { create = λ t n time fields. encode 124 heartbeat }

framing-Encodes : Encodes checksum_007 124 true false framing
framing-Encodes t n time fields = (heartbeat, heartbeat-IsWellFormed, refl)

framing-AppInStep : AppInStep framing memory 5 quiet
framing-AppInStep = record {
  admin_message = λ fields. Keeps-pure tt;
  heartbeat = λ fields. Keeps-pure tt;
  application_message = λ fields. Keeps-pure tt;
  logon = λ fields. Keeps-pure tt;
  logout = λ fields. Keeps-pure tt;
}

abbrev framed : TransportMessage
framed = fix_message_of (encode 124 heartbeat)

sends_framed : framed ∷ [] ≡ sent_by framing memory quiet inputs (new_engine framing (5, 6))
unfolding call call_loop call_round next_message send_heartbeat_if_required process_message
    process_transport process transition handle_connected process_admin send_logon send_message
    handle_timeout next_outgoing_seqnum send_transport_message
sends_framed = refl

-- The initiator's connection, which reads nothing.
abbrev nothing : Yields
nothing = ([], finished)

abbrev opened : Processor
opened = record (new_processor nothing) {
  read_queue = [];
  received = notice TransportEvent.connection_received ∷ [];
}

abbrev sending : Processor
sending = record opened { write_queue = framed ∷ []; handed = framed ∷ [] }

abbrev has_sent : Processor
has_sent = record opened {
  handed = framed ∷ [];
  taken = framed ∷ [];
  written = encode 124 heartbeat ∷ [];
}

has_sent-Reach : Reach nothing has_sent
unfolding serve_all serve continues
has_sent-Reach =
    next
      (next (next begin (happens receive (new_processor nothing) opened tt refl))
        (happens (send framed) opened sending tt refl))
      (happens (complete (write_task ∷ [])) sending has_sent refl refl)

-- The handler returns in time.
abbrev at_shutdown : AtShutdown
at_shutdown = record { handler_ends = some returned; read_raises = none }

-- The peer's connection.
abbrev happenings : List Event
happenings = receive ∷ reading ∷ reading ∷ []

abbrev has_received : Processor
has_received = record (new_processor ([], finished)) {
  read_queue = framed ∷ notice TransportEvent.disconnect_received ∷ [];
  state = eof;
  is_reading = false;
  is_writing = false;
  handler = returned;
  received = notice TransportEvent.connection_received ∷ [];
}

comes_over :
    fix_stream_processor false (encode_all 124 (heartbeat ∷ []), finished) happenings at_shutdown
    ≡ (has_received, Result.ok left)
unfolding fix_stream_processor process_events serve_all serve shutdown continues
comes_over = refl

connects :
    connect checksum_007
      (124 ∷ [])
      false
      true
      4
      (encode 124 heartbeat ∷ [])
      false
      happenings
      at_shutdown
    ≡ (has_received, Result.ok left)
unfolding connect
connects =
    ap (λ (y : Yields). fix_stream_processor false y happenings at_shutdown)
      (fix_read_async-encode checksum_007 124 true false (heartbeat ∷ [])
        (encode 124 heartbeat ∷ []) 4 (heartbeat-IsWellFormed, tt) (ground arith) refl
        (omega arith))
    ∙ comes_over

sent-received_example :
    has_received.received ++ has_received.read_queue
    ≡ notice TransportEvent.connection_received
      ∷ (sent_by framing memory quiet inputs (new_engine framing (5, 6))
          ++ notice TransportEvent.disconnect_received ∷ [])
sent-received_example =
    sent-received checksum_007 124 true false framing memory quiet 5 framing-AppInStep nothing
      has_sent inputs (new_engine framing (5, 6)) (encode 124 heartbeat ∷ []) 4 happenings
      at_shutdown has_received framing-Encodes has_sent-Reach refl refl sends_framed refl
      (ground arith) refl (omega arith) connects refl
