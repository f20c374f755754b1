-- ===== src/Tests/Connections.antt =====
-- Connections, for the loop that serves them.
use jetblack_fixengine.FixTransport.Serving.{InOrder}
use jetblack_fixengine.Engine.{left}
use jetblack_fixengine.Prelude.{
  List, [], ap, arith, false, map, none, refl, some, true, ◌++◌, ◌∙◌, ◌∷◌, ◌≡◌,
}
use jetblack_fixengine.Bytes.{Bytes, codes}
use jetblack_fixengine.Bytes.Text.{continues}
use jetblack_fixengine.Exceptions.{Result}
use jetblack_fixengine.FixTransport.{
  AtShutdown, Event, Processor, complete, eof, fix_message_of, fix_stream_processor,
  handler_completed, new_processor, process_events, read_task, receive, returned, send, serve,
  serve_all, shutdown, write_task,
}
use jetblack_fixengine.FixTransport.Order.{Reach, Reach-InOrder, begin, happens, next}
use jetblack_fixengine.FixTransport.Liveness.{AllShown, all_read, reading, repeat}
use jetblack_fixengine.ReadAsync.{Yields, finished}
use jetblack_fixengine.ReadBuffer.Frame.{encode, encode_all}
use jetblack_fixengine.Tests.Reading.{checksum_007, chunks, heartbeat, heartbeat-IsWellFormed}
use jetblack_fixengine.FixTransport.Ends.{connect, connect-IsDelivered}
use jetblack_fixengine.ReadAsync.RoundTrip.{fix_read_async-encode}
use jetblack_fixengine.Transport.{TransportEvent, notice}

-- A reader of two buffers, a connection whose handler has taken its first message, and one that has
-- read the first buffer as well.
abbrev two : List Bytes
two = codes "one" ∷ codes "two" ∷ []

abbrev source : Yields
source = (two, finished)

abbrev greeted : Processor
greeted = record (new_processor source) {
  read_queue = [];
  received = notice TransportEvent.connection_received ∷ [];
}

greeted-Reach : Reach source greeted
greeted-Reach = next begin (happens receive (new_processor source) greeted tt refl)

abbrev answered : Processor
answered = record greeted {
  write_queue = fix_message_of (codes "hi") ∷ [];
  handed = fix_message_of (codes "hi") ∷ [];
}

answered-Reach : Reach source answered
answered-Reach =
    next greeted-Reach (happens (send (fix_message_of (codes "hi"))) greeted answered tt refl)

abbrev wrote : Processor
wrote = record answered {
  source = (codes "two" ∷ [], finished);
  read_queue = fix_message_of (codes "one") ∷ [];
  write_queue = [];
  taken = fix_message_of (codes "hi") ∷ [];
  written = codes "hi" ∷ [];
}

wrote-Reach : Reach source wrote
unfolding serve_all serve continues
wrote-Reach =
    next answered-Reach (happens (complete (write_task ∷ read_task ∷ [])) answered wrote refl refl)

Reach-InOrder_example : InOrder source wrote
Reach-InOrder_example = Reach-InOrder source wrote-Reach

two-AllShown : AllShown two
unfolding continues
two-AllShown = (refl, (refl, tt))

-- The handler returns in time.
abbrev at_shutdown : AtShutdown
at_shutdown = record { handler_ends = some returned; read_raises = none }

all_read_example :
    let (q, r) = process_events (repeat 3 reading) at_shutdown greeted in
    (q.read_queue ≡ map fix_message_of two ++ notice TransportEvent.disconnect_received ∷ [])
    × (q.state ≡ eof)
all_read_example = all_read two at_shutdown greeted refl refl two-AllShown

-- The handler has ended, in one batch with the read task, which had nothing more to read.
abbrev both_ended : Processor
both_ended = record answered { state = handler_completed; handler = returned; is_reading = false }

-- The reader yields two heartbeats, and then the stream ends; the handler takes two messages.
abbrev events : List Event
events = receive ∷ reading ∷ receive ∷ reading ∷ reading ∷ []

abbrev over : Processor
over = record (new_processor ([], finished)) {
  read_queue =
      fix_message_of (encode 124 heartbeat) ∷ notice TransportEvent.disconnect_received ∷ [];
  state = eof;
  is_reading = false;
  is_writing = false;
  handler = returned;
  received = notice TransportEvent.connection_received ∷ fix_message_of (encode 124 heartbeat) ∷ [];
}

comes_over :
    fix_stream_processor false
      (encode_all 124 (heartbeat ∷ heartbeat ∷ []), finished)
      events
      at_shutdown
    ≡ (over, Result.ok left)
unfolding fix_stream_processor process_events serve_all serve shutdown continues
comes_over = refl

connects :
    connect checksum_007 (124 ∷ []) false true 7 chunks false events at_shutdown
    ≡ (over, Result.ok left)
unfolding connect
connects =
    ap (λ (y : Yields). fix_stream_processor false y events at_shutdown)
      (fix_read_async-encode checksum_007 124 true false (heartbeat ∷ heartbeat ∷ []) chunks 7
        (heartbeat-IsWellFormed, (heartbeat-IsWellFormed, tt)) (ground arith) refl (omega arith))
    ∙ comes_over

connect-IsDelivered_example :
    over.received ++ over.read_queue
    ≡ notice TransportEvent.connection_received
      ∷ (map fix_message_of (encode_all 124 (heartbeat ∷ heartbeat ∷ []))
          ++ notice TransportEvent.disconnect_received ∷ [])
connect-IsDelivered_example =
    connect-IsDelivered checksum_007 124 true false (heartbeat ∷ heartbeat ∷ []) chunks 7 events
      at_shutdown over (heartbeat-IsWellFormed, (heartbeat-IsWellFormed, tt)) (ground arith) refl
      (omega arith) connects refl
