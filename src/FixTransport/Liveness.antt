-- ===== src/FixTransport/Liveness.antt =====
-- What a connection comes to when its tasks complete often enough.
use jetblack_fixengine.FixTransport.{
  AtShutdown, Event, Processor, complete, eof, fix_message_of, goes_on, process_events, read_task,
  serve, serve_all, shutdown, write_task,
}
use jetblack_fixengine.Prelude.{
  List, [], append-nil, append_assoc, arith, length, map, refl, suc, sym, true, zero, ℕ, ◌++◌, ◌∙◌,
  ◌∷◌, ◌≡◌,
}
use jetblack_fixengine.Bytes.{Bytes}
use jetblack_fixengine.Bytes.Text.{is_utf8, show_separators}
use jetblack_fixengine.Exceptions.{Result}
use jetblack_fixengine.Transport.{TransportEvent, notice}
use jetblack_fixengine.ReadAsync.{finished}
use jetblack_fixengine.Engine.{waiting}

abbrev pub repeat : ℕ → Event → List Event
repeat zero event = []
repeat (suc n) event = event ∷ repeat n event

-- Buffers that the log can show.
abbrev pub AllShown : List Bytes → Type 0
AllShown [] = Unit {0}
AllShown (b ∷ bs) = (is_utf8 (show_separators b) ≡ true) × AllShown bs

abbrev pub reading : Event
reading = complete (read_task ∷ [])

abbrev pub writing : Event
writing = complete (write_task ∷ [])

-- Where the reader still yields `buffers`, all in UTF-8, and then finishes, and its task completes as
-- often as that takes: each buffer is handed to the handler once, in their order, after what waits for it
-- already, and then the notice that the connection is gone; the loop is over.
pub all_read :
    (buffers : List Bytes) (later : AtShutdown) (p : Processor)
    → goes_on p ≡ true
    → p.source ≡ (buffers, finished)
    → AllShown buffers
    → let (q, r) = process_events (repeat (suc (length buffers)) reading) later p in
      (q.read_queue
        ≡ p.read_queue
          ++ (map fix_message_of buffers ++ notice TransportEvent.disconnect_received ∷ []))
      × (q.state ≡ eof)
unfolding process_events serve_all serve shutdown
all_read [] later p g e h = rw (g, e) (ground arith)
all_read (b ∷ buffers) later p g e h =
    let p' : Processor = record p {
      source = (buffers, finished);
      read_queue = p.read_queue ++ fix_message_of b ∷ [];
      is_reading = true;
    } in
    let (queue, end) = all_read buffers later p' g refl h.1 in
    rw (g, e, h.0)
      (
        queue
            ∙ append_assoc p.read_queue (fix_message_of b ∷ [])
                (map fix_message_of buffers ++ notice TransportEvent.disconnect_received ∷ []),
        end,
      )

-- Where FIX messages in UTF-8 wait to be written, and the write task completes once for each: all of
-- them are written, in their order, after what was written before, and none waits.
pub all_written :
    (buffers : List Bytes) (later : AtShutdown) (p : Processor)
    → goes_on p ≡ true
    → p.write_queue ≡ map fix_message_of buffers
    → AllShown buffers
    → let (q, r) = process_events (repeat (length buffers) writing) later p in
      (r ≡ Result.ok waiting) × (q.write_queue ≡ []) × (q.written ≡ p.written ++ buffers)
unfolding process_events serve_all serve
all_written [] later p g e h = rw g (refl, e, sym (append-nil p.written))
all_written (b ∷ buffers) later p g e h =
    let p' : Processor = record p {
      write_queue = map fix_message_of buffers;
      taken = p.taken ++ fix_message_of b ∷ [];
      written = p.written ++ b ∷ [];
      is_writing = true;
    } in
    let (end, queue, all) = all_written buffers later p' g refl h.1 in
    rw (g, e, h.0) (end, queue, all ∙ append_assoc p.written (b ∷ []) buffers)
