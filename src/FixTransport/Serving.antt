-- ===== src/FixTransport/Serving.antt =====
-- What the loop keeps while it serves its tasks: no message is lost, repeated or moved between the
-- reader, the handler and the writer.
use jetblack_fixengine.Prelude.{
  Bool-cases, List, [], ap, append-nil, append_assoc, arith, inl, inr, map, refl, sym, ◌++◌, ◌∙◌,
  ◌∷◌, ◌≡◌,
}
use jetblack_fixengine.Bytes.{Bytes}
use jetblack_fixengine.Exceptions.{M, Result, continue, err}
use jetblack_fixengine.Transport.{TransportEvent, TransportMessage, notice}
use jetblack_fixengine.ReadAsync.{Ending, Yields, failed, finished, out_of_rounds}
use jetblack_fixengine.Bytes.Text.{is_utf8, show_separators}
use jetblack_fixengine.FixTransport.{
  Processor, Task, cancellation_task, eof, fix_message_of, handler_task, read_head, read_task,
  serve, serve_all, write_head, write_task,
}

-- The buffer of a FIX message, before those of what follows.
abbrev pub fix_buffer : TransportEvent → Bytes → List Bytes → List Bytes
fix_buffer TransportEvent.fix_received buffer rest = buffer ∷ rest
fix_buffer _ buffer rest = rest

abbrev pub fix_buffers : List TransportMessage → List Bytes
fix_buffers [] = []
fix_buffers (m ∷ ms) = fix_buffer m.event m.buffer (fix_buffers ms)

fix_buffer-append :
    (event : TransportEvent) (buffer : Bytes) (xs ys : List Bytes)
    → fix_buffer event buffer (xs ++ ys) ≡ fix_buffer event buffer xs ++ ys
fix_buffer-append event buffer xs ys = ground arith

fix_buffers-snoc :
    (ms : List TransportMessage) (m : TransportMessage)
    → fix_buffers (ms ++ m ∷ []) ≡ fix_buffers ms ++ fix_buffer m.event m.buffer []
fix_buffers-snoc [] m = refl
fix_buffers-snoc (n ∷ ms) m =
    ap (fix_buffer n.event n.buffer) (fix_buffers-snoc ms m)
    ∙ fix_buffer-append n.event n.buffer (fix_buffers ms) (fix_buffer m.event m.buffer [])

map-snoc :
    (xs : List Bytes) (x : Bytes)
    → map fix_message_of (xs ++ x ∷ []) ≡ map fix_message_of xs ++ fix_message_of x ∷ []
map-snoc [] x = refl
map-snoc (y ∷ xs) x = ap (λ (t : List TransportMessage). fix_message_of y ∷ t) (map-snoc xs x)

module _ (source : Yields) where
  -- What the reader yielded so far has been given to the handler or waits for it, after the notice of
  -- the connection; what the handler sent has been taken to be written or waits for it.
  pub record InOrder (p : Processor) : Type 0 where
    pub yielded : List Bytes
    pub left : yielded ++ p.source.0 ≡ source.0
    pub ending : p.source.1 ≡ source.1
    pub delivered :
        p.received ++ p.read_queue
        ≡ notice TransportEvent.connection_received ∷ map fix_message_of yielded
    pub handed : p.taken ++ p.write_queue ≡ p.handed
    pub written : p.written ≡ fix_buffers p.taken
    pub done : p.state ≡ eof → (p.source.0 ≡ []) × (p.source.1 ≡ Ending.finished)

  -- A change that moves messages on, and takes no more from the reader.
  pub InOrder-moved :
      (p q : Processor)
      → q.source ≡ p.source
      → q.received ++ q.read_queue ≡ p.received ++ p.read_queue
      → q.taken ++ q.write_queue ≡ q.handed
      → q.written ≡ fix_buffers q.taken
      → (q.state ≡ eof → p.state ≡ eof)
      → InOrder p
      → InOrder q
  InOrder-moved p q s d t w k h = record {
    yielded = h.yielded;
    left = ap (λ (y : Yields). h.yielded ++ y.0) s ∙ h.left;
    ending = ap (λ (y : Yields). y.1) s ∙ h.ending;
    delivered = d ∙ h.delivered;
    handed = t;
    written = w;
    done = λ e.
        let (none_left, ended) = h.done (k e) in
        (ap (λ (y : Yields). y.0) s ∙ none_left, ap (λ (y : Yields). y.1) s ∙ ended);
  }

  abbrev pub Left : Processor × Result (Unit {0}) → Type 0
  Left (p, Result.ok tt) = InOrder p
  Left (p, err x) = Unit {0}

  Left-then :
      (r : Processor × Result (Unit {0})) (m : M Processor (Unit {0}))
      → Left r
      → ((q : Processor) → InOrder q → Left (m q))
      → Left (continue r (λ _. m))
  Left-then (p, Result.ok tt) m h k = k p h
  Left-then (p, err x) m h k = tt

  take-handed :
      (p : Processor) (m : TransportMessage) (queue : List TransportMessage)
      → p.write_queue ≡ m ∷ queue
      → InOrder p
      → (p.taken ++ m ∷ []) ++ queue ≡ p.handed
  take-handed p m queue e h =
      append_assoc p.taken (m ∷ []) queue
      ∙ ap (λ (q : List TransportMessage). p.taken ++ q) (sym e)
      ∙ h.handed

  write-Left :
      (p : Processor) (event : TransportEvent) (buffer : Bytes) (queue : List TransportMessage)
      → p.write_queue ≡ record { event = event; buffer = buffer } ∷ queue
      → InOrder p
      → Left (write_head (record { event = event; buffer = buffer } ∷ queue) p)
  write-Left p TransportEvent.fix_received buffer queue e h =
      let m : TransportMessage = fix_message_of buffer in
      elim (Bool-cases (is_utf8 (show_separators buffer))) [
        | inl y ↦ rw y (
            InOrder-moved p _ refl refl (take-handed p m queue e h)
              (ap (λ (t : List Bytes). t ++ buffer ∷ []) h.written
                ∙ sym (fix_buffers-snoc p.taken m))
              (λ q. q) h)
        | inr n ↦ rw n tt
      ]
  write-Left p TransportEvent.disconnect_received buffer queue e h =
      let m : TransportMessage = record {
        event = TransportEvent.disconnect_received;
        buffer = buffer;
      } in
      InOrder-moved p _ refl refl (take-handed p m queue e h)
        (h.written ∙ sym (append-nil (fix_buffers p.taken)) ∙ sym (fix_buffers-snoc p.taken m))
        (λ q. absurd (ground arith)) h
  write-Left p TransportEvent.connection_received buffer queue e h = tt
  write-Left p TransportEvent.fix_handled buffer queue e h = tt
  write-Left p TransportEvent.timeout_received buffer queue e h = tt
  write-Left p TransportEvent.timeout_handled buffer queue e h = tt

  write_queue-Left :
      (p : Processor) (queue : List TransportMessage)
      → p.write_queue ≡ queue
      → InOrder p
      → Left (write_head queue p)
  write_queue-Left p [] e h = h
  write_queue-Left p (m ∷ queue) e h = write-Left p m.event m.buffer queue e h

  read-Left : (p : Processor) (y : Yields) → p.source ≡ y → InOrder p → Left (read_head y p)
  read-Left p (buffer ∷ buffers, ending) e h =
      let m : TransportMessage = fix_message_of buffer in
      elim (Bool-cases (is_utf8 (show_separators buffer))) [
        | inl y ↦ rw y (record {
          yielded = h.yielded ++ buffer ∷ [];
          left =
              append_assoc h.yielded (buffer ∷ []) buffers
              ∙ ap (λ (t : Yields). h.yielded ++ t.0) (sym e)
              ∙ h.left;
          ending = ap (λ (t : Yields). t.1) (sym e) ∙ h.ending;
          delivered =
              sym (append_assoc p.received p.read_queue (m ∷ []))
              ∙ ap (λ (t : List TransportMessage). t ++ m ∷ []) h.delivered
              ∙ ap (λ (t : List TransportMessage). notice TransportEvent.connection_received ∷ t)
                  (sym (map-snoc h.yielded buffer));
          handed = h.handed;
          written = h.written;
          done = λ q. absurd (ground (arith, h.done q, e));
        })
        | inr n ↦ rw n tt
      ]
  read-Left p ([], finished) e h = record {
    yielded = h.yielded;
    left = h.left;
    ending = h.ending;
    delivered = h.delivered;
    handed = h.handed;
    written = h.written;
    done = λ q. (ap (λ (t : Yields). t.0) e, ap (λ (t : Yields). t.1) e);
  }
  read-Left p ([], failed x) e h = tt
  read-Left p ([], out_of_rounds) e h = tt

  serve-Left : (task : Task) (p : Processor) → InOrder p → Left (serve task p)
  unfolding serve
  serve-Left handler_task p h =
      InOrder-moved p _ refl refl h.handed h.written (λ q. absurd (ground arith)) h
  serve-Left cancellation_task p h =
      InOrder-moved p _ refl refl h.handed h.written (λ q. absurd (ground arith)) h
  serve-Left write_task p h = write_queue-Left p p.write_queue refl h
  serve-Left read_task p h = read-Left p p.source refl h

  pub serve_all-Left : (tasks : List Task) (p : Processor) → InOrder p → Left (serve_all tasks p)
  unfolding serve_all
  serve_all-Left [] p h = h
  serve_all-Left (task ∷ tasks) p h =
      Left-then (serve task p) (serve_all tasks) (serve-Left task p h) (serve_all-Left tasks)
