-- ===== src/FixTransport/Order.antt =====
-- What can happen to a connection, in any order, and that it keeps the messages in order.
use jetblack_fixengine.FixTransport.Serving.{InOrder, InOrder-moved, Left, serve_all-Left}
use jetblack_fixengine.Prelude.{
  List, [], ap, append_assoc, arith, refl, sym, true, ◌++◌, ◌∙◌, ◌∷◌, ◌≡◌,
}
use jetblack_fixengine.Exceptions.{Result, ok}
use jetblack_fixengine.Transport.{TransportMessage}
use jetblack_fixengine.ReadAsync.{Yields}
use mathlib.Core.Path.{subst}
use jetblack_fixengine.FixTransport.{
  Event, HandlerTask, Processor, cancel, complete, end_handler, goes_on, handle, new_processor,
  raised, receive, receive_head, returned, running, send,
}

-- The loop serves tasks while it goes on. The rest can happen at any time.
abbrev pub IsServing : Event → Processor → Type 0
IsServing (complete tasks) p = goes_on p ≡ true
IsServing event p = Unit {0}

-- An event that raises no exception: the handler takes or sends a message or ends, the cancellation
-- event is set, or the loop serves the tasks that are completed.
pub data Step : Processor → Processor → Type 0 where
  happens :
      (event : Event) (p q : Processor)
      → IsServing event p
      → handle p.handler event p ≡ (q, ok tt)
      → Step p q

pub data Reach (source : Yields) : Processor → Type 0 where
  begin : Reach source (new_processor source)
  next : {p q : Processor} → Reach source p → Step p q → Reach source q

module _ (source : Yields) where
  receives-InOrder :
      (p : Processor) (m : TransportMessage) (queue : List TransportMessage)
      → p.read_queue ≡ m ∷ queue
      → InOrder source p
      → InOrder source (record p { read_queue = queue; received = p.received ++ m ∷ [] })
  receives-InOrder p m queue e h =
      InOrder-moved source p _ refl
        (append_assoc p.received (m ∷ []) queue
          ∙ ap (λ (t : List TransportMessage). p.received ++ t) (sym e))
        h.handed h.written (λ q. q) h

  sends-InOrder :
      (p : Processor) (m : TransportMessage)
      → InOrder source p
      → InOrder source
          (record p { write_queue = p.write_queue ++ m ∷ []; handed = p.handed ++ m ∷ [] })
  sends-InOrder p m h =
      InOrder-moved source p _ refl refl
        (sym (append_assoc p.taken p.write_queue (m ∷ []))
          ∙ ap (λ (t : List TransportMessage). t ++ m ∷ []) h.handed)
        h.written (λ q. q) h

  ends-InOrder :
      (p : Processor) (t : HandlerTask)
      → InOrder source p
      → InOrder source (record p { handler = t })
  ends-InOrder p t h = InOrder-moved source p _ refl refl h.handed h.written (λ q. q) h

  cancels-InOrder :
      (p : Processor) → InOrder source p → InOrder source (record p { is_cancelled = true })
  cancels-InOrder p h = InOrder-moved source p _ refl refl h.handed h.written (λ q. q) h

  pub start-InOrder : InOrder source (new_processor source)
  start-InOrder = record {
    yielded = [];
    left = refl;
    ending = refl;
    delivered = refl;
    handed = refl;
    written = refl;
    done = λ q. absurd (ground arith);
  }

  receive_head-InOrder :
      (p : Processor) (queue : List TransportMessage)
      → p.read_queue ≡ queue
      → InOrder source p
      → InOrder source (receive_head queue p)
  receive_head-InOrder p [] e h = h
  receive_head-InOrder p (m ∷ queue) e h = receives-InOrder p m queue e h

  handle-Left :
      (t : HandlerTask) (event : Event) (p : Processor)
      → InOrder source p
      → Left source (handle t event p)
  handle-Left t (complete tasks) p h = serve_all-Left source tasks p h
  handle-Left t cancel p h = cancels-InOrder p h
  handle-Left running receive p h = receive_head-InOrder p p.read_queue refl h
  handle-Left running (send m) p h = sends-InOrder p m h
  handle-Left running (end_handler t) p h = ends-InOrder p t h
  handle-Left returned receive p h = h
  handle-Left returned (send m) p h = h
  handle-Left returned (end_handler t) p h = h
  handle-Left (raised x) receive p h = h
  handle-Left (raised x) (send m) p h = h
  handle-Left (raised x) (end_handler t) p h = h

  -- One event of the loop, if it raises no exception.
  pub handle-InOrder :
      (event : Event) (p q : Processor)
      → handle p.handler event p ≡ (q, Result.ok tt)
      → InOrder source p
      → InOrder source q
  handle-InOrder event p q e h = subst (Left source) e (handle-Left p.handler event p h)

  Step-InOrder : {p q : Processor} → Step p q → InOrder source p → InOrder source q
  Step-InOrder (happens event p q s e) h = handle-InOrder event p q e h

  -- As long as no exception ends the loop, whatever happens to a connection, in whatever order, and
  -- however its tasks are served together: what the handler has been given and what waits for it are, in
  -- their order, the notice of the connection and then each message that the reader has yielded, once;
  -- what has been written are the FIX messages that the handler sent, in their order, each once, up to
  -- those that still wait; and the loop only takes the stream to be at its end when all is yielded and
  -- the reader has finished.
  pub Reach-InOrder : {p : Processor} → Reach source p → InOrder source p
  Reach-InOrder begin = start-InOrder
  Reach-InOrder (next r st) = Step-InOrder st (Reach-InOrder r)
