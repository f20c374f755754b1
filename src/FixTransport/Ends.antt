-- ===== src/FixTransport/Ends.antt =====
-- jetblack_fixengine/initiator/helpers.py and acceptor/helpers.py: `initiate` and `accept` put the reader,
-- its buffer and the processor together. What a handler has been given when the connection is over.
use jetblack_fixengine.FixTransport.Serving.{InOrder}
use jetblack_fixengine.FixTransport.{
  AtShutdown, Event, FixState, HandlerTask, Processor, await_handler, cancel_read, ending_of, eof,
  fix_message_of, fix_stream_processor, goes_on, handle, handler_closed, handler_completed,
  new_processor, process_events, raised, read_ends, returned, running, shut_down, shutdown,
  was_cancelled,
}
use jetblack_fixengine.FixTransport.Order.{handle-InOrder, start-InOrder}
use jetblack_fixengine.Prelude.{
  Bool, Bool-cases, List, Option, [], ap, append-nil, append_assoc, arith, concat, false, inl, inr,
  length, map, none, refl, some, sym, true, ℕ, ◌++◌, ◌+◌, ◌∙◌, ◌∷◌, ◌≡◌, ◌≢◌, ◌≤◌,
}
use jetblack_fixengine.Bytes.{Bytes}
use jetblack_fixengine.Exceptions.{Exception, M, Result, branch, continue, err, modify, pure, ◌>>◌}
use jetblack_fixengine.Transport.{TransportEvent, TransportMessage, notice}
use jetblack_fixengine.ReadAsync.{Yields, fix_read_async}
use jetblack_fixengine.Engine.{CallEnd, left, waiting}
use mathlib.Core.Path.{subst}
use jetblack_fixengine.ReadBuffer.Frame.{AllWellFormed, Frame, encode_all, stream}
use jetblack_fixengine.ReadAsync.RoundTrip.{AllNonEmpty, fix_read_async-encode}
use jetblack_fixengine.ReadBuffer.{new_buffer}

-- `initiate` after `open_connection`, and `accept`: `sep`, `convert` and `validate` are the options, and
-- `chunks` is what the connection reads.
unfoldable pub connect :
    (Bytes → Bytes → Bool → Bytes)
    → Bytes
    → Bool
    → Bool
    → ℕ
    → List Bytes
    → Bool
    → List Event
    → AtShutdown
    → Processor × Result CallEnd
connect calc_checksum sep convert validate rounds chunks is_set events later =
    fix_stream_processor is_set
      (fix_read_async calc_checksum rounds (new_buffer sep convert validate) chunks) events later

module _ (source : Yields) where
  -- The handler has been given, or waits for, all that the reader yields, between the two notices.
  abbrev pub IsDelivered : Processor → Type 0
  IsDelivered q =
      q.received ++ q.read_queue
      ≡ notice TransportEvent.connection_received
        ∷ (map fix_message_of source.0 ++ notice TransportEvent.disconnect_received ∷ [])

  abbrev Ended : Processor × Result CallEnd → Type 0
  Ended (q, Result.ok left) = q.state ≡ eof → IsDelivered q
  Ended (q, Result.ok waiting) = Unit {0}
  Ended (q, err x) = Unit {0}

  await-Ended :
      (o : Option HandlerTask) (p : Processor)
      → (p.state ≡ eof → IsDelivered p)
      → Ended ((await_handler o >> pure left) p)
  await-Ended none p h = h
  await-Ended (some running) p h = h
  await-Ended (some returned) p h = h
  await-Ended (some (raised x)) p h = tt

  await_unless-Ended :
      (b : Bool) (o : Option HandlerTask) (p : Processor)
      → (p.state ≡ eof → IsDelivered p)
      → Ended ((branch (λ _. b) (pure tt) (await_handler o) >> pure left) p)
  await_unless-Ended true o p h = h
  await_unless-Ended false o p h = await-Ended o p h

  abbrev told : Processor → Processor
  told p = record p {
    read_queue = p.read_queue ++ notice TransportEvent.disconnect_received ∷ [];
    is_writing = false;
  }

  told-IsDelivered : (p : Processor) → InOrder source p → p.state ≡ eof → IsDelivered (told p)
  told-IsDelivered p h e =
      let gone : TransportMessage = notice TransportEvent.disconnect_received in
      let whole =
        sym (append-nil h.yielded)
        ∙ ap (λ (t : List Bytes). h.yielded ++ t) (sym (h.done e).0)
        ∙ h.left in
      sym (append_assoc p.received p.read_queue (gone ∷ []))
      ∙ ap (λ (t : List TransportMessage). t ++ gone ∷ []) h.delivered
      ∙ ap
          (λ (t : List Bytes).
            notice TransportEvent.connection_received ∷ (map fix_message_of t ++ gone ∷ []))
          whole

  read_ends-Ended :
      (reading : Bool) (x : Option Exception) (rest : M Processor (Unit {0})) (p : Processor)
      → Ended ((rest >> pure left) (record p { is_reading = false }))
      → Ended (((read_ends reading x >> rest) >> pure left) p)
  read_ends-Ended true none rest p h = h
  read_ends-Ended true (some x) rest p h = tt
  read_ends-Ended false x rest p h = tt

  -- A shutdown that is not at the end of the stream has nothing to show.
  stopped-Ended :
      (later : AtShutdown) (p : Processor)
      → p.state ≢ eof
      → Ended (
          ((modify (λ p. record p { is_closed = true })
                >> cancel_read later
                >> branch
                    (λ p. was_cancelled p.handler)
                    (pure tt)
                    (λ p. await_handler (ending_of p.handler later.handler_ends) p))
              >> pure left)
            p)
  stopped-Ended later p h =
      read_ends-Ended p.is_reading later.read_raises _ (record p { is_closed = true })
        (await_unless-Ended (was_cancelled p.handler) (ending_of p.handler later.handler_ends) _
          (λ g. absurd (h g)))

  shut_down-Ended :
      (s : FixState) (later : AtShutdown) (p : Processor)
      → p.state ≡ s
      → InOrder source p
      → Ended ((shut_down s later >> pure left) p)
  shut_down-Ended handler_completed later p e h =
      read_ends-Ended p.is_reading later.read_raises _ p (λ g. absurd (ground (arith, e, g)))
  shut_down-Ended eof later p e h =
      await_unless-Ended (was_cancelled p.handler) (ending_of p.handler later.handler_ends) _
        (told-IsDelivered p h)
  shut_down-Ended FixState.ok later p e h =
      stopped-Ended later (told p) (λ g. absurd (ground (arith, e, g)))
  shut_down-Ended FixState.cancelled later p e h =
      stopped-Ended later (told p) (λ g. absurd (ground (arith, e, g)))
  shut_down-Ended handler_closed later p e h =
      stopped-Ended later (told p) (λ g. absurd (ground (arith, e, g)))

  shutdown-Ended :
      (later : AtShutdown) (p : Processor)
      → InOrder source p
      → Ended ((shutdown later >> pure left) p)
  unfolding shutdown
  shutdown-Ended later p h = shut_down-Ended p.state later p refl h

  handled-Ended :
      (event : Event) (again : M Processor CallEnd) (p : Processor)
      (r : Processor × Result (Unit {0}))
      → handle p.handler event p ≡ r
      → InOrder source p
      → ((q : Processor) → InOrder source q → Ended (again q))
      → Ended (continue r (λ _. again))
  handled-Ended event again p (q, Result.ok tt) e h k = k q (handle-InOrder source event p q e h)
  handled-Ended event again p (q, err x) e h k = tt

  process_events-Ended :
      (events : List Event) (later : AtShutdown) (p : Processor)
      → InOrder source p
      → Ended (process_events events later p)
  unfolding process_events
  process_events-Ended [] later p h = elim (Bool-cases (goes_on p)) [
    | inl y ↦ rw y tt
    | inr n ↦ rw n (shutdown-Ended later p h)
  ]
  process_events-Ended (event ∷ events) later p h = elim (Bool-cases (goes_on p)) [
    | inl y ↦ rw y (
        handled-Ended event (process_events events later) p _ refl h
          (process_events-Ended events later))
    | inr n ↦ rw n (shutdown-Ended later p h)
  ]

module _ (calc_checksum : Bytes → Bytes → Bool → Bytes) (s : ℕ) (validate convert : Bool) where
  -- A connection whose stream is the encoding of well-formed messages, cut into non-empty chunks at any
  -- places. If it is over without an exception, at the end of the stream, then, whatever happened on the
  -- way and in whatever order: the handler has been given, or finds in the queue, the notice of the
  -- connection, each of these messages, whole and once, in their order, and the notice that the
  -- connection is gone.
  pub connect-IsDelivered :
      (fs : List Frame) (chunks : List Bytes) (rounds : ℕ) (events : List Event)
      (later : AtShutdown) (q : Processor)
      → AllWellFormed calc_checksum s validate convert fs
      → AllNonEmpty chunks
      → concat chunks ≡ stream s fs
      → length chunks + length fs + 2 ≤ rounds
      → connect calc_checksum (s ∷ []) convert validate rounds chunks false events later
        ≡ (q, Result.ok left)
      → q.state ≡ eof
      → q.received ++ q.read_queue
        ≡ notice TransportEvent.connection_received
          ∷ (map fix_message_of (encode_all s fs) ++ notice TransportEvent.disconnect_received ∷ [])
  unfolding connect fix_stream_processor
  connect-IsDelivered fs chunks rounds events later q wf full e h c g =
      let source =
        fix_read_async calc_checksum rounds (new_buffer (s ∷ []) convert validate) chunks in
      let over : Ended source (q, Result.ok left) =
        subst (Ended source) c (
          process_events-Ended source events later (new_processor source) (start-InOrder source)) in
      subst (λ (y : Yields). IsDelivered y q)
        (fix_read_async-encode calc_checksum s validate convert fs chunks rounds wf full e h)
        (over g)
