-- ===== src/FixTransport.antt =====
-- jetblack_fixengine/transports/fix_transport.py: the loop that serves a connection's tasks, between the
-- reader, the writer and the handler, which is an engine.
pub mod Serving
pub mod Order
pub mod Shutdown
pub mod Liveness
pub mod Delivery
pub mod Ends
use jetblack_fixengine.Prelude.{
  Bool, List, Option, [], false, if◌then◌else◌, none, not, some, true, ◌&&◌, ◌++◌, ◌∷◌,
}
use jetblack_fixengine.Bytes.{Bytes}
use jetblack_fixengine.Bytes.Text.{is_utf8, show_separators}
use jetblack_fixengine.Exceptions.{
  Exception, M, Result, branch, cancelled_error, decode_error, err, modify, out_of_fuel, pure,
  raise, runtime_error, stop_async_iteration, value_error, ◌>>◌,
}
use jetblack_fixengine.Transport.{
  TransportEvent, TransportMessage, connection_received, disconnect_received, fix_received, notice,
}
use jetblack_fixengine.Engine.{CallEnd, left, waiting}
use jetblack_fixengine.ReadAsync.{Yields, failed, finished, out_of_rounds}

pub data FixState : Type 0 where
  ok eof handler_completed cancelled handler_closed : FixState

-- `FixState.OK`
abbrev pub is_ok : FixState → Bool
is_ok FixState.ok = true
is_ok _ = false

-- The handler's task: it runs, or has ended.
pub data HandlerTask : Type 0 where
  running : HandlerTask
  returned : HandlerTask
  raised : Exception → HandlerTask

-- The locals of `fix_stream_processor`, with what the handler was given and gave, and the writer.
pub record Processor : Type 0 where
  pub read_queue : List TransportMessage
  pub write_queue : List TransportMessage
  pub source : Yields  -- what `reader_iter` still yields
  pub state : FixState
  pub is_cancelled : Bool  -- the cancellation event
  pub handler : HandlerTask
  pub received : List TransportMessage  -- what `receive` gave the handler
  pub handed : List TransportMessage  -- what the handler gave `send`
  pub taken : List TransportMessage  -- the results of the write tasks
  pub written : List Bytes  -- what `writer.write` was given
  pub is_closed : Bool  -- `writer.close()` was called
  pub is_reading : Bool  -- `read_task` is pending
  pub is_writing : Bool  -- `write_task` is pending

-- The tasks in `completed`.
pub data Task : Type 0 where
  handler_task cancellation_task write_task read_task : Task

-- The state when the tasks are created.
abbrev pub new_processor : Yields → Processor
new_processor source = record {
  read_queue = notice TransportEvent.connection_received ∷ [];
  write_queue = [];
  source = source;
  state = FixState.ok;
  is_cancelled = false;
  handler = running;
  received = [];
  handed = [];
  taken = [];
  written = [];
  is_closed = false;
  is_reading = true;
  is_writing = true;
}

-- A FIX message that is handed to the handler.
abbrev pub fix_message_of : Bytes → TransportMessage
fix_message_of buffer = record { event = TransportEvent.fix_received; buffer = buffer }

-- A message that the handler sent: it is shown in the log, and written.
abbrev pub send_buffer : Bytes → M Processor (Unit {0})
send_buffer buffer p =
    if is_utf8 (show_separators buffer)
    then (record p { written = p.written ++ buffer ∷ []; is_writing = true }, Result.ok tt)
    else (p, err value_error)

abbrev pub write_message : TransportEvent → Bytes → M Processor (Unit {0})
write_message TransportEvent.fix_received buffer = send_buffer buffer
write_message TransportEvent.disconnect_received buffer =
    modify (λ p. record p { is_closed = true; state = handler_closed })
write_message _ buffer = raise runtime_error

-- The write task is completed by the head of the write queue. An empty queue completes no task.
abbrev pub write_head : List TransportMessage → M Processor (Unit {0})
write_head [] = pure tt
write_head (m ∷ queue) =
    modify (λ p. record p { write_queue = queue; taken = p.taken ++ m ∷ []; is_writing = false })
    >> write_message m.event m.buffer

-- The read task is completed by what the reader yields, or how it ends.
abbrev pub read_head : Yields → M Processor (Unit {0})
read_head (buffer ∷ buffers, ending) =
    modify (λ p. record p { source = (buffers, ending); is_reading = false })
    >> branch (λ p. is_utf8 (show_separators buffer))
        (modify (λ p. record p {
          read_queue = p.read_queue ++ fix_message_of buffer ∷ [];
          is_reading = true;
        }))
        (raise value_error)
read_head ([], finished) = modify (λ p. record p { state = eof; is_reading = false })
read_head ([], failed e) = modify (λ p. record p { is_reading = false }) >> raise decode_error
read_head ([], out_of_rounds) = raise out_of_fuel

-- The body of `for task in completed`.
unfoldable pub serve : Task → M Processor (Unit {0})
serve handler_task p = (record p { state = handler_completed }, Result.ok tt)
serve cancellation_task p = (record p { state = FixState.cancelled }, Result.ok tt)
serve write_task p = write_head p.write_queue p
serve read_task p = read_head p.source p

unfoldable pub serve_all : List Task → M Processor (Unit {0})
serve_all [] = pure tt
serve_all (task ∷ tasks) = serve task >> serve_all tasks

-- `while state == FixState.OK and not cancellation_event.is_set()`
abbrev pub goes_on : Processor → Bool
goes_on p = is_ok p.state && not p.is_cancelled

-- How the handler ends within the shutdown timeout, if it does.
abbrev pub await_handler : Option HandlerTask → M Processor (Unit {0})
await_handler (some running) = pure tt
await_handler (some returned) = modify (λ p. record p { handler = returned })
await_handler (some (raised x)) = modify (λ p. record p { handler = raised x }) >> raise x
await_handler none = modify (λ p. record p { handler = raised cancelled_error })

-- The handler's end is known where it has ended before.
abbrev pub ending_of : HandlerTask → Option HandlerTask → Option HandlerTask
ending_of running later = later
ending_of h later = some h

-- `handler_task.cancelled()`
abbrev pub was_cancelled : HandlerTask → Bool
was_cancelled (raised cancelled_error) = true
was_cancelled _ = false

-- What is not known before the shutdown: how a running handler ends, or `none` where the timeout passes
-- and it is cancelled; and what a pending read task raises when it is cancelled and awaited, or `none`
-- where that is the CancelledError, or it has a message.
pub record AtShutdown : Type 0 where
  pub handler_ends : Option HandlerTask
  pub read_raises : Option Exception

abbrev pub read_ends : Bool → Option Exception → M Processor (Unit {0})
read_ends true none = modify (λ p. record p { is_reading = false })
read_ends true (some x) = modify (λ p. record p { is_reading = false }) >> raise x
read_ends false x = raise stop_async_iteration

-- `cancel_await(read_task)`. Where no read task is pending in the shutdown, the last one has ended with
-- StopAsyncIteration, and a task that completed with it has set the state; it raises that again.
abbrev pub cancel_read : AtShutdown → M Processor (Unit {0})
cancel_read later p = read_ends p.is_reading later.read_raises p

abbrev pub close_unless_eof : FixState → AtShutdown → M Processor (Unit {0})
close_unless_eof eof later = pure tt
close_unless_eof _ later = modify (λ p. record p { is_closed = true }) >> cancel_read later

abbrev pub shut_down : FixState → AtShutdown → M Processor (Unit {0})
shut_down handler_completed later =
    cancel_read later >> modify (λ p. record p { is_writing = false; is_closed = true })
shut_down s later =
    modify (λ p. record p {
      read_queue = p.read_queue ++ notice TransportEvent.disconnect_received ∷ [];
      is_writing = false;
    })
    >> close_unless_eof s later
    >> branch (λ p. was_cancelled p.handler) (pure tt)
        (λ p. await_handler (ending_of p.handler later.handler_ends) p)

-- What follows the loop.
unfoldable pub shutdown : AtShutdown → M Processor (Unit {0})
shutdown later p = shut_down p.state later p

-- What happens while the loop waits: what the handler does, the cancellation event, and the tasks that
-- complete together.
pub data Event : Type 0 where
  receive : Event
  send : TransportMessage → Event
  end_handler : HandlerTask → Event
  cancel : Event
  complete : List Task → Event

-- `receive` waits while the queue is empty.
abbrev pub receive_head : List TransportMessage → Processor → Processor
receive_head [] p = p
receive_head (m ∷ queue) p = record p { read_queue = queue; received = p.received ++ m ∷ [] }

-- A handler that has ended does nothing.
abbrev pub handle : HandlerTask → Event → M Processor (Unit {0})
handle h (complete tasks) = serve_all tasks
handle h cancel = modify (λ p. record p { is_cancelled = true })
handle running receive = modify (λ p. receive_head p.read_queue p)
handle running (send m) =
    modify (λ p. record p { write_queue = p.write_queue ++ m ∷ []; handed = p.handed ++ m ∷ [] })
handle running (end_handler h) = modify (λ p. record p { handler = h })
handle h _ = pure tt

-- The task service loop, and the shutdown. In the model it may also wait for ever.
unfoldable pub process_events : List Event → AtShutdown → M Processor CallEnd
process_events [] later p =
    if goes_on p then (p, Result.ok waiting) else (shutdown later >> pure left) p
process_events (event ∷ events) later p =
    let again = (handle p.handler event >> process_events events later) p in
    if goes_on p then again else (shutdown later >> pure left) p

-- `fix_stream_processor`
unfoldable pub fix_stream_processor :
    Bool → Yields → List Event → AtShutdown → Processor × Result CallEnd
fix_stream_processor is_set source events later =
    if is_set
    then (new_processor source, Result.ok left)
    else process_events events later (new_processor source)
