-- ===== src/FixTransport/Shutdown.antt =====
-- How a connection ends: by its state, and by an error of the reader.
use jetblack_fixengine.Prelude.{Bool, List, Option, [], false, refl, some, true, ◌∷◌, ◌≡◌}
use jetblack_fixengine.FixTransport.{
  AtShutdown, Event, Processor, Task, complete, goes_on, process_events, read_task, serve,
  serve_all,
}
use jetblack_fixengine.Exceptions.{Exception, decode_error, err, stop_async_iteration}
use jetblack_fixengine.ReadAsync.{failed}
use jetblack_fixengine.ReadBuffer.{ReadError}

-- What awaiting the cancelled read task raises, if anything: a read task that is not pending has ended
-- with StopAsyncIteration.
abbrev pub read_exception : AtShutdown → Bool → Option Exception
read_exception later true = later.read_raises
read_exception later false = some stop_async_iteration

-- Where the reader has failed, as it does on a message with a wrong checksum, and its task completes
-- first: the processor raises that error, whatever else has completed and whatever follows. The handler
-- is told nothing, it is not stopped, and the writer is not closed.
pub failed_reader :
    (p : Processor) (e : ReadError) (tasks : List Task) (events : List Event) (later : AtShutdown)
    → goes_on p ≡ true
    → p.source ≡ ([], failed e)
    → process_events (complete (read_task ∷ tasks) ∷ events) later p
      ≡ (record p { is_reading = false }, err decode_error)
unfolding process_events serve_all serve
failed_reader p e tasks events later g s = rw (g, s) refl
