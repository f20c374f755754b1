-- ===== src/ReadAsync.antt =====
-- jetblack_fixengine/transports/fix_reader_async.py: the generator that feeds the read buffer from a
-- stream. `stream_reader.read` returns the next chunk, and b'' for ever once the chunks are used up.
pub mod Stream
pub mod RoundTrip
use jetblack_fixengine.Prelude.{Bool, List, [], suc, zero, ℕ, ◌∷◌}
use jetblack_fixengine.Bytes.{Bytes}
use jetblack_fixengine.ReadBuffer.{
  FixReadBuffer, FixReadEvent, Outcome, ReadError, data_ready, end_of_file, err, needs_more_data,
  next_event, ok, receive,
}

-- How the generator ends: at the end of the stream, by an error of the buffer, or, in the model
-- alone, because its rounds are used up.
pub data Ending : Type 0 where
  finished : Ending
  failed : ReadError → Ending
  out_of_rounds : Ending

-- What `stream_reader.read(blksiz)` returns, and what it leaves.
abbrev pub read : List Bytes → Bytes × List Bytes
read [] = ([], [])
read (chunk ∷ chunks) = (chunk, chunks)

-- The messages that are yielded, and the ending.
abbrev pub Yields : Type 0
Yields = List Bytes × Ending

abbrev pub yield : Bytes → Yields → Yields
yield message (messages, ending) = (message ∷ messages, ending)

-- The body of the loop, by the event.
abbrev pub react :
    (FixReadBuffer → List Bytes → Yields) → List Bytes → Outcome FixReadEvent → Yields
react again chunks (b, err e) = ([], failed e)
react again chunks (b, ok end_of_file) = ([], finished)
react again chunks (b, ok (needs_more_data n)) =
    let (chunk, left) = read chunks in again (receive chunk b) left
react again chunks (b, ok (data_ready message)) = yield message (again b chunks)

unfoldable pub fix_read_async :
    (Bytes → Bytes → Bool → Bytes) → ℕ → FixReadBuffer → List Bytes → Yields
fix_read_async calc_checksum zero b chunks = ([], out_of_rounds)
fix_read_async calc_checksum (suc rounds) b chunks =
    react (fix_read_async calc_checksum rounds) chunks (next_event calc_checksum b)
