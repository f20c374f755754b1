-- ===== src/ReadBuffer.antt =====
-- jetblack_fixengine/transports/fix_read_buffer.py and fix_events.py: the parser that cuts a stream
-- of bytes into FIX messages. A method that mutates `self` returns the new buffer beside its result,
-- so what it changed before it raised is kept. `calc_checksum` is jetblack_fixparser's.
pub mod Search
pub mod Frame
pub mod Fields
pub mod Advance
pub mod Stages
pub mod Conserve
pub mod Valid
use jetblack_fixengine.Prelude.{
  Bool, List, Option, [], bit_and, drop, false, if◌then◌else◌, length, ltb, ltb_ℤ, neg, negsuc,
  none, not, pos, some, suc, take, true, zero, ℕ, ℤ, ◌&&◌, ◌++◌, ◌+ℤ◌, ◌+◌, ◌==◌, ◌∷◌,
}
use jetblack_fixengine.Bytes.{
  Bytes, bytes_eq, codes, ends_with, find, find_from, int, is_empty, lstrip_zeros, slice,
  slice_from, slice_to, starts_with,
}

pub data FixReadEvent : Type 0 where
  needs_more_data : ℤ → FixReadEvent
  data_ready : Bytes → FixReadEvent
  end_of_file : FixReadEvent

-- What the methods raise: the `FixReadError`s by their text, then Python's own errors.
pub data ReadError : Type 0 where
  unknown_transition invalid_state expected_begin_string expected_body_length : ReadError
  no_terminating_separator no_terminating_checksum wrong_checksum : ReadError
  assertion_error index_error value_error out_of_fuel : ReadError

pub data Result (A : Type 0) : Type 0 where
  ok : A → Result A
  err : ReadError → Result A

pub data InputState : Type 0 where
  empty has_data eof : InputState

pub data ReadState : Type 0 where
  protocol_error state_error closed done : ReadState
  idle expect_begin_string expect_body_length expect_body file_ended : ReadState

-- The values of the `IntEnum`; `file_ended` is END_OF_FILE.
abbrev pub value : ReadState → ℕ
value protocol_error = 0x01
value state_error = 0x02
value closed = 0x03
value done = 0x0f
value idle = 0x10
value expect_begin_string = 0x20
value expect_body_length = 0x30
value expect_body = 0x40
value file_ended = 0x50

-- `self._state & ReadState.EXPECT`
abbrev pub is_expecting : ReadState → Bool
is_expecting s = not (bit_and (value s) 0xf0 == 0)

pub record FixReadBuffer : Type 0 where
  pub sep : Bytes
  pub convert_sep_to_soh_for_checksum : Bool
  pub validate : Bool
  pub queue : List Bytes
  pub buf : Bytes
  pub index : ℕ
  pub required_length : ℤ
  pub state : ReadState

unfoldable pub new_buffer : Bytes → Bool → Bool → FixReadBuffer
new_buffer sep convert validate = record {
  sep = sep;
  convert_sep_to_soh_for_checksum = convert;
  validate = validate;
  queue = [];
  buf = [];
  index = 0;
  required_length = negsuc 0;
  state = idle;
}

abbrev pub sep_length : FixReadBuffer → ℕ
sep_length b = length b.sep

abbrev pub checksum_length : FixReadBuffer → ℕ
checksum_length b = length (codes "10=000") + sep_length b

abbrev pub queue_input : List Bytes → InputState
queue_input [] = empty
queue_input (c ∷ q) = if is_empty c then eof else has_data

abbrev pub input_state : FixReadBuffer → InputState
input_state b = queue_input b.queue

unfoldable pub receive : Bytes → FixReadBuffer → FixReadBuffer
receive chunk b = record b { queue = b.queue ++ chunk ∷ [] }

-- A handler's result: an event or nothing, and whether its state is complete.
abbrev pub StateResponse : Type 0
StateResponse = Option FixReadEvent × Bool

abbrev pub Outcome : Type 0 → Type 0
Outcome A = FixReadBuffer × Result A

pub data Action : Type 0 where
  proceed request_data begin_string body_length body handle_end_of_file : Action

-- `self._transitions`; `none` is the KeyError.
abbrev pub transitions : ReadState → InputState → Option (Action × ReadState)
transitions idle empty = some (request_data, idle)
transitions idle has_data = some (proceed, expect_begin_string)
transitions idle eof = some (handle_end_of_file, file_ended)
transitions expect_begin_string empty = some (request_data, expect_begin_string)
transitions expect_begin_string has_data = some (begin_string, expect_body_length)
transitions expect_body_length empty = some (request_data, expect_body_length)
transitions expect_body_length has_data = some (body_length, expect_body)
transitions expect_body empty = some (request_data, expect_body)
transitions expect_body has_data = some (body, idle)
transitions file_ended eof = some (handle_end_of_file, closed)
transitions _ _ = none

unfoldable pub requeue_unprocessed : FixReadBuffer → FixReadBuffer
requeue_unprocessed b =
    if ltb b.index (length b.buf)
    then record b { queue = drop b.index b.buf ∷ b.queue; buf = take b.index b.buf }
    else b

-- `self._buf += self._queue.popleft()`, with what follows it.
abbrev pub pop_queue :
    List Bytes → FixReadBuffer → (FixReadBuffer → Outcome StateResponse) → Outcome StateResponse
pop_queue [] b next = (b, err index_error)
pop_queue (c ∷ q) b next = next (record b { queue = q; buf = b.buf ++ c })

abbrev pub need : ℤ → FixReadBuffer → Outcome StateResponse
need n b = (b, ok (some (needs_more_data n), false))

-- What follows the search for the separator of the BeginString field.
abbrev pub begin_found : FixReadBuffer → Option ℕ → Outcome StateResponse
begin_found b none = need (negsuc 0) b
begin_found b (some soh_index) =
    if starts_with b.buf (codes "8=")
    then (requeue_unprocessed (record b { index = soh_index + 1 }), ok (none, true))
    else (b, err expected_begin_string)

unfoldable pub scan_begin_string : FixReadBuffer → Outcome StateResponse
scan_begin_string b = begin_found b (find b.buf b.sep)

unfoldable pub process_begin_string : FixReadBuffer → Outcome StateResponse
process_begin_string b =
    if b.index == 0 then pop_queue b.queue b scan_begin_string else (b, err assertion_error)

-- The value of the BodyLength field that stands in `buf[index + 2 : soh_index]`.
unfoldable pub parse_body_length : Bytes → Option ℤ
parse_body_length v =
    int (if ltb 1 (length v) && starts_with v (codes "0") then lstrip_zeros v else v)

abbrev pub set_body_length : FixReadBuffer → ℕ → Option ℤ → Outcome StateResponse
set_body_length b soh_index none = (b, err value_error)
set_body_length b soh_index (some n) = (
  requeue_unprocessed (record b {
    required_length = pos (soh_index + sep_length b) +ℤ n +ℤ pos (checksum_length b);
    index = soh_index + 1;
  }),
  ok (none, true),
)

-- What follows the search for the separator of the BodyLength field.
abbrev pub length_found : FixReadBuffer → Option ℕ → Outcome StateResponse
length_found b none = need (negsuc 0) b
length_found b (some soh_index) =
    if starts_with (slice b.buf (pos b.index) (pos soh_index)) (codes "9=")
    then set_body_length b soh_index
        (parse_body_length (slice b.buf (pos (b.index + 2)) (pos soh_index)))
    else (b, err expected_body_length)

unfoldable pub scan_body_length : FixReadBuffer → Outcome StateResponse
scan_body_length b = length_found b (find_from b.buf b.sep b.index)

unfoldable pub process_body_length : FixReadBuffer → Outcome StateResponse
process_body_length b = pop_queue b.queue b scan_body_length

-- The message is complete: the reset of the buffer, and the event.
unfoldable pub finish_body : FixReadBuffer → Bytes → Outcome StateResponse
finish_body b whole = (
  record b {
    queue =
        if ltb_ℤ b.required_length (pos (length b.buf))
        then slice_from b.buf b.required_length ∷ b.queue
        else b.queue;
    buf = [];
    index = 0;
    required_length = pos 0;
  },
  ok (some (data_ready whole), true),
)

-- What follows the checks: an error is raised, and the message leaves the buffer else.
abbrev pub checked : FixReadBuffer → Bytes → Option ReadError → Outcome StateResponse
checked b whole (some e) = (b, err e)
checked b whole none = finish_body b whole

module _ (calc_checksum : Bytes → Bytes → Bool → Bytes) where
  -- The checks of a complete message; `none` lets it pass.
  unfoldable pub check_message : FixReadBuffer → Bytes → Option ReadError
  check_message b whole =
      let checksum = slice whole (neg (checksum_length b)) (neg (sep_length b)) in
      if not (ends_with whole b.sep)
      then some no_terminating_separator
      else if not b.validate
      then none
      else if not (starts_with checksum (codes "10="))
      then some no_terminating_checksum
      else if bytes_eq (slice_from checksum (pos 3))
          (calc_checksum whole b.sep b.convert_sep_to_soh_for_checksum)
      then none
      else some wrong_checksum

  unfoldable pub scan_body : FixReadBuffer → Outcome StateResponse
  scan_body b =
      let whole = slice_to b.buf b.required_length in
      if ltb_ℤ (pos (length b.buf)) b.required_length
      then need (b.required_length +ℤ neg (length b.buf)) b
      else checked b whole (check_message b whole)

  unfoldable pub process_body : FixReadBuffer → Outcome StateResponse
  process_body b = pop_queue b.queue b scan_body

  -- The call of the handler that `self._transitions` names.
  unfoldable pub run : Action → FixReadBuffer → Outcome StateResponse
  run proceed b = (b, ok (none, true))
  run request_data b = need (negsuc 0) b
  run begin_string b = process_begin_string b
  run body_length b = process_body_length b
  run body b = process_body b
  run handle_end_of_file b = (b, ok (some end_of_file, true))

  abbrev pub complete : ReadState → Bool → FixReadBuffer → FixReadBuffer
  complete next_state is_complete b = if is_complete then record b { state = next_state } else b

  -- One round of the loop: `none` for the event goes round again.
  abbrev pub settle : ReadState → Outcome StateResponse → Outcome (Option FixReadEvent)
  settle next_state (b, err e) = (b, err e)
  settle next_state (b, ok (event, is_complete)) = (complete next_state is_complete b, ok event)

  abbrev pub enter : Option (Action × ReadState) → FixReadBuffer → Outcome (Option FixReadEvent)
  enter none b = (b, err unknown_transition)
  enter (some (action, next_state)) b = settle next_state (run action b)

  unfoldable pub step : FixReadBuffer → Outcome (Option FixReadEvent)
  step b = enter (transitions b.state (input_state b)) b

  abbrev pub resume :
      (FixReadBuffer → Outcome FixReadEvent) → Outcome (Option FixReadEvent) → Outcome FixReadEvent
  resume again (b, err e) = (b, err e)
  resume again (b, ok none) = again b
  resume again (b, ok (some event)) = (b, ok event)

  -- The `while` loop of `next_event`. Every round without an event goes on to a later state of the
  -- message, so four rounds are enough.
  unfoldable pub next_event_loop : ℕ → FixReadBuffer → Outcome FixReadEvent
  next_event_loop zero b = (b, err out_of_fuel)
  next_event_loop (suc fuel) b =
      if is_expecting b.state
      then resume (next_event_loop fuel) (step b)
      else (b, err invalid_state)

  unfoldable pub next_event : FixReadBuffer → Outcome FixReadEvent
  next_event = next_event_loop 4
