-- ===== src/ReadBuffer/Conserve.antt =====
-- No byte is lost: what `next_event` hands out and what it keeps are what it had.
use jetblack_fixengine.Prelude.{
  Bool, Bool-cases, List, Option, [], append_assoc, arith, concat, false, if◌then◌else◌, inl, inr,
  length, ltb, ltb_ℤ, min, negsuc, none, pos, refl, some, suc, take-append-drop, take_all, true,
  zero, ℕ, ℤ, ◌++◌, ◌+◌, ◌==◌, ◌∙◌, ◌∷◌, ◌≡◌,
}
use jetblack_fixengine.Bytes.{Bytes, bound, codes, find, find_from, slice, slice_to, starts_with}
use jetblack_fixengine.ReadBuffer.{
  Action, FixReadBuffer, FixReadEvent, Outcome, ReadError, ReadState, Result, StateResponse,
  begin_found, begin_string, body, body_length, checked, data_ready, end_of_file, enter, err,
  finish_body, handle_end_of_file, input_state, is_expecting, length_found, needs_more_data,
  next_event, next_event_loop, ok, parse_body_length, pop_queue, proceed, process_begin_string,
  process_body, process_body_length, request_data, requeue_unprocessed, resume, run,
  scan_begin_string, scan_body, scan_body_length, set_body_length, settle, step, transitions,
}

-- The bytes that were received and not yet handed out.
abbrev pub pending : FixReadBuffer → Bytes
pending b = b.buf ++ concat b.queue

abbrev pub event_bytes : FixReadEvent → Bytes
event_bytes (needs_more_data n) = []
event_bytes (data_ready whole) = whole
event_bytes end_of_file = []

abbrev pub maybe_bytes : Option FixReadEvent → Bytes
maybe_bytes none = []
maybe_bytes (some e) = event_bytes e

abbrev pub emitted : Result FixReadEvent → Bytes
emitted (ok e) = event_bytes e
emitted (err e) = []

abbrev response_bytes : Result StateResponse → Bytes
response_bytes (ok (e, _)) = maybe_bytes e
response_bytes (err e) = []

abbrev round_bytes : Result (Option FixReadEvent) → Bytes
round_bytes (ok e) = maybe_bytes e
round_bytes (err e) = []

abbrev Keeps : Bytes → Outcome StateResponse → Type 0
Keeps bytes r = response_bytes r.1 ++ pending r.0 ≡ bytes

pending-requeue : (b : FixReadBuffer) → pending (requeue_unprocessed b) ≡ pending b
unfolding requeue_unprocessed
pending-requeue b = elim (Bool-cases (ltb b.index (length b.buf))) [
  | inl h ↦ rw h (rw (← append_assoc, take-append-drop b.index b.buf))
  | inr h ↦ rw h
]

pop_queue-Keeps :
    (q : List Bytes) (b : FixReadBuffer) (next : FixReadBuffer → Outcome StateResponse)
    → b.queue ≡ q
    → ((b' : FixReadBuffer) → Keeps (pending b') (next b'))
    → Keeps (pending b) (pop_queue q b next)
pop_queue-Keeps [] b next e h = refl
pop_queue-Keeps (c ∷ q) b next e h =
    h (record b { queue = q; buf = b.buf ++ c }) ∙ append_assoc b.buf c (concat q) ∙ rw e

Keeps-if :
    (t : Bool) {bytes : Bytes} (x y : Outcome StateResponse)
    → Keeps bytes x
    → Keeps bytes y
    → Keeps bytes (if t then x else y)
Keeps-if true x y hx hy = hx
Keeps-if false x y hx hy = hy

begin_found-Keeps : (b : FixReadBuffer) (o : Option ℕ) → Keeps (pending b) (begin_found b o)
begin_found-Keeps b none = refl
begin_found-Keeps b (some i) =
    Keeps-if (starts_with b.buf (codes "8=")) _ _ (pending-requeue (record b { index = i + 1 }))
      refl

process_begin_string-Keeps : (b : FixReadBuffer) → Keeps (pending b) (process_begin_string b)
unfolding process_begin_string scan_begin_string
process_begin_string-Keeps b =
    Keeps-if (b.index == 0) _ _
      (pop_queue-Keeps b.queue b scan_begin_string refl
        (λ b'. begin_found-Keeps b' (find b'.buf b'.sep)))
      refl

set_body_length-Keeps :
    (b : FixReadBuffer) (i : ℕ) (o : Option ℤ) → Keeps (pending b) (set_body_length b i o)
set_body_length-Keeps b i none = refl
set_body_length-Keeps b i (some n) = pending-requeue _

length_found-Keeps : (b : FixReadBuffer) (o : Option ℕ) → Keeps (pending b) (length_found b o)
length_found-Keeps b none = refl
length_found-Keeps b (some i) =
    Keeps-if (starts_with (slice b.buf (pos b.index) (pos i)) (codes "9=")) _ _
      (set_body_length-Keeps b i (parse_body_length (slice b.buf (pos (b.index + 2)) (pos i)))) refl

process_body_length-Keeps : (b : FixReadBuffer) → Keeps (pending b) (process_body_length b)
unfolding process_body_length scan_body_length
process_body_length-Keeps b =
    pop_queue-Keeps b.queue b scan_body_length refl
      (λ b'. length_found-Keeps b' (find_from b'.buf b'.sep b'.index))

-- A slice that ends at or behind the last byte is the whole.
slice_to_all : (s : Bytes) (z : ℤ) → ltb_ℤ z (pos (length s)) ≡ false → slice_to s z ≡ s
slice_to_all s (pos n) h = take_all (min n (length s)) s (ground arith)
slice_to_all s (negsuc n) h = absurd (ground arith)

finish_body-Keeps :
    (b : FixReadBuffer) → Keeps (pending b) (finish_body b (slice_to b.buf b.required_length))
unfolding finish_body
finish_body-Keeps b = elim (Bool-cases (ltb_ℤ b.required_length (pos (length b.buf)))) [
  | inl h ↦ rw h (rw (← append_assoc, take-append-drop (bound b.buf b.required_length) b.buf))
  | inr h ↦ rw h (rw (slice_to_all b.buf b.required_length h))
]

checked-Keeps :
    (b : FixReadBuffer) (o : Option ReadError)
    → Keeps (pending b) (checked b (slice_to b.buf b.required_length) o)
checked-Keeps b (some e) = refl
checked-Keeps b none = finish_body-Keeps b

module _ (calc_checksum : Bytes → Bytes → Bool → Bytes) where
  scan_body-Keeps : (b : FixReadBuffer) → Keeps (pending b) (scan_body calc_checksum b)
  unfolding scan_body
  scan_body-Keeps b =
      Keeps-if (ltb_ℤ (pos (length b.buf)) b.required_length) _ _ refl (checked-Keeps b _)

  run-Keeps : (a : Action) (b : FixReadBuffer) → Keeps (pending b) (run calc_checksum a b)
  unfolding run process_body
  run-Keeps proceed b = refl
  run-Keeps request_data b = refl
  run-Keeps begin_string b = process_begin_string-Keeps b
  run-Keeps body_length b = process_body_length-Keeps b
  run-Keeps body b = pop_queue-Keeps b.queue b (scan_body calc_checksum) refl scan_body-Keeps
  run-Keeps handle_end_of_file b = refl

  settle-keeps :
      (n : ReadState) (bytes : Bytes) (r : Outcome StateResponse)
      → Keeps bytes r
      → let r' = settle calc_checksum n r in round_bytes r'.1 ++ pending r'.0 ≡ bytes
  settle-keeps n bytes (b, err e) h = h
  settle-keeps n bytes (b, ok (event, true)) h = h
  settle-keeps n bytes (b, ok (event, false)) h = h

  enter-keeps :
      (o : Option (Action × ReadState)) (b : FixReadBuffer)
      → let r = enter calc_checksum o b in round_bytes r.1 ++ pending r.0 ≡ pending b
  enter-keeps none b = refl
  enter-keeps (some (a, n)) b = settle-keeps n (pending b) (run calc_checksum a b) (run-Keeps a b)

  resume-keeps :
      (again : FixReadBuffer → Outcome FixReadEvent) (bytes : Bytes)
      (r : Outcome (Option FixReadEvent))
      → ((b : FixReadBuffer) → emitted (again b).1 ++ pending (again b).0 ≡ pending b)
      → round_bytes r.1 ++ pending r.0 ≡ bytes
      → let r' = resume calc_checksum again r in emitted r'.1 ++ pending r'.0 ≡ bytes
  resume-keeps again bytes (b, err e) ih h = h
  resume-keeps again bytes (b, ok none) ih h = ih b ∙ h
  resume-keeps again bytes (b, ok (some event)) ih h = h

  loop-keeps :
      (fuel : ℕ) (b : FixReadBuffer)
      → let r = next_event_loop calc_checksum fuel b in emitted r.1 ++ pending r.0 ≡ pending b
  unfolding next_event_loop step
  loop-keeps zero b = refl
  loop-keeps (suc fuel) b = elim (Bool-cases (is_expecting b.state)) [
    | inl h ↦ rw h (
        resume-keeps (next_event_loop calc_checksum fuel) (pending b) (step calc_checksum b)
          (loop-keeps fuel) (enter-keeps (transitions b.state (input_state b)) b))
    | inr h ↦ rw h
  ]

  -- Whatever `next_event` returns or raises, the bytes of the message that it hands out, followed by
  -- those that the buffer keeps, are the bytes that the buffer had, in their order.
  pub next_event-conserves :
      (b : FixReadBuffer)
      → let r = next_event calc_checksum b in emitted r.1 ++ pending r.0 ≡ pending b
  unfolding next_event
  next_event-conserves = loop-keeps 4
