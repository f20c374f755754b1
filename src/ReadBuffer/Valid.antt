-- ===== src/ReadBuffer/Valid.antt =====
-- The state of the parser: the assertion never fails, the queue is never read when it is empty, and
-- the loop of `next_event` ends.
use jetblack_fixengine.Prelude.{
  Bool, Bool-cases, List, Option, [], arith, false, inl, inr, none, refl, some, suc, true, zero, ℕ,
  ◌<◌, ◌∷◌, ◌≡◌, ◌≤◌,
}
use jetblack_fixengine.Bytes.{Bytes}
use jetblack_fixengine.ReadBuffer.{
  FixReadBuffer, FixReadEvent, Outcome, ReadError, ReadState, assertion_error, check_message, enter,
  err, expect_begin_string, expect_body, expect_body_length, file_ended, finish_body, idle,
  index_error, is_expecting, new_buffer, next_event, next_event_loop, ok, out_of_fuel,
  process_begin_string, process_body, process_body_length, queue_input, receive,
  requeue_unprocessed, resume, run, scan_begin_string, scan_body, scan_body_length, settle, step,
  transitions,
}

-- Before the first field of a message is complete, the parser stands at the start of its buffer.
pub record IsValid (b : FixReadBuffer) : Type 0 where
  pub idle_clear : b.state ≡ idle → b.buf ≡ []
  pub idle_start : b.state ≡ idle → b.index ≡ 0
  pub begin_start : b.state ≡ expect_begin_string → b.index ≡ 0

-- The errors that no input should bring about.
abbrev pub is_fault : ReadError → Bool
is_fault assertion_error = true
is_fault index_error = true
is_fault out_of_fuel = true
is_fault _ = false

-- How many rounds `next_event` can still make.
abbrev rank : ReadState → ℕ
rank idle = 4
rank expect_begin_string = 3
rank expect_body_length = 2
rank expect_body = 1
rank file_ended = 1
rank _ = 0

abbrev IsGoodRound : ℕ → Outcome (Option FixReadEvent) → Type 0
IsGoodRound n (b, err e) = IsValid b × (is_fault e ≡ false)
IsGoodRound n (b, ok none) = IsValid b × (rank b.state < n) × (0 < rank b.state)
IsGoodRound n (b, ok (some e)) = IsValid b

abbrev pub IsGood : Outcome FixReadEvent → Type 0
IsGood (b, ok e) = IsValid b
IsGood (b, err e) = IsValid b × (is_fault e ≡ false)

rank-le : (s : ReadState) → rank s ≤ 4
rank-le s = ground arith

module _ (calc_checksum : Bytes → Bytes → Bool → Bytes) where
  begin_round :
      (b : FixReadBuffer)
      → IsValid b
      → b.state ≡ expect_begin_string
      → (c : Bytes) (q : List Bytes) → b.queue ≡ c ∷ q
      → IsGoodRound 3 (settle calc_checksum expect_body_length (process_begin_string b))
  unfolding process_begin_string scan_begin_string requeue_unprocessed
  begin_round b v st c q e = ground arith

  length_round :
      (b : FixReadBuffer)
      → IsValid b
      → b.state ≡ expect_body_length
      → (c : Bytes) (q : List Bytes) → b.queue ≡ c ∷ q
      → IsGoodRound 2 (settle calc_checksum expect_body (process_body_length b))
  unfolding process_body_length scan_body_length requeue_unprocessed
  length_round b v st c q e = ground arith

  body_round :
      (b : FixReadBuffer)
      → IsValid b
      → b.state ≡ expect_body
      → (c : Bytes) (q : List Bytes) → b.queue ≡ c ∷ q
      → IsGoodRound 1 (settle calc_checksum idle (process_body calc_checksum b))
  unfolding process_body scan_body check_message finish_body
  body_round b v st c q e = ground arith

  -- The round in each state: the table has the handler, and the handler keeps the state sound.
  round_at :
      (s : ReadState) (q : List Bytes) (b : FixReadBuffer)
      → IsValid b
      → b.state ≡ s
      → b.queue ≡ q
      → is_expecting s ≡ true
      → IsGoodRound (rank s) (enter calc_checksum (transitions s (queue_input q)) b)
  unfolding run
  round_at idle q b v st e x = ground arith
  round_at expect_begin_string [] b v st e x = ground arith
  round_at expect_begin_string ([] ∷ q) b v st e x = ground arith
  round_at expect_begin_string ((c ∷ cs) ∷ q) b v st e x = begin_round b v st (c ∷ cs) q e
  round_at expect_body_length [] b v st e x = ground arith
  round_at expect_body_length ([] ∷ q) b v st e x = ground arith
  round_at expect_body_length ((c ∷ cs) ∷ q) b v st e x = length_round b v st (c ∷ cs) q e
  round_at expect_body [] b v st e x = ground arith
  round_at expect_body ([] ∷ q) b v st e x = ground arith
  round_at expect_body ((c ∷ cs) ∷ q) b v st e x = body_round b v st (c ∷ cs) q e
  round_at file_ended q b v st e x = ground arith
  round_at _ q b v st e x = cc

  step_round :
      (b : FixReadBuffer)
      → IsValid b
      → is_expecting b.state ≡ true
      → IsGoodRound (rank b.state) (step calc_checksum b)
  unfolding step
  step_round b v x = round_at b.state b.queue b v refl refl x

  resume-IsGood :
      (n : ℕ) (again : FixReadBuffer → Outcome FixReadEvent) (r : Outcome (Option FixReadEvent))
      → ((b : FixReadBuffer) → IsValid b → rank b.state < n → 0 < rank b.state → IsGood (again b))
      → IsGoodRound n r
      → IsGood (resume calc_checksum again r)
  resume-IsGood n again (b, err e) ih h = h
  resume-IsGood n again (b, ok none) ih h = ih b h.0 h.1 h.2
  resume-IsGood n again (b, ok (some e)) ih h = h

  loop-IsGood :
      (fuel : ℕ) (b : FixReadBuffer)
      → IsValid b
      → rank b.state ≤ fuel
      → 0 < fuel
      → IsGood (next_event_loop calc_checksum fuel b)
  unfolding next_event_loop
  loop-IsGood zero b v h p = absurd (omega arith)
  loop-IsGood (suc fuel) b v h p = elim (Bool-cases (is_expecting b.state)) [
    | inl x ↦ rw x (
        resume-IsGood (rank b.state) (next_event_loop calc_checksum fuel) (step calc_checksum b)
          (λ b' v' lt pos'. loop-IsGood fuel b' v' (omega arith) (omega arith)) (step_round b v x))
    | inr x ↦ rw x (v, refl)
  ]

  -- From a sound state `next_event` comes to a sound state, and it ends with an event or with an
  -- error that the input brings about: no assertion fails, no empty queue is read, and the four
  -- rounds that the loop is given are enough.
  pub next_event-IsValid : (b : FixReadBuffer) → IsValid b → IsGood (next_event calc_checksum b)
  unfolding next_event
  next_event-IsValid b v = loop-IsGood 4 b v (rank-le b.state) (omega arith)

pub new_buffer-IsValid :
    (sep : Bytes) (convert validate : Bool) → IsValid (new_buffer sep convert validate)
unfolding new_buffer
new_buffer-IsValid sep convert validate = ground arith

pub receive-IsValid : (chunk : Bytes) (b : FixReadBuffer) → IsValid b → IsValid (receive chunk b)
unfolding receive
receive-IsValid chunk b v = ground arith
