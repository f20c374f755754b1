-- ===== src/ReadAsync/Stream.antt =====
-- What is yielded and what is left are the stream, in its order, whatever the stream holds.
use jetblack_fixengine.Prelude.{
  Bool, List, [], ap, append-nil, append_assoc, arith, concat, refl, suc, sym, zero, ℕ, ℤ, ◌++◌,
  ◌∙◌, ◌∷◌, ◌≡◌,
}
use jetblack_fixengine.Bytes.{Bytes}
use mathlib.Core.Path.{subst}
use jetblack_fixengine.ReadBuffer.{
  FixReadBuffer, FixReadEvent, Outcome, Result, data_ready, end_of_file, err, needs_more_data,
  next_event, ok, receive,
}
use jetblack_fixengine.ReadBuffer.Conserve.{emitted, next_event-conserves, pending}
use jetblack_fixengine.ReadAsync.{
  Ending, Yields, failed, finished, fix_read_async, out_of_rounds, react, read,
}

concat-append : (xs : List Bytes) (y : Bytes) → concat (xs ++ y ∷ []) ≡ concat xs ++ y
concat-append [] y = append-nil y
concat-append (x ∷ xs) y = rw (concat-append xs y) (sym (append_assoc x (concat xs) y))

pending-receive :
    (chunk : Bytes) (b : FixReadBuffer) → pending (receive chunk b) ≡ pending b ++ chunk
unfolding receive
pending-receive chunk b =
    rw (concat-append b.queue chunk) (sym (append_assoc b.buf (concat b.queue) chunk))

read-concat : (chunks : List Bytes) → (read chunks).0 ++ concat (read chunks).1 ≡ concat chunks
read-concat [] = refl
read-concat (chunk ∷ chunks) = refl

module _ (calc_checksum : Bytes → Bytes → Bool → Bytes) where
  -- How the generator ends, by the result of the buffer's next event.
  abbrev pub Stops : Result FixReadEvent → Ending → Type 0
  Stops (ok end_of_file) finished = Unit {0}
  Stops (err e) (failed e') = e ≡ e'
  Stops r out_of_rounds = Unit {0}
  Stops r ending = ⊥

  -- In so many events, a buffer, before some chunks, gives these messages and comes to a buffer before
  -- what is left of the chunks: it takes a chunk whenever its next event asks for more data.
  pub data Reads
      : ℕ → FixReadBuffer → List Bytes → List Bytes → FixReadBuffer → List Bytes → Type 0 where
    stops : (b : FixReadBuffer) (chunks : List Bytes) → Reads 0 b chunks [] b chunks
    takes :
        (used : ℕ) (b b' end : FixReadBuffer) (n : ℤ) (chunks messages left : List Bytes)
        → next_event calc_checksum b ≡ (b', ok (needs_more_data n))
        → Reads used (receive (read chunks).0 b') (read chunks).1 messages end left
        → Reads (suc used) b chunks messages end left
    gives :
        (used : ℕ) (b b' end : FixReadBuffer) (message : Bytes) (chunks messages left : List Bytes)
        → next_event calc_checksum b ≡ (b', ok (data_ready message))
        → Reads used b' chunks messages end left
        → Reads (suc used) b chunks (message ∷ messages) end left

  -- The buffer that the generator comes to when it stops, and the chunks that it has not read. With what
  -- was yielded, they are the bytes that there were.
  abbrev pub Unread : ℕ → FixReadBuffer → List Bytes → Yields → Type 0
  Unread rounds b chunks y =
      (used : ℕ) × (end : FixReadBuffer) × (left : List Bytes) × Reads used b chunks y.0 end left
      × Stops (next_event calc_checksum end).1 y.1
      × (y.1 ≡ out_of_rounds → used ≡ rounds)
      × (concat y.0 ++ (pending end ++ concat left) ≡ pending b ++ concat chunks)

  out_of_rounds-Stops : (r : Result FixReadEvent) → Stops r out_of_rounds
  out_of_rounds-Stops (ok end_of_file) = tt
  out_of_rounds-Stops (ok (needs_more_data n)) = tt
  out_of_rounds-Stops (ok (data_ready message)) = tt
  out_of_rounds-Stops (err e) = tt

  react-Unread :
      (again : FixReadBuffer → List Bytes → Yields) (rounds : ℕ)
      (ih : (b : FixReadBuffer) (chunks : List Bytes) → Unread rounds b chunks (again b chunks))
      (chunks : List Bytes) (b : FixReadBuffer) (r : Outcome FixReadEvent)
      → next_event calc_checksum b ≡ r
      → emitted r.1 ++ pending r.0 ≡ pending b
      → Unread (suc rounds) b chunks (react again chunks r)
  react-Unread again rounds ih chunks b (b', err e) q h = (
    0,
    b,
    chunks,
    stops b chunks,
    subst (λ (r : Outcome FixReadEvent). Stops r.1 (failed e)) (sym q) refl,
    (λ o. absurd (ground (arith, o))),
    refl,
  )
  react-Unread again rounds ih chunks b (b', ok end_of_file) q h = (
    0,
    b,
    chunks,
    stops b chunks,
    subst (λ (r : Outcome FixReadEvent). Stops r.1 finished) (sym q) tt,
    (λ o. absurd (ground (arith, o))),
    refl,
  )
  react-Unread again rounds ih chunks b (b', ok (needs_more_data n)) q h =
      let (used, end, left, reads, over, all, e) =
        ih (receive (read chunks).0 b') (read chunks).1 in
      (
        suc used,
        end,
        left,
        takes used b b' end n chunks _ left q reads,
        over,
        (λ o. ap (λ (n : ℕ). suc n) (all o)),
        e
            ∙ rw (
              pending-receive (read chunks).0 b',
              append_assoc (pending b') (read chunks).0 (concat (read chunks).1),
              read-concat chunks,
              h,
            ),
      )
  react-Unread again rounds ih chunks b (b', ok (data_ready message)) q h =
      let (used, end, left, reads, over, all, e) = ih b' chunks in
      (
        suc used,
        end,
        left,
        gives used b b' end message chunks _ left q reads,
        over,
        (λ o. ap (λ (n : ℕ). suc n) (all o)),
        append_assoc message (concat (again b' chunks).0) (pending end ++ concat left)
            ∙ ap (λ (t : Bytes). message ++ t) e
            ∙ sym (append_assoc message (pending b') (concat chunks))
            ∙ ap (λ (t : Bytes). t ++ concat chunks) h,
      )

  -- Whatever the stream holds: the yielded messages are those that the buffer gives, one after another,
  -- with a chunk read whenever it asks for more data. The generator stops where the buffer's next event
  -- is the end of the file, or raises the error that it ends by, or where the model's rounds are used
  -- up, one for each event. The messages, in their order, then what the buffer still has, and then the chunks that are not
  -- read, are together what the buffer had at first and then all chunks.
  pub fix_read_async-Unread :
      (rounds : ℕ) (b : FixReadBuffer) (chunks : List Bytes)
      → Unread rounds b chunks (fix_read_async calc_checksum rounds b chunks)
  unfolding fix_read_async
  fix_read_async-Unread zero b chunks =
      (0, b, chunks, stops b chunks, out_of_rounds-Stops _, (λ o. refl), refl)
  fix_read_async-Unread (suc rounds) b chunks =
      react-Unread (fix_read_async calc_checksum rounds) rounds (fix_read_async-Unread rounds)
        chunks b (next_event calc_checksum b) refl (next_event-conserves calc_checksum b)
