-- ===== src/ReadBuffer/Stages.antt =====
-- The parser's way through a stream of well-formed messages, whatever the chunks: `Progress` says
-- where it stands, and a call of `next_event` goes on to the next wait or hands out the next message.
use jetblack_fixengine.Prelude.{
  Bool, Bool-cases, List, [], append-nil, append_assoc, arith, drop-length, false, inl, inr, length,
  length-append, ltb, min, neg, none, pos, refl, some, suc, sym, take-length, true, ℕ, ℤ, ◌++◌,
  ◌+ℤ◌, ◌<◌, ◌∙◌, ◌∷◌, ◌≡◌,
}
use jetblack_fixengine.Bytes.{Bytes, find}
use jetblack_fixengine.ReadBuffer.{
  FixReadBuffer, FixReadEvent, Outcome, ReadState, StateResponse, check_message, data_ready,
  expect_begin_string, expect_body, expect_body_length, finish_body, idle, needs_more_data,
  next_event_loop, ok, process_body, resume, run, scan_body, settle, step,
}
use mathlib.Core.Path.{subst}
use jetblack_fixengine.ReadBuffer.Search.{append_cut}
use jetblack_fixengine.ReadBuffer.Frame.{
  Frame, IsWellFormed, at_state, begin_field, check-encode, encode, length_bytes, stream, trailer,
}

module _ (calc_checksum : Bytes → Bytes → Bool → Bytes) (s : ℕ) (validate convert : Bool) where
  abbrev pub At : FixReadBuffer → ReadState → Bytes → ℕ → ℤ → Bytes → Type 0
  At b state buf index required w = b ≡ at_state s validate convert state buf index required w

  -- The buffer `b`, with `w` waiting in its queue, stands before the messages `fs`, and `later` are
  -- the bytes that are still to come.
  pub data Progress (b : FixReadBuffer) (w later : Bytes) (fs : List Frame) : Type 0 where
    at_start :
        (required : ℤ)
        → At b idle [] 0 required w
        → w ++ later ≡ stream s fs
        → Progress b w later fs
    at_begin :
        (f : Frame) (rest : List Frame) (p : Bytes) (required : ℤ)
        → fs ≡ f ∷ rest
        → At b expect_begin_string p 0 required w
        → find p (s ∷ []) ≡ none
        → p ++ (w ++ later) ≡ stream s fs
        → Progress b w later fs
    at_length :
        (f : Frame) (rest : List Frame) (p : Bytes) (required : ℤ)
        → fs ≡ f ∷ rest
        → At b expect_body_length
            ((begin_field f ++ s ∷ []) ++ p)
            (length (begin_field f ++ s ∷ []))
            required
            w
        → find p (s ∷ []) ≡ none
        → p ++ (w ++ later) ≡ length_bytes f ++ s ∷ (f.content ++ trailer s f ++ stream s rest)
        → Progress b w later fs
    at_body :
        (f : Frame) (rest : List Frame) (p : Bytes) (i : ℕ)
        → fs ≡ f ∷ rest
        → At b expect_body p i (pos (length (encode s f))) w
        → length p < length (encode s f)
        → p ++ (w ++ later) ≡ encode s f ++ stream s rest
        → Progress b w later fs

  -- What a call of `next_event` comes to.
  pub data Advances (later : Bytes) (fs : List Frame) : Outcome FixReadEvent → Type 0 where
    waits :
        (b : FixReadBuffer) (n : ℤ)
        → Progress b [] later fs
        → Advances later fs (b, ok (needs_more_data n))
    reads :
        (b : FixReadBuffer) (f : Frame) (rest : List Frame) (w : Bytes)
        → fs ≡ f ∷ rest
        → Progress b w later rest
        → Advances later fs (b, ok (data_ready (encode s f)))

  abbrev done_at : Bytes → Bytes → Outcome StateResponse
  done_at m extra =
      (at_state s validate convert expect_body [] 0 (pos 0) extra, ok (some (data_ready m), true))

  bound-append : (m extra : Bytes) → min (length m) (length (m ++ extra)) ≡ length m
  bound-append m extra = omega (arith, length-append m extra)

  finish_at :
      (m extra : Bytes) (i : ℕ)
      → finish_body (at_state s validate convert expect_body (m ++ extra) i (pos (length m)) []) m
        ≡ done_at m extra
  unfolding finish_body
  finish_at m [] i = rw append-nil (ground arith)
  finish_at m (c ∷ extra) i =
      rw (bound-append m (c ∷ extra), drop-length m (c ∷ extra))
        (ground (arith, length-append m (c ∷ extra)))

  scan_whole :
      (m extra : Bytes) (i : ℕ)
      → ((b : FixReadBuffer)
          → At b expect_body (m ++ extra) i (pos (length m)) []
          → check_message calc_checksum b m ≡ none)
      → scan_body calc_checksum
          (at_state s validate convert expect_body (m ++ extra) i (pos (length m)) [])
        ≡ done_at m extra
  unfolding scan_body
  scan_whole m extra i h =
      rw (bound-append m extra, take-length m extra, h _ refl, finish_at m extra i)
        (ground (arith, length-append m extra))

  scan_short :
      (q : Bytes) (i n : ℕ)
      → length q < n
      → (k : ℤ) × (scan_body calc_checksum (at_state s validate convert expect_body q i (pos n) [])
          ≡ (
            at_state s validate convert expect_body q i (pos n) [],
            ok (some (needs_more_data k), false),
          ))
  unfolding scan_body
  scan_short q i n h = (pos n +ℤ neg (length q), ground arith)

  abbrev pub after_scan : ℕ → ReadState → Outcome StateResponse → Outcome FixReadEvent
  after_scan n next r =
      resume calc_checksum (next_event_loop calc_checksum n) (settle calc_checksum next r)

  scan_body-Advances :
      (n : ℕ) (f : Frame) (rest : List Frame) (q later : Bytes) (i : ℕ)
      → IsWellFormed calc_checksum s validate convert f
      → q ++ later ≡ encode s f ++ stream s rest
      → Advances later (f ∷ rest) (
          after_scan n idle (
            scan_body calc_checksum
              (at_state s validate convert expect_body q i (pos (length (encode s f))) [])))
  scan_body-Advances n f rest q later i wf e =
      elim (Bool-cases (ltb (length q) (length (encode s f)))) [
        | inl short ↦
            let (k, run) = scan_short q i (length (encode s f)) (ground arith) in
            rw run (waits _ k (at_body f rest q i refl refl (ground arith) e))
        | inr long ↦
            let (extra, split, more) =
              append_cut (encode s f) q later (stream s rest) e (ground arith) in
            subst
              (λ (t : Bytes). Advances later (f ∷ rest) (
                after_scan n idle (
                  scan_body calc_checksum
                    (at_state s validate convert expect_body t i (pos (length (encode s f))) []))))
              (sym split)
              (subst
                (λ (r : Outcome StateResponse). Advances later (f ∷ rest) (after_scan n idle r))
                (sym (
                  scan_whole (encode s f) extra i (λ b at.
                    check-encode calc_checksum s validate convert f b wf (rw at) (rw at) (rw at))))
                (reads _ f rest extra refl (at_start (pos 0) refl more)))
      ]

  pub body-Advances :
      (n : ℕ) (f : Frame) (rest : List Frame) (p w later : Bytes) (i : ℕ)
      → IsWellFormed calc_checksum s validate convert f
      → length p < length (encode s f)
      → p ++ (w ++ later) ≡ encode s f ++ stream s rest
      → Advances later (f ∷ rest) (
          next_event_loop calc_checksum
            (suc n)
            (at_state s validate convert expect_body p i (pos (length (encode s f))) w))
  unfolding next_event_loop step run process_body
  body-Advances n f rest p [] later i wf short e = waits _ _ (at_body f rest p i refl refl short e)
  body-Advances n f rest p (c ∷ w) later i wf short e =
      scan_body-Advances n f rest (p ++ c ∷ w) later i wf (append_assoc p (c ∷ w) later ∙ e)
