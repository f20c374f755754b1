-- ===== src/ReadBuffer/Advance.antt =====
-- A call of `next_event` in the states before the body of a well-formed message.
use mathlib.Core.Path.{subst}
use jetblack_fixengine.Prelude.{
  Bool, List, Option-cases, [], ap, append-nil, append_assoc, arith, false, inl, inr, length,
  negsuc, none, refl, some, suc, sym, ℕ, ℤ, ◌++◌, ◌<◌, ◌∙◌, ◌∷◌, ◌≡◌,
}
use jetblack_fixengine.Bytes.{Bytes, find}
use jetblack_fixengine.ReadBuffer.{
  FixReadBuffer, FixReadEvent, Outcome, ReadState, StateResponse, expect_begin_string, expect_body,
  expect_body_length, idle, needs_more_data, next_event, next_event_loop, ok, process_begin_string,
  process_body_length, run, scan_begin_string, scan_body_length, step,
}
use jetblack_fixengine.ReadBuffer.Search.{find_cut}
use jetblack_fixengine.ReadBuffer.Frame.{
  AllWellFormed, Frame, IsWellFormed, at_state, begin_field, encode, length_bytes, stream, trailer,
}
use jetblack_fixengine.ReadBuffer.Fields.{
  begin_done, begin_part, find_from-append, length-encode, length_done, opening,
}
use jetblack_fixengine.ReadBuffer.Stages.{
  Advances, Progress, after_scan, at_begin, at_body, at_length, at_start, body-Advances, waits,
}

module _ (calc_checksum : Bytes → Bytes → Bool → Bytes) (s : ℕ) (validate convert : Bool) where
  abbrev Comes : Bytes → List Frame → Outcome FixReadEvent → Type 0
  Comes = Advances calc_checksum s validate convert

  abbrev Good : Frame → Type 0
  Good = IsWellFormed calc_checksum s validate convert

  abbrev state_at : ReadState → Bytes → ℕ → ℤ → Bytes → FixReadBuffer
  state_at = at_state s validate convert

  abbrev length_tail : Frame → List Frame → Bytes
  length_tail f rest = f.content ++ trailer s f ++ stream s rest

  length_missing :
      (a q : Bytes) (required : ℤ)
      → find q (s ∷ []) ≡ none
      → scan_body_length (state_at expect_body_length (a ++ q) (length a) required []) ≡ (
        state_at expect_body_length (a ++ q) (length a) required [],
        ok (some (needs_more_data (negsuc 0)), false),
      )
  unfolding scan_body_length
  length_missing a q required h = rw (find_from-append a q (s ∷ []), h)

  opening-append :
      (f : Frame) (rest : List Frame)
      → opening s validate convert f ++ (length_tail f rest) ≡ encode s f ++ stream s rest
  opening-append f rest = simp append_assoc

  opening_short : (f : Frame) → Good f → length (opening s validate convert f) < length (encode s f)
  opening_short f wf = omega (arith, length-encode s validate convert f wf.three)

  scan_length_advances :
      (n : ℕ) (f : Frame) (rest : List Frame) (q later : Bytes) (required : ℤ)
      → Good f
      → q ++ later ≡ length_bytes f ++ s ∷ length_tail f rest
      → Comes later (f ∷ rest) (
          after_scan calc_checksum s validate convert (suc n) expect_body (
            scan_body_length (
              state_at expect_body_length
                (begin_part s validate convert f ++ q)
                (length (begin_part s validate convert f))
                required
                [])))
  scan_length_advances n f rest q later required wf e = elim (Option-cases (find q (s ∷ []))) [
    | inl missing ↦
        rw (length_missing (begin_part s validate convert f) q required missing)
          (waits _ _ (at_length f rest q required refl refl missing e))
    | inr (i, found) ↦
        let (extra, split, more) =
          find_cut s (length_bytes f) q later (length_tail f rest) wf.length_clear e
            (ground arith) in
        subst
          (λ (t : Bytes). Comes later (f ∷ rest) (
            after_scan calc_checksum s validate convert (suc n) expect_body (
              scan_body_length (
                state_at expect_body_length (begin_part s validate convert f ++ t)
                  (length (begin_part s validate convert f)) required []))))
          (sym split)
          (subst
            (λ (r : Outcome StateResponse).
              Comes later (f ∷ rest)
                (after_scan calc_checksum s validate convert (suc n) expect_body r))
            (sym (
              length_done s validate convert f extra required wf.length_clear wf.declared wf.three))
            (body-Advances calc_checksum s validate convert n f rest (opening s validate convert f)
              extra later _ wf (opening_short f wf)
              (ap (λ (t : Bytes). opening s validate convert f ++ t) more ∙ opening-append f rest)))
  ]

  pub length_advances :
      (n : ℕ) (f : Frame) (rest : List Frame) (p w later : Bytes) (required : ℤ)
      → Good f
      → find p (s ∷ []) ≡ none
      → p ++ (w ++ later) ≡ length_bytes f ++ s ∷ length_tail f rest
      → Comes later (f ∷ rest) (
          next_event_loop calc_checksum (suc (suc n)) (
            state_at expect_body_length
              (begin_part s validate convert f ++ p)
              (length (begin_part s validate convert f))
              required
              w))
  unfolding next_event_loop step run process_body_length
  length_advances n f rest p [] later required wf clear e =
      waits _ _ (at_length f rest p required refl refl clear e)
  length_advances n f rest p (c ∷ w) later required wf clear e =
      rw (append_assoc (begin_part s validate convert f) p (c ∷ w)) (
        scan_length_advances n f rest (p ++ c ∷ w) later required wf
          (append_assoc p (c ∷ w) later ∙ e))

  find-nil : find [] (s ∷ []) ≡ none
  unfolding find
  find-nil = refl

  begin_missing :
      (q : Bytes) (required : ℤ)
      → find q (s ∷ []) ≡ none
      → scan_begin_string (state_at expect_begin_string q 0 required []) ≡ (
        state_at expect_begin_string q 0 required [],
        ok (some (needs_more_data (negsuc 0)), false),
      )
  unfolding scan_begin_string
  begin_missing q required h = rw h

  encode-append :
      (f : Frame) (rest : List Frame)
      → encode s f ++ stream s rest
        ≡ begin_field f ++ s ∷ (length_bytes f ++ s ∷ length_tail f rest)
  encode-append f rest = simp append_assoc

  scan_begin_advances :
      (n : ℕ) (f : Frame) (rest : List Frame) (q later : Bytes) (required : ℤ)
      → Good f
      → q ++ later ≡ encode s f ++ stream s rest
      → Comes later (f ∷ rest) (
          after_scan calc_checksum s validate convert
            (suc (suc n))
            expect_body_length
            (scan_begin_string (state_at expect_begin_string q 0 required [])))
  scan_begin_advances n f rest q later required wf e = elim (Option-cases (find q (s ∷ []))) [
    | inl missing ↦
        rw (begin_missing q required missing)
          (waits _ _ (at_begin f rest q required refl refl missing e))
    | inr (i, found) ↦
        let (extra, split, more) =
          find_cut s (begin_field f) q later (length_bytes f ++ s ∷ length_tail f rest)
            wf.begin_clear (e ∙ encode-append f rest) (ground arith) in
        subst
          (λ (t : Bytes). Comes later (f ∷ rest) (
            after_scan calc_checksum s validate convert (suc (suc n)) expect_body_length
              (scan_begin_string (state_at expect_begin_string t 0 required []))))
          (sym split)
          (subst
            (λ (r : Outcome StateResponse).
              Comes later (f ∷ rest)
                (after_scan calc_checksum s validate convert (suc (suc n)) expect_body_length r))
            (sym (begin_done s validate convert f extra required wf.begin_clear))
            (subst
              (λ (t : Bytes). Comes later (f ∷ rest) (
                next_event_loop calc_checksum (suc (suc n)) (
                  state_at expect_body_length t (length (begin_part s validate convert f)) required
                    extra)))
              (append-nil (begin_part s validate convert f))
              (length_advances n f rest [] extra later required wf find-nil more)))
  ]

  begin_advances :
      (n : ℕ) (f : Frame) (rest : List Frame) (p w later : Bytes) (required : ℤ)
      → Good f
      → find p (s ∷ []) ≡ none
      → p ++ (w ++ later) ≡ encode s f ++ stream s rest
      → Comes later (f ∷ rest) (
          next_event_loop calc_checksum
            (suc (suc (suc n)))
            (state_at expect_begin_string p 0 required w))
  unfolding next_event_loop step run process_begin_string
  begin_advances n f rest p [] later required wf clear e =
      waits _ _ (at_begin f rest p required refl refl clear e)
  begin_advances n f rest p (c ∷ w) later required wf clear e =
      scan_begin_advances n f rest (p ++ c ∷ w) later required wf (append_assoc p (c ∷ w) later ∙ e)

  start_advances :
      (n : ℕ) (fs : List Frame) (w later : Bytes) (required : ℤ)
      → AllWellFormed calc_checksum s validate convert fs
      → w ++ later ≡ stream s fs
      → Comes later fs
          (next_event_loop calc_checksum (suc (suc (suc (suc n)))) (state_at idle [] 0 required w))
  unfolding next_event_loop step run
  start_advances n fs [] later required wf e = waits _ _ (at_start required refl e)
  start_advances n [] (c ∷ w) later required wf e = cc
  start_advances n (f ∷ rest) (c ∷ w) later required wf e =
      begin_advances n f rest [] (c ∷ w) later required wf.0 find-nil e

  head-Good :
      (f : Frame) (rest fs : List Frame)
      → fs ≡ f ∷ rest
      → AllWellFormed calc_checksum s validate convert fs
      → Good f
  head-Good f rest fs ef wf = (subst (AllWellFormed calc_checksum s validate convert) ef wf).0

  -- From wherever it stands in a stream of well-formed messages, the parser waits for more of the
  -- stream, or hands out the next message.
  pub next_event-Advances :
      (b : FixReadBuffer) (w later : Bytes) (fs : List Frame)
      → AllWellFormed calc_checksum s validate convert fs
      → Progress calc_checksum s validate convert b w later fs
      → Comes later fs (next_event calc_checksum b)
  unfolding next_event
  next_event-Advances b w later fs wf (at_start required at e) =
      rw at (start_advances 0 fs w later required wf e)
  next_event-Advances b w later fs wf (at_begin f rest p required ef at clear e) =
      rw (at, ef)
        (begin_advances 1 f rest p w later required (head-Good f rest fs ef wf) clear
          (e ∙ ap (stream s) ef))
  next_event-Advances b w later fs wf (at_length f rest p required ef at clear e) =
      rw (at, ef) (length_advances 2 f rest p w later required (head-Good f rest fs ef wf) clear e)
  next_event-Advances b w later fs wf (at_body f rest p i ef at short e) =
      rw (at, ef)
        (body-Advances calc_checksum s validate convert 3 f rest p w later i
          (head-Good f rest fs ef wf) short e)
