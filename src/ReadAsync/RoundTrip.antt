-- ===== src/ReadAsync/RoundTrip.antt =====
-- A stream of well-formed messages is read back message by message, whatever its chunks.
use jetblack_fixengine.Prelude.{
  Bool, List, [], ap, append-nil, append_assoc, arith, concat, length, length-append, negsuc, refl,
  suc, sym, zero, ℕ, ℤ, ◌++◌, ◌+◌, ◌<◌, ◌∙◌, ◌∷◌, ◌≡◌, ◌≢◌, ◌≤◌,
}
use jetblack_fixengine.Bytes.{Bytes}
use jetblack_fixengine.ReadBuffer.{
  FixReadBuffer, FixReadEvent, Outcome, idle, needs_more_data, new_buffer, next_event,
  next_event_loop, ok, receive, run, step,
}
use mathlib.Core.Path.{subst}
use jetblack_fixengine.ReadBuffer.Search.{find_missing}
use jetblack_fixengine.ReadBuffer.Frame.{
  AllWellFormed, Frame, at_state, begin_field, encode, encode_all, length_bytes, stream, trailer,
}
use jetblack_fixengine.ReadAsync.{Yields, finished, fix_read_async, react}
use jetblack_fixengine.ReadBuffer.Advance.{next_event-Advances}
use jetblack_fixengine.ReadBuffer.Stages.{
  Advances, Progress, at_begin, at_body, at_length, at_start, reads, waits,
}

-- `stream_reader.read` returns no empty chunk before the end of the stream.
abbrev pub AllNonEmpty : List Bytes → Type 0
AllNonEmpty [] = Unit {0}
AllNonEmpty (chunk ∷ chunks) = (chunk ≢ []) × AllNonEmpty chunks

module _ (calc_checksum : Bytes → Bytes → Bool → Bytes) (s : ℕ) (validate convert : Bool) where
  abbrev Stands : FixReadBuffer → Bytes → Bytes → List Frame → Type 0
  Stands = Progress calc_checksum s validate convert

  -- The next chunk goes to the queue.
  feed :
      (b : FixReadBuffer) (c : ℕ) (w later : Bytes) (fs : List Frame)
      → Stands b [] (c ∷ w ++ later) fs
      → Stands (receive (c ∷ w) b) (c ∷ w) later fs
  unfolding receive
  feed b c w later fs (at_start required at e) = at_start required (rw at) e
  feed b c w later fs (at_begin f rest p required ef at clear e) =
      at_begin f rest p required ef (rw at) clear e
  feed b c w later fs (at_length f rest p required ef at clear e) =
      at_length f rest p required ef (rw at) clear e
  feed b c w later fs (at_body f rest p i ef at short e) = at_body f rest p i ef (rw at) short e

  -- With nothing more to come, the parser waits only where no message is left.
  abbrev IsEnd : FixReadBuffer → List Frame → Type 0
  IsEnd b fs = (required : ℤ) × (b ≡ at_state s validate convert idle [] 0 required []) × (fs ≡ [])

  at-IsEnd : (b : FixReadBuffer) (fs : List Frame) → Stands b [] [] fs → IsEnd b fs
  at-IsEnd b [] (at_start required at e) = (required, at, refl)
  at-IsEnd b (f ∷ fs) (at_start required at e) = cc
  at-IsEnd b fs (at_begin f rest p required ef at clear e) = absurd (
      find_missing s (begin_field f) p
        (length_bytes f ++ s ∷ (f.content ++ trailer s f ++ stream s rest)) clear
        (sym (append-nil p) ∙ e ∙ ap (stream s) ef ∙ simp append_assoc))
  at-IsEnd b fs (at_length f rest p required ef at clear e) = absurd (
      find_missing s (length_bytes f) p (f.content ++ trailer s f ++ stream s rest) clear
        (sym (append-nil p) ∙ e))
  at-IsEnd b fs (at_body f rest p i ef at short e) =
      absurd
        (omega (arith, ap length e, length-append p [], length-append (encode s f) (stream s rest)))

  abbrev again : ℕ → FixReadBuffer → List Bytes → Yields
  again rounds = fix_read_async calc_checksum rounds

  last_round :
      (rounds : ℕ) (required : ℤ)
      → 0 < rounds
      → again rounds (receive [] (at_state s validate convert idle [] 0 required [])) []
        ≡ ([], finished)
  unfolding fix_read_async receive next_event next_event_loop step run
  last_round zero required h = absurd (omega arith)
  last_round (suc rounds) required h = refl

  abbrev All : List Frame → Yields
  All fs = (encode_all s fs, finished)

  -- The induction hypothesis, for the rounds that are left.
  abbrev Reads : ℕ → Type 0
  Reads rounds =
      (b : FixReadBuffer) (w : Bytes) (chunks : List Bytes) (fs : List Frame)
      → AllWellFormed calc_checksum s validate convert fs
      → AllNonEmpty chunks
      → Stands b w (concat chunks) fs
      → length chunks + length fs + 2 ≤ rounds
      → again rounds b chunks ≡ All fs

  wait_round :
      (rounds : ℕ)
      → Reads rounds
      → (b : FixReadBuffer) (n : ℤ) (chunks : List Bytes) (fs : List Frame)
      → AllWellFormed calc_checksum s validate convert fs
      → AllNonEmpty chunks
      → Stands b [] (concat chunks) fs
      → length chunks + length fs + 2 ≤ suc rounds
      → react (again rounds) chunks (b, ok (needs_more_data n)) ≡ All fs
  wait_round rounds ih b n [] fs wf full p h =
      let (required, at, nothing) = at-IsEnd b fs p in
      rw (at, nothing) (last_round rounds required (omega arith))
  wait_round rounds ih b n ([] ∷ chunks) fs wf full p h = absurd (full.0 refl)
  wait_round rounds ih b n ((c ∷ w) ∷ chunks) fs wf full p h =
      ih (receive (c ∷ w) b) (c ∷ w) chunks fs wf full.1 (feed b c w (concat chunks) fs p)
        (omega arith)

  react_round :
      (rounds : ℕ)
      → Reads rounds
      → (chunks : List Bytes) (fs : List Frame) → AllWellFormed calc_checksum s validate convert fs
      → AllNonEmpty chunks
      → length chunks + length fs + 2 ≤ suc rounds
      → (r : Outcome FixReadEvent) → Advances calc_checksum s validate convert (concat chunks) fs r
      → react (again rounds) chunks r ≡ All fs
  react_round rounds ih chunks fs wf full h r (waits b n p) =
      wait_round rounds ih b n chunks fs wf full p h
  react_round rounds ih chunks fs wf full h r (reads b f rest w ef p) =
      let wf' = subst (AllWellFormed calc_checksum s validate convert) ef wf in
      rw (ih b w chunks rest wf'.1 full p (omega (arith, ap length ef)), ef)

  Reads-from : (rounds : ℕ) → Reads rounds
  unfolding fix_read_async
  Reads-from zero b w chunks fs wf full p h = absurd (omega arith)
  Reads-from (suc rounds) b w chunks fs wf full p h =
      react_round rounds (Reads-from rounds) chunks fs wf full h (next_event calc_checksum b)
        (next_event-Advances calc_checksum s validate convert b w (concat chunks) fs wf p)

  -- A stream that is the encoding of well-formed messages, cut into non-empty chunks at any places,
  -- is read as these messages, each one whole and in their order, and then the generator finishes.
  -- One round for each chunk and for each message, and two for the end, are enough.
  pub fix_read_async-encode :
      (fs : List Frame) (chunks : List Bytes) (rounds : ℕ)
      → AllWellFormed calc_checksum s validate convert fs
      → AllNonEmpty chunks
      → concat chunks ≡ stream s fs
      → length chunks + length fs + 2 ≤ rounds
      → fix_read_async calc_checksum rounds (new_buffer (s ∷ []) convert validate) chunks
        ≡ (encode_all s fs, finished)
  unfolding new_buffer
  fix_read_async-encode fs chunks rounds wf full e h =
      Reads-from rounds _ [] chunks fs wf full (at_start (negsuc 0) refl e) h
