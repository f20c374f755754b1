-- ===== src/ReadBuffer/Fields.antt =====
-- What the first two fields of a well-formed message do to the parser, once they are there whole.
use jetblack_fixengine.Prelude.{
  +ℤ-pos, Bool, [], ap, append_assoc, arith, drop-length, length, length-append, min, none, pos,
  refl, some, sym, take-length, true, ℕ, ℤ, ◌++◌, ◌+◌, ◌-◌, ◌∙◌, ◌∷◌, ◌≡◌,
}
use jetblack_fixengine.Bytes.{Bytes, codes, find, find_from, slice, starts_with}
use jetblack_fixengine.ReadBuffer.{
  FixReadBuffer, Outcome, ReadState, StateResponse, expect_begin_string, expect_body_length,
  length_found, ok, parse_body_length, requeue_unprocessed, scan_begin_string, scan_body_length,
}
use jetblack_fixengine.ReadBuffer.Search.{find-append}
use jetblack_fixengine.ReadBuffer.Frame.{
  Frame, at_state, begin_field, encode, length_bytes, requeue-at_state, trailer,
}

-- The slice between two fields is the field.
slice_mid :
    (a b c : Bytes) (i j : ℕ)
    → i ≡ length a
    → j ≡ length a + length b
    → slice (a ++ (b ++ c)) (pos i) (pos j) ≡ b
slice_mid a b c i j ei ej =
    let bi : min i (length (a ++ (b ++ c))) ≡ length a = omega (arith, length-append a (b ++ c)) in
    let bj : min j (length (a ++ (b ++ c))) - length a ≡ length b =
      omega (arith, length-append a (b ++ c), length-append b c) in
    rw bi (rw bj (rw (drop-length a (b ++ c)) (take-length b c)))

slice_field :
    (whole a b c : Bytes) (i j : ℕ)
    → whole ≡ a ++ (b ++ c)
    → i ≡ length a
    → j ≡ length a + length b
    → slice whole (pos i) (pos j) ≡ b
slice_field whole a b c i j e ei ej = rw e (slice_mid a b c i j ei ej)

pub find_from-append :
    (a q sub : Bytes)
    → find_from (a ++ q) sub (length a)
      ≡ elim (find q sub) [ none ↦ none | some i ↦ some (length a + i) ]
unfolding find_from
find_from-append a q sub = rw (drop-length a q) (ground (arith, length-append a q))

module _ (s : ℕ) (validate convert : Bool) where
  requeue_behind :
      (state : ReadState) (a e whole : Bytes) (i : ℕ) (required : ℤ)
      → whole ≡ a ++ e
      → i ≡ length a
      → requeue_unprocessed (at_state s validate convert state whole i required [])
        ≡ at_state s validate convert state a (length a) required e
  requeue_behind state a e whole i required ew ei =
      rw (ew, ei) (requeue-at_state s validate convert state a e required)

  abbrev parsed : FixReadBuffer → Outcome StateResponse
  parsed b = (b, ok (none, true))

  field_append : (a e : Bytes) → a ++ s ∷ e ≡ (a ++ s ∷ []) ++ e
  field_append a e = sym (append_assoc a (s ∷ []) e)

  length-field : (a : Bytes) → length a + 1 ≡ length (a ++ s ∷ [])
  length-field a = omega (arith, length-append a (s ∷ []))

  -- The BeginString field: the parser goes behind it.
  pub begin_done :
      (f : Frame) (extra : Bytes) (required : ℤ)
      → find (begin_field f) (s ∷ []) ≡ none
      → scan_begin_string (
          at_state s validate convert expect_begin_string
            (begin_field f ++ s ∷ extra)
            0
            required
            [])
        ≡ (
          at_state s validate convert expect_begin_string
              (begin_field f ++ s ∷ [])
              (length (begin_field f ++ s ∷ []))
              required
              extra,
          ok (none, true),
        )
  unfolding scan_begin_string
  begin_done f extra required h = rw (find-append s (begin_field f) extra h) (
      ap parsed (
        requeue_behind expect_begin_string (begin_field f ++ s ∷ []) extra
          (begin_field f ++ s ∷ extra) (length (begin_field f) + 1) required
          (field_append (begin_field f) extra) (length-field (begin_field f))))

  -- Where the first two fields end.
  abbrev pub opening : Frame → Bytes
  opening f = begin_field f ++ s ∷ (length_bytes f ++ s ∷ [])

  abbrev pub begin_part : Frame → Bytes
  begin_part f = begin_field f ++ s ∷ []

  length_found_at :
      (whole : Bytes) (i j n : ℕ) (required : ℤ)
      → starts_with (slice whole (pos i) (pos j)) (codes "9=") ≡ true
      → parse_body_length (slice whole (pos (i + 2)) (pos j)) ≡ some (pos n)
      → length_found (at_state s validate convert expect_body_length whole i required []) (some j)
        ≡ parsed (
            requeue_unprocessed (
              at_state s validate convert expect_body_length whole
                (j + 1)
                (pos (j + 1 + n + 7))
                []))
  length_found_at whole i j n required h k = rw (h, k) (rw (+ℤ-pos (j + 1) n, +ℤ-pos (j + 1 + n) 7))

  whole_append :
      (f : Frame) (extra : Bytes)
      → begin_part f ++ (length_bytes f ++ s ∷ extra)
        ≡ (begin_part f ++ codes "9=") ++ (f.length_field ++ s ∷ extra)
  whole_append f extra =
      sym (append_assoc (begin_part f) (codes "9=") (f.length_field ++ s ∷ extra))

  whole-opening :
      (f : Frame) (extra : Bytes)
      → begin_part f ++ (length_bytes f ++ s ∷ extra) ≡ opening f ++ extra
  whole-opening f extra = simp append_assoc

  length-opening :
      (f : Frame) → length (opening f) ≡ length (begin_part f) + length (length_bytes f) + 1
  length-opening f = omega (
    arith,
    length-append (begin_field f) (s ∷ (length_bytes f ++ s ∷ [])),
    length-append (length_bytes f) (s ∷ []),
    length-append (begin_field f) (s ∷ []),
  )

  pub length-encode :
      (f : Frame)
      → length f.checksum ≡ 3
      → length (encode s f) ≡ length (opening f) + length f.content + 7
  length-encode f three = omega (
    arith,
    length-append (begin_field f) (s ∷ (length_bytes f ++ s ∷ (f.content ++ trailer s f))),
    length-append (begin_field f) (s ∷ (length_bytes f ++ s ∷ [])),
    length-append (length_bytes f) (s ∷ []),
    length-append (length_bytes f) (s ∷ (f.content ++ trailer s f)),
    length-append f.content (trailer s f),
    length-append f.checksum (s ∷ []),
  )

  -- The BodyLength field: the parser goes behind it, and knows how long the message is.
  pub length_done :
      (f : Frame) (extra : Bytes) (required : ℤ)
      → find (length_bytes f) (s ∷ []) ≡ none
      → parse_body_length f.length_field ≡ some (pos (length f.content))
      → length f.checksum ≡ 3
      → scan_body_length (
          at_state s validate convert expect_body_length
            (begin_part f ++ (length_bytes f ++ s ∷ extra))
            (length (begin_part f))
            required
            [])
        ≡ (
          at_state s validate convert expect_body_length
              (opening f)
              (length (opening f))
              (pos (length (encode s f)))
              extra,
          ok (none, true),
        )
  unfolding scan_body_length
  length_done f extra required clear declared three =
      let whole = begin_part f ++ (length_bytes f ++ s ∷ extra) in
      let i = length (begin_part f) in
      let j = i + length (length_bytes f) in
      let two : i + 2 ≡ length (begin_part f ++ codes "9=") =
        omega (arith, length-append (begin_part f) (codes "9=")) in
      let field =
        slice_field whole (begin_part f) (length_bytes f) (s ∷ extra) i j refl refl refl in
      let digits =
        slice_field whole (begin_part f ++ codes "9=") f.length_field (s ∷ extra) (i + 2) j
          (whole_append f extra) two (omega arith) in
      let total : j + 1 + length f.content + 7 ≡ length (encode s f) =
        omega (arith, length-opening f, length-encode f three) in
      rw
        (
          find_from-append (begin_part f) (length_bytes f ++ s ∷ extra) (s ∷ []),
          find-append s (length_bytes f) extra clear,
        )
        (length_found_at whole i j (length f.content) required
            (ap (λ (t : Bytes). starts_with t (codes "9=")) field)
            (ap parse_body_length digits ∙ declared)
          ∙ ap parsed (
              requeue_behind expect_body_length (opening f) extra whole (j + 1)
                (pos (j + 1 + length f.content + 7)) (whole-opening f extra)
                (sym (length-opening f))
              ∙ ap
                  (λ (n : ℕ).
                    at_state s validate convert expect_body_length (opening f) (length (opening f))
                      (pos n) extra)
                  total))
