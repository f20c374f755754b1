-- ===== src/ReadBuffer/Frame.antt =====
-- An independent description of a FIX message, by its fields, and of the parser's state while it
-- reads one: `at_state` is the buffer in a state, with `w` the bytes that wait in the queue.
use jetblack_fixengine.Bytes.Text.{bytes_eq_refl}
use jetblack_fixengine.Prelude.{
  Bool, List, [], add_sub, ap, append-nil, append_assoc, arith, drop, drop-length, length,
  length-append, none, pos, refl, some, sym, take-length, true, ℕ, ℤ, ◌++◌, ◌-◌, ◌∙◌, ◌∷◌, ◌≡◌, ◌≤◌,
}
use jetblack_fixengine.Bytes.{Bytes, codes, find}
use jetblack_fixengine.ReadBuffer.{
  FixReadBuffer, ReadState, check_message, parse_body_length, requeue_unprocessed,
}

pub record Frame : Type 0 where
  pub version : Bytes
  pub length_field : Bytes
  pub content : Bytes
  pub checksum : Bytes

abbrev pub queue_of : Bytes → List Bytes
queue_of [] = []
queue_of (c ∷ w) = (c ∷ w) ∷ []

module _ (s : ℕ) (validate convert : Bool) where
  abbrev pub at_state : ReadState → Bytes → ℕ → ℤ → Bytes → FixReadBuffer
  at_state state buf index required w = record {
    sep = s ∷ [];
    convert_sep_to_soh_for_checksum = convert;
    validate = validate;
    queue = queue_of w;
    buf = buf;
    index = index;
    required_length = required;
    state = state;
  }

  pub requeue-at_state :
      (state : ReadState) (a e : Bytes) (required : ℤ)
      → requeue_unprocessed (at_state state (a ++ e) (length a) required [])
        ≡ at_state state a (length a) required e
  unfolding requeue_unprocessed
  requeue-at_state state a [] required = rw append-nil (ground arith)
  requeue-at_state state a (c ∷ e) required =
      rw (length-append a (c ∷ e), take-length a (c ∷ e), drop-length a (c ∷ e)) (ground arith)

abbrev pub begin_field : Frame → Bytes
begin_field f = codes "8=" ++ f.version

abbrev pub length_bytes : Frame → Bytes
length_bytes f = codes "9=" ++ f.length_field

module _ (s : ℕ) where
  abbrev pub trailer : Frame → Bytes
  trailer f = codes "10=" ++ (f.checksum ++ s ∷ [])

  -- 8=<version>|9=<length>|<content>10=<checksum>|
  abbrev pub encode : Frame → Bytes
  encode f = begin_field f ++ s ∷ (length_bytes f ++ s ∷ (f.content ++ trailer f))

  abbrev pub stream : List Frame → Bytes
  stream [] = []
  stream (f ∷ fs) = encode f ++ stream fs

  abbrev pub encode_all : List Frame → List Bytes
  encode_all [] = []
  encode_all (f ∷ fs) = encode f ∷ encode_all fs

module _ (calc_checksum : Bytes → Bytes → Bool → Bytes) (s : ℕ) (validate convert : Bool) where
  -- No separator stands in the first two fields, the length is that of the content, and the checksum
  -- has three characters, which are the message's where the reader validates.
  pub record IsWellFormed (f : Frame) : Type 0 where
    pub begin_clear : find (begin_field f) (s ∷ []) ≡ none
    pub length_clear : find (length_bytes f) (s ∷ []) ≡ none
    pub declared : parse_body_length f.length_field ≡ some (pos (length f.content))
    pub three : length f.checksum ≡ 3
    pub summed : validate ≡ true → calc_checksum (encode s f) (s ∷ []) convert ≡ f.checksum

  abbrev pub AllWellFormed : List Frame → Type 0
  AllWellFormed [] = Unit {0}
  AllWellFormed (f ∷ fs) = IsWellFormed f × AllWellFormed fs

  drop_back :
      (pre tail : Bytes) (n : ℕ)
      → length tail ≡ n
      → drop (length (pre ++ tail) - n) (pre ++ tail) ≡ tail
  drop_back pre tail n e =
      rw (length-append pre tail)
        (rw (← e) (rw (add_sub (length pre) (length tail)) (drop-length pre tail)))

  check_of_tail :
      (whole : Bytes) (x y z : ℕ) (b : FixReadBuffer)
      → b.sep ≡ s ∷ []
      → b.validate ≡ validate
      → b.convert_sep_to_soh_for_checksum ≡ convert
      → 7 ≤ length whole
      → drop (length whole - 7) whole ≡ codes "10=" ++ x ∷ y ∷ z ∷ s ∷ []
      → drop (length whole - 1) whole ≡ s ∷ []
      → (validate ≡ true → calc_checksum whole (s ∷ []) convert ≡ x ∷ y ∷ z ∷ [])
      → check_message calc_checksum b whole ≡ none
  unfolding check_message
  check_of_tail whole x y z b es ev ec long d7 d1 h =
      let six : length whole - 1 - (length whole - 7) ≡ 6 = omega arith in
      rw (es, ev, ec)
        (rw (d1, d7, six) (ground (arith, bytes_eq_refl (s ∷ []), bytes_eq_refl (x ∷ y ∷ z ∷ []))))

  -- A message, as what stands before the checksum field and that field.
  abbrev before_trailer : Frame → Bytes
  before_trailer f = begin_field f ++ s ∷ (length_bytes f ++ s ∷ f.content)

  encode-split : (f : Frame) → encode s f ≡ before_trailer f ++ trailer s f
  encode-split f = simp append_assoc

  trailer-three : (ck : Bytes) → length ck ≡ 3 → (x : ℕ) × (y : ℕ) × (z : ℕ) × (ck ≡ x ∷ y ∷ z ∷ [])
  trailer-three [] h = absurd (omega arith)
  trailer-three (x ∷ []) h = absurd (omega arith)
  trailer-three (x ∷ y ∷ []) h = absurd (omega arith)
  trailer-three (x ∷ y ∷ z ∷ []) h = (x, y, z, refl)
  trailer-three (x ∷ y ∷ z ∷ u ∷ ck) h = absurd (omega arith)

  -- The three facts about the end of a message that the checks read.
  abbrev EndsWith : Bytes → ℕ → ℕ → ℕ → Type 0
  EndsWith whole x y z =
      (7 ≤ length whole)
      × (drop (length whole - 7) whole ≡ codes "10=" ++ x ∷ y ∷ z ∷ s ∷ [])
      × (drop (length whole - 1) whole ≡ s ∷ [])

  append-EndsWith :
      (whole pre : Bytes) (x y z : ℕ)
      → whole ≡ pre ++ (codes "10=" ++ x ∷ y ∷ z ∷ s ∷ [])
      → EndsWith whole x y z
  append-EndsWith whole pre x y z e =
      let seven = codes "10=" ++ x ∷ y ∷ z ∷ s ∷ [] in
      let six = codes "10=" ++ x ∷ y ∷ z ∷ [] in
      let e' : whole ≡ (pre ++ six) ++ s ∷ [] = e ∙ sym (append_assoc pre six (s ∷ [])) in
      (
        rw e (omega (arith, length-append pre seven)),
        rw e (drop_back pre seven 7 refl),
        rw e' (drop_back (pre ++ six) (s ∷ []) 1 refl),
      )

  -- A well-formed message passes the checks of the reader.
  pub check-encode :
      (f : Frame) (b : FixReadBuffer)
      → IsWellFormed f
      → b.sep ≡ s ∷ []
      → b.validate ≡ validate
      → b.convert_sep_to_soh_for_checksum ≡ convert
      → check_message calc_checksum b (encode s f) ≡ none
  check-encode f b w es ev ec =
      let (x, y, z, e) = trailer-three f.checksum w.three in
      let split =
        encode-split f ∙ ap (λ (t : Bytes). before_trailer f ++ (codes "10=" ++ (t ++ s ∷ []))) e in
      let (long, d7, d1) = append-EndsWith (encode s f) (before_trailer f) x y z split in
      check_of_tail (encode s f) x y z b es ev ec long d7 d1 (λ v. w.summed v ∙ e)
