-- ===== src/FileStore/Numbers.antt =====
-- The line of the two numbers, written and read, and the folder's entries.
use jetblack_fixengine.Prelude.{
  Bool-cases, List, [], arith, false, inl, inr, negsuc, pos, refl, some, suc, ℕ, ℤ, ◌++◌, ◌∷◌, ◌≡◌,
  ◌≢◌,
}
use jetblack_fixengine.Bytes.{Bytes, bytes_eq, is_digit}
use jetblack_fixengine.Bytes.Decimal.{AllDigits, digits-AllDigits, int-str, str}
use jetblack_fixengine.Bytes.Text.{
  Lacks, Lacks-append, bytes_eq_refl, bytes_eq_sound, split-Lacks, split-append,
}
use jetblack_fixengine.FileStore.{
  entry, first_line, format_seqnums, line_of, newline, parse_seqnums, put,
}

AllDigits-Lacks : (c : ℕ) (s : Bytes) → is_digit c ≡ false → AllDigits s → Lacks c s
AllDigits-Lacks c [] n h = tt
AllDigits-Lacks c (d ∷ s) n h = (ground (arith, h.0), AllDigits-Lacks c s n h.1)

str-Lacks : (c : ℕ) (n : ℤ) → is_digit c ≡ false → c ≢ b'-' → Lacks c (str n)
unfolding str
str-Lacks c (pos n) d h = AllDigits-Lacks c _ d (digits-AllDigits (suc n) n)
str-Lacks c (negsuc n) d h =
    (ground (arith, h), AllDigits-Lacks c _ d (digits-AllDigits (suc (suc n)) (suc n)))

first_line-append : (s t : Bytes) → Lacks newline s → Lacks 13 s → first_line (s ++ newline ∷ t) ≡ s
unfolding first_line
first_line-append [] t h k = ground arith
first_line-append (c ∷ s) t h k = rw (h.0, k.0, first_line-append s t h.1 k.1) refl

line_of-snoc : (s : Bytes) → line_of (s ++ newline ∷ []) ≡ first_line (s ++ newline ∷ [])
line_of-snoc [] = refl
line_of-snoc (c ∷ s) = refl

line-Lacks :
    (c : ℕ) (o i : ℤ) → is_digit c ≡ false → c ≢ b'-' → c ≢ b':' → Lacks c (str o ++ b':' ∷ str i)
line-Lacks c o i d h k =
    Lacks-append c (str o) (b':' ∷ str i) (str-Lacks c o d h) (ground (arith, k), str-Lacks c i d h)

-- Any two numbers are read back from the file's text.
pub parse-format_seqnums : (o i : ℤ) → parse_seqnums (format_seqnums o i) ≡ some (o, i)
unfolding parse_seqnums format_seqnums
parse-format_seqnums o i =
    rw
      (
        line_of-snoc (str o ++ b':' ∷ str i),
        first_line-append (str o ++ b':' ∷ str i) []
            (line-Lacks newline o i refl (omega arith) (omega arith))
            (line-Lacks 13 o i refl (omega arith) (omega arith)),
        split-append b':' (str o) (str i) (str-Lacks b':' o refl (omega arith)),
        split-Lacks b':' (str i) (str-Lacks b':' i refl (omega arith)),
        int-str o,
        int-str i,
      )
      refl

pub entry-put :
    {A : Type 0} (name : Bytes) (e : A) (f : List (Bytes × A)) → entry name (put name e f) ≡ some e
unfolding entry put
entry-put name e [] = rw (bytes_eq_refl name) refl
entry-put name e ((n, g) ∷ rest) = elim (Bool-cases (bytes_eq n name)) [
  | inl y ↦ rw (y, y) refl
  | inr m ↦ rw (m, m) (entry-put name e rest)
]

pub entry-put_other :
    {A : Type 0} (name key : Bytes) (e : A) (f : List (Bytes × A))
    → bytes_eq name key ≡ false
    → entry key (put name e f) ≡ entry key f
unfolding entry put
entry-put_other name key e [] h = rw h refl
entry-put_other name key e ((n, g) ∷ rest) h = elim (Bool-cases (bytes_eq n name)) [
  | inl y ↦ let skip : bytes_eq n key ≡ false = rw (bytes_eq_sound n name y) h in rw (y, skip) refl
  | inr m ↦ rw (m, entry-put_other name key e rest h) refl
]
