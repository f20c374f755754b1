-- ===== src/Bytes.antt =====
-- Python's `bytes`, a list of numbers, with the operations that the sources call on it:
-- `startswith`, `endswith`, `find`, slices, `lstrip` and `int`.
pub mod Decimal
pub mod Text
use Prim.Native.Char.{code}
use jetblack_fixengine.Prelude.{
  Bool, List, Option, String, [], drop, false, if◌then◌else◌, leb, length, ltb, min, neg, negsuc,
  none, pos, some, suc, take, true, ℕ, ℤ, ◌&&◌, ◌*◌, ◌+◌, ◌-◌, ◌==◌, ◌||◌, ◌∷◌,
}

abbrev pub Bytes : Type 0
Bytes = List ℕ

-- A literal b'...' of ASCII characters.
abbrev pub codes : String → Bytes
codes String.[] = []
codes (String.◌∷◌ c s) = code c ∷ codes s

abbrev pub is_empty : Bytes → Bool
is_empty [] = true
is_empty (c ∷ s) = false

-- s.startswith(prefix)
abbrev pub starts_with : Bytes → Bytes → Bool
starts_with s [] = true
starts_with [] (p ∷ ps) = false
starts_with (c ∷ s) (p ∷ ps) = c == p && starts_with s ps

abbrev pub bytes_eq : Bytes → Bytes → Bool
bytes_eq [] [] = true
bytes_eq (a ∷ s) (b ∷ t) = a == b && bytes_eq s t
bytes_eq _ _ = false

-- s.endswith(suffix)
abbrev pub ends_with : Bytes → Bytes → Bool
ends_with s suffix =
    leb (length suffix) (length s) && bytes_eq (drop (length s - length suffix) s) suffix

-- s.find(sub): the least index at which `sub` stands.
unfoldable pub find : Bytes → Bytes → Option ℕ
find [] sub = if is_empty sub then some 0 else none
find (c ∷ s) sub =
    let rest = find s sub in
    if starts_with (c ∷ s) sub then some 0 else elim rest [ none ↦ none | some i ↦ some (suc i) ]

-- s.find(sub, start)
unfoldable pub find_from : Bytes → Bytes → ℕ → Option ℕ
find_from s sub start =
    if ltb (length s) start
    then none
    else elim (find (drop start s) sub) [ none ↦ none | some i ↦ some (start + i) ]

-- A slice bound: a negative one counts from the end, and both stop at the ends of the bytes.
abbrev pub bound : Bytes → ℤ → ℕ
bound s (pos n) = min n (length s)
bound s (negsuc n) = length s - suc n

-- s[:i], s[i:] and s[i:j]
abbrev pub slice_to : Bytes → ℤ → Bytes
slice_to s i = take (bound s i) s

abbrev pub slice_from : Bytes → ℤ → Bytes
slice_from s i = drop (bound s i) s

abbrev pub slice : Bytes → ℤ → ℤ → Bytes
slice s i j = take (bound s j - bound s i) (drop (bound s i) s)

-- s.lstrip(b'0')
abbrev pub lstrip_zeros : Bytes → Bytes
lstrip_zeros [] = []
lstrip_zeros (c ∷ s) = let rest = lstrip_zeros s in if c == b'0' then rest else c ∷ s

-- int(s): white space round an optional sign and decimal digits, which single underscores may
-- part. `none` is the ValueError.
abbrev pub is_space : ℕ → Bool
is_space c = leb 9 c && leb c 13 || c == 32

abbrev pub is_digit : ℕ → Bool
is_digit c = leb b'0' c && leb c b'9'

abbrev pub skip_space : Bytes → Bytes
skip_space [] = []
skip_space (c ∷ s) = let rest = skip_space s in if is_space c then rest else c ∷ s

-- The digits that follow one digit: `ready` says that the last character was a digit.
unfoldable pub int_digits : Bool → ℕ → Bytes → Option ℕ
int_digits ready acc [] = if ready then some acc else none
int_digits ready acc (c ∷ s) =
    let more = int_digits true (acc * 10 + (c - b'0')) s in
    let parted = int_digits false acc s in
    if is_digit c
    then more
    else if c == b'_' && ready
    then parted
    else if ready && is_empty (skip_space (c ∷ s))
    then some acc
    else none

unfoldable pub int_unsigned : Bytes → Option ℕ
unfolding int_digits
int_unsigned [] = none
int_unsigned (c ∷ s) = if is_digit c then int_digits true (c - b'0') s else none

unfoldable pub int_signed : Bytes → Option ℤ
int_signed [] = none
int_signed (c ∷ s) =
    if c == b'-'
    then elim (int_unsigned s) [ none ↦ none | some n ↦ some (neg n) ]
    else if c == b'+'
    then elim (int_unsigned s) [ none ↦ none | some n ↦ some (pos n) ]
    else elim (int_unsigned (c ∷ s)) [ none ↦ none | some n ↦ some (pos n) ]

unfoldable pub int : Bytes → Option ℤ
unfolding int_signed int_unsigned
int s = int_signed (skip_space s)
