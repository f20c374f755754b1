-- ===== src/Bytes/Text.antt =====
-- Python's text and bytes: which bytes `decode()` takes, `replace` of one character, `split`, `hex` and
-- `quote_from_bytes`.
use jetblack_fixengine.Prelude.{
  Bool, List, Option, [], ap, arith, false, if◌then◌else◌, leb, ltb, none, refl, some, true, ℕ, ◌%◌,
  ◌&&◌, ◌++◌, ◌+◌, ◌-◌, ◌/◌, ◌==◌, ◌||◌, ◌∙◌, ◌∷◌, ◌≡◌,
}
use jetblack_fixengine.Bytes.{Bytes, bytes_eq, is_digit}

-- The ranges of the bytes that follow the lead byte `c` of a character in UTF-8.
abbrev pub any_tail : ℕ × ℕ
any_tail = (0x80, 0xbf)

abbrev pub tails : ℕ → Option (List (ℕ × ℕ))
tails c =
    if ltb c 0x80
    then some []
    else if leb 0xc2 c && leb c 0xdf
    then some (any_tail ∷ [])
    else if c == 0xe0
    then some ((0xa0, 0xbf) ∷ any_tail ∷ [])
    else if c == 0xed
    then some ((0x80, 0x9f) ∷ any_tail ∷ [])
    else if leb 0xe1 c && leb c 0xef
    then some (any_tail ∷ any_tail ∷ [])
    else if c == 0xf0
    then some ((0x90, 0xbf) ∷ any_tail ∷ any_tail ∷ [])
    else if leb 0xf1 c && leb c 0xf3
    then some (any_tail ∷ any_tail ∷ any_tail ∷ [])
    else if c == 0xf4
    then some ((0x80, 0x8f) ∷ any_tail ∷ any_tail ∷ [])
    else none

abbrev pub lead : (List (ℕ × ℕ) → Bool) → Option (List (ℕ × ℕ)) → Bool
lead again none = false
lead again (some ranges) = again ranges

-- The bytes continue a character whose further bytes lie in `ranges`.
unfoldable pub continues : Bytes → List (ℕ × ℕ) → Bool
continues [] [] = true
continues [] ((low, high) ∷ ranges) = false
continues (c ∷ s) [] = lead (continues s) (tails c)
continues (c ∷ s) ((low, high) ∷ ranges) = leb low c && leb c high && continues s ranges

-- `decode()` raises no UnicodeDecodeError.
abbrev pub is_utf8 : Bytes → Bool
is_utf8 s = continues s []

-- s.replace(SOH, b'|')
abbrev pub show_separators : Bytes → Bytes
show_separators [] = []
show_separators (c ∷ s) = (if c == 1 then b'|' else c) ∷ show_separators s

abbrev pub cons_head : ℕ → List Bytes → List Bytes
cons_head c [] = (c ∷ []) ∷ []
cons_head c (part ∷ parts) = (c ∷ part) ∷ parts

-- s.split(sep)
unfoldable pub split : ℕ → Bytes → List Bytes
split sep [] = [] ∷ []
split sep (c ∷ s) = let parts = split sep s in if c == sep then [] ∷ parts else cons_head c parts

abbrev pub hex_digit : ℕ → ℕ → ℕ
hex_digit ten d = if ltb d 10 then b'0' + d else ten + (d - 10)

-- s.hex()
abbrev pub to_hex : Bytes → Bytes
to_hex [] = []
to_hex (c ∷ s) = hex_digit b'a' (c / 16) ∷ hex_digit b'a' (c % 16) ∷ to_hex s

-- The characters that `quote_from_bytes` leaves as they are.
abbrev pub is_safe : ℕ → Bool
is_safe c =
    is_digit c
    || (leb b'A' c && leb c b'Z')
    || (leb b'a' c && leb c b'z')
    || c == b'_'
    || c == b'.'
    || c == b'-'
    || c == b'~'
    || c == b'/'

-- quote_from_bytes(s)
abbrev pub quote : Bytes → Bytes
quote [] = []
quote (c ∷ s) =
    let rest = quote s in
    if is_safe c then c ∷ rest else b'%' ∷ hex_digit b'A' (c / 16) ∷ hex_digit b'A' (c % 16) ∷ rest

-- No character of the text is `c`.
abbrev pub Lacks : ℕ → Bytes → Type 0
Lacks c [] = Unit {0}
Lacks c (d ∷ s) = ((d == c) ≡ false) × Lacks c s

pub Lacks-append : (c : ℕ) (s t : Bytes) → Lacks c s → Lacks c t → Lacks c (s ++ t)
Lacks-append c [] t h k = k
Lacks-append c (d ∷ s) t h k = (h.0, Lacks-append c s t h.1 k)

pub split-Lacks : (sep : ℕ) (s : Bytes) → Lacks sep s → split sep s ≡ s ∷ []
unfolding split
split-Lacks sep [] h = refl
split-Lacks sep (c ∷ s) h = rw (h.0, split-Lacks sep s h.1) refl

-- A separator after a part that has none.
pub split-append :
    (sep : ℕ) (s t : Bytes) → Lacks sep s → split sep (s ++ sep ∷ t) ≡ s ∷ split sep t
unfolding split
split-append sep [] t h = ground arith
split-append sep (c ∷ s) t h = rw (h.0, split-append sep s t h.1) refl

pub bytes_eq_refl : (s : Bytes) → bytes_eq s s ≡ true
bytes_eq_refl [] = refl
bytes_eq_refl (c ∷ s) = ground (arith, bytes_eq_refl s)

pub bytes_eq_sound : (s t : Bytes) → bytes_eq s t ≡ true → s ≡ t
bytes_eq_sound [] [] h = refl
bytes_eq_sound [] (d ∷ t) h = absurd (ground (arith, h))
bytes_eq_sound (c ∷ s) [] h = absurd (ground (arith, h))
bytes_eq_sound (c ∷ s) (d ∷ t) h =
    let same : bytes_eq s t ≡ true = ground arith in
    let head : c ≡ d = ground arith in
    ap (λ (x : ℕ). x ∷ s) head ∙ ap (λ (x : Bytes). d ∷ x) (bytes_eq_sound s t same)

pub bytes_eq-append : (p s t : Bytes) → bytes_eq (p ++ s) (p ++ t) ≡ bytes_eq s t
bytes_eq-append [] s t = refl
bytes_eq-append (c ∷ p) s t = ground (arith, bytes_eq-append p s t)
