-- ===== src/Bytes/Decimal.antt =====
-- `str` of an integer, which `int` reads back.
use jetblack_fixengine.Prelude.{
  Bool-cases, [], ap, arith, false, if◌then◌else◌, inl, inr, ltb, negsuc, pos, refl, some, suc,
  true, zero, ℕ, ℤ, ◌%◌, ◌*◌, ◌++◌, ◌+◌, ◌-◌, ◌/◌, ◌<◌, ◌∙◌, ◌∷◌, ◌≡◌,
}
use jetblack_fixengine.Bytes.{Bytes, int, int_digits, int_signed, int_unsigned, is_digit, is_empty}

-- The digits of `n`, with fuel.
unfoldable pub digits : ℕ → ℕ → Bytes
digits zero n = []
digits (suc fuel) n =
    let before = digits fuel (n / 10) in
    if ltb n 10 then (b'0' + n) ∷ [] else before ++ (b'0' + n % 10) ∷ []

-- str(n)
unfoldable pub str : ℤ → Bytes
str (pos n) = digits (suc n) n
str (negsuc n) = b'-' ∷ digits (suc (suc n)) (suc n)

abbrev pub AllDigits : Bytes → Type 0
AllDigits [] = Unit {0}
AllDigits (c ∷ s) = (is_digit c ≡ true) × AllDigits s

AllDigits-append : (s t : Bytes) → AllDigits s → AllDigits t → AllDigits (s ++ t)
AllDigits-append [] t h k = k
AllDigits-append (c ∷ s) t h k = (h.0, AllDigits-append s t h.1 k)

pub digits-AllDigits : (fuel n : ℕ) → AllDigits (digits fuel n)
unfolding digits
digits-AllDigits zero n = tt
digits-AllDigits (suc fuel) n = elim (Bool-cases (ltb n 10)) [
  | inl y ↦ rw y (ground arith, tt)
  | inr m ↦ rw m (AllDigits-append _ _ (digits-AllDigits fuel (n / 10)) (ground arith, tt))
]

-- The number that the digits are, after `acc`.
abbrev fold : ℕ → Bytes → ℕ
fold acc [] = acc
fold acc (c ∷ s) = fold (acc * 10 + (c - b'0')) s

fold-append : (acc : ℕ) (s : Bytes) (c : ℕ) → fold acc (s ++ c ∷ []) ≡ fold acc s * 10 + (c - b'0')
fold-append acc [] c = refl
fold-append acc (d ∷ s) c = fold-append (acc * 10 + (d - b'0')) s c

fold-digits : (fuel n : ℕ) → n < fuel → fold 0 (digits fuel n) ≡ n
unfolding digits
fold-digits zero n h = absurd (omega arith)
fold-digits (suc fuel) n h = elim (Bool-cases (ltb n 10)) [
  | inl y ↦ rw y (omega arith)
  | inr m ↦
      let small : n / 10 < fuel = ground arith in
      rw (m, fold-append 0 (digits fuel (n / 10)) (b'0' + n % 10), fold-digits fuel (n / 10) small)
        (omega arith)
]

append-ne-nil : (s : Bytes) (c : ℕ) → is_empty (s ++ c ∷ []) ≡ false
append-ne-nil [] c = refl
append-ne-nil (d ∷ s) c = refl

digits-ne-nil : (fuel n : ℕ) → is_empty (digits (suc fuel) n) ≡ false
unfolding digits
digits-ne-nil fuel n = elim (Bool-cases (ltb n 10)) [
  | inl y ↦ rw y refl
  | inr m ↦ rw m (append-ne-nil (digits fuel (n / 10)) (b'0' + n % 10))
]

int_digits-fold : (acc : ℕ) (s : Bytes) → AllDigits s → int_digits true acc s ≡ some (fold acc s)
unfolding int_digits
int_digits-fold acc [] h = refl
int_digits-fold acc (c ∷ s) h = rw h.0 (int_digits-fold (acc * 10 + (c - b'0')) s h.1)

int_unsigned-fold :
    (s : Bytes) → AllDigits s → is_empty s ≡ false → int_unsigned s ≡ some (fold 0 s)
unfolding int_unsigned
int_unsigned-fold [] h n = absurd (ground (arith, n))
int_unsigned-fold (c ∷ s) h n =
    rw h.0 (int_digits-fold (c - b'0') s h.1 ∙ ap (λ (k : ℕ). some (fold k s)) (omega arith))

int_unsigned-digits : (n : ℕ) → int_unsigned (digits (suc n) n) ≡ some n
int_unsigned-digits n =
    int_unsigned-fold (digits (suc n) n) (digits-AllDigits (suc n) n) (digits-ne-nil n n)
    ∙ ap some (fold-digits (suc n) n (omega arith))

int-plain : (s : Bytes) (n : ℕ) → AllDigits s → int_unsigned s ≡ some n → int s ≡ some (pos n)
unfolding int int_signed
int-plain [] n h e = ground (arith, e)
int-plain (c ∷ s) n h e = ground (arith, e, h.0)

-- Every integer is read back from its print.
pub int-str : (n : ℤ) → int (str n) ≡ some n
unfolding str int int_signed
int-str (pos n) =
    int-plain (digits (suc n) n) n (digits-AllDigits (suc n) n) (int_unsigned-digits n)
int-str (negsuc n) = rw (int_unsigned-digits (suc n)) refl
