-- ===== src/ReadBuffer/Search.antt =====
-- `find` for a separator of one byte.
use jetblack_fixengine.Prelude.{[], arith, length, none, refl, some, ℕ, ◌++◌, ◌∷◌, ◌≡◌, ◌≢◌, ◌≤◌}
use jetblack_fixengine.Bytes.{Bytes, find}

module _ (s : ℕ) where
  -- The separator is found behind the bytes that do not hold it.
  pub find-append :
      (xs ys : Bytes) → find xs (s ∷ []) ≡ none → find (xs ++ s ∷ ys) (s ∷ []) ≡ some (length xs)
  unfolding find
  find-append [] ys h = ground arith
  find-append (x ∷ xs) ys h = ground (arith, find-append xs ys)

  -- A prefix of a stream that holds the first separator of the stream ends behind it.
  pub find_cut :
      (field p future tail : Bytes)
      → find field (s ∷ []) ≡ none
      → p ++ future ≡ field ++ s ∷ tail
      → find p (s ∷ []) ≢ none
      → (extra : Bytes) × (p ≡ field ++ s ∷ extra) × (extra ++ future ≡ tail)
  unfolding find
  find_cut [] [] future tail h e f = absurd (ground arith)
  find_cut [] (c ∷ p) future tail h e f = (p, ground arith, ground arith)
  find_cut (x ∷ field) [] future tail h e f = absurd (ground arith)
  find_cut (x ∷ field) (c ∷ p) future tail h e f =
      let (extra, a, b) =
        find_cut field p future tail (ground arith) (ground arith) (ground arith) in
      (extra, ground arith, b)

  -- A stream with the separator is no prefix without it.
  pub find_missing : (field p tail : Bytes) → find p (s ∷ []) ≡ none → p ≢ field ++ s ∷ tail
  unfolding find
  find_missing [] [] tail h e = cc
  find_missing [] (c ∷ p) tail h e = ground arith
  find_missing (x ∷ field) [] tail h e = cc
  find_missing (x ∷ field) (c ∷ p) tail h e = ground (arith, find_missing field p tail)

-- A stream that begins with `m`, in a prefix that is as long: the rest of the prefix.
pub append_cut :
    (m p future rest : Bytes)
    → p ++ future ≡ m ++ rest
    → length m ≤ length p
    → (extra : Bytes) × (p ≡ m ++ extra) × (extra ++ future ≡ rest)
append_cut [] p future rest e h = (p, refl, e)
append_cut (x ∷ m) [] future rest e h = absurd (omega arith)
append_cut (x ∷ m) (c ∷ p) future rest e h =
    let (extra, a, b) = append_cut m p future rest (ground arith) (omega arith) in
    (extra, ground arith, b)
