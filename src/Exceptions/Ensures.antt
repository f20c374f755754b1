-- ===== src/Exceptions/Ensures.antt =====
-- What a method ensures: a condition on what it leaves and returns, from a condition before it. An
-- exception is the method's own, never the model's `out_of_fuel`.
use jetblack_fixengine.Prelude.{Bool, false, true, ◌≡◌}
use jetblack_fixengine.Exceptions.{
  Exception, M, Result, continue, err, ok, out_of_fuel, pure, ◌>>=◌, ◌>>◌,
}

abbrev pub is_own : Exception → Bool
is_own out_of_fuel = false
is_own _ = true

abbrev pub Holds : {W A : Type 0} → (A → W → Type 0) → W × Result A → Type 0
Holds Q (w, ok a) = Q a w
Holds Q (w, err x) = is_own x ≡ true

pub record Ensures {W A : Type 0} (P : W → Type 0) (m : M W A) (Q : A → W → Type 0) : Type 0 where
  pub at : (w : W) → P w → Holds Q (m w)

continue-Holds :
    {W A B : Type 0} (R : A → W → Type 0) (Q : B → W → Type 0) (r : W × Result A) (f : A → M W B)
    → Holds R r
    → ((a : A) → Ensures (R a) (f a) Q)
    → Holds Q (continue r f)
continue-Holds R Q (w, ok a) f h k = (k a).at w h
continue-Holds R Q (w, err x) f h k = h

module _ {W : Type 0} {P : W → Type 0} where
  pub Ensures-bind :
      {A B : Type 0} (m : M W A) (f : A → M W B) (R : A → W → Type 0) (Q : B → W → Type 0)
      → Ensures P m R
      → ((a : A) → Ensures (R a) (f a) Q)
      → Ensures P (m >>= f) Q
  Ensures-bind m f R Q km kf = record { at = λ w h. continue-Holds R Q (m w) f (km.at w h) kf }

  -- What a method leaves as it was, and then what it answers.
  pub Ensures-answer :
      {A B : Type 0} (m : M W A) (b : B) (Q : B → W → Type 0)
      → Ensures P m (λ _. P)
      → ((w : W) → P w → Q b w)
      → Ensures P (m >> pure b) Q
  Ensures-answer m b Q km kb = Ensures-bind m (λ _. pure b) (λ _. P) Q km (λ a. record { at = kb })

  pub Ensures-then :
      {A B : Type 0} (m : M W A) (n : M W B) (Q : B → W → Type 0)
      → Ensures P m (λ _. P)
      → Ensures P n Q
      → Ensures P (m >> n) Q
  Ensures-then m n Q km kn = Ensures-bind m (λ _. n) (λ _. P) Q km (λ a. kn)
