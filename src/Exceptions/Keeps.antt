-- ===== src/Exceptions/Keeps.antt =====
-- What a method keeps, whether it returns or raises: one rule for each way to build a method.
use jetblack_fixengine.Prelude.{Bool, false, if◌then◌else◌, true}
use jetblack_fixengine.Exceptions.{
  Exception, M, Result, after, branch, continue, err, gets, ok, pure, raise, ◌>>=◌, ◌>>◌,
}

pub record Keeps {W A : Type 0} (P : W → Type 0) (m : M W A) : Type 0 where
  pub at : (w : W) → P w → P (after (m w))

pub choose :
    {W A : Type 0} (P : W → Type 0) (b : Bool) (x y : W × Result A)
    → P (after x)
    → P (after y)
    → P (after (if b then x else y))
choose P true x y hx hy = hx
choose P false x y hx hy = hy

module _ {W : Type 0} {P : W → Type 0} where
  pub Keeps-pure : {A : Type 0} (a : A) → Keeps P (pure a)
  Keeps-pure a = record { at = λ w h. h }

  pub Keeps-raise : {A : Type 0} (x : Exception) → Keeps P (raise {A = A} x)
  Keeps-raise x = record { at = λ w h. h }

  pub Keeps-gets : {A : Type 0} (f : W → A) → Keeps P (gets f)
  Keeps-gets f = record { at = λ w h. h }

  pub continue-keeps :
      {A B : Type 0} (r : W × Result A) (f : A → M W B)
      → P (after r)
      → ((a : A) → Keeps P (f a))
      → P (after (continue r f))
  continue-keeps (w, ok a) f h k = (k a).at w h
  continue-keeps (w, err x) f h k = h

  pub Keeps-bind :
      {A B : Type 0} (m : M W A) (f : A → M W B)
      → Keeps P m
      → ((a : A) → Keeps P (f a))
      → Keeps P (m >>= f)
  Keeps-bind m f km kf = record { at = λ w h. continue-keeps (m w) f (km.at w h) kf }

  pub Keeps-then : {A B : Type 0} (m : M W A) (k : M W B) → Keeps P m → Keeps P k → Keeps P (m >> k)
  Keeps-then m k km kk = Keeps-bind m (λ _. k) km (λ _. kk)

  pub Keeps-if :
      {A : Type 0} (b : Bool) (m n : M W A) → Keeps P m → Keeps P n → Keeps P (if b then m else n)
  Keeps-if true m n km kn = km
  Keeps-if false m n km kn = kn

  pub Keeps-branch :
      {A : Type 0} (test : W → Bool) (m n : M W A)
      → Keeps P m
      → Keeps P n
      → Keeps P (branch test m n)
  Keeps-branch test m n km kn = record {
    at = λ w h. choose P (test w) (m w) (n w) (km.at w h) (kn.at w h);
  }
