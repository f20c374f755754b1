-- ===== src/Exceptions.antt =====
-- The exceptions of jetblack_fixengine/types.py, and a monad for methods that change an object and
-- may raise: the changes made before an exception are kept.
pub mod Keeps
pub mod Ensures
use jetblack_fixengine.Prelude.{Bool, if◌then◌else◌}

-- `key_error` and the others below it are Python's; `application_error` is anything else that a
-- callback of the application raises; `out_of_fuel` is the model's.
pub data Exception : Type 0 where
  invalid_state_transition login_error : Exception
  key_error value_error assertion_error runtime_error type_error integrity_error os_error :
      Exception
  overflow_error stop_async_iteration : Exception
  cancelled_error decode_error application_error out_of_fuel : Exception

pub data Result (A : Type 0) : Type 0 where
  ok : A → Result A
  err : Exception → Result A

abbrev pub M : Type 0 → Type 0 → Type 0
M W A = W → W × Result A

abbrev pub continue : {W A B : Type 0} → W × Result A → (A → M W B) → W × Result B
continue (w, ok a) f = f a w
continue (w, err x) f = (w, err x)

infixl 5 ◌>>=◌ ◌>>◌
abbrev pub ◌>>=◌ : {W A B : Type 0} → M W A → (A → M W B) → M W B
◌>>=◌ m f w = continue (m w) f

abbrev pub ◌>>◌ : {W A B : Type 0} → M W A → M W B → M W B
m >> k = m >>= λ _. k

abbrev pub pure : {W A : Type 0} → A → M W A
pure a w = (w, ok a)

abbrev pub raise : {W A : Type 0} → Exception → M W A
raise x w = (w, err x)

abbrev pub modify : {W : Type 0} → (W → W) → M W (Unit {0})
modify f w = (f w, ok tt)

abbrev pub gets : {W A : Type 0} → (W → A) → M W A
gets f w = (w, ok (f w))

-- A test of the object's state.
abbrev pub branch : {W A : Type 0} → (W → Bool) → M W A → M W A → M W A
branch test m n w = if test w then m w else n w

-- A fact about what a method leaves, whether it returns or raises.
abbrev pub after : {W A : Type 0} → W × Result A → W
after (w, r) = w
