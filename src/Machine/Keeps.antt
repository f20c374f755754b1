-- ===== src/Machine/Keeps.antt =====
-- What the transitions and the handlers of a machine keep, `process` keeps.
use jetblack_fixengine.Prelude.{Option, none, some, suc, zero, ℕ}
use jetblack_fixengine.Exceptions.{M, invalid_state_transition, out_of_fuel}
use jetblack_fixengine.Exceptions.Keeps.{Keeps, Keeps-bind, Keeps-gets, Keeps-raise, Keeps-then}
use jetblack_fixengine.Machine.{Machine, dispatch, enter, process, transition}

-- An entry of a table of handlers keeps `P`, if it is there.
abbrev pub KeepsEntry : {W Message A : Type 0} → (W → Type 0) → Option (Message → M W A) → Type 0
KeepsEntry P none = Unit {0}
KeepsEntry {Message = Message} P (some h) = (x : Message) → Keeps P (h x)

module _ {W State Event Message : Type 0} (m : Machine W State Event Message) (P : W → Type 0)
    (keeps_state : (s : State) (w : W) → P w → P (m.set_state s w))
    (keeps_handlers : (s : State) (e : Event) → KeepsEntry P (m.handlers s e)) where
  enter-Keeps : (o : Option State) → Keeps P (enter m o)
  enter-Keeps none = Keeps-raise invalid_state_transition
  enter-Keeps (some s) = record { at = λ w h. keeps_state s w h }

  transition-Keeps : (e : Event) → Keeps P (transition m e)
  unfolding transition
  transition-Keeps e = record { at = λ w h. (enter-Keeps (m.transitions (m.state w) e)).at w h }

  dispatch-Keeps :
      (again : Option Message → M W State)
      → ((o : Option Message) → Keeps P (again o))
      → (o : Option (Message → M W (Option Message))) (x : Message) → KeepsEntry P o
      → Keeps P (dispatch m again o x)
  dispatch-Keeps again ka none x k = Keeps-gets m.state
  dispatch-Keeps again ka (some h) x k = Keeps-bind (h x) again (k x) ka

  pub process-Keeps : (fuel : ℕ) (o : Option Message) → Keeps P (process m fuel o)
  unfolding process
  process-Keeps zero none = Keeps-gets m.state
  process-Keeps (suc fuel) none = Keeps-gets m.state
  process-Keeps zero (some x) = Keeps-raise out_of_fuel
  process-Keeps (suc fuel) (some x) = record {
    at = λ w h.
        (Keeps-then (transition m (m.event x)) _ (transition-Keeps (m.event x)) (
            dispatch-Keeps (process m fuel) (process-Keeps fuel)
              (m.handlers (m.state w) (m.event x)) x (keeps_handlers (m.state w) (m.event x)))).at
          w h;
  }
