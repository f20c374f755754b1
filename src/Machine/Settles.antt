-- ===== src/Machine/Settles.antt =====
-- A state machine against a specification: the states in which it may settle after an event.
use jetblack_fixengine.Prelude.{Option, arith, none, refl, some, suc, sym, zero, ℕ, ◌<◌, ◌≡◌}
use jetblack_fixengine.Exceptions.{M, Result, continue, err, ok}
use jetblack_fixengine.Exceptions.Ensures.{Ensures, Holds}
use mathlib.Core.Path.{subst}
use jetblack_fixengine.Machine.{Machine, dispatch, enter, process, transition}

-- `spec` is the specification, and `rank` bounds the rounds that follow the first.
module _ {W State Event Message : Type 0} (m : Machine W State Event Message)
    (spec : State → Event → State → Type 0) (rank : State → Event → ℕ) where
  -- A handler's answer is none, in the state that is specified, or an event that takes fewer rounds
  -- and whose specification implies it.
  abbrev pub Answers : State → Event → Option Message → W → Type 0
  Answers s e none w = spec s e (m.state w)
  Answers s e (some y) w =
      ((t : State) → spec (m.state w) (m.event y) t → spec s e t)
      × (rank (m.state w) (m.event y) < rank s e)

  -- An entry of the two tables fits the specification.
  abbrev pub Fits : State → Event → Option State → Option (Message → M W (Option Message)) → Type 0
  Fits s e none h = Unit {0}
  Fits s e (some t) none = spec s e t
  Fits s e (some t) (some h) = (x : Message) → Ensures (λ w. m.state w ≡ t) (h x) (Answers s e)

  abbrev pub Settled : (State → Type 0) → State → W → Type 0
  Settled q t w = q t × (m.state w ≡ t)

  Settled-weaken :
      (q r : State → Type 0)
      → ((t : State) → q t → r t)
      → (a : W × Result State) → Holds (Settled q) a
      → Holds (Settled r) a
  Settled-weaken q r f (w, ok t) h = (f t h.0, h.1)
  Settled-weaken q r f (w, err x) h = h

  module _ (state-set_state : (s : State) (w : W) → m.state (m.set_state s w) ≡ s)
      (fits : (s : State) (e : Event) → Fits s e (m.transitions s e) (m.handlers s e)) where
    abbrev SettlesWithin : ℕ → Type 0
    SettlesWithin fuel =
        (x : Message) (w : W)
        → rank (m.state w) (m.event x) < fuel
        → Holds (Settled (spec (m.state w) (m.event x))) (process m fuel (some x) w)

    answer_settles :
        (fuel : ℕ)
        → SettlesWithin fuel
        → (s : State) (e : Event) → rank s e < suc fuel
        → (r : W × Result (Option Message)) → Holds (Answers s e) r
        → Holds (Settled (spec s e)) (continue r (process m fuel))
    unfolding process
    answer_settles zero ih s e le (w, ok none) a = (a, refl)
    answer_settles (suc fuel) ih s e le (w, ok none) a = (a, refl)
    answer_settles fuel ih s e le (w, ok (some y)) a =
        Settled-weaken (spec (m.state w) (m.event y)) (spec s e) a.0 (process m fuel (some y) w)
          (ih y w (omega arith))
    answer_settles fuel ih s e le (w, err x) a = a

    step_settles :
        (fuel : ℕ)
        → SettlesWithin fuel
        → (x : Message) (w : W) → rank (m.state w) (m.event x) < suc fuel
        → (o : Option State) (h : Option (Message → M W (Option Message)))
        → Fits (m.state w) (m.event x) o h
        → Holds
            (Settled (spec (m.state w) (m.event x)))
            (continue (enter m o w) (λ _. dispatch m (process m fuel) h x))
    step_settles fuel ih x w le none h f = refl
    step_settles fuel ih x w le (some t) none f =
        (subst (spec (m.state w) (m.event x)) (sym (state-set_state t w)) f, refl)
    step_settles fuel ih x w le (some t) (some h) f =
        answer_settles fuel ih (m.state w) (m.event x) le (h x (m.set_state t w))
          ((f x).at (m.set_state t w) (state-set_state t w))

    -- An event that needs fewer rounds than the fuel after its first: the machine settles in a state
    -- of the specification, or raises an exception of its own; it never runs out of fuel.
    pub process_settles : (fuel : ℕ) → SettlesWithin fuel
    unfolding process transition
    process_settles zero x w le = absurd (omega arith)
    process_settles (suc fuel) x w le =
        step_settles fuel (process_settles fuel) x w le (m.transitions (m.state w) (m.event x))
          (m.handlers (m.state w) (m.event x)) (fits (m.state w) (m.event x))
