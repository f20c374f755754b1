-- ===== src/Cancellation/Signals.antt =====
-- What jetblack_fixengine/utils/cancellation.py does with signals.
use jetblack_fixengine.Cancellation.{
  Loop, Signal, cancel, handler_of, level_of, receive_signal, register_cancellation_event, sighup,
  sigint, sigterm, sigusr1,
}
use jetblack_fixengine.Prelude.{
  Bool, List, Option, String, [], arith, false, length, length-snoc, none, refl, some, true, ◌+◌,
  ◌||◌, ◌∷◌, ◌≡◌,
}

abbrev pub receive_all : List Signal → Option Loop → Option Loop
receive_all [] l = l
receive_all (sent ∷ rest) none = none
receive_all (sent ∷ rest) (some l) = receive_all rest (receive_signal sent l)

-- SIGHUP, SIGINT and SIGTERM.
abbrev pub is_cancelling : Signal → Bool
is_cancelling sigusr1 = false
is_cancelling _ = true

abbrev pub AllCancelling : List Signal → Type 0
AllCancelling [] = Unit {0}
AllCancelling (sent ∷ rest) = (is_cancelling sent ≡ true) × AllCancelling rest

abbrev pub is_any : List Signal → Bool
is_any [] = false
is_any (sent ∷ rest) = true

-- The program goes on, and the event is set where a signal came.
abbrev pub GoesOn : List Signal → Loop → Option Loop → Type 0
GoesOn signals l none = ⊥
GoesOn signals l (some k) =
    (k.is_set ≡ l.is_set || is_any signals) × (length k.log ≡ length l.log + length signals)

-- A loop whose handlers have been registered.
abbrev IsRegistered : Loop → Type 0
IsRegistered l =
    (sent : Signal)
    → is_cancelling sent ≡ true
    → (name : String) × (handler_of sent l.handlers ≡ some name)

register-IsRegistered : (l : Loop) → IsRegistered (register_cancellation_event l)
unfolding register_cancellation_event
register-IsRegistered l sighup h = ("SIGHUP", refl)
register-IsRegistered l sigint h = ("SIGINT", refl)
register-IsRegistered l sigterm h = ("SIGTERM", refl)
register-IsRegistered l sigusr1 h = absurd (ground (arith, h))

step-GoesOn :
    (sent : Signal) (name : String) (rest : List Signal) (l : Loop) (o : Option Loop)
    → GoesOn rest (cancel name sent l) o
    → GoesOn (sent ∷ rest) l o
unfolding cancel
step-GoesOn sent name rest l none h = h
step-GoesOn sent name rest l (some k) h = (
  ground (arith, h.0),
  omega (arith, h.1, length-snoc l.log (level_of sent, "received signal", name)),
)

receive_all-GoesOn :
    (signals : List Signal) (l : Loop)
    → IsRegistered l
    → AllCancelling signals
    → GoesOn signals l (receive_all signals (some l))
unfolding receive_signal cancel
receive_all-GoesOn [] l r h = (ground arith, ground arith)
receive_all-GoesOn (sent ∷ rest) l r h =
    let (name, e) = r sent h.0 in
    rw e (
      step-GoesOn sent name rest l (receive_all rest (some (cancel name sent l)))
        (receive_all-GoesOn rest (cancel name sent l) r h.1))

-- Once the cancellation event has been registered, the program survives any SIGHUPs, SIGINTs and SIGTERMs, in
-- any order: the event is set once the first of them has come, and stays as it was where none comes, and
-- the log has one line more for each.
pub register_cancellation_event-GoesOn :
    (signals : List Signal) (l : Loop)
    → AllCancelling signals
    → GoesOn signals l (receive_all signals (some (register_cancellation_event l)))
unfolding register_cancellation_event
register_cancellation_event-GoesOn signals l h =
    receive_all-GoesOn signals (register_cancellation_event l) (register-IsRegistered l) h
