-- ===== src/Cancellation.antt =====
-- jetblack_fixengine/utils/cancellation.py: the signals that set the cancellation event, and the wait for a
-- task that is cancelled.
pub mod Signals
use jetblack_fixengine.Prelude.{
  Bool, List, Option, String, [], false, if◌then◌else◌, none, some, true, ◌++◌, ◌∷◌,
}
use jetblack_fixengine.Exceptions.{M, Result, cancelled_error, err, ok, pure, raise}

pub data Signal : Type 0 where
  sighup sigint sigterm sigusr1 : Signal

abbrev pub is_signal : Signal → Signal → Bool
is_signal sighup sighup = true
is_signal sigint sigint = true
is_signal sigterm sigterm = true
is_signal sigusr1 sigusr1 = true
is_signal _ _ = false

pub data Level : Type 0 where
  info warning : Level

-- The event, the log, and the loop's handlers: for a signal, the name that `_cancel` is called with.
pub record Loop : Type 0 where
  pub is_set : Bool
  pub log : List (Level × String × String)
  pub handlers : List (Signal × String)

abbrev pub level_of : Signal → Level
level_of sigint = info
level_of _ = warning

-- `_cancel`
unfoldable pub cancel : String → Signal → Loop → Loop
cancel signame sent l = record l {
  is_set = true;
  log = l.log ++ (level_of sent, "received signal", signame) ∷ [];
}

-- `loop.add_signal_handler`: a later handler of a signal replaces the one before.
abbrev pub add_signal_handler : Signal → String → Loop → Loop
add_signal_handler sent signame l = record l { handlers = (sent, signame) ∷ l.handlers }

-- `getattr(signal, signame)`, for the names of the loop.
abbrev pub cancelling_signals : List (Signal × String)
cancelling_signals = (sighup, "SIGHUP") ∷ (sigint, "SIGINT") ∷ (sigterm, "SIGTERM") ∷ []

abbrev pub register_all : List (Signal × String) → Loop → Loop
register_all [] l = l
register_all ((sent, signame) ∷ rest) l = register_all rest (add_signal_handler sent signame l)

-- `register_cancellation_event`
unfoldable pub register_cancellation_event : Loop → Loop
register_cancellation_event = register_all cancelling_signals

abbrev pub handler_of : Signal → List (Signal × String) → Option String
handler_of sent [] = none
handler_of sent ((s, signame) ∷ rest) =
    if is_signal s sent then some signame else handler_of sent rest

abbrev pub handle_signal : Signal → Option String → Loop → Option Loop
handle_signal sent none l = none
handle_signal sent (some signame) l = some (cancel signame sent l)

-- A signal is received: without a handler, its default action ends the program.
unfoldable pub receive_signal : Signal → Loop → Option Loop
receive_signal sent l = handle_signal sent (handler_of sent l.handlers) l

-- What awaiting the cancelled task gives; `cancelled_error` also where the wait itself is cancelled.
abbrev pub caught : {W : Type 0} → Option (M W (Unit {0})) → Result (Unit {0}) → M W (Unit {0})
caught callback (ok tt) = pure tt
caught none (err cancelled_error) = pure tt
caught (some callback) (err cancelled_error) = callback
caught callback (err x) = raise x

-- `cancel_await`: `cancel_task` is `task.cancel()`, and `await_task` is `await task`.
unfoldable pub cancel_await :
    {W : Type 0} → (W → W) → M W (Unit {0}) → Option (M W (Unit {0})) → M W (Unit {0})
cancel_await cancel_task await_task callback w =
    let (w', r) = await_task (cancel_task w) in caught callback r w'
