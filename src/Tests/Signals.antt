-- ===== src/Tests/Signals.antt =====
-- Signals, at concrete data.
use jetblack_fixengine.Cancellation.{Loop, register_cancellation_event, sighup, sigint, sigterm}
use jetblack_fixengine.Cancellation.Signals.{
  GoesOn, receive_all, register_cancellation_event-GoesOn,
}
use jetblack_fixengine.Prelude.{[], false, refl, some, ◌∷◌}

abbrev idle : Loop
idle = record { is_set = false; log = []; handlers = [] }

register_cancellation_event-GoesOn_example :
    GoesOn
      (sighup ∷ sigint ∷ sigterm ∷ [])
      idle
      (receive_all (sighup ∷ sigint ∷ sigterm ∷ []) (some (register_cancellation_event idle)))
register_cancellation_event-GoesOn_example =
    register_cancellation_event-GoesOn (sighup ∷ sigint ∷ sigterm ∷ []) idle
      (refl, (refl, (refl, tt)))
