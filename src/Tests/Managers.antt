-- ===== src/Tests/Managers.antt =====
-- The theorems on the manager at concrete data.
use jetblack_fixengine.Manager.{Manager, Round, sleep_until_session_starts, start}
use jetblack_fixengine.Manager.Sessions.{AllInSession, settings, start-AllInSession}
use jetblack_fixengine.Manager.Days.{daily, session_outside_days}
use jetblack_fixengine.Prelude.{[], arith, false, none, refl, some, true, ◌*◌, ◌+◌, ◌∷◌, ◌≡◌}
use jetblack_fixengine.DateUtils.{day, is_dow_in_range, tomorrow, weekday}
use jetblack_fixengine.Exceptions.{Result, after}
use jetblack_fixengine.Manager.Connects.{Counts, IsCalm, regular, start-Counts}
use jetblack_fixengine.Tests.Dates.{hour}

-- A Friday at 18:00, a day that the session stays connected to its end, and one on which the peer ends
-- the connection after an hour.
abbrev friday : Manager
friday = record { now = day + 18 * hour; is_cancelled = false; connections = [] }

abbrev whole_day : Round
whole_day = record {
  day_cancels = λ n. false;
  window_cancels = false;
  run = none;
  run_cancels = false;
  logout = none;
  wait_raises = none;
  stopping = 5;
  stop_cancels = false;
}

abbrev an_hour : Round
an_hour = record whole_day { run = some (hour, none) }

start-AllInSession_example :
    AllInSession
      (9 * hour)
      (17 * hour)
      (after (
        start
          (settings (9 * hour) (17 * hour) (some (0, 4)))
          (an_hour ∷ whole_day ∷ [])
          friday)).connections
start-AllInSession_example =
    start-AllInSession (9 * hour) (17 * hour) (omega arith) (omega arith)
      (λ e. absurd (omega (arith, e))) (some (0, 4)) (an_hour ∷ whole_day ∷ []) friday tt

friday_in_range : is_dow_in_range 0 4 4 ≡ true
unfolding is_dow_in_range
friday_in_range = refl

saturday_out_of_range : is_dow_in_range 0 4 5 ≡ false
unfolding is_dow_in_range
saturday_out_of_range = refl

session_outside_days_example :
    (sleep_until_session_starts (daily 0 4 (9 * hour) (17 * hour)) whole_day friday ≡ (
      record friday { now = tomorrow (day + 18 * hour) + 9 * hour },
      Result.ok (some (tomorrow (day + 18 * hour) + 17 * hour)),
    ))
    × (is_dow_in_range 0 4 (weekday (tomorrow (day + 18 * hour) + 9 * hour)) ≡ false)
session_outside_days_example =
    session_outside_days 0 4 (9 * hour) (17 * hour) whole_day friday (omega arith) (omega arith)
      friday_in_range (omega arith) saturday_out_of_range refl

whole_day-IsCalm : IsCalm whole_day
whole_day-IsCalm = record {
  days = λ n. refl;
  window = refl;
  runs = refl;
  quiet = tt;
  logs_out = refl;
  waits = refl;
  stops = refl;
}

an_hour-IsCalm : IsCalm an_hour
an_hour-IsCalm = record {
  days = λ n. refl;
  window = refl;
  runs = refl;
  quiet = refl;
  logs_out = refl;
  waits = refl;
  stops = refl;
}

start-Counts_example :
    Counts 2 friday
      (start (regular (9 * hour) (17 * hour) (some (0, 4))) (an_hour ∷ whole_day ∷ []) friday)
start-Counts_example =
    start-Counts (9 * hour) (17 * hour) (some (0, 4)) (an_hour ∷ whole_day ∷ []) friday
      (omega arith) (an_hour-IsCalm, (whole_day-IsCalm, tt)) refl
