-- ===== src/Manager.antt =====
-- jetblack_fixengine/managers/initiator_manager.py: the manager connects an initiator while a session
-- lasts. Times are those of `DateUtils`. A wait takes exactly the time that it is given, unless it is
-- cancelled, after which the time does not matter.
pub mod Days
pub mod Sessions
pub mod Connects
use jetblack_fixengine.Prelude.{
  Bool, List, Option, [], false, if◌then◌else◌, ltb, min, none, some, true, ℕ, ◌++◌, ◌+◌, ◌-◌, ◌||◌,
  ◌∷◌,
}
use jetblack_fixengine.Exceptions.{
  Exception, M, Result, cancelled_error, err, modify, ok, out_of_fuel, pure, raise, ◌>>◌,
}
use jetblack_fixengine.Engine.{CallEnd, left, now, waiting}
use jetblack_fixengine.DateUtils.{
  Waited, cancelled, delay_for_time_period, until, wait_for_day_of_week, wait_for_time_period,
}

-- `session_dow_range` and `session_time_range`
pub record Settings : Type 0 where
  pub session_dow_range : Option (ℕ × ℕ)
  pub session_time_range : Option (ℕ × ℕ)

-- A call of `initiate`: when it starts, the end of the session, and when it is over.
pub record Connection : Type 0 where
  pub started : ℕ
  pub end_datetime : Option ℕ
  pub ended : Option ℕ

pub record Manager : Type 0 where
  pub now : ℕ
  pub is_cancelled : Bool  -- the cancellation event
  pub connections : List Connection

-- What happens in one round of the loop.
pub record Round : Type 0 where
  pub day_cancels : ℕ → Bool  -- the event is set during the wait for the day
  pub window_cancels : Bool  -- the event is set during the wait for the time
  pub run : Option (ℕ × Option Exception)  -- how long `initiate` takes and what it raises, if it ends
  pub run_cancels : Bool  -- the event is set during `initiate`
  pub logout : Option Exception  -- what the handler's `logout` raises
  pub wait_raises : Option Exception  -- `asyncio.wait` of coroutines: from Python 3.11 on a TypeError
  pub stopping : ℕ  -- how long the handler takes to stop, or the event to be set
  pub stop_cancels : Bool

abbrev pub raise_cancelled : {A : Type 0} → M Manager A
raise_cancelled = modify (λ m. record m { is_cancelled = true }) >> raise cancelled_error

abbrev pub day_waited : Waited → M Manager (Unit {0})
day_waited (until later) = modify (λ m. record m { now = later })
day_waited cancelled = raise_cancelled
day_waited Waited.out_of_fuel = raise Exception.out_of_fuel

abbrev pub sleep_until_day : Option (ℕ × ℕ) → (ℕ → Bool) → M Manager (Unit {0})
sleep_until_day none day_cancels = pure tt
sleep_until_day (some (start_dow, end_dow)) day_cancels =
    λ m. day_waited (wait_for_day_of_week 7 day_cancels m.now start_dow end_dow) m

abbrev pub time_waited : ℕ → Waited → M Manager (Option ℕ)
time_waited wait (until end_datetime) =
    modify (λ m. record m { now = m.now + wait }) >> pure (some end_datetime)
time_waited wait cancelled = raise_cancelled
time_waited wait Waited.out_of_fuel = raise Exception.out_of_fuel

abbrev pub sleep_until_time : Option (ℕ × ℕ) → Bool → M Manager (Option ℕ)
sleep_until_time none window_cancels = pure none
sleep_until_time (some (start_time, end_time)) window_cancels = λ m.
    time_waited (delay_for_time_period m.now start_time end_time).0
      (wait_for_time_period window_cancels m.now start_time end_time) m

-- `sleep_until_session_starts`
unfoldable pub sleep_until_session_starts : Settings → Round → M Manager (Option ℕ)
sleep_until_session_starts settings round =
    sleep_until_day settings.session_dow_range round.day_cancels
    >> sleep_until_time settings.session_time_range round.window_cancels

-- `asyncio.wait_for`: what is waited for ends in time, or the timeout passes, or neither ever happens.
pub data Run : Type 0 where
  ends : ℕ → Option Exception → Run
  times_out : ℕ → Run
  never : Run

abbrev pub wait_for : Option (ℕ × Option Exception) → Option ℕ → Run
wait_for (some (time, x)) (some timeout) =
    if ltb time timeout then ends time x else times_out timeout
wait_for none (some timeout) = times_out timeout
wait_for (some (time, x)) none = ends time x
wait_for none none = never

abbrev pub session_timeout : Option ℕ → ℕ → Option ℕ
session_timeout none moment = none
session_timeout (some end_datetime) moment = some (end_datetime - moment)

-- A connection that is over after a time.
abbrev pub connected : Option ℕ → Bool → ℕ → M Manager (Unit {0})
connected end_datetime cancels time = modify (λ m. record m {
  now = m.now + time;
  is_cancelled = m.is_cancelled || cancels;
  connections =
      m.connections
      ++ record { started = m.now; end_datetime = end_datetime; ended = some (m.now + time) } ∷ [];
})

-- A connection that is never over.
abbrev pub stays_connected : Option ℕ → M Manager (Unit {0})
stays_connected end_datetime = modify (λ m. record m {
  connections =
      m.connections ++ record { started = m.now; end_datetime = end_datetime; ended = none } ∷ [];
})

abbrev pub raise_if : Option Exception → M Manager (Unit {0})
raise_if none = pure tt
raise_if (some x) = raise x

-- `timeout=10`, in microseconds.
abbrev pub stop_timeout : ℕ
stop_timeout = 10000000

-- After the TimeoutError: the logout, and the wait until the handler stops. `asyncio.wait` is given
-- coroutines, which Python takes before 3.11 and else refuses.
abbrev pub log_out : Round → M Manager (Unit {0})
log_out round =
    raise_if round.logout
    >> raise_if round.wait_raises
    >> modify (λ m. record m {
      now = m.now + min round.stopping stop_timeout;
      is_cancelled = m.is_cancelled || round.stop_cancels;
    })

abbrev pub run_session : Round → Option ℕ → Run → M Manager CallEnd → M Manager CallEnd
run_session round end_datetime (ends time x) again =
    connected end_datetime round.run_cancels time >> raise_if x >> again
run_session round end_datetime (times_out time) again =
    connected end_datetime round.run_cancels time >> log_out round >> again
run_session round end_datetime never again = stays_connected end_datetime >> pure waiting

abbrev pub is_cancelled_error : Exception → Bool
is_cancelled_error cancelled_error = true
is_cancelled_error _ = false

-- What follows the sleep, with `except asyncio.CancelledError: continue`.
abbrev pub session :
    Round → Manager × Result (Option ℕ) → M Manager CallEnd → Manager × Result CallEnd
session round (m, Result.ok end_datetime) again =
    run_session round end_datetime (wait_for round.run (session_timeout end_datetime m.now)) again m
session round (m, err x) again =
    let rest = again m in if is_cancelled_error x then rest else (m, err x)

-- `start`, for the rounds that happen. In the model it may also wait for the next one.
unfoldable pub start : Settings → List Round → M Manager CallEnd
start settings [] m = (m, Result.ok (if m.is_cancelled then left else waiting))
start settings (round ∷ rounds) m =
    let next =
      session round (sleep_until_session_starts settings round m) (start settings rounds) in
    if m.is_cancelled then (m, Result.ok left) else next
