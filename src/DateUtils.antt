-- ===== src/DateUtils.antt =====
-- jetblack_fixengine/utils/date_utils.py: the windows in which a session runs. A time of day is its
-- microseconds since midnight, and a datetime its microseconds since 1970-01-01 in the session's time
-- zone: Python's arithmetic on two datetimes of one tzinfo is that of their local clocks.
pub mod Windows
pub mod DayOfWeek
use jetblack_fixengine.Prelude.{
  Bool, if◌then◌else◌, leb, ltb, suc, zero, ℕ, ◌%◌, ◌&&◌, ◌*◌, ◌+◌, ◌-◌, ◌/◌, ◌==◌, ◌||◌,
}

abbrev pub day : ℕ
day = 86400000000

unfoldable pub is_dow_in_range : ℕ → ℕ → ℕ → Bool
is_dow_in_range start_dow end_dow target_dow =
    if leb start_dow end_dow
    then leb start_dow target_dow && leb target_dow end_dow
    else leb start_dow target_dow || leb target_dow end_dow

unfoldable pub is_time_in_range : ℕ → ℕ → ℕ → Bool
is_time_in_range start_time end_time target_time =
    if leb start_time end_time
    then leb start_time target_time && leb target_time end_time
    else leb start_time target_time || leb target_time end_time

-- `now.date()`, as days since 1970-01-01; `now.time()`; and `datetime.combine`.
abbrev pub date_of : ℕ → ℕ
date_of now = now / day

abbrev pub time_of : ℕ → ℕ
time_of now = now % day

abbrev pub combine : ℕ → ℕ → ℕ
combine date time = date * day + time

-- Monday is 0, and 1970-01-01 was a Thursday.
abbrev pub weekday : ℕ → ℕ
weekday now = (date_of now + 3) % 7

-- The start and the end of the window that concerns `now`.
abbrev pub window : ℕ → ℕ → ℕ → ℕ × ℕ
window now start_time end_time =
    let start_datetime = combine (date_of now) start_time in
    let end_datetime = combine (date_of now) end_time in
    if ltb start_time end_time
    then (if ltb end_datetime now
        then (start_datetime + day, end_datetime + day)
        else (start_datetime, end_datetime))
    else (start_datetime, end_datetime + day)

-- The time to wait, and the end of the window.
unfoldable pub delay_for_time_period : ℕ → ℕ → ℕ → ℕ × ℕ
delay_for_time_period now start_time end_time =
    let (start_datetime, end_datetime) = window now start_time end_time in
    (if ltb now start_datetime then start_datetime - now else 0, end_datetime)

-- How a wait ends: `cancelled` is the CancelledError.
pub data Waited : Type 0 where
  until : ℕ → Waited
  cancelled : Waited
  out_of_fuel : Waited

-- `wait_for_time_period`: the end of the window; the flag says whether the cancellation event is set
-- during the wait.
unfoldable pub wait_for_time_period : Bool → ℕ → ℕ → ℕ → Waited
wait_for_time_period is_cancelled now start_time end_time =
    let (time_to_wait, end_datetime) = delay_for_time_period now start_time end_time in
    if time_to_wait == 0
    then until end_datetime
    else if is_cancelled
    then cancelled
    else until end_datetime

abbrev pub tomorrow : ℕ → ℕ
tomorrow now = combine (date_of now + 1) 0

-- `wait_for_day_of_week`: the local `now` at which the loop ends. `is_cancelled` says of each of its
-- waits whether the event is set during it.
unfoldable pub wait_for_day_of_week : ℕ → (ℕ → Bool) → ℕ → ℕ → ℕ → Waited
wait_for_day_of_week zero is_cancelled now start_dow end_dow = out_of_fuel
wait_for_day_of_week (suc fuel) is_cancelled now start_dow end_dow =
    let rest =
      wait_for_day_of_week fuel (λ n. is_cancelled (suc n)) (now + (tomorrow now - now)) start_dow
        end_dow in
    if is_dow_in_range start_dow end_dow (weekday now)
    then until now
    else if is_cancelled 0
    then cancelled
    else rest
