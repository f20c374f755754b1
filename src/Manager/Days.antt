-- ===== src/Manager/Days.antt =====
-- The range of days, with the time window.
use jetblack_fixengine.Manager.{
  Manager, Round, Settings, day_waited, sleep_until_session_starts, sleep_until_time, time_waited,
}
use jetblack_fixengine.Prelude.{
  Bool, Option, ap, arith, false, refl, some, true, ℕ, ◌+◌, ◌<◌, ◌==◌, ◌∙◌, ◌≡◌,
}
use jetblack_fixengine.Exceptions.{M, Result, continue}
use jetblack_fixengine.DateUtils.{
  Waited, day, delay_for_time_period, is_dow_in_range, time_of, tomorrow, until,
  wait_for_day_of_week, wait_for_time_period, weekday,
}

module _ (start_dow end_dow start_time end_time : ℕ) where
  abbrev pub daily : Settings
  daily = record {
    session_dow_range = some (start_dow, end_dow);
    session_time_range = some (start_time, end_time);
  }

  delay_tomorrow :
      (now : ℕ)
      → start_time < end_time
      → end_time < day
      → end_time < time_of now
      → (now + (delay_for_time_period now start_time end_time).0 ≡ tomorrow now + start_time)
        × ((delay_for_time_period now start_time end_time).1 ≡ tomorrow now + end_time)
        × (0 < (delay_for_time_period now start_time end_time).0)
  unfolding delay_for_time_period
  delay_tomorrow moment s e h = ground arith

  no_wait-wait_for_day_of_week :
      (moment : ℕ) (day_cancels : ℕ → Bool)
      → is_dow_in_range start_dow end_dow (weekday moment) ≡ true
      → wait_for_day_of_week 7 day_cancels moment start_dow end_dow ≡ until moment
  unfolding wait_for_day_of_week
  no_wait-wait_for_day_of_week moment day_cancels today = rw today refl

  wait_for_time_period-tomorrow :
      (moment : ℕ)
      → start_time < end_time
      → end_time < day
      → end_time < time_of moment
      → wait_for_time_period false moment start_time end_time ≡ until (tomorrow moment + end_time)
  unfolding wait_for_time_period
  wait_for_time_period-tomorrow moment s d late =
      let (_, e, waits) = delay_tomorrow moment s d late in
      let b : (delay_for_time_period moment start_time end_time).0 == 0 ≡ false =
        ground (arith, waits) in
      rw (b, e) refl

  weekday-tomorrow :
      (moment : ℕ)
      → start_time < day
      → weekday (tomorrow moment + start_time) ≡ weekday (tomorrow moment)
  weekday-tomorrow moment h = omega arith

  -- The range of days is looked at before the wait for the window, and not after it. On a day of the
  -- range, where the window is over and the next day is not in the range, the sleep ends at the start of
  -- the next day's window, and the manager connects on a day that is not in the range.
  pub session_outside_days :
      (round : Round) (m : Manager)
      → start_time < end_time
      → end_time < day
      → is_dow_in_range start_dow end_dow (weekday m.now) ≡ true
      → end_time < time_of m.now
      → is_dow_in_range start_dow end_dow (weekday (tomorrow m.now)) ≡ false
      → round.window_cancels ≡ false
      → (sleep_until_session_starts daily round m ≡ (
        record m { now = tomorrow m.now + start_time },
        Result.ok (some (tomorrow m.now + end_time)),
      ))
        × (is_dow_in_range start_dow end_dow (weekday (tomorrow m.now + start_time)) ≡ false)
  unfolding sleep_until_session_starts
  session_outside_days round m s e today late out c =
      let sleep : M Manager (Option ℕ) =
        sleep_until_time (some (start_time, end_time)) round.window_cancels in
      let wait = (delay_for_time_period m.now start_time end_time).0 in
      (
        ap (λ (r : Waited). continue (day_waited r m) (λ _. sleep))
              (no_wait-wait_for_day_of_week m.now round.day_cancels today)
            ∙ ap
                (λ (b : Bool).
                  time_waited wait (wait_for_time_period b m.now start_time end_time) m)
                c
            ∙ ap (λ (r : Waited). time_waited wait r m)
                (wait_for_time_period-tomorrow m.now s e late)
            ∙ ap
                (λ (moment : ℕ).
                  (record m { now = moment }, Result.ok (some (tomorrow m.now + end_time))))
                (delay_tomorrow m.now s e late).0,
        rw (weekday-tomorrow m.now (omega arith)) out,
      )
