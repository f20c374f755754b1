-- ===== src/DateUtils/Windows.antt =====
-- What `delay_for_time_period` promises, against `is_time_in_range`.
use jetblack_fixengine.Prelude.{arith, true, ℕ, ◌+◌, ◌-◌, ◌<◌, ◌≡◌, ◌≢◌, ◌≤◌}
use jetblack_fixengine.DateUtils.{day, delay_for_time_period, is_time_in_range, time_of}

module _ (now start_time end_time : ℕ) (start_of_day : start_time < day)
    (end_of_day : end_time < day) where
  pub delay_lands :
      start_time ≢ end_time
      → let (wait, end_datetime) = delay_for_time_period now start_time end_time in
        (is_time_in_range start_time end_time (time_of (now + wait)) ≡ true)
        × (now + wait ≤ end_datetime)
        × (time_of end_datetime ≡ end_time)
        × (wait < day)
  unfolding delay_for_time_period is_time_in_range
  delay_lands differ = ground arith

  -- A window within one day: there is no wait exactly when the time is in the window.
  pub delay_exact :
      start_time < end_time
      → (is_time_in_range start_time end_time (time_of now) ≡ true
          → (delay_for_time_period now start_time end_time).0 ≡ 0)
        × ((delay_for_time_period now start_time end_time).0 ≡ 0
            → is_time_in_range start_time end_time (time_of now) ≡ true)
  unfolding delay_for_time_period is_time_in_range
  delay_exact h = ground arith

  -- A window over midnight, between midnight and its end: the time is in the window, and the code
  -- waits for the window of the evening all the same.
  pub delay_past_midnight :
      end_time < start_time
      → time_of now ≤ end_time
      → (is_time_in_range start_time end_time (time_of now) ≡ true)
        × ((delay_for_time_period now start_time end_time).0 ≡ start_time - time_of now)
        × (0 < (delay_for_time_period now start_time end_time).0)
  unfolding delay_for_time_period is_time_in_range
  delay_past_midnight h k = ground arith
