-- ===== src/Tests/Dates.antt =====
-- Times and days, for the waits.
use jetblack_fixengine.Prelude.{arith, false, true, ℕ, ◌*◌, ◌+◌, ◌-◌, ◌<◌, ◌≡◌}
use jetblack_fixengine.DateUtils.{
  day, delay_for_time_period, is_time_in_range, time_of, wait_for_day_of_week,
}
use jetblack_fixengine.DateUtils.Windows.{delay_exact, delay_past_midnight}
use jetblack_fixengine.DateUtils.DayOfWeek.{Lands, wait_for_day_of_week-Lands}

abbrev pub hour : ℕ
hour = 3600000000

delay_exact_example :
    (is_time_in_range (9 * hour) (17 * hour) (time_of (3 * day + 10 * hour)) ≡ true
      → (delay_for_time_period (3 * day + 10 * hour) (9 * hour) (17 * hour)).0 ≡ 0)
    × ((delay_for_time_period (3 * day + 10 * hour) (9 * hour) (17 * hour)).0 ≡ 0
        → is_time_in_range (9 * hour) (17 * hour) (time_of (3 * day + 10 * hour)) ≡ true)
delay_exact_example =
    delay_exact (3 * day + 10 * hour) (9 * hour) (17 * hour) (omega arith) (omega arith)
      (omega arith)

-- At 1:00, for a window from 22:00 to 2:00.
delay_past_midnight_example :
    (is_time_in_range (22 * hour) (2 * hour) (time_of (3 * day + hour)) ≡ true)
    × ((delay_for_time_period (3 * day + hour) (22 * hour) (2 * hour)).0
        ≡ 22 * hour - time_of (3 * day + hour))
    × (0 < (delay_for_time_period (3 * day + hour) (22 * hour) (2 * hour)).0)
delay_past_midnight_example =
    delay_past_midnight (3 * day + hour) (22 * hour) (2 * hour) (omega arith) (omega arith)
      (omega arith) (omega arith)

-- On a Saturday, for a range from Tuesday to Thursday.
wait_for_day_of_week-Lands_example :
    Lands 1 3 7 (5 * day + hour) (wait_for_day_of_week 7 (λ n. false) (5 * day + hour) 1 3)
wait_for_day_of_week-Lands_example =
    wait_for_day_of_week-Lands 1 3 (5 * day + hour) (λ n. false) (omega arith)
