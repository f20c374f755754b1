-- ===== src/Manager/Sessions.antt =====
-- When the manager connects.
use jetblack_fixengine.Manager.{
  Connection, Manager, Round, Settings, connected, day_waited, is_cancelled_error, log_out,
  raise_if, run_session, session, session_timeout, sleep_until_day, sleep_until_session_starts,
  sleep_until_time, start, time_waited, wait_for,
}
use jetblack_fixengine.Prelude.{
  Bool, Bool-cases, List, Option, [], arith, false, if◌then◌else◌, inl, inr, ltb, none, refl, some,
  true, ℕ, ◌*◌, ◌++◌, ◌+◌, ◌-◌, ◌<◌, ◌==◌, ◌∷◌, ◌≡◌, ◌≢◌, ◌≤◌,
}
use jetblack_fixengine.Exceptions.{Exception, M, Result, after, continue, err, ◌>>◌}
use jetblack_fixengine.Engine.{CallEnd, left, now}
use jetblack_fixengine.DateUtils.Windows.{delay_lands}
use jetblack_fixengine.Exceptions.Keeps.{choose}
use jetblack_fixengine.DateUtils.{
  Waited, cancelled, day, delay_for_time_period, is_time_in_range, time_of, until,
  wait_for_day_of_week, wait_for_time_period,
}

module _ (start_time end_time : ℕ) where
  -- The end of the session that a moment belongs to.
  abbrev pub IsSession : ℕ → Option ℕ → Type 0
  IsSession moment none = ⊥
  IsSession moment (some end_datetime) =
      (is_time_in_range start_time end_time (time_of moment) ≡ true)
      × (moment ≤ end_datetime)
      × (time_of end_datetime ≡ end_time)
      × (end_datetime < moment + 2 * day)

  -- A connection that is over by then.
  abbrev pub EndsBy : Option ℕ → Option ℕ → Type 0
  EndsBy (some end_datetime) (some ended) = ended ≤ end_datetime
  EndsBy _ _ = ⊥

  abbrev pub AllInSession : List Connection → Type 0
  AllInSession [] = Unit {0}
  AllInSession (c ∷ cs) =
      IsSession c.started c.end_datetime × EndsBy c.end_datetime c.ended × AllInSession cs

  AllInSession-snoc :
      (cs : List Connection) (c : Connection)
      → AllInSession cs
      → IsSession c.started c.end_datetime
      → EndsBy c.end_datetime c.ended
      → AllInSession (cs ++ c ∷ [])
  AllInSession-snoc [] c h i b = (i, b, tt)
  AllInSession-snoc (x ∷ cs) c h i b = (h.0, h.1, AllInSession-snoc cs c h.2 i b)

  abbrev pub settings : Option (ℕ × ℕ) → Settings
  settings days = record {
    session_dow_range = days;
    session_time_range = some (start_time, end_time);
  }

  -- After the sleep it is the time of a session, and nothing has been connected meanwhile.
  abbrev Slept : List Connection → Manager × Result (Option ℕ) → Type 0
  Slept cs (m, Result.ok end_datetime) = (m.connections ≡ cs) × IsSession m.now end_datetime
  Slept cs (m, err x) = m.connections ≡ cs

  module _ (start_of_day : start_time < day) (end_of_day : end_time < day)
      (differ : start_time ≢ end_time) where
    delay-IsSession :
        (now : ℕ)
        → IsSession
            (now + (delay_for_time_period now start_time end_time).0)
            (some (delay_for_time_period now start_time end_time).1)
    unfolding delay_for_time_period
    delay-IsSession now =
        let (i, b, t, w) = delay_lands now start_time end_time start_of_day end_of_day differ in
        (i, b, t, ground arith)

    time_waited-Slept :
        (no_wait cancels : Bool) (m : Manager)
        → let (wait, end_datetime) = delay_for_time_period m.now start_time end_time in
          Slept m.connections (
            time_waited wait
              (if no_wait
                then until end_datetime
                else if cancels
                then cancelled
                else until end_datetime)
              m)
    time_waited-Slept true cancels m = (refl, delay-IsSession m.now)
    time_waited-Slept false true m = refl
    time_waited-Slept false false m = (refl, delay-IsSession m.now)

    sleep_until_time-Slept :
        (c : Bool) (m : Manager)
        → Slept m.connections (sleep_until_time (some (start_time, end_time)) c m)
    unfolding wait_for_time_period
    sleep_until_time-Slept c m =
        time_waited-Slept ((delay_for_time_period m.now start_time end_time).0 == 0) c m

    day_waited-Slept :
        (r : Waited) (c : Bool) (m : Manager)
        → Slept m.connections
            (continue (day_waited r m) (λ _. sleep_until_time (some (start_time, end_time)) c))
    day_waited-Slept (until later) c m = sleep_until_time-Slept c (record m { now = later })
    day_waited-Slept cancelled c m = refl
    day_waited-Slept Waited.out_of_fuel c m = refl

    after_day-Slept :
        (days : Option (ℕ × ℕ)) (round : Round) (m : Manager)
        → Slept m.connections (
            (sleep_until_day days round.day_cancels
                >> sleep_until_time (some (start_time, end_time)) round.window_cancels)
              m)
    after_day-Slept none round m = sleep_until_time-Slept round.window_cancels m
    after_day-Slept (some (start_dow, end_dow)) round m =
        day_waited-Slept (wait_for_day_of_week 7 round.day_cancels m.now start_dow end_dow)
          round.window_cancels m

    module _ (days : Option (ℕ × ℕ)) where
      sleep-Slept :
          (round : Round) (m : Manager)
          → Slept m.connections (sleep_until_session_starts (settings days) round m)
      unfolding sleep_until_session_starts
      sleep-Slept round m = after_day-Slept days round m

      abbrev Sound : M Manager CallEnd → Type 0
      Sound again =
          (m : Manager) → AllInSession m.connections → AllInSession (after (again m)).connections

      raise_if-Sound :
          (x : Option Exception) (again : M Manager CallEnd)
          → Sound again
          → Sound (raise_if x >> again)
      raise_if-Sound none again k m h = k m h
      raise_if-Sound (some x) again k m h = h

      log_out-Sound :
          (round : Round) (again : M Manager CallEnd) → Sound again → Sound (log_out round >> again)
      log_out-Sound round again k m h = stopped round.logout round.wait_raises
        where
          stopped :
              (x y : Option Exception)
              → AllInSession
                  (after (
                    (log_out (record round { logout = x; wait_raises = y }) >> again)
                      m)).connections
          stopped none none = k _ h
          stopped none (some y) = h
          stopped (some x) y = h

      connected-Sound :
          (cancels : Bool) (end_datetime time : ℕ) (next : M Manager CallEnd) (m : Manager)
          → IsSession m.now (some end_datetime)
          → time ≤ end_datetime - m.now
          → Sound next
          → AllInSession m.connections
          → AllInSession
              (after
                (continue (connected (some end_datetime) cancels time m) (λ _. next))).connections
      connected-Sound cancels end_datetime time next m i b k h =
          k _ (AllInSession-snoc m.connections _ h i (omega (arith, i.1, b)))

      run_session-Sound :
          (round : Round) (run : Option (ℕ × Option Exception)) (end_datetime : Option ℕ)
          (again : M Manager CallEnd) (m : Manager)
          → IsSession m.now end_datetime
          → Sound again
          → AllInSession m.connections
          → AllInSession
              (after (
                run_session round end_datetime
                  (wait_for run (session_timeout end_datetime m.now))
                  again
                  m)).connections
      run_session-Sound round none (some e) again m i k h =
          connected-Sound round.run_cancels e (e - m.now) (log_out round >> again) m i (omega arith)
            (log_out-Sound round again k) h
      run_session-Sound round (some (time, x)) (some e) again m i k h =
          elim (Bool-cases (ltb time (e - m.now))) [
            | inl y ↦ rw y (
                connected-Sound round.run_cancels e time (raise_if x >> again) m i
                  (ground (arith, y)) (raise_if-Sound x again k) h)
            | inr n ↦ rw n (
                connected-Sound round.run_cancels e (e - m.now) (log_out round >> again) m i
                  (omega arith) (log_out-Sound round again k) h)
          ]
      run_session-Sound round none none again m i k h = absurd i
      run_session-Sound round (some (time, x)) none again m i k h = absurd i

      session-Sound :
          (round : Round) (cs : List Connection) (r : Manager × Result (Option ℕ))
          (again : M Manager CallEnd)
          → Slept cs r
          → AllInSession cs
          → Sound again
          → AllInSession (after (session round r again)).connections
      session-Sound round cs (m, Result.ok end_datetime) again i h k =
          run_session-Sound round round.run end_datetime again m i.1 k (rw i.0 h)
      session-Sound round cs (m, err x) again i h k =
          let same : AllInSession m.connections = rw i h in
          choose (λ w. AllInSession w.connections) (is_cancelled_error x) (again m) (m, err x)
            (k m same) same

      -- A manager with a time window, from and to two moments of a day that differ, and with any range of
      -- days, whatever happens in its rounds: each of its connections starts at a time of day in the
      -- window, and is over by the end of the session that it belongs to, which is the next moment of the
      -- window's end, less than two days off.
      pub start-AllInSession :
          (rounds : List Round) (m : Manager)
          → AllInSession m.connections
          → AllInSession (after (start (settings days) rounds m)).connections
      unfolding start
      start-AllInSession [] m h = h
      start-AllInSession (round ∷ rounds) m h =
          choose (λ w. AllInSession w.connections) m.is_cancelled (m, Result.ok left) _ h
            (session-Sound round m.connections (sleep_until_session_starts (settings days) round m)
              (start (settings days) rounds) (sleep-Slept round m) h (start-AllInSession rounds))
