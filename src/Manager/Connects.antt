-- ===== src/Manager/Connects.antt =====
-- The manager connects again and again.
use jetblack_fixengine.Manager.{
  Manager, Round, Settings, connected, day_waited, log_out, run_session, session, session_timeout,
  sleep_until_day, sleep_until_session_starts, sleep_until_time, start, stop_timeout, time_waited,
  wait_for,
}
use jetblack_fixengine.Prelude.{
  Bool, Bool-cases, List, Option, [], ap, arith, false, if◌then◌else◌, inl, inr, length,
  length-snoc, ltb, min, none, refl, some, suc, sym, true, ℕ, ◌+◌, ◌-◌, ◌<◌, ◌==◌, ◌||◌, ◌∙◌, ◌∷◌,
  ◌≡◌,
}
use jetblack_fixengine.Exceptions.{Exception, M, Result, after, continue, err, ◌>>◌}
use jetblack_fixengine.DateUtils.{
  Waited, cancelled, delay_for_time_period, until, wait_for_time_period,
}
use jetblack_fixengine.Engine.{CallEnd, left, waiting}
use jetblack_fixengine.DateUtils.DayOfWeek.{wait_for_day_of_week-ends}
use mathlib.Core.Path.{subst}

-- How `initiate` ends, if it does, with no exception.
abbrev pub IsQuiet : Option (ℕ × Option Exception) → Type 0
IsQuiet none = Unit {0}
IsQuiet (some (time, x)) = x ≡ none

-- A round in which the cancellation event is not set and nothing raises an exception.
pub record IsCalm (round : Round) : Type 0 where
  pub days : (n : ℕ) → round.day_cancels n ≡ false
  pub window : round.window_cancels ≡ false
  pub runs : round.run_cancels ≡ false
  pub quiet : IsQuiet round.run
  pub logs_out : round.logout ≡ none
  pub waits : round.wait_raises ≡ none
  pub stops : round.stop_cancels ≡ false

abbrev pub AllCalm : List Round → Type 0
AllCalm [] = Unit {0}
AllCalm (round ∷ rounds) = IsCalm round × AllCalm rounds

abbrev pub IsDays : Option (ℕ × ℕ) → Type 0
IsDays none = Unit {0}
IsDays (some (start_dow, end_dow)) = start_dow < 7

-- The loop goes on to wait, with so many connections more.
abbrev pub Counts : ℕ → Manager → Manager × Result CallEnd → Type 0
Counts n m (q, r) = (r ≡ Result.ok waiting) × (length q.connections ≡ length m.connections + n)

module _ (n : ℕ) (again : M Manager CallEnd)
    (goes_on : (p : Manager) → p.is_cancelled ≡ false → Counts n p (again p)) where
  again-Counts :
      (m p : Manager)
      → p.is_cancelled ≡ false
      → length p.connections ≡ length m.connections + 1
      → Counts (suc n) m (again p)
  again-Counts m p c l = let (r, k) = goes_on p c in (r, omega (arith, k, l))

  log_out-Counts :
      (round : Round) (logout waits : Option Exception) (m p : Manager)
      → logout ≡ none
      → waits ≡ none
      → round.stop_cancels ≡ false
      → p.is_cancelled ≡ false
      → length p.connections ≡ length m.connections + 1
      → Counts
          (suc n)
          m
          ((log_out (record round { logout = logout; wait_raises = waits }) >> again) p)
  log_out-Counts round none none m p e w s c l =
      let p' : Manager = record p {
        now = p.now + min round.stopping stop_timeout;
        is_cancelled = p.is_cancelled || round.stop_cancels;
      } in
      again-Counts m p' (ground (arith, c, s)) l
  log_out-Counts round none (some x) m p e w s c l = absurd (ground (arith, w))
  log_out-Counts round (some x) waits m p e w s c l = absurd (ground (arith, e))

  connected-length :
      (q : Manager) (end_datetime time : ℕ) (c : Bool) (m : Manager)
      → length q.connections ≡ length m.connections
      → length (after (connected (some end_datetime) c time q)).connections
        ≡ length m.connections + 1
  connected-length q e time c m l = omega (arith, length-snoc q.connections _, l)

  run_session-Counts :
      (round : Round) (run : Option (ℕ × Option Exception)) (end_datetime : ℕ) (m q : Manager)
      → IsCalm round
      → IsQuiet run
      → q.is_cancelled ≡ false
      → length q.connections ≡ length m.connections
      → Counts (suc n) m (
          run_session round
            (some end_datetime)
            (wait_for run (session_timeout (some end_datetime) q.now))
            again
            q)
  run_session-Counts round none e m q h k c l =
      log_out-Counts round round.logout round.wait_raises m
        (after (connected (some e) round.run_cancels (e - q.now) q)) h.logs_out h.waits h.stops
        (ground (arith, c, h.runs)) (connected-length q e (e - q.now) round.run_cancels m l)
  run_session-Counts round (some (time, x)) e m q h k c l =
      elim (Bool-cases (ltb time (e - q.now))) [
        | inl y ↦
            rw (y, k)
              (again-Counts m (after (connected (some e) round.run_cancels time q))
                (ground (arith, c, h.runs)) (connected-length q e time round.run_cancels m l))
        | inr y ↦ rw y (
            log_out-Counts round round.logout round.wait_raises m
              (after (connected (some e) round.run_cancels (e - q.now) q)) h.logs_out h.waits
              h.stops (ground (arith, c, h.runs))
              (connected-length q e (e - q.now) round.run_cancels m l))
      ]

module _ (start_time end_time : ℕ) where
  -- The sleep ends with the end of a session, and has changed nothing but the time.
  abbrev Awake : Manager → Manager × Result (Option ℕ) → Type 0
  Awake m (q, Result.ok (some end_datetime)) =
      (q.connections ≡ m.connections) × (q.is_cancelled ≡ m.is_cancelled)
  Awake m (q, Result.ok none) = ⊥
  Awake m (q, err x) = ⊥

  waited-Awake :
      (m : Manager) (wait end_datetime : ℕ) (no_wait cancels : Bool)
      → cancels ≡ false
      → Awake m (
          time_waited wait
            (if no_wait
              then until end_datetime
              else if cancels
              then cancelled
              else until end_datetime)
            m)
  waited-Awake m wait e true c h = (refl, refl)
  waited-Awake m wait e false false h = (refl, refl)
  waited-Awake m wait e false true h = absurd (ground (arith, h))

  time-Awake :
      (m : Manager) (c : Bool)
      → c ≡ false
      → Awake m (sleep_until_time (some (start_time, end_time)) c m)
  unfolding wait_for_time_period
  time-Awake m c h =
      waited-Awake m _ (delay_for_time_period m.now start_time end_time).1
        ((delay_for_time_period m.now start_time end_time).0 == 0) c h

  day-Awake :
      (days : Option (ℕ × ℕ)) (round : Round) (m : Manager)
      → IsDays days
      → IsCalm round
      → Awake m (
          (sleep_until_day days round.day_cancels
              >> sleep_until_time (some (start_time, end_time)) round.window_cancels)
            m)
  day-Awake none round m w h = time-Awake m round.window_cancels h.window
  day-Awake (some (start_dow, end_dow)) round m w h =
      let (later, e) =
        wait_for_day_of_week-ends start_dow end_dow m.now round.day_cancels w h.days in
      subst
        (λ (r : Waited). Awake m (
          continue (day_waited r m)
            (λ _. sleep_until_time (some (start_time, end_time)) round.window_cancels)))
        (sym e) (time-Awake (record m { now = later }) round.window_cancels h.window)

  abbrev pub regular : Option (ℕ × ℕ) → Settings
  regular days = record {
    session_dow_range = days;
    session_time_range = some (start_time, end_time);
  }

  sleep-Awake :
      (days : Option (ℕ × ℕ)) (round : Round) (m : Manager)
      → IsDays days
      → IsCalm round
      → Awake m (sleep_until_session_starts (regular days) round m)
  unfolding sleep_until_session_starts
  sleep-Awake days round m w h = day-Awake days round m w h

  session-Counts :
      (n : ℕ) (again : M Manager CallEnd) (round : Round) (m : Manager)
      (r : Manager × Result (Option ℕ))
      → ((p : Manager) → p.is_cancelled ≡ false → Counts n p (again p))
      → IsCalm round
      → Awake m r
      → m.is_cancelled ≡ false
      → Counts (suc n) m (session round r again)
  session-Counts n again round m (q, Result.ok (some e)) k h a c =
      run_session-Counts n again k round round.run e m q h h.quiet (a.1 ∙ c) (ap length a.0)
  session-Counts n again round m (q, Result.ok none) k h a c = absurd a
  session-Counts n again round m (q, err x) k h a c = absurd a

  -- A manager that has not been cancelled, with a time window and, if any, days from a first day of the
  -- week on, in rounds in which the cancellation event is not set and neither `initiate` nor the logout
  -- nor `asyncio.wait` raises an exception, which the last does not on a Python before 3.11: it makes one
  -- connection in each round, whether the peer ends it or the session's time is over, raises nothing,
  -- and waits for the next round.
  pub start-Counts :
      (days : Option (ℕ × ℕ)) (rounds : List Round) (m : Manager)
      → IsDays days
      → AllCalm rounds
      → m.is_cancelled ≡ false
      → Counts (length rounds) m (start (regular days) rounds m)
  unfolding start
  start-Counts days [] m w h c = (ground (arith, c), omega arith)
  start-Counts days (round ∷ rounds) m w h c =
      let counted =
        session-Counts (length rounds) (start (regular days) rounds) round m _
          (λ p d. start-Counts days rounds p w h.1 d) h.0 (sleep-Awake days round m w h.0) c in
      subst
        (λ (b : Bool). Counts (suc (length rounds)) m (
          if b
          then (m, Result.ok left)
          else session round (sleep_until_session_starts (regular days) round m)
              (start (regular days) rounds)))
        (sym c) counted
