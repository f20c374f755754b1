-- ===== src/DateUtils/DayOfWeek.antt =====
-- The loop of `wait_for_day_of_week`.
use mathlib.Core.Bool.{false≢true}
use native.Mathlib.Decide.{dec_lt}
use jetblack_fixengine.Prelude.{
  Bool, Bool-cases, ap, arith, false, if◌then◌else◌, inl, inr, refl, suc, sym, true, zero, ℕ, ◌%◌,
  ◌+◌, ◌-◌, ◌<◌, ◌∙◌, ◌≡◌, ◌≢◌, ◌≤◌, ◌⊎◌,
}
use jetblack_fixengine.DateUtils.{
  Waited, cancelled, combine, date_of, is_dow_in_range, out_of_fuel, tomorrow, until,
  wait_for_day_of_week, weekday,
}

module _ (start_dow end_dow : ℕ) where
  abbrev in_range : ℕ → Bool
  in_range date = is_dow_in_range start_dow end_dow ((date + 3) % 7)

  -- The wait ends on the first day in the range: at once if that is today, else at its midnight.
  abbrev pub Lands : ℕ → ℕ → Waited → Type 0
  Lands days now out_of_fuel = ⊥
  Lands days now cancelled = in_range (date_of now) ≡ false
  Lands days now (until later) =
      (in_range (date_of later) ≡ true)
      × ((date : ℕ) → date_of now ≤ date → date < date_of later → in_range date ≡ false)
      × ((later ≡ now) ⊎ (later ≡ combine (date_of later) 0))
      × (date_of now ≤ date_of later)
      × (date_of later ≤ date_of now + days)

  start_in_range : start_dow < 7 → is_dow_in_range start_dow end_dow start_dow ≡ true
  unfolding is_dow_in_range
  start_in_range h = ground arith

  date-tomorrow : (now : ℕ) → date_of (now + (tomorrow now - now)) ≡ date_of now + 1
  date-tomorrow now = omega arith

  today_or_later :
      (date now later : ℕ)
      → in_range (date_of now) ≡ false
      → ((d : ℕ) → date_of now + 1 ≤ d → d < date_of later → in_range d ≡ false)
      → date_of now ≤ date
      → date < date_of later
      → in_range date ≡ false
  today_or_later date now later out rest from before = elim (dec_lt (date_of now) date) [
    | yes p ↦ rest date (omega arith) before
    | no p ↦ let e : date ≡ date_of now = omega arith in rw e out
  ]

  go_on :
      (days now : ℕ) (r : Waited)
      → in_range (date_of now) ≡ false
      → Lands days (now + (tomorrow now - now)) r
      → Lands (suc days) now r
  go_on days now out_of_fuel out h = h
  go_on days now cancelled out h = out
  go_on days now (until later) out h = (
    h.0,
    λ date from before.
        today_or_later date now later out (λ d a b. h.1 d (rw date-tomorrow a) b) from before,
    inr (ground (arith, date-tomorrow now)),
    ground (arith, date-tomorrow now),
    ground (arith, date-tomorrow now),
  )

  distance : ℕ → ℕ
  distance now = (start_dow + 7 - weekday now) % 7

  distance-tomorrow :
      (now : ℕ)
      → start_dow < 7
      → weekday now ≢ start_dow
      → distance (now + (tomorrow now - now)) + 1 ≡ distance now
  unfolding distance
  distance-tomorrow now s h = rw date-tomorrow (omega arith)

  distance_bound : (now : ℕ) → distance now < 7
  unfolding distance
  distance_bound now = omega arith

  not_start : (now : ℕ) → start_dow < 7 → in_range (date_of now) ≡ false → weekday now ≢ start_dow
  not_start now s out e =
      false≢true (sym out ∙ ap (is_dow_in_range start_dow end_dow) e ∙ start_in_range s)

  out_today :
      (days now : ℕ) (is_cancelled : Bool) (r : Waited)
      → in_range (date_of now) ≡ false
      → Lands days (now + (tomorrow now - now)) r
      → Lands (suc days) now (if is_cancelled then cancelled else r)
  out_today days now true r out h = out
  out_today days now false r out h = go_on days now r out h

  -- One day for each round, and the first day of the range within a week.
  wait_lands :
      (fuel now : ℕ) (is_cancelled : ℕ → Bool)
      → start_dow < 7
      → distance now < fuel
      → Lands fuel now (wait_for_day_of_week fuel is_cancelled now start_dow end_dow)
  unfolding wait_for_day_of_week distance
  wait_lands zero now is_cancelled s h = absurd (omega arith)
  wait_lands (suc fuel) now is_cancelled s h = elim (Bool-cases (in_range (date_of now))) [
    | inl today ↦
        rw today (today, λ d a b. absurd (omega arith), inl refl, omega arith, omega arith)
    | inr out ↦ rw out (
        out_today fuel now (is_cancelled 0) _ out (
          wait_lands fuel (now + (tomorrow now - now)) (λ n. is_cancelled (suc n)) s
            (omega (arith, distance-tomorrow now s (not_start now s out)))))
  ]

  -- From a Monday-to-Sunday start of 0 to 6 the loop ends within a week, unless it is cancelled, on the
  -- first day from `now` on that is in the range: at once if that is today, at midnight else. It is
  -- cancelled only if today is not in the range. Seven rounds are enough.
  pub wait_for_day_of_week-Lands :
      (now : ℕ) (is_cancelled : ℕ → Bool)
      → start_dow < 7
      → Lands 7 now (wait_for_day_of_week 7 is_cancelled now start_dow end_dow)
  wait_for_day_of_week-Lands now is_cancelled s =
      wait_lands 7 now is_cancelled s (distance_bound now)

  uncancelled :
      (fuel now : ℕ) (is_cancelled : ℕ → Bool)
      → ((n : ℕ) → is_cancelled n ≡ false)
      → wait_for_day_of_week fuel is_cancelled now start_dow end_dow ≢ cancelled
  unfolding wait_for_day_of_week
  uncancelled zero now is_cancelled h e = absurd (ground (arith, e))
  uncancelled (suc fuel) now is_cancelled h e = elim (Bool-cases (in_range (date_of now))) [
    | inl today ↦ absurd (ground (arith, today, e))
    | inr out ↦
        uncancelled fuel (now + (tomorrow now - now)) (λ n. is_cancelled (suc n)) (λ n. h (suc n))
          (ground (arith, out, h 0, e))
  ]

  lands_until :
      (now : ℕ) (r : Waited) → Lands 7 now r → r ≢ cancelled → (later : ℕ) × (r ≡ until later)
  lands_until now (until later) h n = (later, refl)
  lands_until now cancelled h n = absurd (n refl)
  lands_until now out_of_fuel h n = absurd h

  -- A wait that is not cancelled comes to an end.
  pub wait_for_day_of_week-ends :
      (now : ℕ) (is_cancelled : ℕ → Bool)
      → start_dow < 7
      → ((n : ℕ) → is_cancelled n ≡ false)
      → (later : ℕ) × (wait_for_day_of_week 7 is_cancelled now start_dow end_dow ≡ until later)
  wait_for_day_of_week-ends now is_cancelled s h =
      lands_until now _ (wait_for_day_of_week-Lands now is_cancelled s)
        (uncancelled 7 now is_cancelled h)
