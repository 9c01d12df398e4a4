-- ===== src/Power/Cooldown.antt =====
-- apps/power_management/app.py: the cool-down after a trip.
use mobius_smart_home.Prelude.{
  ℕ, ◌+◌, ◌<◌, ◌≡◌, refl, ap, ◌∙◌, String, Bool, true, false, Option, none, some, List, [], ◌∷◌,
  get, ltb, All, arith, if_false, if_both, if_each,
}
use mobius_smart_home.Power.{
  PowerSettings, PowerState, TripReason, high, low, note_reading, cooldown_clear, trip_if,
  maybe_trip_high, maybe_trip_low, trip_high_at, trip_low_at, recover_at, or_low, maybe_trip,
  power_master, power_resume, recover, maybe_recover, trip_or_recover, note_active, on_power,
  note_each, poll_tick,
}
use mobius_smart_home.Power.Recovery.{
  PowerStep, reading, poll, pause, resume, evaluate, power_step, power_run, fire_on_paused,
}

-- The commands and the last trip stay.
record Calm (st st' : PowerState) : Type 0 where
  sent : st'.sent ≡ st.sent
  last_trip : st'.last_trip ≡ st.last_trip

calm : (st : PowerState) → Calm st st
calm st = record { sent = refl; last_trip = refl }

trip_if-calm :
    (s : PowerSettings) (now : ℕ) (reason : TripReason) (offends : Bool) (st : PowerState)
    → cooldown_clear s now st ≡ false
    → trip_if s now reason offends st ≡ (st, false)
unfolding trip_if
trip_if-calm s now reason true st cooling = if_false _ (st, false) cooling
trip_if-calm s now reason false st cooling = refl

trip_high_at-calm :
    (s : PowerSettings) (now : ℕ) (threshold : Option ℕ) (st : PowerState)
    → cooldown_clear s now st ≡ false
    → trip_high_at s now threshold st ≡ (st, false)
unfolding trip_high_at
trip_high_at-calm s now none st cooling = refl
trip_high_at-calm s now (some threshold) st cooling = trip_if-calm s now high _ st cooling

trip_low_at-calm :
    (s : PowerSettings) (now : ℕ) (threshold : Option ℕ) (st : PowerState)
    → cooldown_clear s now st ≡ false
    → trip_low_at s now threshold st ≡ (st, false)
unfolding trip_low_at
trip_low_at-calm s now none st cooling = refl
trip_low_at-calm s now (some threshold) st cooling = trip_if-calm s now low _ st cooling

maybe_trip-calm :
    (s : PowerSettings) (now : ℕ) (st : PowerState)
    → cooldown_clear s now st ≡ false
    → maybe_trip s now st ≡ st
unfolding maybe_trip maybe_trip_high maybe_trip_low or_low
maybe_trip-calm s now st cooling =
    rw (trip_high_at-calm s now s.high_threshold st cooling)
      (ap (λ (r : PowerState × Bool). r.0) (trip_low_at-calm s now s.low_threshold st cooling))

-- A trip before, and a cool-down that is not over
abbrev Cooling : PowerSettings → ℕ → PowerState → Type 0
Cooling s now st = cooldown_clear s now st ≡ false

power_master-Calm :
    (s : PowerSettings) (now : ℕ) (st : PowerState)
    → Cooling s now st
    → Calm st (power_master s now st)
unfolding power_master
power_master-Calm s now st cooling =
    if_both (Calm st) st.is_paused (calm st) (rw (maybe_trip-calm s now st cooling) (calm st))

power_resume-Calm :
    (s : PowerSettings) (now : ℕ) (st : PowerState)
    → Cooling s now st
    → Calm st (power_resume s now st)
unfolding power_resume cooldown_clear
power_resume-Calm s now st cooling =
    let resumed : PowerState = record st { is_paused = false } in
    let after = power_master-Calm s now resumed cooling in
    record { sent = after.sent; last_trip = after.last_trip }

recover_at-Calm :
    (s : PowerSettings) (now : ℕ) (threshold : Option ℕ) (st : PowerState)
    → st.is_paused ≡ true
    → Cooling s now st
    → Calm st (recover_at s now threshold st)
unfolding recover_at recover
recover_at-Calm s now none st paused cooling = calm st
recover_at-Calm s now (some threshold) st paused cooling =
    rw (fire_on_paused s st paused)
      (if_both (Calm st) _ (power_resume-Calm s now st cooling) (calm st))

trip_or_recover-Calm :
    (s : PowerSettings) (now : ℕ) (st : PowerState)
    → Cooling s now st
    → Calm st (trip_or_recover s now st)
unfolding trip_or_recover maybe_recover
trip_or_recover-Calm s now st cooling =
    if_each (Calm st) st.is_paused
      (λ paused. recover_at-Calm s now s.high_threshold st paused cooling)
      (λ active. rw (maybe_trip-calm s now st cooling) (calm st))

note_active-Calm :
    (now : ℕ) (key : String) (watts : ℕ) (first : Option ℕ) (st : PowerState)
    → Calm st (note_active now key watts first st)
unfolding note_active
note_active-Calm now key watts (some first) st = calm st
note_active-Calm now key watts none st =
    if_both (Calm st) (ltb 0 watts) (record { sent = refl; last_trip = refl }) (calm st)

note_each-Calm :
    (s : PowerSettings) (now : ℕ) (readings : List (String × ℕ)) (st : PowerState)
    → Calm st (note_each s now readings st)
unfolding note_each note_reading
note_each-Calm s now [] st = calm st
note_each-Calm s now ((key, watts) ∷ rest) st =
    let after = note_each-Calm s now rest (note_reading s now key watts st) in
    record { sent = after.sent; last_trip = after.last_trip }

Calm-trans : (st st' st'' : PowerState) → Calm st st' → Calm st' st'' → Calm st st''
Calm-trans st st' st'' one two = record {
  sent = two.sent ∙ one.sent;
  last_trip = two.last_trip ∙ one.last_trip;
}

Calm-Cooling :
    (s : PowerSettings) (now : ℕ) (st st' : PowerState)
    → Calm st st'
    → Cooling s now st
    → Cooling s now st'
unfolding cooldown_clear
Calm-Cooling s now st st' quiet cooling = rw quiet.last_trip cooling

-- The times of the step are before a given one.
abbrev pub Before : ℕ → PowerStep → Type 0
Before end (reading now key watts) = now < end
Before end (poll now readings) = now < end
Before end pause = Unit
Before end (resume now) = now < end
Before end (evaluate now) = now < end

Before-Cooling :
    (s : PowerSettings) (now : ℕ) (st : PowerState)
    → 0 < st.last_trip
    → now < st.last_trip + s.cooldown
    → Cooling s now st
unfolding cooldown_clear
Before-Cooling s now st tripped early = ground (arith, tripped, early)

power_step-Calm :
    (s : PowerSettings) (x : PowerStep) (st : PowerState)
    → 0 < st.last_trip
    → Before (st.last_trip + s.cooldown) x
    → Calm st (power_step s x st)
unfolding power_step on_power poll_tick note_reading
power_step-Calm s (reading now key none) st tripped early = calm st
power_step-Calm s (reading now key (some watts)) st tripped early =
    let noted : PowerState = note_reading s now key watts st in
    let first : Option ℕ = get st.first_active key in
    let one = note_active-Calm now key watts first noted in
    let cooling =
      Calm-Cooling s now noted (note_active now key watts first noted) one
        (Before-Cooling s now noted tripped early) in
    let two = trip_or_recover-Calm s now (note_active now key watts first noted) cooling in
    record { sent = two.sent ∙ one.sent; last_trip = two.last_trip ∙ one.last_trip }
power_step-Calm s (poll now readings) st tripped early =
    let one = note_each-Calm s now readings st in
    Calm-trans st (note_each s now readings st) _ one (
      trip_or_recover-Calm s now (note_each s now readings st) (
        Calm-Cooling s now st (note_each s now readings st) one
          (Before-Cooling s now st tripped early)))
power_step-Calm s pause st tripped early = record { sent = refl; last_trip = refl }
power_step-Calm s (resume now) st tripped early =
    power_resume-Calm s now st (Before-Cooling s now st tripped early)
power_step-Calm s (evaluate now) st tripped early =
    power_master-Calm s now st (Before-Cooling s now st tripped early)

-- From a trip on, as long as the cool-down is not over, no command is sent and nothing trips, whatever is
-- read and polled, and also when the instance is paused or resumed in between.
pub cooldown_silent :
    (s : PowerSettings) (xs : List PowerStep) (st : PowerState)
    → 0 < st.last_trip
    → All (Before (st.last_trip + s.cooldown)) xs
    → let st' = power_run s xs st in (st'.sent ≡ st.sent) × (st'.last_trip ≡ st.last_trip)
unfolding power_run
cooldown_silent s [] st tripped early = (refl, refl)
cooldown_silent s (x ∷ xs) st tripped (early, all_early) =
    let one = power_step-Calm s x st tripped early in
    let (sent, last_trip) =
      cooldown_silent s xs (power_step s x st) (rw one.last_trip tripped)
        (rw one.last_trip all_early) in
    (sent ∙ one.sent, last_trip ∙ one.last_trip)
