-- ===== src/Power/Recovery.antt =====
-- apps/power_management/app.py: what a recovery does, and when there is none.
use mobius_smart_home.Prelude.{
  ℕ, ◌≡◌, refl, String, Bool, true, false, ◌&&◌, Option, none, some, List, [], ◌∷◌, ◌++◌, map, get,
  ltb, str_eq, All, if_both, if_each,
}
use mobius_smart_home.Power.{
  PowerSettings, PowerState, TripReason, high, low, note_reading, cooldown_clear, fire_cutoffs,
  trip_power, trip_if, maybe_trip_high, maybe_trip_low, trip_high_at, trip_low_at, recover_at,
  or_low, maybe_trip, power_master, power_resume, recover, maybe_recover, trip_or_recover,
  note_active, on_power, note_each, poll_tick,
}

-- What happens to an instance: a reading, a round of the poll, a pause, a resume, a call of `master`
pub data PowerStep : Type 0 where
  reading : ℕ → String → Option ℕ → PowerStep
  poll : ℕ → List (String × ℕ) → PowerStep
  pause : PowerStep
  resume : ℕ → PowerStep
  evaluate : ℕ → PowerStep

unfoldable pub power_step : PowerSettings → PowerStep → PowerState → PowerState
power_step s (reading now key watts) st = on_power s now key watts st
power_step s (poll now readings) st = poll_tick s now readings st
power_step s pause st = record st { is_paused = true }
power_step s (resume now) st = power_resume s now st
power_step s (evaluate now) st = power_master s now st

unfoldable pub power_run : PowerSettings → List PowerStep → PowerState → PowerState
unfolding power_step
power_run s [] st = st
power_run s (x ∷ xs) st = power_run s xs (power_step s x st)

-- Every command of the list is "off".
abbrev pub OnlyOff : List (String × String) → Type 0
OnlyOff sent = All (λ c. c.1 ≡ "off") sent

OnlyOff-off :
    (switches : List String) (sent : List (String × String))
    → OnlyOff sent
    → OnlyOff (sent ++ map (λ d. (d, "off")) switches)
OnlyOff-off [] [] only_off = tt
OnlyOff-off (d ∷ rest) [] only_off = (refl, OnlyOff-off rest [] tt)
OnlyOff-off switches (c ∷ sent) (is_off, only_off) = (is_off, OnlyOff-off switches sent only_off)

abbrev Off : PowerState → Type 0
Off st = OnlyOff st.sent

trip_if-OnlyOff :
    (s : PowerSettings) (now : ℕ) (reason : TripReason) (offends : Bool) (st : PowerState)
    → Off st
    → Off (trip_if s now reason offends st).0
unfolding trip_if trip_power fire_cutoffs
trip_if-OnlyOff s now reason offends st only_off =
    if_both (λ (r : PowerState × Bool). Off r.0) (offends && cooldown_clear s now st)
      (if_both Off (st.is_paused && str_eq "off" "on") only_off
        (OnlyOff-off s.cutoff_switches st.sent only_off))
      only_off

trip_high_at-OnlyOff :
    (s : PowerSettings) (now : ℕ) (threshold : Option ℕ) (st : PowerState)
    → Off st
    → Off (trip_high_at s now threshold st).0
unfolding trip_high_at
trip_high_at-OnlyOff s now none st only_off = only_off
trip_high_at-OnlyOff s now (some threshold) st only_off = trip_if-OnlyOff s now high _ st only_off

trip_low_at-OnlyOff :
    (s : PowerSettings) (now : ℕ) (threshold : Option ℕ) (st : PowerState)
    → Off st
    → Off (trip_low_at s now threshold st).0
unfolding trip_low_at
trip_low_at-OnlyOff s now none st only_off = only_off
trip_low_at-OnlyOff s now (some threshold) st only_off = trip_if-OnlyOff s now low _ st only_off

or_low-OnlyOff :
    (s : PowerSettings) (now : ℕ) (r : PowerState × Bool) → Off r.0 → Off (or_low s now r)
unfolding or_low maybe_trip_low
or_low-OnlyOff s now (st, true) only_off = only_off
or_low-OnlyOff s now (st, false) only_off = trip_low_at-OnlyOff s now s.low_threshold st only_off

maybe_trip-OnlyOff :
    (s : PowerSettings) (now : ℕ) (st : PowerState) → Off st → Off (maybe_trip s now st)
unfolding maybe_trip maybe_trip_high
maybe_trip-OnlyOff s now st only_off =
    or_low-OnlyOff s now (maybe_trip_high s now st)
      (trip_high_at-OnlyOff s now s.high_threshold st only_off)

power_master-OnlyOff :
    (s : PowerSettings) (now : ℕ) (st : PowerState) → Off st → Off (power_master s now st)
unfolding power_master
power_master-OnlyOff s now st only_off =
    if_both Off st.is_paused only_off (maybe_trip-OnlyOff s now st only_off)

power_resume-OnlyOff :
    (s : PowerSettings) (now : ℕ) (st : PowerState) → Off st → Off (power_resume s now st)
unfolding power_resume
power_resume-OnlyOff s now st = power_master-OnlyOff s now (record st { is_paused = false })

-- The "on" of a recovery: the instance is still paused.
pub fire_on_paused :
    (s : PowerSettings) (st : PowerState) → st.is_paused ≡ true → fire_cutoffs s "on" st ≡ st
unfolding fire_cutoffs
fire_on_paused s st paused = rw paused refl

recover_at-OnlyOff :
    (s : PowerSettings) (now : ℕ) (threshold : Option ℕ) (st : PowerState)
    → st.is_paused ≡ true
    → Off st
    → Off (recover_at s now threshold st)
unfolding recover_at recover
recover_at-OnlyOff s now none st paused only_off = only_off
recover_at-OnlyOff s now (some threshold) st paused only_off =
    rw (fire_on_paused s st paused)
      (if_both Off _ (power_resume-OnlyOff s now st only_off) only_off)

trip_or_recover-OnlyOff :
    (s : PowerSettings) (now : ℕ) (st : PowerState) → Off st → Off (trip_or_recover s now st)
unfolding trip_or_recover maybe_recover
trip_or_recover-OnlyOff s now st only_off =
    if_each Off st.is_paused
      (λ paused. recover_at-OnlyOff s now s.high_threshold st paused only_off)
      (λ active. maybe_trip-OnlyOff s now st only_off)

note_active-sent :
    (now : ℕ) (key : String) (watts : ℕ) (first : Option ℕ) (st : PowerState)
    → (note_active now key watts first st).sent ≡ st.sent
unfolding note_active
note_active-sent now key watts (some first) st = refl
note_active-sent now key watts none st =
    if_both (λ (r : PowerState). r.sent ≡ st.sent) (ltb 0 watts) refl refl

note_each-sent :
    (s : PowerSettings) (now : ℕ) (readings : List (String × ℕ)) (st : PowerState)
    → (note_each s now readings st).sent ≡ st.sent
unfolding note_each note_reading
note_each-sent s now [] st = refl
note_each-sent s now ((key, watts) ∷ rest) st =
    note_each-sent s now rest (note_reading s now key watts st)

power_step-OnlyOff :
    (s : PowerSettings) (x : PowerStep) (st : PowerState) → Off st → Off (power_step s x st)
unfolding power_step on_power poll_tick note_reading
power_step-OnlyOff s (reading now key none) st only_off = only_off
power_step-OnlyOff s (reading now key (some watts)) st only_off =
    let noted : PowerState = note_reading s now key watts st in
    trip_or_recover-OnlyOff s now (note_active now key watts (get st.first_active key) noted)
      (rw (note_active-sent now key watts (get st.first_active key) noted) only_off)
power_step-OnlyOff s (poll now readings) st only_off =
    trip_or_recover-OnlyOff s now (note_each s now readings st)
      (rw (note_each-sent s now readings st) only_off)
power_step-OnlyOff s pause st only_off = only_off
power_step-OnlyOff s (resume now) st only_off = power_resume-OnlyOff s now st only_off
power_step-OnlyOff s (evaluate now) st only_off = power_master-OnlyOff s now st only_off

-- Whatever an instance is set to, and whatever happens to it, readings, polls, pauses and resumes in any
-- order: if it has sent nothing but "off", it has sent nothing but "off" afterwards too.
pub power_run-OnlyOff :
    (s : PowerSettings) (xs : List PowerStep) (st : PowerState)
    → OnlyOff st.sent
    → OnlyOff (power_run s xs st).sent
unfolding power_run
power_run-OnlyOff s [] st only_off = only_off
power_run-OnlyOff s (x ∷ xs) st only_off =
    power_run-OnlyOff s xs (power_step s x st) (power_step-OnlyOff s x st only_off)
