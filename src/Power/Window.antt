-- ===== src/Power/Window.antt =====
-- apps/power_management/app.py: the window of the average against that of the recovery.
use mobius_smart_home.Prelude.{
  ℕ, ◌+◌, ◌<◌, ◌≡◌, inl, inr, refl, sym, ap, ◌∙◌, String, Bool, true, false, ◌&&◌, not, Option,
  none, some, List, [], ◌∷◌, ◌++◌, Dict, get, get-put_self, ltb, str_eq, if◌then◌else◌, arith,
  Bool-cases, if_true, if_false, if_both, if_each, All,
}
use mobius_smart_home.Power.{
  PowerSettings, PowerState, PowerBuffer, trim_buffer, note_reading, or_no_readings, recover,
  old_enough, all_cool, any_data, was_high, recover_at, maybe_recover, power_master, maybe_trip,
  trip_or_recover, note_active, on_power, holds_for, sensor_avg, at_least,
}
use mobius_smart_home.Power.Recovery.{
  PowerStep, reading, poll, pause, resume, evaluate, power_step, power_run,
}

-- After the trim, what is left of a buffer with a reading of now does not go back over the window.
trim_buffer-young :
    (s : PowerSettings) (now watts : ℕ) (buf : PowerBuffer)
    → s.average_window < s.auto_recovery_window
    → old_enough s now (trim_buffer s now (buf ++ (now, watts) ∷ [])) ≡ false
unfolding trim_buffer old_enough
trim_buffer-young s now watts [] short = ground (arith, short)
trim_buffer-young s now watts ((t, w) ∷ rest) short =
    if_each (λ b. old_enough s now b ≡ false) (ltb (t + s.average_window) now)
      (λ gone. trim_buffer-young s now watts rest short) (λ kept. ground (arith, short, kept))

no_and : (a b : Bool) → (a && false && b) ≡ false
no_and true b = refl
no_and false b = refl

no_and_last : (a b : Bool) → (a && b && false) ≡ false
no_and_last true true = refl
no_and_last true false = refl
no_and_last false b = refl

blocked : (a b c : Bool) → (a && b && false && c) ≡ false
blocked true true c = refl
blocked true false c = refl
blocked false b c = refl

-- One buffer that does not go back far enough is in the way of the recovery.
all_cool-young :
    (s : PowerSettings) (now threshold : ℕ) (buffers : Dict PowerBuffer) (key : String)
    → old_enough s now (or_no_readings (get buffers key)) ≡ false
    → all_cool s now threshold buffers ≡ false
unfolding all_cool get or_no_readings
all_cool-young s now threshold [] key young = young
all_cool-young s now threshold ((key', buf') ∷ rest) key young =
    let cool = not (holds_for (λ a. at_least a threshold) (sensor_avg buf')) in
    elim (Bool-cases (str_eq key' key)) [
      | inl same ↦
          let young' : old_enough s now buf' ≡ false =
            sym (
              ap (λ b. old_enough s now (or_no_readings (if b then some buf' else get rest key)))
                same)
            ∙ young in
          rw young' (no_and cool (all_cool s now threshold rest))
      | inr other ↦
          let young' : old_enough s now (or_no_readings (get rest key)) ≡ false =
            sym (
              ap (λ b. old_enough s now (or_no_readings (if b then some buf' else get rest key)))
                other)
            ∙ young in
          rw (all_cool-young s now threshold rest key young')
            (no_and_last cool (old_enough s now buf'))
    ]

recover_at-young :
    (s : PowerSettings) (now : ℕ) (threshold : Option ℕ) (key : String) (st : PowerState)
    → old_enough s now (or_no_readings (get st.power_buffer key)) ≡ false
    → recover_at s now threshold st ≡ st
unfolding recover_at
recover_at-young s now none key st young = refl
recover_at-young s now (some threshold) key st young =
    rw (all_cool-young s now threshold st.power_buffer key young) (
      if_false (recover s now st) st
        (blocked (was_high st.last_trip_reason) s.auto_recovery_enabled (any_data st.power_buffer)))

note_active-power_buffer :
    (now : ℕ) (key : String) (watts : ℕ) (first : Option ℕ) (st : PowerState)
    → (note_active now key watts first st).power_buffer ≡ st.power_buffer
unfolding note_active
note_active-power_buffer now key watts (some first) st = refl
note_active-power_buffer now key watts none st =
    if_both (λ (r : PowerState). r.power_buffer ≡ st.power_buffer) (ltb 0 watts) refl refl

note_active-is_paused :
    (now : ℕ) (key : String) (watts : ℕ) (first : Option ℕ) (st : PowerState)
    → (note_active now key watts first st).is_paused ≡ st.is_paused
unfolding note_active
note_active-is_paused now key watts (some first) st = refl
note_active-is_paused now key watts none st =
    if_both (λ (r : PowerState). r.is_paused ≡ st.is_paused) (ltb 0 watts) refl refl

trip_or_recover-young :
    (s : PowerSettings) (now : ℕ) (key : String) (st : PowerState)
    → st.is_paused ≡ true
    → old_enough s now (or_no_readings (get st.power_buffer key)) ≡ false
    → trip_or_recover s now st ≡ st
unfolding trip_or_recover maybe_recover
trip_or_recover-young s now key st paused young =
    if_true (recover_at s now s.high_threshold st) _ paused
    ∙ recover_at-young s now s.high_threshold key st young

on_power-paused :
    (s : PowerSettings) (now : ℕ) (key : String) (watts : Option ℕ) (st : PowerState)
    → s.average_window < s.auto_recovery_window
    → st.is_paused ≡ true
    → (on_power s now key watts st).is_paused ≡ true
unfolding on_power note_reading or_no_readings
on_power-paused s now key none st short paused = paused
on_power-paused s now key (some watts) st short paused =
    let noted : PowerState = note_reading s now key watts st in
    let first : Option ℕ = get st.first_active key in
    let st' : PowerState = note_active now key watts first noted in
    let paused' : st'.is_paused ≡ true = note_active-is_paused now key watts first noted ∙ paused in
    let buf = trim_buffer s now (or_no_readings (get st.power_buffer key) ++ (now, watts) ∷ []) in
    let young : old_enough s now (or_no_readings (get st'.power_buffer key)) ≡ false =
      rw (note_active-power_buffer now key watts first noted, get-put_self st.power_buffer key buf)
        (trim_buffer-young s now watts (or_no_readings (get st.power_buffer key)) short) in
    rw (trip_or_recover-young s now key st' paused' young) paused'

-- Whatever happens but a round of the poll and a resume
abbrev pub Passive : PowerStep → Type 0
Passive (reading now key watts) = Unit
Passive (poll now readings) = ⊥
Passive pause = Unit
Passive (resume now) = ⊥
Passive (evaluate now) = Unit

power_step-paused :
    (s : PowerSettings) (x : PowerStep) (st : PowerState)
    → s.average_window < s.auto_recovery_window
    → Passive x
    → st.is_paused ≡ true
    → (power_step s x st).is_paused ≡ true
unfolding power_step power_master
power_step-paused s (reading now key watts) st short passive paused =
    on_power-paused s now key watts st short paused
power_step-paused s (poll now readings) st short passive paused = elim passive [ ]
power_step-paused s pause st short passive paused = refl
power_step-paused s (resume now) st short passive paused = elim passive [ ]
power_step-paused s (evaluate now) st short passive paused =
    ap (λ (r : PowerState). r.is_paused) (if_true st (maybe_trip s now st) paused) ∙ paused

-- Where the window of the average is shorter than that of the recovery, an instance that is paused, by a
-- trip or by the user, stays paused whatever its sensors report, at whatever times, until somebody resumes
-- it or a poll is made: it never recovers by itself.
pub short_window-paused :
    (s : PowerSettings) (xs : List PowerStep) (st : PowerState)
    → s.average_window < s.auto_recovery_window
    → All Passive xs
    → st.is_paused ≡ true
    → (power_run s xs st).is_paused ≡ true
unfolding power_run
short_window-paused s [] st short passive paused = paused
short_window-paused s (x ∷ xs) st short (passive, all_passive) paused =
    short_window-paused s xs (power_step s x st) short all_passive
      (power_step-paused s x st short passive paused)
