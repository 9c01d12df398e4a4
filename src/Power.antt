-- ===== src/Power.antt =====
-- apps/power_management/app.py: the cut-off of a load by its average power. Readings are in a unit of
-- power, and times in a unit of the monotonic clock, that make them whole; an average is kept as total and
-- count. Left out: the record of a trip for the dashboard and for a restart, and the poll job.
pub mod Recovery
pub mod Window
pub mod Worst
pub mod Cooldown
mod Scenarios
use mobius_smart_home.Prelude.{
  ℕ, ◌+◌, ◌*◌, String, Bool, true, false, ◌&&◌, ◌||◌, not, Option, none, some, List, [], ◌∷◌, ◌++◌,
  map, length, Dict, get, put, leb, ltb, ◌==◌, str_eq, if◌then◌else◌,
}

-- `dry_run` is `dryRunDetectionEnabled` and not switched off by `initialize`; the recovery window is in
-- the unit of the clock.
pub record PowerSettings : Type 0 where
  pub cutoff_switches : List String
  pub high_threshold : Option ℕ
  pub average_window : ℕ
  pub cooldown : ℕ
  pub auto_recovery_enabled : Bool
  pub auto_recovery_window : ℕ
  pub dry_run : Bool
  pub low_threshold : Option ℕ
  pub low_threshold_grace : ℕ

pub data TripReason : Type 0 where
  high low : TripReason

-- The time and the watts of a reading, oldest first
abbrev pub PowerBuffer : Type 0
PowerBuffer = List (ℕ × ℕ)

-- `last_trip` 0 is "never"; `sent` are the commands of the cut-off switches.
pub record PowerState : Type 0 where
  pub power_buffer : Dict PowerBuffer
  pub last_trip : ℕ
  pub last_trip_reason : Option TripReason
  pub first_active : Dict ℕ
  pub is_paused : Bool
  pub sent : List (String × String)

pub record Average : Type 0 where
  pub total : ℕ
  pub count : ℕ

total_watts : PowerBuffer → ℕ
total_watts [] = 0
total_watts ((t, watts) ∷ rest) = watts + total_watts rest

-- `_sensor_avg`
sensor_avg : PowerBuffer → Option Average
unfolding total_watts
sensor_avg [] = none
sensor_avg (x ∷ rest) = some (record { total = total_watts (x ∷ rest); count = length (x ∷ rest) })

above : Average → Average → Bool
above a b = ltb (b.total * a.count) (a.total * b.count)

at_least : Average → ℕ → Bool
at_least a threshold = leb (threshold * a.count) a.total

at_most : Average → ℕ → Bool
at_most a threshold = leb a.total (threshold * a.count)

-- `_trim_buffer`
unfoldable pub trim_buffer : PowerSettings → ℕ → PowerBuffer → PowerBuffer
trim_buffer s now [] = []
trim_buffer s now ((t, watts) ∷ rest) =
    let trimmed = trim_buffer s now rest in
    if ltb (t + s.average_window) now then trimmed else (t, watts) ∷ rest

or_no_readings : Option PowerBuffer → PowerBuffer
or_no_readings none = []
or_no_readings (some buf) = buf

-- A reading of a sensor enters its buffer.
unfoldable pub note_reading : PowerSettings → ℕ → String → ℕ → PowerState → PowerState
unfolding or_no_readings
note_reading s now key watts st = record st {
  power_buffer =
      put st.power_buffer key
        (trim_buffer s now (or_no_readings (get st.power_buffer key) ++ (now, watts) ∷ []));
}

-- `_cooldown_clear`
unfoldable pub cooldown_clear : PowerSettings → ℕ → PowerState → Bool
cooldown_clear s now st = st.last_trip == 0 || leb (st.last_trip + s.cooldown) now

-- `_fire_cutoffs`
unfoldable pub fire_cutoffs : PowerSettings → String → PowerState → PowerState
fire_cutoffs s action st =
    if st.is_paused && str_eq action "on"
    then st
    else record st { sent = st.sent ++ map (λ d. (d, action)) s.cutoff_switches }

-- `_trip`
unfoldable pub trip_power : PowerSettings → ℕ → TripReason → PowerState → PowerState
trip_power s now reason st =
    record (fire_cutoffs s "off" (record st { last_trip = now; last_trip_reason = some reason })) {
      is_paused = true;
    }

-- The worse of two averages
pick : (Average → Average → Bool) → Option Average → Option Average → Option Average
pick beats none worst = worst
pick beats (some a) none = some a
pick beats (some a) (some worst) = if beats a worst then some a else some worst

worst_high : Option Average → Dict PowerBuffer → Option Average
unfolding pick above sensor_avg
worst_high worst [] = worst
worst_high worst ((key, buf) ∷ rest) = worst_high (pick above (sensor_avg buf) worst) rest

worst_low : PowerSettings → ℕ → Dict PowerBuffer → Option Average → Dict ℕ → Option Average
unfolding pick above sensor_avg or_no_readings
worst_low s now buffers worst [] = worst
worst_low s now buffers worst ((key, first) ∷ rest) =
    worst_low s now buffers
      (if ltb now (first + s.low_threshold_grace)
        then worst
        else pick (λ a b. above b a) (sensor_avg (or_no_readings (get buffers key))) worst)
      rest

holds_for : (Average → Bool) → Option Average → Bool
holds_for test none = false
holds_for test (some a) = test a

trip_if : PowerSettings → ℕ → TripReason → Bool → PowerState → PowerState × Bool
trip_if s now reason offends st =
    if offends && cooldown_clear s now st then (trip_power s now reason st, true) else (st, false)

trip_high_at : PowerSettings → ℕ → Option ℕ → PowerState → PowerState × Bool
unfolding trip_if holds_for worst_high at_least
trip_high_at s now none st = (st, false)
trip_high_at s now (some threshold) st =
    trip_if s now high (holds_for (λ a. at_least a threshold) (worst_high none st.power_buffer)) st

-- `_maybe_trip_high`
unfoldable pub maybe_trip_high : PowerSettings → ℕ → PowerState → PowerState × Bool
unfolding trip_high_at
maybe_trip_high s now st = trip_high_at s now s.high_threshold st

trip_low_at : PowerSettings → ℕ → Option ℕ → PowerState → PowerState × Bool
unfolding trip_if holds_for worst_low at_most
trip_low_at s now none st = (st, false)
trip_low_at s now (some threshold) st =
    trip_if s now low
      (s.dry_run
        && not (threshold == 0)
        && holds_for (λ a. at_most a threshold)
            (worst_low s now st.power_buffer none st.first_active))
      st

-- `_maybe_trip_low`
unfoldable pub maybe_trip_low : PowerSettings → ℕ → PowerState → PowerState × Bool
unfolding trip_low_at
maybe_trip_low s now st = trip_low_at s now s.low_threshold st

or_low : PowerSettings → ℕ → PowerState × Bool → PowerState
or_low s now (st, true) = st
or_low s now (st, false) = (maybe_trip_low s now st).0

-- `_maybe_trip`
unfoldable pub maybe_trip : PowerSettings → ℕ → PowerState → PowerState
unfolding or_low
maybe_trip s now st = or_low s now (maybe_trip_high s now st)

-- `master`
unfoldable pub power_master : PowerSettings → ℕ → PowerState → PowerState
power_master s now st = if st.is_paused then st else maybe_trip s now st

-- `resume`, of the base class
unfoldable pub power_resume : PowerSettings → ℕ → PowerState → PowerState
power_resume s now st = power_master s now (record st { is_paused = false })

-- `_recover`
unfoldable pub recover : PowerSettings → ℕ → PowerState → PowerState
recover s now st = power_resume s now (fire_cutoffs s "on" st)

old_enough : PowerSettings → ℕ → PowerBuffer → Bool
old_enough s now [] = true
old_enough s now ((t, watts) ∷ rest) = leb (t + s.auto_recovery_window) now

-- The loop of `_maybe_recover`: every buffer with readings is cool, and goes back far enough.
all_cool : PowerSettings → ℕ → ℕ → Dict PowerBuffer → Bool
unfolding old_enough holds_for sensor_avg at_least
all_cool s now threshold [] = true
all_cool s now threshold ((key, buf) ∷ rest) =
    not (holds_for (λ a. at_least a threshold) (sensor_avg buf))
    && old_enough s now buf
    && all_cool s now threshold rest

any_data : Dict PowerBuffer → Bool
any_data [] = false
any_data ((key, []) ∷ rest) = any_data rest
any_data ((key, x ∷ buf) ∷ rest) = true

was_high : Option TripReason → Bool
was_high (some high) = true
was_high _ = false

recover_at : PowerSettings → ℕ → Option ℕ → PowerState → PowerState
unfolding all_cool any_data was_high
recover_at s now none st = st
recover_at s now (some threshold) st =
    if was_high st.last_trip_reason
      && s.auto_recovery_enabled
      && all_cool s now threshold st.power_buffer
      && any_data st.power_buffer
    then recover s now st
    else st

-- `_maybe_recover`
unfoldable pub maybe_recover : PowerSettings → ℕ → PowerState → PowerState
unfolding recover_at
maybe_recover s now st = recover_at s now s.high_threshold st

trip_or_recover : PowerSettings → ℕ → PowerState → PowerState
trip_or_recover s now st = if st.is_paused then maybe_recover s now st else maybe_trip s now st

note_active : ℕ → String → ℕ → Option ℕ → PowerState → PowerState
note_active now key watts (some first) st = st
note_active now key watts none st =
    if ltb 0 watts then record st { first_active = put st.first_active key now } else st

-- `_on_power`, with what `float()` makes of the value, `none` where it raises
unfoldable pub on_power : PowerSettings → ℕ → String → Option ℕ → PowerState → PowerState
unfolding note_active trip_or_recover
on_power s now key none st = st
on_power s now key (some watts) st =
    trip_or_recover s now
      (note_active now key watts (get st.first_active key) (note_reading s now key watts st))

note_each : PowerSettings → ℕ → List (String × ℕ) → PowerState → PowerState
note_each s now [] st = st
note_each s now ((key, watts) ∷ rest) st = note_each s now rest (note_reading s now key watts st)

-- `_poll_tick`, with the sensors that have a reading
unfoldable pub poll_tick : PowerSettings → ℕ → List (String × ℕ) → PowerState → PowerState
unfolding note_each trip_or_recover
poll_tick s now readings st = trip_or_recover s now (note_each s now readings st)
