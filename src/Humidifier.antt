-- ===== src/Humidifier.antt =====
-- apps/humidifier/app.py: the humidifier of a room. Times are in seconds, and readings of humidity in
-- hundredths of a percent: they have two decimals at most.
pub mod Reasons
pub mod Commands
pub mod Warnings
mod Scenarios
use mobius_smart_home.Prelude.{
  ℕ, ◌+◌, ◌*◌, ◌/◌, suc, String, Bool, true, false, ◌&&◌, ◌||◌, not, Option, none, some, List, [],
  ◌∷◌, ◌++◌, any, is_in, leb, ltb, max, str_eq, if◌then◌else◌,
}

pub record HumidifierSettings : Type 0 where
  pub humidifier_switches : List String
  pub restricted_modes : List String
  pub off_in_restricted_mode : Bool
  pub humidity_threshold : ℕ
  pub no_motion_time : ℕ

-- The last event of a motion sensor, in lower case, and its time, `none` where there is none or the
-- text is no time
pub record LastMotion : Type 0 where
  pub value : Option String
  pub received_at : Option ℕ

-- A command: the device, and "on" or "off"
abbrev pub Order : Type 0
Order = String × String

-- What a run of `master` reads: the pause flag, the mode of the house, what `float()` makes of each
-- humidity sensor (`none` where there is no number, 0 for less), the motion sensors, the contacts, the
-- two clocks, and `get_switch_state`, which may depend on the commands sent before.
pub record Room : Type 0 where
  pub is_paused : Bool
  pub mode : Option String
  pub humidity : List (Option ℕ)
  pub motion : List LastMotion
  pub contacts : List (Option String)
  pub now : ℕ
  pub monotonic : ℕ
  pub get_switch_state : List Order → String → Option String

-- `warnings` counts those of a missing reading.
pub record HumidifierState : Type 0 where
  pub last_no_reading_warn : Option ℕ
  pub warnings : ℕ
  pub sent : List Order

warned_lately : Option ℕ → ℕ → Bool
warned_lately none now = false
warned_lately (some last) now = ltb now (last + 3600)

-- `_warn_no_reading`
unfoldable pub warn_no_reading : ℕ → HumidifierState → HumidifierState
unfolding warned_lately
warn_no_reading now st =
    if warned_lately st.last_no_reading_warn now
    then st
    else record st { last_no_reading_warn = some now; warnings = suc st.warnings }

-- `max(usable, default=0)`: only readings above 0 are usable.
unfoldable pub highest : List (Option ℕ) → ℕ
highest [] = 0
highest (none ∷ rest) = highest rest
highest (some v ∷ rest) = max v (highest rest)

-- `_humidity_now`
unfoldable pub humidity_now : Room → HumidifierState → HumidifierState × ℕ
humidity_now r st =
    if ltb 0 (highest r.humidity)
    then (st, highest r.humidity / 100)
    else (warn_no_reading r.monotonic st, 40)

reads_active : LastMotion → Bool
reads_active m = elim m.value [ none ↦ false | some v ↦ str_eq v "active" ]

later : Option ℕ → Option ℕ → Option ℕ
later none b = b
later (some a) none = some a
later (some a) (some b) = some (max a b)

newest : List LastMotion → Option ℕ
unfolding later
newest [] = none
newest (m ∷ rest) = later m.received_at (newest rest)

within : Option ℕ → ℕ → ℕ → Bool
within none timeout now = true
within (some t) timeout now = ltb now (t + timeout)

-- `_motion_is_active`
unfoldable pub motion_is_active : HumidifierSettings → Room → Bool
unfolding reads_active newest within
motion_is_active s r = elim r.motion [
  | [] ↦ true
  | m ∷ rest ↦ any reads_active r.motion || within (newest r.motion) (s.no_motion_time * 60) r.now
]

is_open : Option String → Bool
is_open none = false
is_open (some v) = str_eq v "open"

-- `_any_contact_open`
unfoldable pub any_contact_open : Room → Bool
unfolding is_open
any_contact_open r = any is_open r.contacts

pub reads_as : Option String → String → Bool
reads_as none target = false
reads_as (some v) target = str_eq v target

-- One round of `_apply`; its result goes to the log only.
unfoldable pub apply_one : Room → String → String → HumidifierState → HumidifierState
unfolding reads_as
apply_one r target device st =
    if reads_as (r.get_switch_state st.sent device) target
    then st
    else record st { sent = st.sent ++ (device, target) ∷ [] }

-- `_apply`
unfoldable pub apply : Room → String → List String → HumidifierState → HumidifierState
apply r target [] st = st
apply r target (device ∷ rest) st = apply r target rest (apply_one r target device st)

unfoldable pub in_restricted_mode : HumidifierSettings → Room → Bool
in_restricted_mode s r = elim r.mode [
  | none ↦ false
  | some mode ↦ if str_eq mode "" then false else is_in mode s.restricted_modes
]

-- `master`
unfoldable pub master : HumidifierSettings → Room → HumidifierState → HumidifierState
master s r st =
    let (st', humidity) = humidity_now r st in
    let stops =
      leb s.humidity_threshold humidity || not (motion_is_active s r) || any_contact_open r in
    if r.is_paused
    then st
    else if in_restricted_mode s r
    then (if s.off_in_restricted_mode then apply r "off" s.humidifier_switches st else st)
    else if stops
    then apply r "off" s.humidifier_switches st'
    else apply r "on" s.humidifier_switches st'

-- `on_event` and `on_mode_change` end in it, and the scheduler calls it every minute.
unfoldable pub master_all : HumidifierSettings → List Room → HumidifierState → HumidifierState
master_all s [] st = st
master_all s (r ∷ rs) st = master_all s rs (master s r st)
