-- ===== src/Lighting/Timeout.antt =====
-- apps/advanced_motion_lighting/timeout.py: `_get_timeout_seconds`. A number of the settings is whole
-- and not negative.
use mobius_smart_home.Prelude.{
  ℕ, ◌*◌, ◌≡◌, String, Bool, true, false, ◌&&◌, ◌||◌, not, Option, none, some, Dict, get, ltb, max,
  str_eq, arith, if◌then◌else◌,
}

-- A `setting_path`: `noMotionTime`, or `modeTimeouts.<mode>`
pub data Field : Type 0 where
  default_field : Field
  mode_field : String → Field

-- A value of `modeTimeouts` may be None.
pub record TimeoutSettings : Type 0 where
  pub no_motion_time : ℕ
  pub in_minutes : Bool
  pub time_with_mode : Bool
  pub mode_timeouts : Dict (Option ℕ)
  pub bypass_timeout_floor : Bool

-- The floor of the system settings (`none` if the lookup raises or gives no number), and for which
-- fields `_has_setting_exception` holds.
pub record System : Type 0 where
  pub floor : Option ℕ
  pub has_setting_exception : Field → Bool

-- The entry of the current mode, if it is used: `none` where the mode has no key.
entry : TimeoutSettings → Option String → Option (Option ℕ)
entry s none = none
entry s (some mode) =
    if s.time_with_mode && not (str_eq mode "") then get s.mode_timeouts mode else none

value_of : Option (Option ℕ) → ℕ → ℕ
value_of none default = default
value_of (some none) default = default
value_of (some (some n)) default = n

path_of : Option (Option ℕ) → Option String → Field
path_of none mode = default_field
path_of (some v) none = default_field
path_of (some v) (some mode) = mode_field mode

clamp : Option ℕ → ℕ → ℕ
clamp none t = t
clamp (some f) t = if ltb 0 f && ltb t f then f else t

-- `_get_timeout_seconds`
unfoldable pub get_timeout_seconds : TimeoutSettings → System → Option String → ℕ
unfolding entry value_of path_of clamp
get_timeout_seconds s system mode =
    let found = entry s mode in
    let raw = value_of found s.no_motion_time in
    let t = if s.in_minutes then raw * 60 else raw in
    if system.has_setting_exception (path_of found mode) || s.bypass_timeout_floor
    then t
    else clamp system.floor t

abbrev pub in_unit : TimeoutSettings → ℕ → ℕ
in_unit s n = if s.in_minutes then n * 60 else n

-- With a floor and no bypass: in a mode with a timeout of its own, the timeout is that one, raised to
-- the floor unless this very field has an exception, whatever exception the default field has; with
-- timeouts by mode turned off, it is the default one, raised to the floor unless the default field
-- has an exception, whatever the exceptions of the modes.
get_timeout_seconds-floor :
    (s : TimeoutSettings) (system : System) (mode : String) (own floor : ℕ)
    → s.bypass_timeout_floor ≡ false
    → system.floor ≡ some floor
    → str_eq mode "" ≡ false
    → get s.mode_timeouts mode ≡ some (some own)
    → let with = get_timeout_seconds (record s { time_with_mode = true }) system (some mode) in
      let without = get_timeout_seconds (record s { time_with_mode = false }) system (some mode) in
      (with ≡ (
        if system.has_setting_exception (mode_field mode)
        then in_unit s own
        else max (in_unit s own) floor))
      × (without ≡ (
          if system.has_setting_exception default_field
          then in_unit s s.no_motion_time
          else max (in_unit s s.no_motion_time) floor))
unfolding get_timeout_seconds
get_timeout_seconds-floor s system mode own floor bound floored named found = ground arith
