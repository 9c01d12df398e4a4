-- ===== src/Fan.antt =====
-- apps/fan_automation/app.py: the fan app's settings, memo and decision. The theorems are in the
-- modules below. Numbers are those that the settings schema admits (whole, not negative); a time is a
-- clock reading in microseconds, and a difference `now - t >= d` is written `t + d <= now`.
pub mod Readings
pub mod Decide
pub mod Humid
pub mod Ramp
pub mod Runout
pub mod Bounds
pub mod Tokens
pub mod Apply
pub mod Manual
pub mod Release
pub mod Echo
mod Scenarios
use mobius_smart_home.Prelude.{ℕ, suc, zero, ◌*◌, String, Bool, Option, none, some, Dict}

abbrev pub second : ℕ
second = 1000000

-- What `_to_seconds` tells apart: a unit that begins with "hour", with "min", or another.
pub data TimeUnit : Type 0 where
  hours minutes seconds : TimeUnit

-- `_to_seconds`, in microseconds
unfoldable pub to_seconds : ℕ → TimeUnit → ℕ
to_seconds n hours = n * 3600 * second
to_seconds n minutes = n * 60 * second
to_seconds n seconds = n * second

-- The settings of `get_settings_schema`, with the defaults filled in.
pub record Settings : Type 0 where
  pub fan_when_light_on : ℕ
  pub fan_when_light_off : ℕ
  pub run_after_light_off : ℕ
  pub run_after_light_off_unit : TimeUnit
  pub humidity_threshold : ℕ
  pub humidity_offset : ℕ
  pub fan_when_humid : ℕ
  pub humidity_sustained_minutes : ℕ
  pub anti_noise_level : ℕ
  pub anti_noise_hold : ℕ
  pub anti_noise_hold_unit : TimeUnit
  pub ramp_step_percent : ℕ
  pub ramp_interval_minutes : ℕ

-- A memo value that is none of the three counts as no phase.
pub data Phase : Type 0 where
  high quiet ramp : Phase

pub record Memo : Type 0 where
  pub hum_phase : Option Phase
  pub phase_start : Option ℕ
  pub ramp_level : Option ℕ
  pub last_ramp : Option ℕ
  pub offdelay_until : Option ℕ
  pub humid_latched : Bool

-- `{action, level, expected}`; the level of `turn_on` is the one of the token `on:<level>`.
pub data Decision : Type 0 where
  hold : Decision
  turn_off : Decision
  turn_on : ℕ → Decision

-- `_level_decision`
unfoldable pub level_decision : ℕ → Decision
level_decision zero = turn_off
level_decision (suc n) = turn_on (suc n)

-- `_clear_hum_phase`
unfoldable pub clear_hum_phase : Memo → Memo
clear_hum_phase m = record m {
  hum_phase = none;
  phase_start = none;
  ramp_level = none;
  last_ramp = none;
}

-- Python's `memo or default`: also 0 gives the default.
abbrev pub or_else : Option ℕ → ℕ → ℕ
or_else none d = d
or_else (some zero) d = d
or_else (some (suc n)) d = suc n
