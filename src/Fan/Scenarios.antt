-- ===== src/Fan/Scenarios.antt =====
-- apps/fan_automation/app.py: the theorems at a concrete bathroom, and tests.
use mobius_smart_home.Prelude.{◌*◌, ◌≡◌, refl, true, false, none, some, [], ◌∷◌, All, str_eq, arith}
use mobius_smart_home.Fan.{
  second, to_seconds, minutes, Settings, Memo, quiet, ramp, turn_on, level_decision,
}
use mobius_smart_home.Fan.Readings.{
  Readings, light_is_on, is_humid, humidity_now, latch, has_sensors,
}
use mobius_smart_home.Fan.Decide.{
  decide, decide_all, humidity_decision, sustained, quiet_hold, ramp_interval,
}
use mobius_smart_home.Fan.Humid.{DarkAt, high_then_quiet}
use mobius_smart_home.Fan.Runout.{run_out_time}
use mobius_smart_home.Fan.Tokens.{on_level, FanEvent}
use mobius_smart_home.Fan.Apply.{app, FanApp, Fans, Moment}

-- High for 10 minutes, quiet for 5, then 10 units more every 2 minutes; a run-out of 5 minutes.
abbrev bathroom : Settings
bathroom = record {
  fan_when_light_on = 40;
  fan_when_light_off = 0;
  run_after_light_off = 5;
  run_after_light_off_unit = minutes;
  humidity_threshold = 65;
  humidity_offset = 5;
  fan_when_humid = 100;
  humidity_sustained_minutes = 10;
  anti_noise_level = 30;
  anti_noise_hold = 5;
  anti_noise_hold_unit = minutes;
  ramp_step_percent = 10;
  ramp_interval_minutes = 2;
}

abbrev fresh : Memo
fresh = record {
  hum_phase = none;
  phase_start = none;
  ramp_level = none;
  last_ramp = none;
  offdelay_until = none;
  humid_latched = false;
}

abbrev quieted : Memo
quieted = record fresh { hum_phase = some quiet; phase_start = some second }

abbrev ramping : Memo
ramping = record fresh { hum_phase = some ramp; ramp_level = some 30; last_ramp = some second }

abbrev lit : Readings
lit = record { lights = some "on" ∷ []; humidity = some 50 ∷ [] }

ten_minutes : sustained bathroom ≡ 600 * second
unfolding sustained
ten_minutes = refl

hold_minutes : quiet_hold bathroom ≡ 300 * second
unfolding quiet_hold to_seconds
hold_minutes = refl

run_out_minutes : run_out_time bathroom ≡ 300 * second
unfolding to_seconds
run_out_minutes = refl

two_minutes : ramp_interval bathroom ≡ 120 * second
unfolding ramp_interval
two_minutes = refl

humid_decision :
    (decide bathroom (record { lights = []; humidity = none ∷ some 70 ∷ [] }) second fresh).1
    ≡ turn_on 100
unfolding decide is_humid light_is_on humidity_now latch humidity_decision level_decision
    has_sensors sustained
humid_decision = refl

abbrev damp : Readings
damp = record { lights = some "off" ∷ []; humidity = none ∷ some 70 ∷ [] }

abbrev drier : Readings
drier = record { lights = []; humidity = some 61 ∷ [] }

damp_dark : DarkAt 70 damp
unfolding light_is_on has_sensors humidity_now
damp_dark = (refl, refl, refl)

drier_dark : DarkAt 61 drier
unfolding light_is_on has_sensors humidity_now
drier_dark = (refl, refl, refl)

high_then_quiet_example :
    let (m', ds) =
      decide_all bathroom
        ((second, damp) ∷ (31 * second, drier) ∷ (600 * second, damp) ∷ [])
        fresh in
    let (m'', d) = decide bathroom drier (601 * second) m' in
    All (λ x. x ≡ level_decision 100) ds
    × (d ≡ level_decision 30)
    × (m''.hum_phase ≡ some quiet)
    × (m''.phase_start ≡ some (601 * second))
high_then_quiet_example =
    high_then_quiet bathroom second 70 damp ((31 * second, drier) ∷ (600 * second, damp) ∷ [])
      (601 * second) drier fresh (omega arith) (omega arith) refl damp_dark (omega arith)
      (
        (omega (arith, ten_minutes), (61, drier_dark, omega arith)),
        ((omega (arith, ten_minutes), (70, damp_dark, omega arith)), tt),
      )
      (61, drier_dark, omega arith) (omega (arith, ten_minutes))

lit_on : light_is_on lit ≡ true
unfolding light_is_on
lit_on = refl

abbrev two_fans : Fans
two_fans = record {
  fans = "21" ∷ "22" ∷ [];
  supports_level = λ fan. str_eq fan "21";
  verified = λ _ _ _. true;
}

-- The app has asked fan 21 for level 40.
abbrev bath_app : FanApp
bath_app = record {
  is_paused = false;
  memo = fresh;
  last_mode = none;
  switch_state = ("21", record { is_on = true; source = app }) ∷ [];
  expected = ("21", on_level 40) ∷ [];
  last_apply = [];
  sent = [];
  overrides = [];
}

abbrev at_one : Moment
at_one = record { wall = second; monotonic = second; readings = lit }

abbrev went_off : FanEvent
went_off = record {
  device_id = "21";
  name = "switch";
  value = "off";
  as_float = none;
  as_int = none;
}

abbrev slower : FanEvent
slower = record {
  device_id = "21";
  name = "level";
  value = "20";
  as_float = some 20;
  as_int = some 20;
}
