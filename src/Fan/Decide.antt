-- ===== src/Fan/Decide.antt =====
-- apps/fan_automation/app.py: `_decide` and `_humidity_decision`.
use mobius_smart_home.Prelude.{
  ℕ, ◌+◌, ◌*◌, ◌/◌, ◌&&◌, Option, none, some, List, [], ◌∷◌, leb, ltb, max, min, if◌then◌else◌,
}
use mobius_smart_home.Fan.{
  second, Settings, Memo, Phase, high, quiet, ramp, Decision, hold, level_decision, clear_hum_phase,
  to_seconds, or_else,
}
use mobius_smart_home.Fan.Readings.{Readings, light_is_on, is_humid, has_sensors}

-- `max(1, int(high * rampStepPercent / 100))`
unfoldable pub ramp_step : Settings → ℕ
ramp_step s = max 1 (s.fan_when_humid * s.ramp_step_percent / 100)

unfoldable pub ramp_interval : Settings → ℕ
ramp_interval s = s.ramp_interval_minutes * 60 * second

unfoldable pub sustained : Settings → ℕ
sustained s = s.humidity_sustained_minutes * 60 * second

unfoldable pub quiet_hold : Settings → ℕ
quiet_hold s = to_seconds s.anti_noise_hold s.anti_noise_hold_unit

in_high : Settings → ℕ → Memo → Memo × Decision
in_high s now m =
    if ltb 0 s.humidity_sustained_minutes && leb (or_else m.phase_start now + sustained s) now
    then (
      record m { hum_phase = some quiet; phase_start = some now },
      level_decision s.anti_noise_level,
    )
    else (m, level_decision s.fan_when_humid)

in_quiet : Settings → ℕ → Memo → Memo × Decision
in_quiet s now m =
    if leb (or_else m.phase_start now + quiet_hold s) now
    then (
      record m {
        hum_phase = some ramp;
        ramp_level = some s.anti_noise_level;
        last_ramp = some now;
      },
      level_decision s.anti_noise_level,
    )
    else (m, level_decision s.anti_noise_level)

in_ramp : Settings → ℕ → Memo → Memo × Decision
in_ramp s now m =
    let rl = or_else m.ramp_level s.anti_noise_level in
    let next = min s.fan_when_humid (rl + ramp_step s) in
    if ltb rl s.fan_when_humid && leb (or_else m.last_ramp now + ramp_interval s) now
    then (record m { ramp_level = some next; last_ramp = some now }, level_decision next)
    else (m, level_decision rl)

in_phase : Option Phase → Settings → ℕ → Memo → Memo × Decision
unfolding in_high in_quiet in_ramp
in_phase none s now m = in_high s now (record m { hum_phase = some high; phase_start = some now })
in_phase (some high) s now m = in_high s now m
in_phase (some quiet) s now m = in_quiet s now m
in_phase (some ramp) s now m = in_ramp s now m

-- `_humidity_decision`
unfoldable pub humidity_decision : Settings → ℕ → Memo → Memo × Decision
unfolding in_phase
humidity_decision s now m = in_phase m.hum_phase s now (record m { offdelay_until = none })

run_out : Option ℕ → Settings → ℕ → Memo → Memo × Decision
run_out none s now m = (
  record m {
    offdelay_until = some (now + to_seconds s.run_after_light_off s.run_after_light_off_unit);
  },
  hold,
)
run_out (some until) s now m =
    if ltb now until
    then (m, hold)
    else (record m { offdelay_until = none }, level_decision s.fan_when_light_off)

-- The third part of `_decide`: the light is off and the air is not humid.
unfoldable pub dry_decision : Settings → ℕ → Memo → Memo × Decision
unfolding run_out clear_hum_phase
dry_decision s now m = run_out m.offdelay_until s now (clear_hum_phase m)

-- `_decide`
unfoldable pub decide : Settings → Readings → ℕ → Memo → Memo × Decision
unfolding clear_hum_phase
decide s r now m =
    if light_is_on r
    then (record (clear_hum_phase m) { offdelay_until = none }, level_decision s.fan_when_light_on)
    else let (m', humid) = is_humid s r m in
      if humid && has_sensors r then humidity_decision s now m' else dry_decision s now m'

-- Polls at these times, with the readings of each.
unfoldable pub decide_all : Settings → List (ℕ × Readings) → Memo → Memo × List Decision
decide_all s [] m = (m, [])
decide_all s ((now, r) ∷ rest) m =
    let (m', d) = decide s r now m in let (m'', ds) = decide_all s rest m' in (m'', d ∷ ds)

-- The same while the light is off and the air humid.
unfoldable pub humid_all : Settings → List ℕ → Memo → Memo × List Decision
humid_all s [] m = (m, [])
humid_all s (now ∷ rest) m =
    let (m', d) = humidity_decision s now m in let (m'', ds) = humid_all s rest m' in (m'', d ∷ ds)

-- The same while the light is off and the air dry.
unfoldable pub dry_all : Settings → List ℕ → Memo → Memo × List Decision
dry_all s [] m = (m, [])
dry_all s (now ∷ rest) m =
    let (m', d) = dry_decision s now m in let (m'', ds) = dry_all s rest m' in (m'', d ∷ ds)
