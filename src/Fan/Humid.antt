-- ===== src/Fan/Humid.antt =====
-- apps/fan_automation/app.py: how long the HIGH and QUIET phases last.
use mobius_smart_home.Prelude.{
  ℕ, ◌+◌, ◌≤◌, ◌<◌, ◌≡◌, refl, ap, ◌∙◌, Bool, true, false, none, some, List, [], ◌∷◌, All, arith,
}
use mobius_smart_home.Fan.{Settings, Memo, high, quiet, ramp, level_decision}
use mobius_smart_home.Fan.Decide.{
  humidity_decision, decide, decide_all, sustained, quiet_hold, humid_all,
}
use mobius_smart_home.Fan.Readings.{
  Readings, light_is_on, humidity_now, latch, is_humid, has_sensors,
}

-- A phase is running since a moment after the clock's zero.
record Running (m : Memo) (start : ℕ) : Type 0 where
  positive : 0 < start
  started : m.phase_start ≡ some start

-- The light is off, and the largest humidity reading is `h`.
abbrev pub DarkAt : ℕ → Readings → Type 0
DarkAt h r = (light_is_on r ≡ false) × (has_sensors r ≡ true) × (humidity_now r.humidity ≡ some h)

module _ (s : Settings) where
  stay_high :
      (now start : ℕ) (m : Memo)
      → m.hum_phase ≡ some high
      → Running m start
      → now < start + sustained s
      → let (m', d) = humidity_decision s now m in
        (d ≡ level_decision s.fan_when_humid) × (m'.hum_phase ≡ some high) × Running m' start
  unfolding humidity_decision
  stay_high now start m p r h = ground arith

  enter_high :
      (now : ℕ) (m : Memo)
      → 0 < now
      → 0 < s.humidity_sustained_minutes
      → m.hum_phase ≡ none
      → let (m', d) = humidity_decision s now m in
        (d ≡ level_decision s.fan_when_humid) × (m'.hum_phase ≡ some high) × Running m' now
  unfolding humidity_decision sustained
  enter_high now m pos lasting p = ground arith

  leave_high :
      (now start : ℕ) (m : Memo)
      → 0 < s.humidity_sustained_minutes
      → m.hum_phase ≡ some high
      → Running m start
      → start + sustained s ≤ now
      → let (m', d) = humidity_decision s now m in
        (d ≡ level_decision s.anti_noise_level) × (m'.hum_phase ≡ some quiet) × Running m' now
  unfolding humidity_decision
  leave_high now start m lasting p r h = ground arith

  decide-humid :
      (r : Readings) (h now : ℕ) (m : Memo)
      → DarkAt h r
      → latch s h m.humid_latched ≡ true
      → decide s r now m ≡ humidity_decision s now (record m { humid_latched = true })
  unfolding decide is_humid
  decide-humid r h now m (dark, sensors, reading) latched =
      rw (dark, reading, latched, sensors) refl

  humidity_decision-latched :
      (now : ℕ) (m : Memo) → (humidity_decision s now m).0.humid_latched ≡ m.humid_latched
  unfolding humidity_decision
  humidity_decision-latched now m = ground arith

  stay_humid : (h : ℕ) → s.humidity_threshold ≤ h + s.humidity_offset → latch s h true ≡ true
  unfolding latch
  stay_humid h enough = ground arith

  turn_humid : (h : ℕ) (b : Bool) → s.humidity_threshold ≤ h → latch s h b ≡ true
  unfolding latch
  turn_humid h b enough = ground arith

  -- A poll with the light off, at which the humidity has not fallen below the threshold by more than the
  -- offset
  abbrev pub StillHumid : Readings → Type 0
  StillHumid r = (h : ℕ) × DarkAt h r × (s.humidity_threshold ≤ h + s.humidity_offset)

  -- High since `start`, and latched
  record High (m : Memo) (start : ℕ) : Type 0 where
    phase : m.hum_phase ≡ some high
    running : Running m start
    latched : m.humid_latched ≡ true

  poll-High :
      (now start : ℕ) (r : Readings) (m : Memo)
      → High m start
      → StillHumid r
      → now < start + sustained s
      → let (m', d) = decide s r now m in (d ≡ level_decision s.fan_when_humid) × High m' start
  poll-High now start r m high_now (h, dark, enough) before =
      let m' : Memo = record m { humid_latched = true } in
      let (d, p, running) =
        stay_high now start m' high_now.phase
          (record { positive = high_now.running.positive; started = high_now.running.started })
          before in
      rw (decide-humid r h now m dark (ap (latch s h) high_now.latched ∙ stay_humid h enough))
        (d, record { phase = p; running = running; latched = humidity_decision-latched now m' })

  polls-High :
      (polls : List (ℕ × Readings)) (start : ℕ) (m : Memo)
      → High m start
      → All (λ p. (p.0 < start + sustained s) × StillHumid p.1) polls
      → let (m', ds) = decide_all s polls m in
        All (λ d. d ≡ level_decision s.fan_when_humid) ds × High m' start
  unfolding decide_all
  polls-High [] start m high_now humid = (tt, high_now)
  polls-High ((now, r) ∷ rest) start m high_now ((before, still), humid) =
      let (d, high_then) = poll-High now start r m high_now still before in
      let (ds, high_last) = polls-High rest start (decide s r now m).0 high_then humid in
      ((d, ds), high_last)

  -- The light stays off, and no phase runs. Air that reaches the humidity threshold at the poll at `start`,
  -- and does not fall below it by more than the offset, with a sustained time above 0: every poll before
  -- `start` + the sustained time, however many there are, asks for the high speed; the first poll after it,
  -- whenever it comes, asks for the quiet level and starts the quiet phase.
  pub high_then_quiet :
      (start h : ℕ) (r : Readings) (polls : List (ℕ × Readings)) (now : ℕ) (last : Readings)
      (m : Memo)
      → 0 < start
      → 0 < s.humidity_sustained_minutes
      → m.hum_phase ≡ none
      → DarkAt h r
      → s.humidity_threshold ≤ h
      → All (λ p. (p.0 < start + sustained s) × StillHumid p.1) polls
      → StillHumid last
      → start + sustained s ≤ now
      → let (m', ds) = decide_all s ((start, r) ∷ polls) m in
        let (m'', d) = decide s last now m' in
        All (λ x. x ≡ level_decision s.fan_when_humid) ds
        × (d ≡ level_decision s.anti_noise_level)
        × (m''.hum_phase ≡ some quiet)
        × (m''.phase_start ≡ some now)
  unfolding decide_all
  high_then_quiet start h r polls now last m pos lasting p dark humid stays (h', dark', enough)
        after =
      let m0 : Memo = record m { humid_latched = true } in
      let (d, p', running) = enter_high start m0 pos lasting p in
      let first : High (humidity_decision s start m0).0 start = record {
        phase = p';
        running = running;
        latched = humidity_decision-latched start m0;
      } in
      let (ds, high_last) = polls-High polls start (humidity_decision s start m0).0 first stays in
      let m1 = (decide_all s polls (humidity_decision s start m0).0).0 in
      let (q, p3, r3) =
        leave_high now start (record m1 { humid_latched = true }) lasting high_last.phase
          (record { positive = pos; started = high_last.running.started }) after in
      rw
        (
          decide-humid r h start m dark (turn_humid h m.humid_latched humid),
          decide-humid last h' now m1 dark'
              (ap (latch s h') high_last.latched ∙ stay_humid h' enough),
        )
        ((d, ds), q, p3, r3.started)

  stay_quiet :
      (now start : ℕ) (m : Memo)
      → m.hum_phase ≡ some quiet
      → Running m start
      → now < start + quiet_hold s
      → let (m', d) = humidity_decision s now m in
        (d ≡ level_decision s.anti_noise_level) × (m'.hum_phase ≡ some quiet) × Running m' start
  unfolding humidity_decision
  stay_quiet now start m p r h = ground arith

  quiet_each :
      (times : List ℕ) (start : ℕ) (m : Memo)
      → m.hum_phase ≡ some quiet
      → Running m start
      → All (λ now. now < start + quiet_hold s) times
      → let (m', ds) = humid_all s times m in
        All (λ d. d ≡ level_decision s.anti_noise_level) ds
        × (m'.hum_phase ≡ some quiet)
        × Running m' start
  unfolding humid_all
  quiet_each [] start m p r h = (tt, p, r)
  quiet_each (now ∷ rest) start m p r h =
      let (d, p', r') = stay_quiet now start m p r h.0 in
      let (ds, p'', r'') = quiet_each rest start (humidity_decision s now m).0 p' r' h.1 in
      ((d, ds), p'', r'')

  leave_quiet :
      (now start : ℕ) (m : Memo)
      → m.hum_phase ≡ some quiet
      → Running m start
      → start + quiet_hold s ≤ now
      → let (m', d) = humidity_decision s now m in
        (d ≡ level_decision s.anti_noise_level)
        × (m'.hum_phase ≡ some ramp)
        × (m'.ramp_level ≡ some s.anti_noise_level)
        × (m'.last_ramp ≡ some now)
  unfolding humidity_decision
  leave_quiet now start m p r h = ground arith

  -- The quiet phase that began at `start`, while the air stays humid: every poll before the hold is
  -- over asks for the quiet level, and the first one after it starts the ramp from that level.
  quiet_then_ramp :
      (start : ℕ) (times : List ℕ) (now : ℕ) (m : Memo)
      → 0 < start
      → m.hum_phase ≡ some quiet
      → m.phase_start ≡ some start
      → All (λ t. t < start + quiet_hold s) times
      → start + quiet_hold s ≤ now
      → let (m', ds) = humid_all s times m in
        let (m'', d) = humidity_decision s now m' in
        All (λ x. x ≡ level_decision s.anti_noise_level) ds
        × (d ≡ level_decision s.anti_noise_level)
        × (m''.hum_phase ≡ some ramp)
        × (m''.ramp_level ≡ some s.anti_noise_level)
        × (m''.last_ramp ≡ some now)
  quiet_then_ramp start times now m pos p started before after =
      let (ds, p', r') =
        quiet_each times start m p (record { positive = pos; started = started }) before in
      let (d, p'', level, since) = leave_quiet now start _ p' r' after in (ds, d, p'', level, since)
