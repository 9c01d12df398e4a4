-- ===== src/Fan/Ramp.antt =====
-- apps/fan_automation/app.py: the ramp climbs by equal steps to the high speed.
use mobius_smart_home.Prelude.{
  ℕ, suc, ◌+◌, ◌*◌, ◌≤◌, ◌<◌, ◌≡◌, some, List, [], ◌∷◌, length, arith, min, Bool-cases, inl, inr,
  ltb, ltb→lt, ◌∙◌,
}
use mobius_smart_home.Fan.{Settings, Memo, ramp, level_decision, or_else}
use mobius_smart_home.Fan.Decide.{humidity_decision, ramp_step, ramp_interval, humid_all}

-- Each time is at least `interval` after the one before it, the first after `last`.
abbrev pub Paced : ℕ → ℕ → List ℕ → Type 0
Paced interval last [] = Unit
Paced interval last (now ∷ rest) = (last + interval ≤ now) × Paced interval now rest

min_step : (h l d n : ℕ) → min h (min h (l + d) + n * d) ≡ min h (l + suc n * d)
min_step h l d n = omega arith

min_full : (h l k : ℕ) → l ≡ h → h ≡ min h (l + k)
min_full h l k e = omega arith

min_reached : (h l n d : ℕ) → 0 < d → h ≤ l + n → min h (l + n * d) ≡ h
min_reached h l n d pos enough = omega (arith, le_times n d pos)
  where
    le_times : (a b : ℕ) → 0 < b → a ≤ a * b
    le_times a b p = grind arith

ramp_step-pos : (s : Settings) → 0 < ramp_step s
unfolding ramp_step
ramp_step-pos s = omega arith

module _ (s : Settings) where
  ramp_one :
      (now last level : ℕ) (m : Memo)
      → m.hum_phase ≡ some ramp
      → or_else m.ramp_level s.anti_noise_level ≡ level
      → m.last_ramp ≡ some last
      → 0 < last
      → level < s.fan_when_humid
      → last + ramp_interval s ≤ now
      → let (m', d) = humidity_decision s now m in
        let next = min s.fan_when_humid (level + ramp_step s) in
        (d ≡ level_decision next)
        × (m'.hum_phase ≡ some ramp)
        × (or_else m'.ramp_level s.anti_noise_level ≡ next)
        × (m'.last_ramp ≡ some now)
  unfolding humidity_decision ramp_step
  ramp_one now last level m p l t pos below due = ground arith

  ramp_top :
      (now : ℕ) (m : Memo)
      → m.hum_phase ≡ some ramp
      → or_else m.ramp_level s.anti_noise_level ≡ s.fan_when_humid
      → let (m', d) = humidity_decision s now m in
        (d ≡ level_decision s.fan_when_humid)
        × (m'.hum_phase ≡ some ramp)
        × (or_else m'.ramp_level s.anti_noise_level ≡ s.fan_when_humid)
  unfolding humidity_decision
  ramp_top now m p l = ground arith

  ramp_stays :
      (times : List ℕ) (m : Memo)
      → m.hum_phase ≡ some ramp
      → or_else m.ramp_level s.anti_noise_level ≡ s.fan_when_humid
      → let m' = (humid_all s times m).0 in
        (m'.hum_phase ≡ some ramp) × (or_else m'.ramp_level s.anti_noise_level ≡ s.fan_when_humid)
  unfolding humid_all
  ramp_stays [] m p l = (p, l)
  ramp_stays (now ∷ rest) m p l =
      let (d, p', l') = ramp_top now m p l in ramp_stays rest (humidity_decision s now m).0 p' l'

  -- A ramp that stands at `level`, at most the high speed, and is polled at intervals no shorter than
  -- the ramp interval while the air stays humid, stands after n polls at `level` + n steps, or at the
  -- high speed if that is less.
  ramp_climbs :
      (times : List ℕ) (last level : ℕ) (m : Memo)
      → m.hum_phase ≡ some ramp
      → or_else m.ramp_level s.anti_noise_level ≡ level
      → m.last_ramp ≡ some last
      → 0 < last
      → level ≤ s.fan_when_humid
      → Paced (ramp_interval s) last times
      → let m' = (humid_all s times m).0 in
        (m'.hum_phase ≡ some ramp)
        × (or_else m'.ramp_level s.anti_noise_level
            ≡ min s.fan_when_humid (level + length times * ramp_step s))
  unfolding humid_all
  ramp_climbs [] last level m p l t pos below paced = (p, omega arith)
  ramp_climbs (now ∷ rest) last level m p l t pos below paced =
      elim (Bool-cases (ltb level s.fan_when_humid)) [
        | inl room ↦
            let (d, p', l', t') = ramp_one now last level m p l t pos (ltb→lt _ _ room) paced.0 in
            let (p'', l'') =
              ramp_climbs rest now _ (humidity_decision s now m).0 p' l' t' (omega (arith, paced.0))
                (omega arith) paced.1 in
            (p'', l'' ∙ min_step s.fan_when_humid level (ramp_step s) (length rest))
        | inr top ↦
            let full : level ≡ s.fan_when_humid = ground arith in
            let (p', l') = ramp_stays (now ∷ rest) m p (l ∙ full) in
            (p', l' ∙ min_full s.fan_when_humid level (suc (length rest) * ramp_step s) full)
      ]

  -- A ramp at `level`, at most the high speed, is at the high speed after as many polls, at intervals
  -- no shorter than the ramp interval and with the air humid, as there are units between the two
  -- levels: the next poll, at any time, asks for the high speed.
  pub ramp_reaches_high :
      (times : List ℕ) (now last level : ℕ) (m : Memo)
      → m.hum_phase ≡ some ramp
      → or_else m.ramp_level s.anti_noise_level ≡ level
      → m.last_ramp ≡ some last
      → 0 < last
      → level ≤ s.fan_when_humid
      → Paced (ramp_interval s) last times
      → s.fan_when_humid ≤ level + length times
      → (humidity_decision s now (humid_all s times m).0).1 ≡ level_decision s.fan_when_humid
  ramp_reaches_high times now last level m p l t pos below paced enough =
      let (p', l') = ramp_climbs times last level m p l t pos below paced in
      (ramp_top now (humid_all s times m).0 p' (
        l'
        ∙ min_reached s.fan_when_humid level (length times) (ramp_step s) (ramp_step-pos s)
            enough)).0
