-- ===== src/Fan/Bounds.antt =====
-- apps/fan_automation/app.py: the levels that the app ever asks for.
use mobius_smart_home.Prelude.{ℕ, zero, suc, ◌+◌, ◌≤◌, ◌≡◌, refl, List, [], ◌∷◌, All, arith, min}
use mobius_smart_home.Fan.{
  Settings, Memo, Decision, hold, turn_off, turn_on, level_decision, or_else,
}
use mobius_smart_home.Fan.Readings.{Readings, is_humid}
use mobius_smart_home.Fan.Decide.{decide, decide_all, humidity_decision, dry_decision, ramp_step}

-- The four levels of the settings are at most `cap`.
pub record Capped (s : Settings) (cap : ℕ) : Type 0 where
  pub light_on : s.fan_when_light_on ≤ cap
  pub light_off : s.fan_when_light_off ≤ cap
  pub humid : s.fan_when_humid ≤ cap
  pub anti_noise : s.anti_noise_level ≤ cap

-- The level that a decision asks for; a decision to hold or to turn off asks for none.
abbrev pub asked : Decision → ℕ
asked hold = 0
asked turn_off = 0
asked (turn_on level) = level

asked-level_decision : (level : ℕ) → asked (level_decision level) ≡ level
unfolding level_decision
asked-level_decision zero = refl
asked-level_decision (suc level) = refl

abbrev pub ramp_of : Memo → ℕ
ramp_of m = or_else m.ramp_level 0

module _ (s : Settings) (cap : ℕ) (capped : Capped s cap) where
  humidity_decision-capped :
      (now : ℕ) (m : Memo)
      → ramp_of m ≤ cap
      → let (m', d) = humidity_decision s now m in (asked d ≤ cap) × (ramp_of m' ≤ cap)
  unfolding humidity_decision
  humidity_decision-capped now m h = ground (
    arith,
    capped,
    asked-level_decision s.fan_when_humid,
    asked-level_decision s.anti_noise_level,
    asked-level_decision (or_else m.ramp_level s.anti_noise_level),
    asked-level_decision
        (min s.fan_when_humid (or_else m.ramp_level s.anti_noise_level + ramp_step s)),
  )

  dry_decision-capped :
      (now : ℕ) (m : Memo)
      → let (m', d) = dry_decision s now m in (asked d ≤ cap) × (ramp_of m' ≤ cap)
  unfolding dry_decision
  dry_decision-capped now m = ground (arith, capped, asked-level_decision s.fan_when_light_off)

  ramp_of-is_humid : (r : Readings) (m : Memo) → ramp_of (is_humid s r m).0 ≡ ramp_of m
  unfolding is_humid
  ramp_of-is_humid r m = ground arith

  decide-capped :
      (r : Readings) (now : ℕ) (m : Memo)
      → ramp_of m ≤ cap
      → let (m', d) = decide s r now m in (asked d ≤ cap) × (ramp_of m' ≤ cap)
  unfolding decide
  decide-capped r now m h =
      let m' = (is_humid s r m).0 in
      let kept : ramp_of m' ≤ cap = rw (ramp_of-is_humid r m) h in
      ground (
        arith,
        capped,
        asked-level_decision s.fan_when_light_on,
        humidity_decision-capped now m' kept,
        dry_decision-capped now m',
      )

  -- With every level of the settings at most `cap`, no decision of any sequence of polls, whatever the
  -- readings and the times, asks for a level above `cap`, from any memo whose ramp level is not.
  decide_all-capped :
      (polls : List (ℕ × Readings)) (m : Memo)
      → ramp_of m ≤ cap
      → All (λ d. asked d ≤ cap) (decide_all s polls m).1
  unfolding decide_all
  decide_all-capped [] m h = tt
  decide_all-capped ((now, r) ∷ rest) m h =
      let (d, h') = decide-capped r now m h in (d, decide_all-capped rest (decide s r now m).0 h')
