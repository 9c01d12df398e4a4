-- ===== src/Fan/Echo.antt =====
-- apps/fan_automation/app.py: which report after a command counts as the user's intervention.
use mobius_smart_home.Prelude.{
  ℕ, ◌≡◌, ◌↔◌, true, false, not, ◌||◌, get, get-put_self, str_eq, arith, Bool-cases, inl, inr,
}
use mobius_smart_home.Fan.{turn_on}
use mobius_smart_home.Fan.Tokens.{
  FanEvent, event_token, EchoOf, on_level, tokens_match, tokens_match_iff,
}
use mobius_smart_home.Fan.Apply.{
  FanApp, Fans, is_manual, send_to, command_for, on_fan_event, intervened, mark_manual, target,
}

outcome :
    (env : Fans) (level now : ℕ) (e : FanEvent) (st : FanApp)
    → env.verified st.sent e.device_id
        (command_for (turn_on level) (env.supports_level e.device_id))
      ≡ true
    → st.is_paused ≡ false
    → is_manual (
        get
          (on_fan_event e (send_to env (turn_on level) now e.device_id st)).switch_state
          e.device_id)
      ≡ not (tokens_match (on_level level) (event_token e))
unfolding send_to on_fan_event intervened mark_manual is_manual target
outcome env level now e st ok awake =
    rw (ok, awake, get-put_self st.expected e.device_id (on_level level))
      (elim (Bool-cases (tokens_match (on_level level) (event_token e))) [
        | inl echo ↦ rw (echo, get-put_self st.switch_state e.device_id _)
        | inr hand ↦ rw (hand, get-put_self)
      ])

-- After a verified command of a level to a fan, and with the app not paused, a switch, level or speed
-- report of that fan leaves it in the app's hands exactly when it is an echo: it says on, and its
-- level, if it is a number, is within 15 of the commanded one. Any other report hands the fan to
-- the user.
report_after_command :
    (env : Fans) (level now : ℕ) (e : FanEvent) (st : FanApp)
    → env.verified st.sent e.device_id
        (command_for (turn_on level) (env.supports_level e.device_id))
      ≡ true
    → st.is_paused ≡ false
    → str_eq e.name "switch" || (str_eq e.name "level" || str_eq e.name "speed") ≡ true
    → let st' = send_to env (turn_on level) now e.device_id st in
      (is_manual (get (on_fan_event e st').switch_state e.device_id) ≡ false)
      ↔ EchoOf level (event_token e)
report_after_command env level now e st ok awake reports =
    let echo = (tokens_match_iff e level reports).1 in
    rw (outcome env level now e st ok awake) (λ free. echo.0 (ground arith), λ h. rw (echo.1 h))
