-- ===== src/Fan/Apply.antt =====
-- apps/fan_automation/app.py: the app's whole state, `_apply`, `_on_fan_event`, `on_mode_change` and
-- `master`.
use mobius_smart_home.Prelude.{
  ℕ, ◌+◌, ◌*◌, String, Bool, true, false, ◌&&◌, Option, none, some, List, [], ◌∷◌, ◌++◌, Dict, get,
  put, ltb, ◌==◌, if◌then◌else◌,
}
use mobius_smart_home.Fan.{second, Settings, Memo, Decision, hold, turn_off, turn_on}
use mobius_smart_home.Fan.Readings.{Readings}
use mobius_smart_home.Fan.Decide.{decide}
use mobius_smart_home.Fan.Tokens.{
  Token, off, on_level, FanEvent, event_token, tokens_match, starts_on,
}

pub data Source : Type 0 where
  app manual : Source

pub record Mark : Type 0 where
  pub is_on : Bool
  pub source : Source

pub data Command : Type 0 where
  switch_off switch_on : Command
  set_level : ℕ → Command

pub record FanApp : Type 0 where
  pub is_paused : Bool
  pub memo : Memo
  pub last_mode : Option String
  pub switch_state : Dict Mark
  pub expected : Dict Token
  pub last_apply : Dict (Token × ℕ)
  pub sent : List (String × Command)  -- commands, in their order
  pub overrides : List (String × Token × Token)  -- fan, expected, actual

-- The selected fans, whether the cache shows a fan with the capability SwitchLevel, and whether a
-- command succeeds and is verified, which may depend on what was sent before. A command that raises
-- counts as one that is not verified: the code then goes on in the same way.
pub record Fans : Type 0 where
  pub fans : List String
  pub supports_level : String → Bool
  pub verified : List (String × Command) → String → Command → Bool

abbrev pub cooldown : ℕ
cooldown = 2 * second

-- `decision['expected']`
unfoldable pub target : Decision → Token
target hold = off
target turn_off = off
target (turn_on level) = on_level level

unfoldable pub command_for : Decision → Bool → Command
command_for hold supports = switch_off
command_for turn_off supports = switch_off
command_for (turn_on level) supports = if supports then set_level level else switch_on

unfoldable pub asks_on : Decision → Bool
asks_on hold = false
asks_on turn_off = false
asks_on (turn_on level) = true

same_target : Token → Token → Bool
same_target off off = true
same_target (on_level a) (on_level b) = a == b
same_target _ _ = false

-- `prev` names the same target, less than the cooldown ago.
just_applied : Option (Token × ℕ) → Token → ℕ → Bool
unfolding same_target
just_applied none t now = false
just_applied (some (t', at)) t now = same_target t' t && ltb now (at + cooldown)

is_manual_source : Source → Bool
is_manual_source app = false
is_manual_source manual = true

-- `mark.get('source') == 'manual'`
unfoldable pub is_manual : Option Mark → Bool
unfolding is_manual_source
is_manual none = false
is_manual (some mark) = is_manual_source mark.source

unfoldable pub send_to : Fans → Decision → ℕ → String → FanApp → FanApp
send_to env d now fan st =
    let command = command_for d (env.supports_level fan) in
    let st' = record st { sent = st.sent ++ (fan, command) ∷ [] } in
    if env.verified st.sent fan command
    then record st' {
      switch_state = put st.switch_state fan (record { is_on = asks_on d; source = app });
      expected = put st.expected fan (target d);
      last_apply = put st.last_apply fan (target d, now);
    }
    else st'

-- One round of the loop of `_apply`, at the monotonic time `now`
unfoldable pub apply_one : Fans → Decision → ℕ → String → FanApp → FanApp
unfolding just_applied
apply_one env d now fan st =
    if is_manual (get st.switch_state fan)
    then st
    else if just_applied (get st.last_apply fan) (target d) now
    then st
    else send_to env d now fan st

unfoldable pub apply_each : Fans → Decision → ℕ → List String → FanApp → FanApp
apply_each env d now [] st = st
apply_each env d now (fan ∷ rest) st = apply_each env d now rest (apply_one env d now fan st)

-- `_apply`, which `master` does not call with `hold`
unfoldable pub apply : Fans → Decision → ℕ → FanApp → FanApp
apply env hold now st = st
apply env turn_off now st = apply_each env turn_off now env.fans st
apply env (turn_on level) now st = apply_each env (turn_on level) now env.fans st

-- The clocks (wall and monotonic) and the readings of one evaluation
pub record Moment : Type 0 where
  pub wall : ℕ
  pub monotonic : ℕ
  pub readings : Readings

-- `master`
unfoldable pub master : Settings → Fans → Moment → FanApp → FanApp
master s env at st =
    let (memo, d) = decide s at.readings at.wall st.memo in
    if st.is_paused then st else apply env d at.monotonic (record st { memo = memo })

-- The user intervened: the mark, and the line of the override log.
unfoldable pub mark_manual : Token → FanEvent → FanApp → FanApp
mark_manual expected e st = record st {
  switch_state =
      put st.switch_state e.device_id
        (record { is_on = starts_on (event_token e); source = manual });
  overrides = st.overrides ++ (e.device_id, expected, event_token e) ∷ [];
}

unfoldable pub intervened : Option Token → FanEvent → FanApp → FanApp
intervened none e st = st
intervened (some expected) e st =
    if tokens_match expected (event_token e) then st else mark_manual expected e st

-- `on_event` for an event of a selected fan, with `_on_fan_event`
unfoldable pub on_fan_event : FanEvent → FanApp → FanApp
on_fan_event e st = if st.is_paused then st else intervened (get st.expected e.device_id) e st

-- `on_mode_change`: the manual marks go, then `master`
unfoldable pub drop_manual : Dict Mark → Dict Mark
unfolding is_manual_source
drop_manual [] = []
drop_manual ((fan, mark) ∷ rest) =
    let kept = drop_manual rest in if is_manual_source mark.source then kept else (fan, mark) ∷ kept

unfoldable pub on_mode_change : Settings → Fans → Moment → String → FanApp → FanApp
on_mode_change s env at mode st =
    master s env at
      (record st { last_mode = some mode; switch_state = drop_manual st.switch_state })

-- The 30 s poll and the light and humidity events run `master`.
pub data Input : Type 0 where
  evaluate : Moment → Input
  fan_event : FanEvent → Input
  mode_change : Moment → String → Input

unfoldable pub step : Settings → Fans → Input → FanApp → FanApp
step s env (evaluate at) st = master s env at st
step s env (fan_event e) st = on_fan_event e st
step s env (mode_change at mode) st = on_mode_change s env at mode st

unfoldable pub run : Settings → Fans → List Input → FanApp → FanApp
run s env [] st = st
run s env (input ∷ rest) st = run s env rest (step s env input st)
