-- ===== src/Lights/Scenarios.antt =====
-- apps/advanced_motion_lighting: the theorems on the lights at a concrete house, and tests.
use mobius_smart_home.Prelude.{
  is_in, ◌*◌, ◌+◌, ◌≡◌, ◌≢◌, refl, true, false, ◌&&◌, not, none, some, List, [], ◌∷◌, get, put,
  remove, str_eq, eq_iff, if◌then◌else◌, arith,
}
use mobius_smart_home.Lights.{
  absent, reads, Device, off, Sent, confirmed, unconfirmed, World, LightSettings, LightMemo,
  LightState, entry, LevelEvent, issue, device_has_capability, settings_dim_level, save_memoization,
}
use mobius_smart_home.Lifecycle.{app}
use mobius_smart_home.Lights.Switches.{turn_off_switch, switch_reads, when_verified}
use mobius_smart_home.Lights.Switches.Sends.{commanded}
use mobius_smart_home.Lights.Control.{
  get_switch_state, is_kept, action_of, control_one, control_each, control_lights, device_of,
  should_skip_due_to_memo,
}
use mobius_smart_home.Lights.Control.Reach.{control_lights-commanded}
use mobius_smart_home.Lights.Control.Saved.{LightInput, cycle, event, light_run, light_run-InSync}
use mobius_smart_home.Commander.{Config, Commander, set_device_status, verify_backoff_active}
use mobius_smart_home.Commander.Execute.{
  Hub, accepted, reads as poll_reads, execute_hubitat, attempts, attempt, after_send, verify_state,
  poll_loop, observe, is_value, after_polls, continue, completed, give_up,
}
use mobius_smart_home.Lights.Confirmed.{answer_of, to_off}

abbrev lamp : Device
lamp = record {
  name = "Lamp";
  switch = some "off";
  level = reads 50;
  capabilities = "Switch" ∷ "SwitchLevel" ∷ [];
}

-- The cache says that the lamp is off; the event log knows that it is on.
abbrev house : World
house = record {
  latest_switch = λ _ d. if str_eq d "1" then some "on" else none;
  latest_level = λ _ _. absent;
  get_device_state = λ _ _. some lamp;
  answer = λ _ _. confirmed;
  current_mode = some "Night";
  lower = λ s. s;
  saves = true;
}

abbrev settings : LightSettings
settings = record {
  switches = "1" ∷ "2" ∷ [];
  keep_off_switches = "2" ∷ [];
  keep_on_switches = [];
  memoize = true;
  use_dim = true;
  dim_with_mode = true;
  mode_dim_levels = ("Day", 100) ∷ ("Night", 25) ∷ [];
  default_dim_level = 50;
  use_color = false;
  color_preset = "Warm White";
  custom_color_temperature = 2700;
}

abbrev blank : LightMemo
blank = record { switch_state = []; dim_level = []; color_state = [] }

-- The memo says that the lamp is off, which is stale.
abbrev stale : LightState
stale = record {
  memo = record blank { switch_state = ("Lamp", entry "off" app) ∷ [] };
  stored = record blank { switch_state = ("Lamp", entry "off" app) ∷ [] };
  sent = [];
}

reads_on : (sent : List Sent) → get_switch_state house sent "1" ≡ some "on"
unfolding get_switch_state
reads_on sent = refl

control_lights-commanded_example :
    commanded "1" (control_lights house settings false stale).sent ≡ (
      is_in "1" settings.switches
      && not (is_kept settings "1")
      && not (str_eq "on" (action_of false)))
control_lights-commanded_example =
    control_lights-commanded house settings false "1" "on" stale reads_on refl refl

stale_memo_cleared : (control_lights house settings false stale).sent ≡ ("1", off) ∷ []
unfolding control_lights control_each control_one turn_off_switch issue is_kept is_in
    should_skip_due_to_memo device_of get_switch_state switch_reads when_verified get put remove
    save_memoization
stale_memo_cleared = refl

abbrev to_70 : LevelEvent
to_70 = record { event_type = "level"; device_id = "1"; device_name = "Lamp"; value = some 70 }

abbrev inputs : List LightInput
inputs =
    event true false "Lamp" to_70
    ∷ cycle house true
    ∷ cycle (record house { answer = λ _ _. unconfirmed }) false
    ∷ []

light_run-InSync_example : let st' = light_run settings inputs stale in st'.stored ≡ st'.memo
light_run-InSync_example = light_run-InSync settings inputs stale (refl, (refl, (refl, tt))) refl

managed : is_in to_70.device_id settings.switches ≡ true
unfolding is_in
managed = refl

dims : device_has_capability (some lamp) "SwitchLevel" ≡ true
unfolding device_has_capability
dims = refl

named : to_70.device_name ≢ ""
named e = absurd (ground (arith, (eq_iff "Lamp" "").1 e))

night_level : settings_dim_level house settings ≡ 25
unfolding settings_dim_level get
night_level = refl

abbrev config : Config
config = record {
  operation_retries = 2;
  verify_retries = 3;
  command_timeout = 30000;
  verify_fail_threshold = 4;
  verify_backoff = 300000;
}

abbrev hub : Hub
hub = record {
  send = λ _. accepted;
  elapsed = λ o m. 10000 * o + 1000 * m;
  poll = λ _ _. poll_reads (some "off");
  clock = 0;
  ended = 1000;
}

abbrev commander : Commander
commander = record { device_status = []; breakers = []; sent = []; cached = [] }

-- Commands are executed by the commander.
abbrev commanded_house : World
commanded_house = record house {
  answer = λ _ c. answer_of (execute_hubitat config hub c.0 true (some to_off) commander).1;
}

abbrev lit_lamp : Device
lit_lamp = record lamp { switch = some "on" }

noted : (turn_off_switch commanded_house "1" "Lamp" (some lit_lamp) stale).1 ≡ true
unfolding turn_off_switch switch_reads issue when_verified answer_of execute_hubitat attempts
    attempt after_send verify_state poll_loop observe is_value after_polls continue completed
    give_up verify_backoff_active set_device_status get put
noted = refl
