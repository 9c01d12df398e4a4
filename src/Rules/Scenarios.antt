-- ===== src/Rules/Scenarios.antt =====
-- apps/rules/interpreter.py: the theorems at a concrete pool app, and tests.
use mobius_smart_home.Prelude.{
  ℕ, ◌+◌, ◌≡◌, ◌≤◌, refl, String, Bool, true, false, none, some, List, [], ◌∷◌, ◌++◌, Dict, str_eq,
  get, put, arith, if◌then◌else◌,
}
use mathlib.Core.List.{Mem, mem-cons}
use mathlib.Core.Logic.Or
use mobius_smart_home.Rules.{on, Trigger, set_state, toggle_independent, RuleSpec}
use mobius_smart_home.Prelude.{strip}
use mobius_smart_home.Rules.Host.{Host, HubClient, completed, send_raised, World}
use mobius_smart_home.Rules.Interpreter.{
  Event, switch_is_on, trigger_matches, value_matches, debounce, run_actions, dispatch_action,
  toggle_each, run_rules, execute_event, matches, or_zero,
}
use mobius_smart_home.Rules.Pause.{SameEffects, execute_event_paused}
use mobius_smart_home.Rules.Plan.{
  blank, planned, planned_rules, planned_actions, execute_event-sent,
}
use mobius_smart_home.Rules.Debounce.{accepted}
use mobius_smart_home.Rules.Presets.{pool_button_preset}

abbrev pool_devices : String → List String
pool_devices category =
    if str_eq category "trigger_button"
    then "7" ∷ []
    else if str_eq category "pool_water_switches"
    then "11" ∷ "12" ∷ []
    else if str_eq category "pump_switch"
    then "13" ∷ []
    else []

abbrev no_hub : HubClient
no_hub = record { get_current_mode = λ _. none; get_modes = λ _. none }

-- Device 12 is off in the cache, all else is on; device 11 never answers.
abbrev host_with : Bool → Host
host_with paused = record {
  is_paused = λ _. paused;
  get_devices = pool_devices;
  get_device_state = λ _ d.
      some (record { attributes = some (("switch", if str_eq d "12" then "off" else "on") ∷ []) });
  send_command = λ _ d _.
      if str_eq d "11" then send_raised else completed (record { success = true; verified = true });
  client = no_hub;
}

abbrev pool_app : Host
pool_app = host_with false

abbrev spec : RuleSpec
spec = pool_button_preset "1" 5

abbrev tap : Event
tap = record { event_type = some "pushed"; device_id = "7"; value = " 1" }

pool_awake : (n : ℕ) → pool_app.is_paused n ≡ false
pool_awake n = refl

pool_cached : (w : World) (d : String) → switch_is_on pool_app w d ≡ switch_is_on pool_app blank d
unfolding switch_is_on
pool_cached w d = refl

pushed_named : str_eq "pushed" "" ≡ false
pushed_named = refl

debounce_passes : debounce spec "pushed" 100 [] ≡ some (("pushed", 100) ∷ [])
unfolding debounce pool_button_preset get put
debounce_passes = refl

-- The tap turns both pool switches on, also if the first of them raises.
tap_plan : planned_rules pool_app spec.rules "pushed" tap ≡ ("11", on) ∷ ("12", on) ∷ []
unfolding planned_rules planned_actions planned matches trigger_matches value_matches
    pool_button_preset strip switch_is_on get
tap_plan = refl

execute_event-sent_example :
    (execute_event pool_app spec tap 100 [] blank).0.sent
    ≡ [] ++ planned_rules pool_app spec.rules "pushed" tap
execute_event-sent_example =
    execute_event-sent pool_app pool_awake pool_cached spec "pushed" tap 100 []
      (("pushed", 100) ∷ []) blank refl pushed_named debounce_passes

execute_event_paused_example :
    let paused = host_with true in
    SameEffects blank (execute_event paused spec tap 100 [] blank).0
    × SameEffects blank (run_rules paused spec.rules "pushed" tap blank)
    × SameEffects blank (run_actions paused (set_state "switches" on ∷ []) blank).0
    × SameEffects blank (dispatch_action paused (toggle_independent "switches") blank)
    × SameEffects blank (toggle_each paused ("12" ∷ []) blank)
execute_event_paused_example =
    execute_event_paused (host_with true) spec tap 100 [] blank spec.rules "pushed"
      (set_state "switches" on ∷ []) (toggle_independent "switches") ("12" ∷ []) (λ _ _. refl)

abbrev button : Trigger
button = record { device_category = "trigger_button"; event_type = "pushed"; value = some "1" }

pushed_window : get spec.debounce_per_event "pushed" ≡ some 5
unfolding pool_button_preset get
pushed_window = refl

abbrev no_times : Dict ℕ
no_times = []

accepted_times : accepted spec "pushed" (100 ∷ 103 ∷ 105 ∷ 109 ∷ []) [] ≡ 100 ∷ 105 ∷ []
unfolding accepted debounce pool_button_preset get put
accepted_times = refl

first_passes : or_zero (get no_times "pushed") + 5 ≤ 100
unfolding get
first_passes = omega arith

tap_device : Mem tap.device_id (pool_app.get_devices "trigger_button")
tap_device = mem-cons.1 (Or.inl refl)

tap_value : strip tap.value ≡ strip "1"
unfolding strip
tap_value = refl
