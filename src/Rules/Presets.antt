-- ===== src/Rules/Presets.antt =====
-- apps/rules/schema.py: `pool_button_preset`, and what its rules do.
use mathlib.Core.List.{Mem, append-nil}
use mobius_smart_home.Prelude.{ℕ, ◌≡◌, refl, String, some, List, [], ◌∷◌, ◌++◌, map}
use mobius_smart_home.Rules.{
  off, Action, set_state, toggle_uniform, toggle_independent, Trigger, Rule, RuleSpec,
}
use mobius_smart_home.Prelude.{strip}
use mobius_smart_home.Rules.Host.{Host}
use mobius_smart_home.Rules.Interpreter.{Event, matches, trigger_matches}
use mobius_smart_home.Rules.Plan.{planned, planned_actions, planned_rules}
use mobius_smart_home.Rules.Toggle.{trigger_matches_iff}

button_rule : String → String → List Action → String → Rule
button_rule event_type button_number actions description = record {
  when = record {
    device_category = "trigger_button";
    event_type = event_type;
    value = some button_number;
  };
  actions = actions;
  description = some description;
}

-- `pool_button_preset`
unfoldable pub pool_button_preset : String → ℕ → RuleSpec
unfolding button_rule
pool_button_preset button_number debounce_seconds = record {
  rules =
      button_rule "pushed" button_number (toggle_uniform "pool_water_switches" ∷ [])
        "single tap → toggle pool-water switches together"
      ∷ button_rule "doubleTapped" button_number (toggle_independent "pump_switch" ∷ [])
          "double tap → toggle pump switch"
      ∷ button_rule "held" button_number
          (set_state "pool_water_switches" off ∷ set_state "pump_switch" off ∷ [])
          "hold → everything off"
      ∷ [];
  debounce_per_event =
      ("pushed", debounce_seconds)
      ∷ ("doubleTapped", debounce_seconds)
      ∷ ("held", debounce_seconds)
      ∷ [];
}

-- On the button that the preset is for, a tap plans the group toggle of the pool-water switches alone,
-- a double tap the toggle of the pump alone, and a hold turns all of both off.
pool_button_preset-planned :
    (h : Host) (button_number : String) (debounce_seconds : ℕ) (e : Event)
    → Mem e.device_id (h.get_devices "trigger_button")
    → strip e.value ≡ strip button_number
    → let rules = (pool_button_preset button_number debounce_seconds).rules in
      (planned_rules h rules "pushed" e ≡ planned h (toggle_uniform "pool_water_switches"))
      × (planned_rules h rules "doubleTapped" e ≡ planned h (toggle_independent "pump_switch"))
      × (planned_rules h rules "held" e
          ≡ map (λ d. (d, off)) (h.get_devices "pool_water_switches")
            ++ map (λ d. (d, off)) (h.get_devices "pump_switch"))
unfolding pool_button_preset planned_rules planned_actions planned matches trigger_matches
pool_button_preset-planned h button_number debounce_seconds e member same =
    let t : Trigger = record {
      device_category = "trigger_button";
      event_type = "pushed";
      value = some button_number;
    } in
    let fits = (trigger_matches_iff h t "pushed" e.device_id e.value).1 (refl, member, same) in
    (rw fits (simp append-nil), rw fits (simp append-nil), rw fits (simp append-nil))
