-- ===== src/Lighting/Scenarios.antt =====
-- apps/advanced_motion_lighting: the theorems on keep switches and timeouts at a concrete room, and tests.
use mobius_smart_home.Lighting.Timeout.{TimeoutSettings, System, get_timeout_seconds}
use mobius_smart_home.Prelude.{
  is_in, get, ◌≡◌, refl, String, true, false, Option, none, some, [], ◌∷◌, ◌++◌, str_eq,
  if◌then◌else◌,
}
use mobius_smart_home.Lifecycle.{Instance, aml, manual, reset_memoization}
use mobius_smart_home.Lighting.{
  KeepSettings, House, KeepState, cycle, switch_event, reads_as, enforces, difference,
  enforce_keep_switches, keep_run,
}
use mobius_smart_home.Lighting.Override.{sent_to, keep_override_respected}
use mobius_smart_home.Lighting.Enforcement.{corrections, enforce_keep_switches-sent}

-- Lamp 4 stays off; lamps 5 and 6 stay on at night. Lamp 4 is in both lists.
abbrev room : KeepSettings
room = record {
  keep_off_switches = "4" ∷ [];
  keep_on_switches = "4" ∷ "5" ∷ "6" ∷ [];
  keep_off_enabled = true;
  keep_on_enabled = true;
  keep_off_modes = [];
  keep_on_modes = "Night" ∷ [];
}

abbrev reading : String → Option String
reading d = if str_eq d "4" then some "on" else if str_eq d "5" then some "off" else none

abbrev house : House
house = record {
  current_mode = some "Night";
  get_switch_state = λ _ d. reading d;
  send_raises = λ _ _ _. false;
}

-- The user had turned lamp 4 on.
abbrev instance_of_room : Instance
instance_of_room = record {
  is_paused = false;
  pause_reason = none;
  keep = ("4", record { is_on = true; source = manual }) ∷ [];
  timeout_job_id = none;
  auto_resume_job_id = none;
  jobs = [];
  row = record { is_paused = false; pause_reason = none; pause_expires_at = none };
  evaluations = 0;
}

abbrev untouched : KeepState
untouched = record { keep = []; sent = [] }

night_corrections :
    corrections reading false ("4" ∷ [])
      ++ corrections reading true (difference ("4" ∷ "5" ∷ "6" ∷ []) ("4" ∷ []))
    ≡ ("4", false) ∷ ("5", true) ∷ []
unfolding corrections difference is_in reads_as
night_corrections = refl

enforce_keep_switches-sent_example :
    let keep = (reset_memoization (aml ("4" ∷ []) ("4" ∷ "5" ∷ "6" ∷ [])) instance_of_room).keep in
    let st : KeepState = record { keep = keep; sent = [] } in
    let off = corrections reading false ("4" ∷ []) in
    let on = corrections reading true (difference ("4" ∷ "5" ∷ "6" ∷ []) ("4" ∷ [])) in
    (enforce_keep_switches room house st).sent
    ≡ ([] ++ (if enforces true [] (some "Night") then off else []))
      ++ (if enforces true ("Night" ∷ []) (some "Night") then on else [])
enforce_keep_switches-sent_example =
    enforce_keep_switches-sent room house reading instance_of_room [] (λ _ _. refl)

listed : is_in "4" room.keep_off_switches ≡ true
unfolding is_in
listed = refl

keep_override_respected_example :
    let after =
      keep_run room (switch_event false "4" "on" ∷ cycle house ∷ cycle house ∷ []) untouched in
    sent_to "4" after.sent ≡ sent_to "4" []
keep_override_respected_example =
    keep_override_respected room "4" (cycle house ∷ cycle house ∷ []) untouched listed

-- A default of 5 minutes, and 20 seconds at night.
abbrev kitchen : TimeoutSettings
kitchen = record {
  no_motion_time = 300;
  in_minutes = false;
  time_with_mode = true;
  mode_timeouts = ("Night", some 20) ∷ ("Day", none) ∷ [];
  bypass_timeout_floor = false;
}

abbrev floored : System
floored = record { floor = some 60; has_setting_exception = λ _. false }

night_entry : get kitchen.mode_timeouts "Night" ≡ some (some 20)
unfolding get
night_entry = refl

night_timeout : get_timeout_seconds kitchen floored (some "Night") ≡ 60
unfolding get_timeout_seconds get
night_timeout = refl
