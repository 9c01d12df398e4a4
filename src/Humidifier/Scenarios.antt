-- ===== src/Humidifier/Scenarios.antt =====
-- apps/humidifier/app.py: the theorems in a concrete room, and tests.
use mobius_smart_home.Prelude.{
  ℕ, ◌≡◌, refl, true, false, ◌&&◌, not, none, some, [], ◌∷◌, is_in, str_eq,
}
use mobius_smart_home.Humidifier.{
  HumidifierSettings, Room, HumidifierState, reads_as, highest, humidity_now, motion_is_active,
  any_contact_open, in_restricted_mode, apply, apply_one, master,
}
use mobius_smart_home.Humidifier.Commands.{ordered, master-ordered}
use mobius_smart_home.Humidifier.Reasons.{order_of}

abbrev bedroom : HumidifierSettings
bedroom = record {
  humidifier_switches = "9" ∷ [];
  restricted_modes = "Away" ∷ [];
  off_in_restricted_mode = true;
  humidity_threshold = 50;
  no_motion_time = 10;
}

-- 49.5 percent, and a move five minutes ago
abbrev dry : Room
dry = record {
  is_paused = false;
  mode = some "Night";
  humidity = some 4950 ∷ none ∷ [];
  motion = record { value = some "inactive"; received_at = some 700 } ∷ [];
  contacts = some "closed" ∷ [];
  now = 1000;
  monotonic = 50;
  get_switch_state = λ _ _. some "off";
}

abbrev silent : ℕ → Room
silent t = record dry { humidity = some 0 ∷ none ∷ []; monotonic = t }

abbrev fresh : HumidifierState
fresh = record { last_no_reading_warn = none; warnings = 0; sent = [] }

master-ordered_example : ordered "9" "on" (master bedroom dry fresh).sent ≡ (
    is_in "9" bedroom.humidifier_switches
    && not (str_eq "off" "on")
    && reads_as (order_of bedroom dry) "on")
master-ordered_example = master-ordered bedroom dry fresh "9" "off" "on" (λ sent. refl) refl

dry_room : (master bedroom dry fresh).sent ≡ ("9", "on") ∷ []
unfolding master humidity_now highest motion_is_active any_contact_open in_restricted_mode apply
    apply_one is_in
dry_room = refl

nobody_there : (master bedroom (record dry { now = 1300 }) fresh).sent ≡ []
unfolding master humidity_now highest motion_is_active any_contact_open in_restricted_mode apply
    apply_one is_in
nobody_there = refl
