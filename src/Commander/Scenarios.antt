-- ===== src/Commander/Scenarios.antt =====
-- services/device_commander.py: the theorems at concrete hubs, and tests.
use mobius_smart_home.Prelude.{
  ℕ, zero, suc, ◌+◌, ◌*◌, ◌≡◌, ◌<◌, refl, true, false, none, some, [], ◌∷◌, All, get, put, length,
  arith,
}
use mobius_smart_home.Commander.{
  Expected, Config, Commander, set_device_status, resolve_expected_state, verify_backoff_active,
}
use mobius_smart_home.Commander.Execute.{
  accepted, refused, reads, no_device, Hub, Matter, execute_hubitat, execute_command_sync, attempts,
  attempt, after_send, verify_state, poll_loop, observe, is_value, after_polls, continue, completed,
  give_up, log_command_completed, try_matter_primary, confirmed_ok,
}
use mobius_smart_home.Commander.Status.{Settled, execute_hubitat-Settled}
use mobius_smart_home.Commander.Verified.{Seen, execute_hubitat-Seen}
use mobius_smart_home.Commander.Backoff.{
  TimedOutPending, run_commands, fails_of, timeouts_never_open,
}
use mobius_smart_home.Lifecycle.{app}
use mobius_smart_home.Lighting.{KeepSettings, House, KeepState, enforceable, reads_as}

abbrev defaults : Config
defaults = record {
  operation_retries = 2;
  verify_retries = 3;
  command_timeout = 30000;
  verify_fail_threshold = 4;
  verify_backoff = 300000;
}

abbrev to_on : Expected
to_on = record { attribute = "switch"; value = "on" }

abbrev fresh : Commander
fresh = record { device_status = []; breakers = []; sent = []; cached = [] }

-- The second poll shows the lamp on.
abbrev good : Hub
good = record {
  send = λ _. accepted;
  elapsed = λ o m. 10000 * o + 1000 * m;
  poll = λ _ m. elim m [ zero ↦ reads (some "off") | suc k ↦ reads (some "on") ];
  clock = 0;
  ended = 1000;
}

abbrev deaf : ℕ → Hub
deaf at = record good {
  poll = λ _ _. no_device;
  clock = at;
  ended = at + 9000;
  elapsed = λ _ _. 1000;
}

abbrev unreachable : Hub
unreachable = record good { send = λ _. refused }

abbrev sluggish : Hub
sluggish = record good { elapsed = λ _ _. 31000 }

good_verified : (execute_hubitat defaults good "7" true (some to_on) fresh).1.is_verified ≡ true
unfolding execute_hubitat attempts attempt after_send verify_state poll_loop observe is_value
    after_polls continue completed give_up verify_backoff_active set_device_status get put
good_verified = refl

execute_hubitat-Seen_example : Seen defaults good to_on
execute_hubitat-Seen_example = execute_hubitat-Seen defaults good "7" to_on fresh good_verified

execute_hubitat-Settled_example :
    let (c', r, row) = execute_hubitat defaults good "7" true (some to_on) fresh in
    Settled "7" (c', r)
execute_hubitat-Settled_example = execute_hubitat-Settled defaults good "7" to_on fresh

few_fails : fails_of fresh "7" < defaults.verify_fail_threshold
unfolding get
few_fails = omega arith

timeouts_never_open_example :
    let (c', results) =
      run_commands defaults "7" to_on
        (sluggish ∷ sluggish ∷ sluggish ∷ sluggish ∷ sluggish ∷ [])
        fresh in
    (c'.breakers ≡ []) × (length c'.sent ≡ 0 + 5) × All TimedOutPending results
timeouts_never_open_example =
    timeouts_never_open defaults "7" to_on
      (sluggish ∷ sluggish ∷ sluggish ∷ sluggish ∷ sluggish ∷ []) fresh (omega arith) (omega arith)
      few_fails
      (
        (refl, omega arith),
        (
          (refl, omega arith),
          ((refl, omega arith), ((refl, omega arith), ((refl, omega arith), tt))),
        ),
      )

abbrev keeps : KeepSettings
keeps = record {
  keep_off_switches = "7" ∷ [];
  keep_on_switches = [];
  keep_off_enabled = true;
  keep_on_enabled = false;
  keep_off_modes = [];
  keep_on_modes = [];
}

abbrev home : House
home = record {
  current_mode = none;
  get_switch_state = λ _ _. some "on";
  send_raises = λ _ _ _. false;
}

abbrev by_the_app : KeepState
by_the_app = record { keep = ("7", record { is_on = false; source = app }) ∷ []; sent = [] }

mark_of_7 : enforceable (get by_the_app.keep "7") ≡ true
unfolding enforceable get
mark_of_7 = refl

reads_on : reads_as true (some "on") ≡ true
unfolding reads_as
reads_on = refl

abbrev no_matter : Matter
no_matter = record { enabled = false; sends = false; confirms = none }

set_level_row :
    (execute_command_sync defaults no_matter good "7" "setLevel" (some "40") true fresh).2
    ≡ some confirmed_ok
unfolding execute_command_sync resolve_expected_state execute_hubitat attempts attempt after_send
    verify_state poll_loop observe is_value after_polls continue completed give_up
    verify_backoff_active set_device_status get put log_command_completed try_matter_primary
set_level_row = refl
