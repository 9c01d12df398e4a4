-- ===== src/Rules/Interpreter.antt =====
-- apps/rules/interpreter.py: the trigger test, the action executors and `execute_event`.
use mobius_smart_home.Prelude.{
  ℕ, suc, ◌+◌, String, Bool, true, false, ◌&&◌, Option, none, some, List, [], ◌∷◌, ◌++◌, Dict, get,
  put, str_eq, ltb, all, any, if◌then◌else◌,
}
use mobius_smart_home.Rules.{
  Target, on, off, Trigger, Action, set_state, toggle_uniform, toggle_independent, set_mode, Rule,
  RuleSpec,
}
use mobius_smart_home.Prelude.{strip}
use mobius_smart_home.Rules.Host.{
  DeviceState, SendOutcome, completed, send_raised, Host, Report, verified_ok, unverified, failed,
  raised, World,
}

-- A `DeviceEvent`, with its device id and value as `str()` gives them.
pub record Event : Type 0 where
  pub event_type : Option String
  pub device_id : String
  pub value : String

unfoldable pub value_matches : Option String → String → Bool
value_matches none v = true
value_matches (some w) v = str_eq (strip v) (strip w)

-- `_trigger_matches`; an empty category has no member.
unfoldable pub trigger_matches : Host → Trigger → String → String → String → Bool
trigger_matches h t event_type device_id v =
    str_eq t.event_type event_type
    && (any (λ c. str_eq c device_id) (h.get_devices t.device_category) && value_matches t.value v)

is_on_value : Option String → Bool
is_on_value none = false
is_on_value (some v) = str_eq v "on"

switch_of : Option (Dict String) → Option String
switch_of none = none
switch_of (some attributes) = get attributes "switch"

state_is_on : Option DeviceState → Bool
unfolding is_on_value switch_of
state_is_on none = false
state_is_on (some d) = is_on_value (switch_of d.attributes)

-- `_switch_is_on`
unfoldable pub switch_is_on : Host → World → String → Bool
unfolding state_is_on
switch_is_on h w device = state_is_on (h.get_device_state w.sent device)

report : SendOutcome → Report
report send_raised = raised
report (completed r) =
    if r.success && r.verified then verified_ok else if r.success then unverified else failed

-- One round of the loop of `_send_to_all`
unfoldable pub send_one : Host → String → Target → World → World
unfolding report
send_one h device target w = record w {
  sent = w.sent ++ (device, target) ∷ [];
  reports = w.reports ++ (device, report (h.send_command w.sent device target)) ∷ [];
}

-- `_send_to_all`
unfoldable pub send_to_all : Host → List String → Target → World → World
send_to_all h [] target w = w
send_to_all h (device ∷ rest) target w = send_to_all h rest target (send_one h device target w)

-- A reading of `host.is_paused`, and what runs if it is false.
unfoldable pub unless_paused : Host → (World → World) → World → World
unless_paused h body w =
    let w' = record w { reads = suc w.reads } in if h.is_paused w.reads then w' else body w'

-- `_exec_set_state`
unfoldable pub exec_set_state : Host → String → Target → World → World
exec_set_state h category target = unless_paused h (send_to_all h (h.get_devices category) target)

-- `_exec_toggle_uniform`
unfoldable pub exec_toggle_uniform : Host → String → World → World
exec_toggle_uniform h category = unless_paused h λ w.
    let ids = h.get_devices category in
    send_to_all h ids (if all (switch_is_on h w) ids then off else on) w

-- The loop of `_exec_toggle_independent`
unfoldable pub toggle_each : Host → List String → World → World
toggle_each h [] w = w
toggle_each h (device ∷ rest) w =
    let w' = record w { reads = suc w.reads } in
    let target = if switch_is_on h w' device then off else on in
    let after = toggle_each h rest (send_to_all h (device ∷ []) target w') in
    if h.is_paused w.reads then w' else after

-- `_exec_toggle_independent`
unfoldable pub exec_toggle_independent : Host → String → World → World
exec_toggle_independent h category = unless_paused h (toggle_each h (h.get_devices category))

-- `next((m for m in modes if str(m.get("name")) == mode), None)`
find_mode : String → List (String × String) → Option String
find_mode mode [] = none
find_mode mode ((id, name) ∷ rest) = if str_eq name mode then some id else find_mode mode rest

switch_to : Option String → World → World
switch_to none w = w
switch_to (some id) w = record w { modes_set = w.modes_set ++ id ∷ [] }

find_in : Option (List (String × String)) → String → Option String
unfolding find_mode
find_in none mode = none
find_in (some modes) mode = find_mode mode modes

-- The `try` block of `_exec_set_mode`; whether the hub takes the mode only changes the log line.
set_mode_from : Option String → Host → String → World → World
unfolding switch_to find_in
set_mode_from none h mode w = w
set_mode_from (some current) h mode w =
    if str_eq current mode then w else switch_to (find_in (h.client.get_modes w.modes_set) mode) w

-- `_exec_set_mode`
unfoldable pub exec_set_mode : Host → String → World → World
unfolding set_mode_from
exec_set_mode h mode =
    unless_paused h λ w. set_mode_from (h.client.get_current_mode w.modes_set) h mode w

-- `_dispatch_action`
unfoldable pub dispatch_action : Host → Action → World → World
dispatch_action h (set_state category target) = exec_set_state h category target
dispatch_action h (toggle_uniform category) = exec_toggle_uniform h category
dispatch_action h (toggle_independent category) = exec_toggle_independent h category
dispatch_action h (set_mode mode) = exec_set_mode h mode

-- The loop over `rule.do`: `false` when a pause ends the whole event.
unfoldable pub run_actions : Host → List Action → World → World × Bool
run_actions h [] w = (w, true)
run_actions h (action ∷ rest) w =
    let w' = record w { reads = suc w.reads } in
    let after = run_actions h rest (dispatch_action h action w') in
    if h.is_paused w.reads then (w', false) else after

unfoldable pub matches : Host → Rule → String → Event → Bool
matches h rule event_type e = trigger_matches h rule.when event_type e.device_id e.value

-- The loop over `spec.rules`
unfoldable pub run_rules : Host → List Rule → String → Event → World → World
run_rules h [] event_type e w = w
run_rules h (rule ∷ rest) event_type e w =
    let (w', go_on) = run_actions h rule.actions w in
    let fired = if go_on then run_rules h rest event_type e w' else w' in
    let skipped = run_rules h rest event_type e w in
    if matches h rule event_type e then fired else skipped

abbrev pub or_zero : Option ℕ → ℕ
or_zero none = 0
or_zero (some n) = n

-- The debounce: `none` drops the event, otherwise the table that the event leaves.
unfoldable pub debounce : RuleSpec → String → ℕ → Dict ℕ → Option (Dict ℕ)
debounce spec event_type now table =
    let window = or_zero (get spec.debounce_per_event event_type) in
    if ltb 0 window
    then if ltb now (or_zero (get table event_type) + window)
      then none
      else some (put table event_type now)
    else some table

after_debounce :
    Option (Dict ℕ) → Dict ℕ → Host → RuleSpec → String → Event → World → World × Dict ℕ
after_debounce none table h spec event_type e w = (w, table)
after_debounce (some table') table h spec event_type e w =
    (unless_paused h (run_rules h spec.rules event_type e) w, table')

for_type : Option String → Host → RuleSpec → Event → ℕ → Dict ℕ → World → World × Dict ℕ
unfolding after_debounce
for_type none h spec e now table w = (w, table)
for_type (some event_type) h spec e now table w =
    if str_eq event_type ""
    then (w, table)
    else after_debounce (debounce spec event_type now table) table h spec event_type e w

-- `execute_event`, at the monotonic time `now`
unfoldable pub execute_event : Host → RuleSpec → Event → ℕ → Dict ℕ → World → World × Dict ℕ
unfolding for_type
execute_event h spec e now table w =
    for_type e.event_type h spec e now table (record w { activity = suc w.activity })
