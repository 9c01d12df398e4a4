-- ===== src/Lights/Control.antt =====
-- apps/advanced_motion_lighting/light_control/controller.py, with `get_switch_state` of
-- apps/base/hubitat_bridge.py.
pub mod Reach
pub mod Saved
use mobius_smart_home.Prelude.{
  is_in, ℕ, String, Bool, true, false, ◌&&◌, ◌||◌, Option, none, some, List, [], ◌∷◌, Dict, get,
  put, remove, str_eq, if◌then◌else◌,
}
use mobius_smart_home.Lights.{
  Raw, absent, unreadable, reads, Device, Sent, World, LightSettings, SwitchMemo, entry, legacy,
  LightMemo, LightState, save_memoization,
}
use mobius_smart_home.Lights.Switches.{turn_on_switch, turn_off_switch}

cached_switch : Option Device → Option String
cached_switch none = none
cached_switch (some d) = d.switch

or_cached : Option String → Option String → Option String
or_cached none cached = cached
or_cached (some v) cached = some v

-- `get_switch_state`
unfoldable pub get_switch_state : World → List Sent → String → Option String
unfolding cached_switch or_cached
get_switch_state w sent device_id =
    or_cached (w.latest_switch sent device_id) (cached_switch (w.get_device_state sent device_id))

-- `dict(device) if device else {}`
or_blank : String → Option Device → Device
or_blank device_id none = record {
  name = device_id;
  switch = none;
  level = absent;
  capabilities = [];
}
or_blank device_id (some d) = d

or_level : Raw → Raw → Raw
or_level absent cached = cached
or_level unreadable cached = unreadable
or_level (reads l) cached = reads l

-- The overlay of the live state
overlay : Bool → String → Option String → Raw → Option Device → Option Device
unfolding or_blank or_level
overlay use_dim device_id none live_level device = device
overlay use_dim device_id (some v) live_level device =
    let d = or_blank device_id device in
    some (record d {
      switch = some v;
      level = if use_dim then or_level live_level d.level else d.level;
    })

unfoldable pub device_of : World → LightSettings → String → LightState → Option Device
unfolding overlay
device_of w s device_id st =
    overlay s.use_dim device_id (get_switch_state w st.sent device_id)
      (w.latest_level st.sent device_id) (w.get_device_state st.sent device_id)

name_of : String → Option Device → String
name_of device_id none = device_id
name_of device_id (some d) = d.name

memo_reads : Option SwitchMemo → String → Bool
memo_reads none action = false
memo_reads (some (entry state source)) action = str_eq state action
memo_reads (some (legacy state)) action = str_eq state action

-- `_should_skip_due_to_memo`
unfoldable pub should_skip_due_to_memo : LightSettings → LightMemo → String → String → Bool
unfolding memo_reads
should_skip_due_to_memo s memo name action =
    s.memoize && memo_reads (get memo.switch_state name) action

-- Whether the memo is stale: the device is in a known state that differs
is_stale : Option Device → String → Bool
is_stale none action = false
is_stale (some d) action = elim d.switch [
  | none ↦ false
  | some v ↦ if str_eq v action then false else true
]

forget : String → LightState → LightState
forget name st = record st {
  memo = record st.memo { switch_state = remove st.memo.switch_state name };
}

pub action_of : Bool → String
action_of is_on = if is_on then "on" else "off"

-- `changed` makes the memo dirty.
switch_to :
    World
    → LightSettings
    → Bool
    → String
    → String
    → Option Device
    → LightState × Bool
    → LightState × Bool
switch_to w s is_on device_id name device (st, dirty) =
    let (st', changed) =
      if is_on
      then turn_on_switch w s device_id name device st
      else turn_off_switch w device_id name device st in
    (st', dirty || changed)

unfoldable pub is_kept : LightSettings → String → Bool
is_kept s device_id = is_in device_id s.keep_off_switches || is_in device_id s.keep_on_switches

-- One round of the loop
unfoldable pub control_one :
    World → LightSettings → Bool → String → LightState × Bool → LightState × Bool
unfolding name_of is_stale forget action_of switch_to
control_one w s is_on device_id (st, dirty) =
    let name = name_of device_id (w.get_device_state st.sent device_id) in
    let device = device_of w s device_id st in
    if is_kept s device_id
    then (st, dirty)
    else if should_skip_due_to_memo s st.memo name (action_of is_on)
    then (if is_stale device (action_of is_on)
        then switch_to w s is_on device_id name device (forget name st, true)
        else (st, dirty))
    else switch_to w s is_on device_id name device (st, dirty)

unfoldable pub control_each :
    World → LightSettings → Bool → List String → LightState × Bool → LightState × Bool
control_each w s is_on [] st = st
control_each w s is_on (device_id ∷ rest) st =
    control_each w s is_on rest (control_one w s is_on device_id st)

save_if : Bool → LightState × Bool → LightState
save_if saves (st, true) = save_memoization saves st
save_if saves (st, false) = st

-- `_control_lights`
unfoldable pub control_lights : World → LightSettings → Bool → LightState → LightState
unfolding save_if
control_lights w s is_on st = save_if w.saves (control_each w s is_on s.switches (st, false))
