-- ===== src/Lights/Switches.antt =====
-- apps/advanced_motion_lighting/light_control: switch_commands.py, and the colors of color_and_dim.py.
pub mod Sends
pub mod Honest
pub mod Dims
use mobius_smart_home.Prelude.{
  ℕ, String, Bool, true, false, ◌&&◌, Option, none, some, List, [], ◌∷◌, Dict, get, put, ◌==◌,
  str_eq, if◌then◌else◌,
}
use mobius_smart_home.Lifecycle.{Source, app, manual}
use mobius_smart_home.Lights.{
  Raw, absent, unreadable, reads, Device, Command, on, off, set_level, set_color_temperature,
  set_color, Sent, Answer, confirmed, unconfirmed, failed, raised, World, LightSettings, SwitchMemo,
  entry, DimMemo, Color, temperature, color, LightMemo, LightState, device_has_capability, issue,
  is_manual, get_current_dim_level,
}

-- `COLOR_PRESETS`
abbrev color_presets : Dict Color
color_presets =
    ("Soft White", temperature 2700 app)
    ∷ ("Warm White", temperature 3000 app)
    ∷ ("Cool White", temperature 4000 app)
    ∷ ("Daylight", temperature 6500 app)
    ∷ ("Red", color 0 100 app)
    ∷ ("Green", color 33 100 app)
    ∷ ("Blue", color 66 100 app)
    ∷ ("Yellow", color 16 100 app)
    ∷ ("Purple", color 75 100 app)
    ∷ ("Pink", color 83 56 app)
    ∷ []

color_source : Color → Source
color_source (temperature t source) = source
color_source (color h s source) = source

manual_color : Option Color → Option Color
unfolding is_manual color_source
manual_color none = none
manual_color (some c) = if is_manual (color_source c) then some c else none

-- `_get_current_color`
get_current_color : LightMemo → String → Option Color
unfolding manual_color
get_current_color memo name =
    if str_eq name "" then none else manual_color (get memo.color_state name)

-- The color, if the command is accepted
applied : Color → LightState × Answer → LightState × Option Color
applied c (st, confirmed) = (st, some c)
applied c (st, unconfirmed) = (st, some c)
applied c (st, failed) = (st, none)
applied c (st, raised) = (st, none)

-- `_apply_color_dict`
apply_color_dict : World → String → Color → Bool → Bool → LightState → LightState × Option Color
unfolding applied
apply_color_dict w device_id (temperature t source) has_ct has_color st =
    if has_ct
    then applied (temperature t source) (issue w (device_id, set_color_temperature t) st)
    else (st, none)
apply_color_dict w device_id (color h s source) has_ct has_color st =
    if has_color
    then applied (color h s source) (issue w (device_id, set_color h s) st)
    else (st, none)

apply_some : World → String → Option Color → Bool → Bool → LightState → LightState × Option Color
unfolding apply_color_dict
apply_some w device_id none has_ct has_color st = (st, none)
apply_some w device_id (some c) has_ct has_color st =
    apply_color_dict w device_id c has_ct has_color st

-- The color to set: the manual one, or the one of the settings
wanted_color : LightSettings → Option Color → Option Color
wanted_color s none =
    if str_eq s.color_preset "Custom"
    then some (temperature s.custom_color_temperature app)
    else get color_presets s.color_preset
wanted_color s (some c) = some c

-- `_set_color`
set_color_of :
    World → LightSettings → String → String → Option Device → LightState → LightState × Option Color
unfolding apply_some wanted_color get_current_color
set_color_of w s device_id name device st =
    apply_some w device_id (wanted_color s (get_current_color st.memo name))
      (device_has_capability device "ColorTemperature")
      (device_has_capability device "ColorControl") st

unfoldable pub note_switch : String → String → LightState → LightState
note_switch name state st = record st {
  memo = record st.memo { switch_state = put st.memo.switch_state name (entry state app) };
}

note_dim : String → Option ℕ → LightState → LightState
note_dim name none st = st
note_dim name (some level) st = record st {
  memo = record st.memo {
    dim_level = put st.memo.dim_level name (record { level = level; source = app });
  };
}

note_color : String → LightState × Option Color → LightState
note_color name (st, none) = st
note_color name (st, some c) = record st {
  memo = record st.memo { color_state = put st.memo.color_state name c };
}

-- After the answer to a command: a change of the memo only if it is verified
unfoldable pub when_verified : (LightState → LightState) → LightState × Answer → LightState × Bool
when_verified note (st, confirmed) = (note st, true)
when_verified note (st, unconfirmed) = (st, false)
when_verified note (st, failed) = (st, false)
when_verified note (st, raised) = (st, false)

-- `device.get('attributes', {}).get('switch') == state`
unfoldable pub switch_reads : Option Device → String → Bool
switch_reads none state = false
switch_reads (some d) state = elim d.switch [ none ↦ false | some v ↦ str_eq v state ]

level_is : Raw → ℕ → Bool
level_is absent l = false
level_is unreadable l = false
level_is (reads n) l = n == l

level_of : Option Device → Raw
level_of none = absent
level_of (some d) = d.level

-- The device is on already.
relevel : World → String → String → Option Device → Option ℕ → LightState → LightState × Bool
unfolding level_is level_of note_dim
relevel w device_id name device none st = (st, false)
relevel w device_id name device (some level) st =
    let sent =
      when_verified (note_dim name (some level)) (issue w (device_id, set_level level) st) in
    if level_is (level_of device) level then (st, false) else sent

turn_on_command : Option ℕ → Command
turn_on_command none = on
turn_on_command (some level) = set_level level

-- After the command to turn on is verified
lit : World → LightSettings → String → String → Option Device → Option ℕ → LightState → LightState
unfolding set_color_of note_color note_switch note_dim
lit w s device_id name device target st =
    let colored = note_color name (set_color_of w s device_id name device st) in
    note_dim name target (note_switch name "on" (if s.use_color then colored else st))

unfoldable pub target_level : World → LightSettings → LightMemo → String → Option Device → Option ℕ
target_level w s memo name device =
    if s.use_dim && device_has_capability device "SwitchLevel"
    then some (get_current_dim_level w s memo name)
    else none

-- `_turn_on_switch`
unfoldable pub turn_on_switch :
    World → LightSettings → String → String → Option Device → LightState → LightState × Bool
unfolding relevel turn_on_command lit
turn_on_switch w s device_id name device st =
    let target = target_level w s st.memo name device in
    let sent =
      when_verified (lit w s device_id name device target)
        (issue w (device_id, turn_on_command target) st) in
    if switch_reads device "on" then relevel w device_id name device target st else sent

-- `_turn_off_switch`
unfoldable pub turn_off_switch :
    World → String → String → Option Device → LightState → LightState × Bool
unfolding note_switch
turn_off_switch w device_id name device st =
    let sent = when_verified (note_switch name "off") (issue w (device_id, off) st) in
    if switch_reads device "off" then (st, false) else sent
