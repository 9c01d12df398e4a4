-- ===== src/Lights.antt =====
-- apps/advanced_motion_lighting: the motion-controlled lights, from light_control/ and
-- event_handlers/level_color_override.py. This file is the data, the dim level of a device and the
-- events of levels and colors; Lights/Switches and Lights/Control are the commands.
pub mod Switches
pub mod Control
pub mod Dimming
pub mod Confirmed
mod Scenarios
use mobius_smart_home.Prelude.{
  is_in, ℕ, String, Bool, true, false, ◌&&◌, not, Option, none, some, List, [], ◌∷◌, ◌++◌, Dict,
  get, put, any, ◌==◌, str_eq, if◌then◌else◌,
}
use mobius_smart_home.Lifecycle.{Source, app, manual}

-- An attribute that `int()` reads: missing, not a number, or a number.
pub data Raw : Type 0 where
  absent unreadable : Raw
  reads : ℕ → Raw

-- A device of the cache; its name is its label, or else its name, or else its id.
pub record Device : Type 0 where
  pub name : String
  pub switch : Option String
  pub level : Raw
  pub capabilities : List String

pub data Command : Type 0 where
  on off : Command
  set_level set_color_temperature : ℕ → Command
  set_color : ℕ → ℕ → Command

abbrev pub Sent : Type 0
Sent = String × Command

-- What `send_command` returns, as far as its fields `success` and `verified` tell, or that it raises.
pub data Answer : Type 0 where
  confirmed unconfirmed failed raised : Answer

-- What one cycle reads, depending on the commands sent before: the event log, by device, the cache, and
-- the answers to commands; with the current mode, `str.lower`, and whether the database takes the memo.
pub record World : Type 0 where
  pub latest_switch : List Sent → String → Option String
  pub latest_level : List Sent → String → Raw
  pub get_device_state : List Sent → String → Option Device
  pub answer : List Sent → Sent → Answer
  pub current_mode : Option String
  pub lower : String → String
  pub saves : Bool

pub record LightSettings : Type 0 where
  pub switches : List String
  pub keep_off_switches : List String
  pub keep_on_switches : List String
  pub memoize : Bool
  pub use_dim : Bool
  pub dim_with_mode : Bool
  pub mode_dim_levels : Dict ℕ
  pub default_dim_level : ℕ
  pub use_color : Bool
  pub color_preset : String
  pub custom_color_temperature : ℕ

-- An entry of `switch_state`, in the new form or the legacy one
pub data SwitchMemo : Type 0 where
  entry : String → Source → SwitchMemo
  legacy : String → SwitchMemo

pub record DimMemo : Type 0 where
  pub level : ℕ
  pub source : Source

pub data Color : Type 0 where
  temperature : ℕ → Source → Color
  color : ℕ → ℕ → Source → Color

-- `_memoization`, by the names of the devices
pub record LightMemo : Type 0 where
  pub switch_state : Dict SwitchMemo
  pub dim_level : Dict DimMemo
  pub color_state : Dict Color

-- `stored` is the copy in the database.
pub record LightState : Type 0 where
  pub memo : LightMemo
  pub stored : LightMemo
  pub sent : List Sent

-- `_device_has_capability`
unfoldable pub device_has_capability : Option Device → String → Bool
unfolding is_in
device_has_capability none c = false
device_has_capability (some d) c = is_in c d.capabilities

-- `send_command`
unfoldable pub issue : World → Sent → LightState → LightState × Answer
issue w c st = (record st { sent = st.sent ++ c ∷ [] }, w.answer st.sent c)

-- `_save_memoization`: a write that fails is logged only.
unfoldable pub save_memoization : Bool → LightState → LightState
save_memoization saves st = record st { stored = if saves then st.memo else st.stored }

pub is_manual : Source → Bool
is_manual app = false
is_manual manual = true

manual_level : Option DimMemo → Option ℕ
unfolding is_manual
manual_level none = none
manual_level (some e) = if is_manual e.source then some e.level else none

-- The fall-back to a key that differs in its case
find_mode : World → String → Dict ℕ → Option ℕ
find_mode w mode [] = none
find_mode w mode ((k, v) ∷ rest) =
    let found = find_mode w mode rest in if str_eq (w.lower k) (w.lower mode) then some v else found

or_else : Option ℕ → Option ℕ → Option ℕ
or_else none other = other
or_else (some l) other = some l

mode_level : World → Dict ℕ → Option String → Option ℕ
unfolding find_mode or_else
mode_level w levels none = none
mode_level w levels (some mode) =
    if str_eq mode "" then none else or_else (get levels mode) (find_mode w mode levels)

or_default : Option ℕ → ℕ → ℕ
or_default none l = l
or_default (some l) other = l

-- `_get_current_dim_level` without a manual override
unfoldable pub settings_dim_level : World → LightSettings → ℕ
unfolding mode_level or_default
settings_dim_level w s =
    or_default (if s.dim_with_mode then mode_level w s.mode_dim_levels w.current_mode else none)
      s.default_dim_level

-- `_get_current_dim_level`
unfoldable pub get_current_dim_level : World → LightSettings → LightMemo → String → ℕ
unfolding manual_level or_default
get_current_dim_level w s memo name =
    let override = if str_eq name "" then none else manual_level (get memo.dim_level name) in
    or_default override (settings_dim_level w s)

-- An event of a device: `value` is what `int()` reads.
pub record LevelEvent : Type 0 where
  pub event_type : String
  pub device_id : String
  pub device_name : String
  pub value : Option ℕ

memo_dim_override : Bool → String → Option ℕ → LightState → LightState
unfolding save_memoization
memo_dim_override saves name none st = st
memo_dim_override saves name (some level) st = save_memoization saves (record st {
  memo = record st.memo {
    dim_level = put st.memo.dim_level name (record { level = level; source = manual });
  };
})

memo_color_temp_override : Bool → String → Option ℕ → LightState → LightState
unfolding save_memoization
memo_color_temp_override saves name none st = st
memo_color_temp_override saves name (some temp) st = save_memoization saves (record st {
  memo = record st.memo { color_state = put st.memo.color_state name (temperature temp manual) };
})

-- `_handle_level_color`: whether the database takes the memo, the guard's answer, and
-- `_resolve_device_name` of the device
unfoldable pub handle_level_color :
    LightSettings → Bool → Bool → String → LevelEvent → LightState → LightState
unfolding memo_dim_override memo_color_temp_override
handle_level_color s saves is_updating resolved e st =
    let name = if str_eq e.device_name "" then resolved else e.device_name in
    if not (is_in e.device_id s.switches)
    then st
    else if is_updating
    then st
    else if str_eq e.event_type "level"
    then memo_dim_override saves name e.value st
    else if str_eq e.event_type "colorTemperature"
    then memo_color_temp_override saves name e.value st
    else st
