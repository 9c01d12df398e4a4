-- ===== src/Lighting.antt =====
-- apps/advanced_motion_lighting: the keep switches, from keep_switches/enforcement.py and
-- event_handlers/switch_override.py. The marks are those of Lifecycle, by device; a device without
-- one has the source 'unknown' of the code.
pub mod Override
pub mod Enforcement
pub mod Directed
pub mod Timeout
mod Scenarios
use mobius_smart_home.Prelude.{
  is_in, String, Bool, true, false, ◌&&◌, ◌||◌, not, Option, none, some, List, [], ◌∷◌, ◌++◌, Dict,
  get, put, any, str_eq, if◌then◌else◌,
}
use mobius_smart_home.Lifecycle.{Mark, Source, app, manual}

pub record KeepSettings : Type 0 where
  pub keep_off_switches : List String
  pub keep_on_switches : List String
  pub keep_off_enabled : Bool
  pub keep_on_enabled : Bool
  pub keep_off_modes : List String
  pub keep_on_modes : List String

-- A command of one cycle: the device, and whether it is to turn on.
abbrev pub Sent : Type 0
Sent = String × Bool

-- What one cycle reads: the current mode, `get_switch_state` (`none` also if it raises) and whether
-- `send_command` raises. The last two may depend on the commands sent before.
pub record House : Type 0 where
  pub current_mode : Option String
  pub get_switch_state : List Sent → String → Option String
  pub send_raises : List Sent → String → Bool → Bool

pub record KeepState : Type 0 where
  pub keep : Dict Mark
  pub sent : List Sent  -- commands, in their order

is_app : Source → Bool
is_app app = true
is_app manual = false

-- `source in ('manual', 'unknown')` does not hold
unfoldable pub enforceable : Option Mark → Bool
unfolding is_app
enforceable none = false
enforceable (some mark) = is_app mark.source

unfoldable pub reads_as : Bool → Option String → Bool
reads_as state none = false
reads_as state (some v) = str_eq v (if state then "on" else "off")

unfoldable pub force : House → Bool → String → KeepState → KeepState
force env state device st =
    let st' = record st { sent = st.sent ++ (device, state) ∷ [] } in
    if env.send_raises st.sent device state
    then st'
    else record st' { keep = put st.keep device (record { is_on = state; source = app }) }

-- One round of either loop: the device is to be in the state, and reads the opposite one.
unfoldable pub enforce_one : House → Bool → String → KeepState → KeepState
enforce_one env state device st =
    if reads_as (not state) (env.get_switch_state st.sent device)
      && enforceable (get st.keep device)
    then force env state device st
    else st

unfoldable pub enforce_each : House → Bool → List String → KeepState → KeepState
enforce_each env state [] st = st
enforce_each env state (device ∷ rest) st =
    enforce_each env state rest (enforce_one env state device st)

mode_in : Option String → List String → Bool
unfolding is_in
mode_in none modes = false
mode_in (some mode) modes = is_in mode modes

no_modes : List String → Bool
no_modes [] = true
no_modes (mode ∷ rest) = false

-- `enforce_off` and `enforce_on`
unfoldable pub enforces : Bool → List String → Option String → Bool
unfolding mode_in no_modes
enforces enabled modes mode = enabled && (no_modes modes || mode_in mode modes)

-- `set(a) - set(b)`, gone through in the order of `a`, each element at its last place; Python leaves
-- the order open.
unfoldable pub difference : List String → List String → List String
difference [] b = []
difference (x ∷ a) b =
    let rest = difference a b in if is_in x b || is_in x a then rest else x ∷ rest

-- `_enforce_keep_switches`
unfoldable pub enforce_keep_switches : KeepSettings → House → KeepState → KeepState
enforce_keep_switches s env st =
    let off = enforce_each env false s.keep_off_switches st in
    let after = if enforces s.keep_off_enabled s.keep_off_modes env.current_mode then off else st in
    let on = enforce_each env true (difference s.keep_on_switches s.keep_off_switches) after in
    if enforces s.keep_on_enabled s.keep_on_modes env.current_mode then on else after

-- `_handle_switch`; `updating` tells whether a command to the device is in flight.
unfoldable pub handle_switch : KeepSettings → Bool → String → String → KeepState → KeepState
handle_switch s updating device v st =
    let keep_off_override = is_in device s.keep_off_switches && str_eq v "on" in
    let keep_on_override = is_in device s.keep_on_switches && str_eq v "off" in
    let marked = record st {
      keep = put st.keep device (record { is_on = str_eq v "on"; source = manual });
    } in
    if updating then st else if keep_off_override || keep_on_override then marked else st

-- A cycle of `master` that comes to the keep switches, or a switch event of a running instance.
pub data KeepInput : Type 0 where
  cycle : House → KeepInput
  switch_event : Bool → String → String → KeepInput

unfoldable pub keep_step : KeepSettings → KeepInput → KeepState → KeepState
keep_step s (cycle env) st = enforce_keep_switches s env st
keep_step s (switch_event updating device v) st = handle_switch s updating device v st

unfoldable pub keep_run : KeepSettings → List KeepInput → KeepState → KeepState
keep_run s [] st = st
keep_run s (input ∷ rest) st = keep_run s rest (keep_step s input st)
