-- ===== src/Rules/Host.antt =====
-- apps/rules/interpreter.py: `RuleHost`, what the interpreter assumes about the app that it runs in,
-- and the record of what a run does. Device ids are taken as their `str()`.
use mobius_smart_home.Prelude.{ℕ, String, Bool, Option, List, Dict}
use mobius_smart_home.Rules.{Target}

pub record DeviceState : Type 0 where
  pub attributes : Option (Dict String)

pub record CommandResult : Type 0 where
  pub success : Bool
  pub verified : Bool

pub data SendOutcome : Type 0 where
  completed : CommandResult → SendOutcome
  send_raised : SendOutcome

-- What the code reads from the hub's client: `none` is a raised exception. Each answer may depend on the modes set before.
pub record HubClient : Type 0 where
  pub get_current_mode : List String → Option String
  -- (id, name), in the hub's order; `None` is the empty list
  pub get_modes : List String → Option (List (String × String))

-- Another thread may pause the app at any moment: `is_paused n` is what the n-th reading of the flag
-- gives. The cached state and the result of a command may depend on all commands sent before.
pub record Host : Type 0 where
  pub is_paused : ℕ → Bool
  pub get_devices : String → List String
  pub get_device_state : List (String × Target) → String → Option DeviceState
  pub send_command : List (String × Target) → String → Target → SendOutcome
  pub client : HubClient

-- The log line of one command.
pub data Report : Type 0 where
  verified_ok unverified failed raised : Report

pub record World : Type 0 where
  pub reads : ℕ  -- readings of the pause flag
  pub activity : ℕ  -- calls of `update_last_activity`
  pub sent : List (String × Target)  -- commands, in their order
  pub reports : List (String × Report)
  pub modes_set : List String  -- mode ids given to `set_mode`
