-- ===== src/Rules.antt =====
-- apps/rules: the declarative rules. This file is apps/rules/schema.py; the interpreter and its
-- theorems are the modules below.
pub mod Host
pub mod Interpreter
pub mod Pause
pub mod Plan
pub mod Toggle
pub mod Debounce
pub mod Presets
mod Scenarios
use mobius_smart_home.Prelude.{ℕ, String, Option, none, some, List, [], ◌∷◌, Dict}

-- `Literal["on", "off"]`
pub data Target : Type 0 where
  on off : Target

pub record Trigger : Type 0 where
  pub device_category : String
  pub event_type : String
  pub value : Option String

-- The discriminated union `Action`, with the fields of each kind in their order.
pub data Action : Type 0 where
  set_state : String → Target → Action
  toggle_uniform : String → Action
  toggle_independent : String → Action
  set_mode : String → Action

-- The field `do` is `actions` here.
pub record Rule : Type 0 where
  pub when : Trigger
  pub actions : List Action
  pub description : Option String

-- `debounce_per_event` holds whole seconds; a negative number acts as 0 does.
pub record RuleSpec : Type 0 where
  pub rules : List Rule
  pub debounce_per_event : Dict ℕ
