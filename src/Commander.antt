-- ===== src/Commander.antt =====
-- services/device_commander.py and models/command.py: sending a command to a device, with retries and
-- the verification of the state. This file is the data, the status table and the breaker of the
-- verification; the execution is Commander/Execute. Times are in milliseconds.
pub mod Execute
pub mod Status
pub mod Verified
pub mod Backoff
pub mod Overrides
mod Scenarios
use mobius_smart_home.Prelude.{
  ℕ, suc, ◌+◌, String, Bool, true, false, Option, none, some, Dict, get, put, remove, leb, ltb,
  str_eq, if◌then◌else◌, List, [], ◌∷◌, ◌++◌,
}

pub data CommandStatus : Type 0 where
  idle updating verified failed timeout : CommandStatus

-- The texts of `error`, by the place that writes them.
pub data CommandError : Type 0 where
  send_exception send_returned_false overall_timeout verification_failed : CommandError
  verify_backoff : CommandError

-- `retries_used` is two fields here.
pub record CommandResult : Type 0 where
  pub success : Bool
  pub is_verified : Bool
  pub status : CommandStatus
  pub actual_state : Option String
  pub expected_state : Option String
  pub outer_retries : Option ℕ
  pub verify_retries : Option ℕ
  pub error : Option CommandError
  pub matter_sent : Bool

abbrev pub new_result : CommandResult
new_result = record {
  success = false;
  is_verified = false;
  status = idle;
  actual_state = none;
  expected_state = none;
  outer_retries = none;
  verify_retries = none;
  error = none;
  matter_sent = false;
}

pub record Expected : Type 0 where
  pub attribute : String
  pub value : String

-- `resolve_expected_state`, with the first argument as `str()` gives it
unfoldable pub resolve_expected_state : String → Option String → Option Expected
resolve_expected_state command arg =
    if str_eq command "on"
    then some (record { attribute = "switch"; value = "on" })
    else if str_eq command "off"
    then some (record { attribute = "switch"; value = "off" })
    else if str_eq command "setLevel"
    then some (record { attribute = "switch"; value = "on" })
    else if str_eq command "setColorTemperature"
    then some (record {
      attribute = "colorTemperature";
      value = elim arg [ none ↦ "{arg0}" | some a ↦ a ];
    })
    else none

-- An entry of `_verify_breaker`
pub record VerifyBreaker : Type 0 where
  pub fails : ℕ
  pub opened : ℕ

pub record Config : Type 0 where
  pub operation_retries : ℕ
  pub verify_retries : ℕ
  pub command_timeout : ℕ
  pub verify_fail_threshold : ℕ
  pub verify_backoff : ℕ

-- The commander's shared tables, the commands sent to a hub (the device, in their order) and the
-- verified values written to the device cache.
pub record Commander : Type 0 where
  pub device_status : Dict CommandStatus
  pub breakers : Dict VerifyBreaker
  pub sent : List String
  pub cached : List (String × String × String)

or_idle : Option CommandStatus → CommandStatus
or_idle none = idle
or_idle (some s) = s

-- `get_device_status`
unfoldable pub get_device_status : Commander → String → CommandStatus
unfolding or_idle
get_device_status c device = or_idle (get c.device_status device)

-- `_set_device_status`, in memory
unfoldable pub set_device_status : String → CommandStatus → Commander → Commander
set_device_status device status c = record c { device_status = put c.device_status device status }

is_open : Option VerifyBreaker → Config → ℕ → Bool
is_open none cfg now = false
is_open (some b) cfg now =
    if ltb b.fails cfg.verify_fail_threshold then false else ltb now (b.opened + cfg.verify_backoff)

-- `_verify_backoff_active`
unfoldable pub verify_backoff_active : Config → Commander → String → ℕ → Bool
unfolding is_open
verify_backoff_active cfg c device now = is_open (get c.breakers device) cfg now

abbrev pub breaker_or_new : Option VerifyBreaker → VerifyBreaker
breaker_or_new none = record { fails = 0; opened = 0 }
breaker_or_new (some b) = b

-- The entry after one more failure
unfoldable pub one_more_failure : Config → ℕ → VerifyBreaker → VerifyBreaker
one_more_failure cfg now b =
    let fails = suc b.fails in
    record { fails = fails; opened = if leb cfg.verify_fail_threshold fails then now else b.opened }

-- `_record_verify_result`
unfoldable pub record_verify_result : Config → String → Bool → ℕ → Commander → Commander
record_verify_result cfg device ok now c =
    if ok then record c { breakers = remove c.breakers device } else record c {
      breakers =
          put c.breakers device (one_more_failure cfg now (breaker_or_new (get c.breakers device)));
    }

-- `_update_cache_after_verify`
unfoldable pub update_cache : String → Expected → Commander → Commander
update_cache device e c = record c { cached = c.cached ++ (device, e.attribute, e.value) ∷ [] }
