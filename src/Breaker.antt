-- ===== src/Breaker.antt =====
-- services/circuit_breaker.py: the circuit breaker's state and its methods. Times are readings of the
-- monotonic clock in any fixed unit; a difference `now - t >= d` is written `t + d <= now`.
pub mod Calls
pub mod Invariant
pub mod Probe
pub mod Trip
pub mod Bursts
pub mod Registry
mod Scenarios
use mobius_smart_home.Prelude.{
  ℕ, suc, ◌+◌, String, Bool, true, false, Option, none, some, ltb, leb, if◌then◌else◌,
}

pub data BreakerState : Type 0 where
  closed opened half_open : BreakerState

pub record CircuitBreaker : Type 0 where
  pub name : String
  pub fail_threshold : ℕ
  pub reset_timeout_secs : ℕ
  pub fail_window_secs : ℕ
  pub state : BreakerState
  pub failure_count : ℕ
  pub first_failure_at : Option ℕ
  pub opened_at : Option ℕ
  pub last_failure_at : Option ℕ
  pub last_failure_reason : Option String
  pub probe_in_flight : Bool

-- `CircuitBreaker.__init__`
unfoldable pub new : String → ℕ → ℕ → ℕ → CircuitBreaker
new name fail_threshold reset_timeout_secs fail_window_secs = record {
  name = name;
  fail_threshold = fail_threshold;
  reset_timeout_secs = reset_timeout_secs;
  fail_window_secs = fail_window_secs;
  state = closed;
  failure_count = 0;
  first_failure_at = none;
  opened_at = none;
  last_failure_at = none;
  last_failure_reason = none;
  probe_in_flight = false;
}

-- Why `CircuitBreakerOpen` is raised.
pub data Refusal : Type 0 where
  cooling_down probe_already_in_flight : Refusal

-- `_opened_at is not None and now - _opened_at >= reset_timeout_secs`
cooldown_elapsed : Option ℕ → ℕ → ℕ → Bool
cooldown_elapsed none reset now = false
cooldown_elapsed (some t) reset now = leb (t + reset) now

gate : BreakerState → ℕ → CircuitBreaker → CircuitBreaker × Option Refusal
unfolding cooldown_elapsed
gate closed now b = (b, none)
gate opened now b =
    if cooldown_elapsed b.opened_at b.reset_timeout_secs now
    then (record b { state = half_open; probe_in_flight = true }, none)
    else (b, some cooling_down)
gate half_open now b =
    if b.probe_in_flight
    then (b, some probe_already_in_flight)
    else (record b { probe_in_flight = true }, none)

-- `_before_call`: `none` admits the caller.
unfoldable pub before_call : ℕ → CircuitBreaker → CircuitBreaker × Option Refusal
unfolding gate
before_call now b = gate b.state now b

-- `_first_failure_at is None or now - _first_failure_at > fail_window_secs`
window_expired : Option ℕ → ℕ → ℕ → Bool
window_expired none window now = true
window_expired (some t) window now = ltb (t + window) now

accumulate : ℕ → CircuitBreaker → CircuitBreaker
unfolding window_expired
accumulate now b =
    if window_expired b.first_failure_at b.fail_window_secs now
    then record b { first_failure_at = some now; failure_count = 1 }
    else record b { failure_count = suc b.failure_count }

trip : ℕ → CircuitBreaker → CircuitBreaker
trip now b =
    if leb b.fail_threshold b.failure_count
    then record b { state = opened; opened_at = some now }
    else b

fail_in : BreakerState → ℕ → CircuitBreaker → CircuitBreaker
unfolding accumulate trip
fail_in half_open now b = record b { probe_in_flight = false; state = opened; opened_at = some now }
fail_in closed now b = trip now (accumulate now b)
fail_in opened now b = trip now (accumulate now b)

-- `_record_failure`; `reason` is the text of the exception, as the code formats it.
unfoldable pub record_failure : ℕ → String → CircuitBreaker → CircuitBreaker
unfolding fail_in
record_failure now reason b =
    fail_in b.state now (record b { last_failure_at = some now; last_failure_reason = some reason })

succeed_in : BreakerState → CircuitBreaker → CircuitBreaker
succeed_in half_open b = record b {
  probe_in_flight = false;
  state = closed;
  failure_count = 0;
  first_failure_at = none;
  opened_at = none;
}
succeed_in closed b = record b { failure_count = 0; first_failure_at = none }
succeed_in opened b = record b { failure_count = 0; first_failure_at = none }

-- `_record_success`
unfoldable pub record_success : CircuitBreaker → CircuitBreaker
unfolding succeed_in
record_success b = succeed_in b.state b

-- `reset`
unfoldable pub reset : CircuitBreaker → CircuitBreaker
reset b = record b {
  state = closed;
  failure_count = 0;
  first_failure_at = none;
  opened_at = none;
  probe_in_flight = false;
}
