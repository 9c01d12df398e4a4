-- ===== src/Breaker/Invariant.antt =====
-- services/circuit_breaker.py: what holds of a breaker between any two lock-guarded sections.
use mobius_smart_home.Prelude.{ℕ, ◌<◌, ◌≡◌, ◌≢◌, true, false, none, List, [], ◌∷◌, arith, String}
use mobius_smart_home.Breaker.{
  CircuitBreaker, closed, half_open, new, before_call, record_failure, record_success, reset,
}
use mobius_smart_home.Breaker.Calls.{Section, enter, fail, succeed, reset_by_operator, step, run}

pub record IsValid (b : CircuitBreaker) : Type 0 where
  pub threshold_positive : 0 < b.fail_threshold
  pub below_threshold : b.state ≡ closed → b.failure_count < b.fail_threshold
  pub window_started : 0 < b.failure_count → b.first_failure_at ≢ none
  pub window_idle : b.failure_count ≡ 0 → b.first_failure_at ≡ none
  pub cooling_since : b.state ≢ closed → b.opened_at ≢ none
  pub not_cooling : b.state ≡ closed → b.opened_at ≡ none
  pub probing : b.state ≡ half_open → b.probe_in_flight ≡ true
  pub no_probe : b.state ≢ half_open → b.probe_in_flight ≡ false

pub new-IsValid :
    (name : String) (threshold reset window : ℕ)
    → 0 < threshold
    → IsValid (new name threshold reset window)
unfolding new
new-IsValid name threshold reset window h = ground arith

step-IsValid : (b : CircuitBreaker) (s : Section) → IsValid b → IsValid (step b s)
unfolding step before_call record_failure record_success reset
step-IsValid b (enter now) v = ground arith
step-IsValid b (fail now reason) v = ground arith
step-IsValid b succeed v = ground arith
step-IsValid b reset_by_operator v = ground arith

-- Whatever the callers do and however their sections interleave, late results and resets included,
-- a valid breaker stays valid: closed below its threshold and with no cooldown, otherwise with a
-- cooldown; a probe in flight exactly in the half-open state; a failure window exactly when
-- failures are counted.
pub run-IsValid : (b : CircuitBreaker) (ss : List Section) → IsValid b → IsValid (run b ss)
unfolding run
run-IsValid b [] v = v
run-IsValid b (s ∷ rest) v = run-IsValid (step b s) rest (step-IsValid b s v)
