-- ===== src/Breaker/Scenarios.antt =====
-- services/circuit_breaker.py: the theorems at concrete breakers, and tests.
use mobius_smart_home.Prelude.{
  ℕ, ◌≡◌, refl, String, Bool, true, false, none, some, List, [], ◌∷◌, arith,
}
use mobius_smart_home.Breaker.{
  CircuitBreaker, closed, opened, new, before_call, record_failure, record_success,
}
use mobius_smart_home.Breaker.Calls.{
  Section, step, enter, fail, succeed, Outcome, returned, run, admitted,
}
use mobius_smart_home.Breaker.Invariant.{IsValid, new-IsValid, run-IsValid}
use mobius_smart_home.Breaker.Bursts.{Burst}
use mobius_smart_home.Breaker.Probe.{admitted-opened}

abbrev hub : CircuitBreaker
hub = record {
  name = "hub";
  fail_threshold = 3;
  reset_timeout_secs = 30;
  fail_window_secs = 60;
  state = closed;
  failure_count = 0;
  first_failure_at = none;
  opened_at = none;
  last_failure_at = none;
  last_failure_reason = none;
  probe_in_flight = false;
}

abbrev tripped : CircuitBreaker
tripped = record hub {
  state = opened;
  failure_count = 3;
  first_failure_at = some 1;
  opened_at = some 100;
}

abbrev counting : CircuitBreaker
counting = record hub { failure_count = 1; first_failure_at = some 1 }

abbrev late_results : List Section
late_results =
    enter 1
    ∷ enter 2
    ∷ fail 3 "timeout"
    ∷ fail 4 "timeout"
    ∷ fail 5 "timeout"
    ∷ enter 40
    ∷ succeed
    ∷ fail 41 "late"
    ∷ []

late_results_close : (run hub late_results).state ≡ closed
unfolding run step before_call record_failure record_success
late_results_close = refl

run-IsValid_example : IsValid (run (new "hub" 3 30 60) late_results)
run-IsValid_example =
    run-IsValid (new "hub" 3 30 60) late_results (new-IsValid "hub" 3 30 60 (omega arith))

-- Two failures, two successes, two failures, and three after the window of those.
abbrev two_short : List Burst
two_short =
    record { successes = 0; first = 1; reason = "timeout"; rest = (2, "timeout") ∷ [] }
    ∷ record { successes = 2; first = 3; reason = "timeout"; rest = (63, "timeout") ∷ [] }
    ∷ []

abbrev enough : Burst
enough = record {
  successes = 0;
  first = 64;
  reason = "timeout";
  rest = (70, "timeout") ∷ (124, "timeout") ∷ [];
}

admitted-opened_example : admitted tripped (110 ∷ 131 ∷ 131 ∷ 140 ∷ []) ≡ 1
admitted-opened_example = admitted-opened tripped 100 (110 ∷ 131 ∷ 131 ∷ 140 ∷ []) refl refl

abbrev later_calls : List (ℕ × ℕ × Outcome Bool)
later_calls = (1000, 1001, returned true) ∷ (100000, 100001, returned true) ∷ []

abbrev two_hubs : List (String × Section)
two_hubs = ("hub_69", fail 1 "timeout") ∷ ("hub_72", fail 2 "timeout") ∷ ("hub_69", succeed) ∷ []
