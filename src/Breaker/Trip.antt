-- ===== src/Breaker/Trip.antt =====
-- services/circuit_breaker.py: when a closed breaker trips.
use mobius_smart_home.Prelude.{
  ℕ, suc, ◌+◌, ◌≤◌, ◌<◌, ◌≡◌, String, Option, none, some, List, [], ◌∷◌, arith, leb, All, length,
  if◌then◌else◌, Bool-cases, inl, inr,
}
use mobius_smart_home.Breaker.{CircuitBreaker, closed, opened, record_failure}
use mobius_smart_home.Breaker.Calls.{Section, fail, step, run}

-- Failures at these times, each with its reason.
abbrev pub failures : List (ℕ × String) → List Section
failures [] = []
failures ((now, reason) ∷ rest) = fail now reason ∷ failures rest

fail_opened :
    (b : CircuitBreaker) (now : ℕ) (reason : String)
    → b.state ≡ opened
    → (record_failure now reason b).state ≡ opened
unfolding record_failure
fail_opened b now reason o = ground arith

pub run_opened :
    (b : CircuitBreaker) (ts : List (ℕ × String))
    → b.state ≡ opened
    → (run b (failures ts)).state ≡ opened
unfolding run step
run_opened b [] o = o
run_opened b ((now, reason) ∷ rest) o =
    run_opened (record_failure now reason b) rest (fail_opened b now reason o)

abbrev pub WithinWindow : ℕ → List (ℕ × String) → Type 0
WithinWindow limit = All (λ (t : ℕ × String). t.0 ≤ limit)

fail_within :
    (b : CircuitBreaker) (t0 now : ℕ) (reason : String)
    → b.state ≡ closed
    → b.first_failure_at ≡ some t0
    → now ≤ t0 + b.fail_window_secs
    → let b' = record_failure now reason b in
      (b'.failure_count ≡ suc b.failure_count)
      × (b'.first_failure_at ≡ some t0)
      × (b'.fail_threshold ≡ b.fail_threshold)
      × (b'.fail_window_secs ≡ b.fail_window_secs)
      × (b'.state ≡ (if leb b.fail_threshold (suc b.failure_count) then opened else closed))
unfolding record_failure
fail_within b t0 now reason c f h = ground arith

pub run_within :
    (b : CircuitBreaker) (t0 : ℕ) (ts : List (ℕ × String))
    → b.state ≡ closed
    → b.first_failure_at ≡ some t0
    → b.failure_count < b.fail_threshold
    → WithinWindow (t0 + b.fail_window_secs) ts
    → (run b (failures ts)).state
      ≡ (if leb b.fail_threshold (b.failure_count + length ts) then opened else closed)
unfolding run step
run_within b t0 [] c f below w = ground arith
run_within b t0 ((now, reason) ∷ rest) c f below w =
    let (count, first, threshold, window, state) = fail_within b t0 now reason c f w.0 in
    let b' = record_failure now reason b in
    elim (Bool-cases (leb b.fail_threshold (suc b.failure_count))) [
      | inl full ↦ ground (arith, run_opened b' rest (ground arith))
      | inr room ↦
          ground (arith, run_within b' t0 rest (ground arith) first (ground arith) (rw window w.1))
    ]

fail_fresh :
    (b : CircuitBreaker) (now : ℕ) (reason : String)
    → b.state ≡ closed
    → b.first_failure_at ≡ none
    → let b' = record_failure now reason b in
      (b'.failure_count ≡ 1)
      × (b'.first_failure_at ≡ some now)
      × (b'.fail_threshold ≡ b.fail_threshold)
      × (b'.fail_window_secs ≡ b.fail_window_secs)
      × (b'.state ≡ (if leb b.fail_threshold 1 then opened else closed))
unfolding record_failure
fail_fresh b now reason c f = ground arith

pub record Counting (b : CircuitBreaker) (first : Option ℕ) (threshold window : ℕ) : Type 0 where
  pub state : b.state ≡ closed
  pub same_first : b.first_failure_at ≡ first
  pub same_threshold : b.fail_threshold ≡ threshold
  pub same_window : b.fail_window_secs ≡ window

pub run-Counting :
    (b : CircuitBreaker) (t0 threshold window : ℕ) (ts : List (ℕ × String))
    → Counting b (some t0) threshold window
    → b.failure_count + length ts < threshold
    → WithinWindow (t0 + window) ts
    → Counting (run b (failures ts)) (some t0) threshold window
unfolding run step
run-Counting b t0 threshold window [] counting below w = counting
run-Counting b t0 threshold window ((now, reason) ∷ rest) counting below w =
    let facts = fail_within b t0 now reason counting.state counting.same_first (ground arith) in
    run-Counting (record_failure now reason b) t0 threshold window rest (ground (arith, facts))
      (ground (arith, facts)) w.1

-- Each failure comes more than the window after the one before.
abbrev Spaced : ℕ → ℕ → List (ℕ × String) → Type 0
Spaced window last [] = Unit
Spaced window last ((now, reason) ∷ rest) = (last + window < now) × Spaced window now rest

fail_late :
    (b : CircuitBreaker) (t0 now : ℕ) (reason : String)
    → 1 < b.fail_threshold
    → b.state ≡ closed
    → b.first_failure_at ≡ some t0
    → t0 + b.fail_window_secs < now
    → let b' = record_failure now reason b in
      (b'.failure_count ≡ 1)
      × (b'.first_failure_at ≡ some now)
      × (b'.state ≡ closed)
      × (b'.fail_threshold ≡ b.fail_threshold)
      × (b'.fail_window_secs ≡ b.fail_window_secs)
unfolding record_failure
fail_late b t0 now reason pos c f h = ground arith

-- Failures that each come more than `fail_window_secs` after the one before, however many, never trip
-- a closed breaker whose threshold is above one.
slow_failures_never_trip :
    (b : CircuitBreaker) (t0 : ℕ) (ts : List (ℕ × String))
    → 1 < b.fail_threshold
    → b.state ≡ closed
    → b.first_failure_at ≡ some t0
    → Spaced b.fail_window_secs t0 ts
    → (run b (failures ts)).state ≡ closed
unfolding run step
slow_failures_never_trip b t0 [] pos c f s = c
slow_failures_never_trip b t0 ((now, reason) ∷ rest) pos c f s =
    let (count, first, state, threshold, window) = fail_late b t0 now reason pos c f s.0 in
    slow_failures_never_trip (record_failure now reason b) now rest (rw threshold pos) state first
      (rw window s.1)

-- The window does not roll: it starts at the first failure it counts. Once a failure comes after its
-- end, the count restarts at one, however many of the earlier failures lie within a window's length
-- of that failure; so those cannot add up to a trip.
window_restarts :
    (b : CircuitBreaker) (t0 : ℕ) (reason : String) (ts : List (ℕ × String)) (late : ℕ)
    (last : String)
    → suc (length ts) < b.fail_threshold
    → b.state ≡ closed
    → b.first_failure_at ≡ none
    → WithinWindow (t0 + b.fail_window_secs) ts
    → t0 + b.fail_window_secs < late
    → let b' = record_failure late last (run b (failures ((t0, reason) ∷ ts))) in
      (b'.state ≡ closed) × (b'.failure_count ≡ 1)
unfolding run step
window_restarts b t0 reason ts late last room c f w h =
    let facts = fail_fresh b t0 reason c f in
    let b' = record_failure t0 reason b in
    let counting =
      run-Counting b' t0 b.fail_threshold b.fail_window_secs ts (ground (arith, facts))
        (ground (arith, facts)) w in
    ground (arith, fail_late (run b' (failures ts)) t0 late last)
