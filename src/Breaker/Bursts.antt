-- ===== src/Breaker/Bursts.antt =====
-- services/circuit_breaker.py: when failures and successes trip a closed breaker.
use mobius_smart_home.Prelude.{
  ℕ, zero, suc, ◌+◌, ◌<◌, ◌≡◌, String, Option, none, some, List, [], ◌∷◌, leb, length,
  if◌then◌else◌,
}
use mobius_smart_home.Breaker.{CircuitBreaker, closed, opened, record_success}
use mobius_smart_home.Breaker.Calls.{run}
use mobius_smart_home.Breaker.Trip.{failures, WithinWindow}

-- A success ends a burst of failures, and so does the end of the window that its first failure opened.
abbrev pub Anew : ℕ → Option ℕ → ℕ → ℕ → Type 0
Anew window none successes now = Unit
Anew window (some t) zero now = t + window < now
Anew window (some t) (suc successes) now = Unit

-- Successes, and then failures that one window counts: the first of them opens it, at `first`.
pub record Burst : Type 0 where
  pub successes : ℕ
  pub first : ℕ
  pub reason : String
  pub rest : List (ℕ × String)

succeed_first : ℕ → CircuitBreaker → CircuitBreaker
succeed_first zero b = b
succeed_first (suc n) b = succeed_first n (record_success b)

unfoldable pub run_burst : Burst → CircuitBreaker → CircuitBreaker
unfolding succeed_first
run_burst x b = run (succeed_first x.successes b) (failures ((x.first, x.reason) ∷ x.rest))

unfoldable pub run_bursts : List Burst → CircuitBreaker → CircuitBreaker
run_bursts [] b = b
run_bursts (x ∷ xs) b = run_bursts xs (run_burst x b)

-- The burst starts when the window opened at `opened_by` has ended, and lies in its own.
abbrev pub InOneWindow : ℕ → Option ℕ → Burst → Type 0
InOneWindow window opened_by x =
    Anew window opened_by x.successes x.first × WithinWindow (x.first + window) x.rest

-- Bursts one after the other, each of fewer failures than the threshold.
abbrev pub ShortBursts : ℕ → ℕ → Option ℕ → List Burst → Type 0
ShortBursts threshold window opened_by [] = Unit
ShortBursts threshold window opened_by (x ∷ xs) =
    InOneWindow window opened_by x
    × (suc (length x.rest) < threshold)
    × ShortBursts threshold window (some x.first) xs

-- When the window that counts was opened, after the bursts.
abbrev pub opened_after : Option ℕ → List Burst → Option ℕ
opened_after opened_by [] = opened_by
opened_after opened_by (x ∷ xs) = opened_after (some x.first) xs

-- What the first failure of a burst leaves.
Started : CircuitBreaker → ℕ → ℕ → ℕ → Type 0
Started b' now threshold window =
    (b'.failure_count ≡ 1)
    × (b'.first_failure_at ≡ some now)
    × (b'.fail_threshold ≡ threshold)
    × (b'.fail_window_secs ≡ window)
    × (b'.state ≡ (if leb threshold 1 then opened else closed))
