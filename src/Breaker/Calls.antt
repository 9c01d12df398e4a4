-- ===== src/Breaker/Calls.antt =====
-- services/circuit_breaker.py: a supervised call, and the interleavings of the callers' lock-guarded
-- sections.
use mobius_smart_home.Prelude.{ℕ, suc, String, Option, none, some, List, [], ◌∷◌}
use mobius_smart_home.Breaker.{
  CircuitBreaker, Refusal, before_call, record_failure, record_success, reset,
}

-- How the wrapped `fn()` ends. A `BaseException` that is no `Exception`, such as the
-- `CancelledError` of a cancelled task, passes by the handler `except Exception`.
pub data Outcome {ℓ} (A : Type ℓ) : Type ℓ where
  returned : A → Outcome A
  raised : String → Outcome A
  cancelled : Outcome A

pub data CallResult {ℓ} (A : Type ℓ) : Type ℓ where
  value : A → CallResult A
  failure : String → CallResult A
  aborted : CallResult A
  circuit_breaker_open : Refusal → CallResult A

module _ {ℓ} {A : Type ℓ} where
  finish : ℕ → Outcome A → CircuitBreaker → CircuitBreaker × CallResult A
  finish now (returned a) b = (record_success b, value a)
  finish now (raised reason) b = (record_failure now reason b, failure reason)
  finish now cancelled b = (b, aborted)

  admit : ℕ → Outcome A → CircuitBreaker → Option Refusal → CircuitBreaker × CallResult A
  unfolding finish
  admit end out b none = finish end out b
  admit end out b (some r) = (b, circuit_breaker_open r)

  -- `call_sync` and `call_async`, with no other caller between: `start` and `end` are the readings
  -- of the clock before and after `fn()`.
  unfoldable pub call : ℕ → ℕ → Outcome A → CircuitBreaker → CircuitBreaker × CallResult A
  unfolding admit
  call start end out b = let (b', r) = before_call start b in admit end out b' r

-- One lock-guarded section of one of many callers.
pub data Section : Type 0 where
  enter : ℕ → Section
  fail : ℕ → String → Section
  succeed : Section
  reset_by_operator : Section

unfoldable pub step : CircuitBreaker → Section → CircuitBreaker
step b (enter now) = (before_call now b).0
step b (fail now reason) = record_failure now reason b
step b succeed = record_success b
step b reset_by_operator = reset b

-- Any interleaving of any number of callers is a list of sections.
unfoldable pub run : CircuitBreaker → List Section → CircuitBreaker
run b [] = b
run b (s ∷ rest) = run (step b s) rest

count_admitted : Option Refusal → ℕ → ℕ
count_admitted none n = suc n
count_admitted (some _) n = n

-- How many of the callers that arrive at these times are let through, when none of them ends.
unfoldable pub admitted : CircuitBreaker → List ℕ → ℕ
unfolding count_admitted
admitted b [] = 0
admitted b (now ∷ rest) = let (b', r) = before_call now b in count_admitted r (admitted b' rest)

unfoldable pub enter_all : CircuitBreaker → List ℕ → CircuitBreaker
enter_all b [] = b
enter_all b (now ∷ rest) = enter_all (before_call now b).0 rest

module _ {ℓ} {A : Type ℓ} where
  -- Calls one after the other: the clock before, the clock after and the end of each.
  unfoldable pub call_all :
      CircuitBreaker → List (ℕ × ℕ × Outcome A) → CircuitBreaker × List (CallResult A)
  call_all b [] = (b, [])
  call_all b ((start, end, out) ∷ rest) =
      let (b1, r) = call start end out b in let (b2, rs) = call_all b1 rest in (b2, r ∷ rs)
