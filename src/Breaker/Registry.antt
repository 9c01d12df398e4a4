-- ===== src/Breaker/Registry.antt =====
-- services/circuit_breaker.py: the registry of named breakers. A breaker is a shared object; the
-- registry holds its state under its name, and a method's new state is stored back under it.
use mobius_smart_home.Prelude.{
  ℕ, String, ◌≡◌, refl, Option, none, some, List, [], ◌∷◌, arith, eq_iff, Dict, get, put, get-put,
  if◌then◌else◌, str_eq, sym, inl, inr, Bool-cases,
}
use mobius_smart_home.Breaker.{CircuitBreaker, new}
use mobius_smart_home.Breaker.Calls.{Section, step, run}

abbrev pub Registry : Type 0
Registry = Dict CircuitBreaker

or_create : Option CircuitBreaker → Registry → String → ℕ → ℕ → ℕ → Registry × CircuitBreaker
or_create (some existing) reg name threshold reset window = (reg, existing)
or_create none reg name threshold reset window =
    let breaker = new name threshold reset window in (put reg name breaker, breaker)

-- `get_breaker`
unfoldable pub get_breaker : Registry → String → ℕ → ℕ → ℕ → Registry × CircuitBreaker
unfolding or_create
get_breaker reg name threshold reset window =
    or_create (get reg name) reg name threshold reset window

-- One lock-guarded section of `get_breaker(name)`, with the default configuration.
unfoldable pub step_named : Registry → String → Section → Registry
step_named reg name s = let (reg', b) = get_breaker reg name 5 30 60 in put reg' name (step b s)

unfoldable pub run_named : Registry → List (String × Section) → Registry
run_named reg [] = reg
run_named reg ((name, s) ∷ rest) = run_named (step_named reg name s) rest

-- The sections of one name, in their order.
unfoldable pub sections_of : String → List (String × Section) → List Section
sections_of name [] = []
sections_of name ((j, s) ∷ rest) =
    if str_eq j name then s ∷ sections_of name rest else sections_of name rest

-- The breaker that the next `get_breaker` of a name gives, under the default configuration.
unfoldable pub breaker_of : Registry → String → CircuitBreaker
breaker_of reg name = (get_breaker reg name 5 30 60).1

-- The configuration counts only on the first `get_breaker` of a name: a later one, whatever its
-- arguments, returns the same breaker and leaves the registry as it is.
pub get_breaker_again :
    (reg : Registry) (name : String) (threshold reset window threshold' reset' window' : ℕ)
    → let first = get_breaker reg name threshold reset window in
      get_breaker first.0 name threshold' reset' window' ≡ (first.0, first.1)
unfolding get_breaker
get_breaker_again reg name threshold reset window threshold' reset' window' =
    ground (arith, get-put reg name name (new name threshold reset window), eq_iff name name)

abbrev given : Option CircuitBreaker → String → CircuitBreaker
given (some b) name = b
given none name = new name 5 30 60

breaker_of-get : (reg : Registry) (name : String) → breaker_of reg name ≡ given (get reg name) name
unfolding breaker_of get_breaker
breaker_of-get reg name = ground arith

get-step_named :
    (reg : Registry) (name j : String) (s : Section)
    → get (step_named reg j s) name
      ≡ (if str_eq j name then some (step (breaker_of reg j) s) else get reg name)
unfolding step_named get_breaker breaker_of
get-step_named reg name j s = ground (
  arith,
  get-put (put reg j (new j 5 30 60)) j name (step (new j 5 30 60) s),
  get-put reg j name (step (breaker_of reg j) s),
  get-put reg j name (new j 5 30 60),
)

breaker_of-step_named :
    (reg : Registry) (name j : String) (s : Section)
    → breaker_of (step_named reg j s) name
      ≡ (if str_eq j name then step (breaker_of reg name) s else breaker_of reg name)
breaker_of-step_named reg name j s = elim (Bool-cases (str_eq j name)) [
  | inl same ↦
      rw (breaker_of-get (step_named reg j s) name, get-step_named reg name j s, same)
        (rw ((eq_iff j name).0 same))
  | inr other ↦
      rw (breaker_of-get (step_named reg j s) name, get-step_named reg name j s, other)
        (sym (breaker_of-get reg name))
]

-- Breakers are independent: after any interleaving of sections over all the names, the breaker of a
-- name is the one that its own sections alone make of it.
run_named-independent :
    (reg : Registry) (name : String) (ss : List (String × Section))
    → breaker_of (run_named reg ss) name ≡ run (breaker_of reg name) (sections_of name ss)
unfolding run_named sections_of run
run_named-independent reg name [] = refl
run_named-independent reg name ((j, s) ∷ rest) = ground (
  arith,
  run_named-independent (step_named reg j s) name rest,
  breaker_of-step_named reg name j s,
)
