-- ===== src/Breaker/Probe.antt =====
-- services/circuit_breaker.py: fail-fast while the breaker cools down, and the single probe.
use mobius_smart_home.Prelude.{
  ℕ, suc, ◌+◌, ◌≤◌, ◌≡◌, refl, inl, inr, String, true, false, none, some, List, [], ◌∷◌, map, arith,
  leb, any, if◌then◌else◌, Bool-cases, le→leb, ◌||◌, ap,
}
use mobius_smart_home.Breaker.{
  CircuitBreaker, closed, opened, half_open, cooling_down, probe_already_in_flight, before_call,
  record_failure, record_success,
}
use mobius_smart_home.Breaker.Calls.{
  Outcome, returned, raised, cancelled, value, failure, circuit_breaker_open, call, call_all,
  admitted,
}

module _ (b : CircuitBreaker) (half : b.state ≡ half_open) (busy : b.probe_in_flight ≡ true) where
  pub before_call-probing : (now : ℕ) → before_call now b ≡ (b, some probe_already_in_flight)
  unfolding before_call
  before_call-probing now = ground arith

  pub admitted-probing : (times : List ℕ) → admitted b times ≡ 0
  unfolding admitted
  admitted-probing [] = refl
  admitted-probing (now ∷ rest) = rw (before_call-probing now) (admitted-probing rest)

  call-probing {ℓ} :
      {A : Type ℓ} (start end : ℕ) (out : Outcome A)
      → call start end out b ≡ (b, circuit_breaker_open probe_already_in_flight)
  unfolding call
  call-probing start end out = rw (before_call-probing start)

  pub call_all-probing {ℓ} :
      {A : Type ℓ} (calls : List (ℕ × ℕ × Outcome A))
      → call_all b calls ≡ (b, map (λ _. circuit_breaker_open probe_already_in_flight) calls)
  unfolding call_all
  call_all-probing [] = refl
  call_all-probing ((start, end, out) ∷ rest) =
      rw (call-probing start end out) (rw (call_all-probing rest))

module _ (b : CircuitBreaker) (t now : ℕ) (o : b.state ≡ opened) (at : b.opened_at ≡ some t) where
  before_call-elapsed :
      leb (t + b.reset_timeout_secs) now ≡ true
      → before_call now b ≡ (record b { state = half_open; probe_in_flight = true }, none)
  unfolding before_call
  before_call-elapsed h = ground arith

  before_call-cooling :
      leb (t + b.reset_timeout_secs) now ≡ false → before_call now b ≡ (b, some cooling_down)
  unfolding before_call
  before_call-cooling h = ground arith

-- As long as no call that was admitted earlier ends, and the operator does not reset it, a breaker that
-- opened at `t` admits at most one of the callers that arrive, at any times and in any number, before the
-- probe ends: none if all arrive during the cooldown, and exactly one otherwise.
pub admitted-opened :
    (b : CircuitBreaker) (t : ℕ) (times : List ℕ)
    → b.state ≡ opened
    → b.opened_at ≡ some t
    → admitted b times ≡ (if any (λ now. leb (t + b.reset_timeout_secs) now) times then 1 else 0)
unfolding admitted
admitted-opened b t [] o at = refl
admitted-opened b t (now ∷ rest) o at = elim (Bool-cases (leb (t + b.reset_timeout_secs) now)) [
  | inl elapsed ↦
      rw (before_call-elapsed b t now o at elapsed)
        (rw (elapsed, ◌||◌) (ap suc (admitted-probing _ refl refl rest)))
  | inr cooling ↦
      rw (before_call-cooling b t now o at cooling)
        (rw (cooling, ◌||◌) (admitted-opened b t rest o at))
]

-- The first call after the cooldown is the probe: its success closes the breaker and clears the
-- counters, its failure starts a new cooldown from the moment it failed.
call_after_cooldown {ℓ} :
    {A : Type ℓ} (b : CircuitBreaker) (t start end : ℕ) (a : A) (reason : String)
    → b.state ≡ opened
    → b.opened_at ≡ some t
    → t + b.reset_timeout_secs ≤ start
    → let ok = call start end (returned a) b in
      let bad = call {A = A} start end (raised reason) b in
      (ok.1 ≡ value a)
      × (ok.0.state ≡ closed)
      × (ok.0.failure_count ≡ 0)
      × (ok.0.probe_in_flight ≡ false)
      × (bad.1 ≡ failure reason)
      × (bad.0.state ≡ opened)
      × (bad.0.opened_at ≡ some end)
      × (bad.0.probe_in_flight ≡ false)
unfolding call before_call record_success record_failure
call_after_cooldown b t start end a reason o at h = ground arith

-- A probe that is cancelled, so that neither handler runs, leaves the breaker half-open with its
-- probe in flight: from then on every call is refused, at whatever time it is made and however
-- its function would end, and the breaker does not change.
pub cancelled_probe_wedges {ℓ} :
    {A : Type ℓ} (b : CircuitBreaker) (t start end : ℕ) (calls : List (ℕ × ℕ × Outcome A))
    → b.state ≡ opened
    → b.opened_at ≡ some t
    → t + b.reset_timeout_secs ≤ start
    → let wedged = (call {A = A} start end cancelled b).0 in
      call_all wedged calls
      ≡ (wedged, map (λ _. circuit_breaker_open probe_already_in_flight) calls)
unfolding call
cancelled_probe_wedges b t start end calls o at h =
    rw (before_call-elapsed b t start o at (le→leb _ _ h)) (call_all-probing _ refl refl calls)
