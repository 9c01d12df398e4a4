-- ===== src/Commander/Backoff.antt =====
-- services/device_commander.py: the breaker of the verification over a series of commands to one device.
use mobius_smart_home.Prelude.{
  ℕ, zero, suc, ◌+◌, ◌≤◌, ◌<◌, ◌≡◌, ◌≢◌, refl, ◌∙◌, String, true, false, some, arith, ap, get, List,
  [], ◌∷◌, ◌++◌, length, length-append, All, Dict,
}
use mobius_smart_home.Commander.{
  CommandResult, new_result, failed, timeout, updating, verify_backoff, Expected, Config, Commander,
  VerifyBreaker, breaker_or_new, set_device_status, verify_backoff_active,
}
use mobius_smart_home.Commander.Execute.{
  accepted, reads, Hub, poll_loop, timed_out, after_polls, verify_state, after_send, attempt, State,
  attempts, continue, completed, execute_hubitat, Outcome, pending,
}

-- The polls all come in time, and none shows the expected value.
abbrev pub Dead : Config → Expected → Hub → Type 0
Dead cfg e hub =
    (o m : ℕ) → (hub.poll o m ≢ reads (some e.value)) × (hub.elapsed o m < cfg.command_timeout)

-- The hub takes the command at once, and is too slow for the first poll.
abbrev pub Slow : Config → Hub → Type 0
Slow cfg hub = (hub.send 0 ≡ accepted) × (cfg.command_timeout ≤ hub.elapsed 0 0)

-- Commands with the same expectation to one device, one after another.
unfoldable pub run_commands :
    Config → String → Expected → List Hub → Commander → Commander × List (CommandResult × Outcome)
run_commands cfg device e [] c = (c, [])
run_commands cfg device e (hub ∷ rest) c =
    let (c', r, row) = execute_hubitat cfg hub device true (some e) c in
    let (c'', results) = run_commands cfg device e rest c' in (c'', (r, row) ∷ results)

-- The loop goes on after each attempt, with no verified result and the breakers as they were.
record Fruitless (c : Commander) (s : State) : Type 0 where
  unverified : s.1.is_verified ≡ false
  same : s.0.breakers ≡ c.breakers

-- A command that the breaker holds back.
abbrev pub HeldBack : CommandResult × Outcome → Type 0
HeldBack (r, row) = (r.status ≡ failed) × (r.error ≡ some verify_backoff) × (r.success ≡ false)

-- What a timed-out command reports, with its log row.
abbrev pub TimedOutPending : CommandResult × Outcome → Type 0
TimedOutPending (r, row) = (r.status ≡ timeout) × (row ≡ pending)

-- The failures that the breaker of the device has counted.
abbrev pub fails_of : Commander → String → ℕ
fails_of c device = (breaker_or_new (get c.breakers device)).fails

module _ (cfg : Config) (device : String) (e : Expected) where
  shut_below :
      (c : Commander) (now : ℕ)
      → fails_of c device < cfg.verify_fail_threshold
      → verify_backoff_active cfg c device now ≡ false
  unfolding verify_backoff_active
  shut_below c now lt = ground arith

  -- The breaker has opened at `at`, for good measure.
  record Opened (at : ℕ) (c : Commander) : Type 0 where
    breaker : VerifyBreaker
    entry : get c.breakers device ≡ some breaker
    enough : cfg.verify_fail_threshold ≤ breaker.fails
    since : breaker.opened ≡ at

  poll_loop-slow :
      (hub : Hub) (left : ℕ) (r : CommandResult)
      → 0 < left
      → cfg.command_timeout ≤ hub.elapsed 0 0
      → let (r', end) = poll_loop cfg hub e 0 left 0 r in (end ≡ timed_out) × (r'.status ≡ timeout)
  unfolding poll_loop
  poll_loop-slow hub zero r pos late = absurd (omega arith)
  poll_loop-slow hub (suc left) r pos late = ground arith

  attempts-Slow :
      (hub : Hub) (left : ℕ) (s : State)
      → 0 < left
      → 0 < cfg.verify_retries
      → Slow cfg hub
      → let (s', ended) = attempts (some e) cfg hub device left 0 s in
        (ended ≡ false)
        × (s'.1.status ≡ timeout)
        × (s'.0.breakers ≡ s.0.breakers)
        × (s'.0.sent ≡ s.0.sent ++ device ∷ [])
  unfolding attempts attempt after_send verify_state after_polls continue set_device_status
  attempts-Slow hub zero s pos polls slow = absurd (omega arith)
  attempts-Slow hub (suc left) (c, r) pos polls (taken, late) =
      let r' = record r { outer_retries = some 0; success = true } in
      let (end, status) = poll_loop-slow hub cfg.verify_retries r' polls late in
      rw (taken, end) (refl, status, refl, refl)

  -- A timeout does not count as a failure: to a device whose polls come too late, any number of commands
  -- in a row are all sent, the breaker never opens, and the log row of each stays pending.
  pub timeouts_never_open :
      (hubs : List Hub) (c : Commander)
      → 0 < cfg.operation_retries
      → 0 < cfg.verify_retries
      → fails_of c device < cfg.verify_fail_threshold
      → All (Slow cfg) hubs
      → let (c', results) = run_commands cfg device e hubs c in
        (c'.breakers ≡ c.breakers)
        × (length c'.sent ≡ length c.sent + length hubs)
        × All TimedOutPending results
  unfolding run_commands execute_hubitat completed set_device_status
  timeouts_never_open [] c ops polls few slow = (refl, omega arith, tt)
  timeouts_never_open (hub ∷ rest) c ops polls few (slow, slows) =
      let started = set_device_status device updating c in
      let c' = (execute_hubitat cfg hub device true (some e) c).0 in
      let shut = shut_below started hub.clock few in
      let (ended, status, kept, sent) =
        attempts-Slow hub cfg.operation_retries (started, new_result) ops polls slow in
      let kept' : c'.breakers ≡ c.breakers = rw (shut, ended) kept in
      let sent' : c'.sent ≡ c.sent ++ device ∷ [] = rw (shut, ended) sent in
      let few' : fails_of c' device < cfg.verify_fail_threshold =
        rw (ap (λ (bs : Dict VerifyBreaker). (breaker_or_new (get bs device)).fails) kept') few in
      let (kepts, sents, outs) = timeouts_never_open rest c' ops polls few' slows in
      let one : length c'.sent ≡ suc (length c.sent) =
        omega (arith, ap length sent', length-append c.sent (device ∷ [])) in
      (kepts ∙ kept', omega (arith, one, sents), (rw (shut, ended) (status, refl), outs))
