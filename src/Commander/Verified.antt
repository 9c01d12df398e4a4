-- ===== src/Commander/Verified.antt =====
-- services/device_commander.py: what stands behind a verified result, and how often a command is sent.
use mobius_smart_home.Prelude.{
  ℕ, zero, suc, ◌+◌, ◌≤◌, ◌<◌, ◌≡◌, refl, ◌∙◌, String, Bool, true, false, ◌&&◌, Option, none, some,
  arith, eq_iff, ap, Bool-cases, inl, inr, [], ◌∷◌, ◌++◌, length, length-append, leb,
}
use mobius_smart_home.Commander.{
  CommandResult, new_result, Expected, Config, Commander, set_device_status, updating,
  verify_backoff_active, record_verify_result, update_cache,
}
use mobius_smart_home.Commander.Execute.{
  Send, accepted, refused, raised, Poll, reads, no_device, poll_raised, Hub, poll_loop, PollEnd,
  confirmed, unconfirmed, timed_out, observe, is_value, after_polls, verify_state, after_send, Next,
  break, go_on, return, attempt, State, attempts, continue, completed, give_up, execute_hubitat,
}
use mobius_smart_home.Commander.Status.{poll_loop-keeps}

-- The attempt and the poll that confirmed the command.
pub record Seen (cfg : Config) (hub : Hub) (e : Expected) : Type 0 where
  pub outer : ℕ
  pub mid : ℕ
  pub attempt_within : outer < cfg.operation_retries
  pub poll_within : mid < cfg.verify_retries
  pub in_time : hub.elapsed outer mid < cfg.command_timeout
  pub taken : hub.send outer ≡ accepted
  pub read : hub.poll outer mid ≡ reads (some e.value)

record PollAt (cfg : Config) (hub : Hub) (e : Expected) (outer end : ℕ) : Type 0 where
  mid : ℕ
  within : mid < end
  in_time : hub.elapsed outer mid < cfg.command_timeout
  read : hub.poll outer mid ≡ reads (some e.value)

module _ (cfg : Config) (hub : Hub) (device : String) (e : Expected) where
  observe-reads :
      (p : Poll) (r : CommandResult) → (observe p e r).1 ≡ true → p ≡ reads (some e.value)
  unfolding observe is_value
  observe-reads (reads none) r h = cc
  observe-reads (reads (some a)) r h = ap (λ (v : String). reads (some v)) ((eq_iff a e.value).0 h)
  observe-reads no_device r h = cc
  observe-reads poll_raised r h = cc

  poll_loop-confirmed :
      (outer left mid : ℕ) (r : CommandResult)
      → (poll_loop cfg hub e outer left mid r).1 ≡ confirmed
      → PollAt cfg hub e outer (mid + left)
  unfolding poll_loop
  poll_loop-confirmed outer zero mid r h = cc
  poll_loop-confirmed outer (suc left) mid r h =
      let r' = record r { verify_retries = some mid } in
      elim (Bool-cases (leb cfg.command_timeout (hub.elapsed outer mid))) [
        | inl late ↦ cc (rw late at h)
        | inr in_time ↦ elim (Bool-cases (observe (hub.poll outer mid) e r').1) [
          | inl ok ↦ record {
            mid = mid;
            within = omega arith;
            in_time = ground arith;
            read = observe-reads (hub.poll outer mid) r' ok;
          }
          | inr other ↦
              let p =
                poll_loop-confirmed outer left (suc mid) (observe (hub.poll outer mid) e r').0
                  (rw (in_time, other) at h) in
              record {
                mid = p.mid;
                within = omega (arith, p.within);
                in_time = p.in_time;
                read = p.read;
              }
        ]
      ]

  after_polls-claims :
      (end : PollEnd) (c : Commander) (r : CommandResult)
      → r.is_verified ≡ false
      → (after_polls end cfg hub device e c r).0.1.is_verified ≡ true
      → end ≡ confirmed
  unfolding after_polls
  after_polls-claims confirmed c r f h = refl
  after_polls-claims unconfirmed c r f h = cc
  after_polls-claims timed_out c r f h = cc

  after_send-claims :
      (send : Send) (outer : ℕ) (c : Commander) (r : CommandResult)
      → hub.send outer ≡ send
      → outer < cfg.operation_retries
      → r.is_verified ≡ false
      → (after_send send (some e) cfg hub device outer c r).0.1.is_verified ≡ true
      → Seen cfg hub e
  unfolding after_send verify_state
  after_send-claims accepted outer c r taken lt f h =
      let r' = record r { success = true } in
      let (r'', end) = poll_loop cfg hub e outer cfg.verify_retries 0 r' in
      let same = (poll_loop-keeps cfg hub device e outer cfg.verify_retries 0 r').0 in
      let p =
        poll_loop-confirmed outer cfg.verify_retries 0 r'
          (after_polls-claims end c r'' (same ∙ f) h) in
      record {
        outer = outer;
        mid = p.mid;
        attempt_within = lt;
        poll_within = omega (arith, p.within);
        in_time = p.in_time;
        taken = taken;
        read = p.read;
      }
  after_send-claims refused outer c r taken lt f h = cc
  after_send-claims raised outer c r taken lt f h = cc

  continue-claims :
      (next : Next) (s : State) (rest : State × Bool)
      → (s.1.is_verified ≡ true → Seen cfg hub e)
      → (rest.0.1.is_verified ≡ true → Seen cfg hub e)
      → (continue next s rest).0.1.is_verified ≡ true
      → Seen cfg hub e
  unfolding continue
  continue-claims go_on s rest now later h = later h
  continue-claims break s rest now later h = now h
  continue-claims return s rest now later h = now h

  attempts-claims :
      (left outer : ℕ) (s : State)
      → outer + left ≤ cfg.operation_retries
      → s.1.is_verified ≡ false
      → (attempts (some e) cfg hub device left outer s).0.1.is_verified ≡ true
      → Seen cfg hub e
  unfolding attempts attempt
  attempts-claims zero outer s le f h = cc
  attempts-claims (suc left) outer (c, r) le f h =
      let (s', next) = attempt (some e) cfg hub device outer (c, r) in
      let now =
        after_send-claims (hub.send outer) outer (record c { sent = c.sent ++ device ∷ [] })
          (record r { outer_retries = some outer }) refl (omega arith) f in
      elim (Bool-cases s'.1.is_verified) [
        | inl yes_now ↦ now yes_now
        | inr not_yet ↦
            continue-claims next s' (attempts (some e) cfg hub device left (suc outer) s') now
              (attempts-claims left (suc outer) s' (omega arith) not_yet) h
      ]

  completed-claims :
      (ended : Bool) (s : State)
      → (completed (s, ended) (some e) cfg hub device).1.is_verified ≡ true
      → s.1.is_verified ≡ true
  unfolding completed give_up
  completed-claims true (c, r) h = ground arith
  completed-claims false (c, r) h = h

  -- A result is verified only on evidence: one of the allowed polls, after an attempt that the hub took
  -- and before the timeout, read exactly the expected value. A device that never shows it is never
  -- reported as verified.
  pub execute_hubitat-Seen :
      (c : Commander)
      → (execute_hubitat cfg hub device true (some e) c).1.is_verified ≡ true
      → Seen cfg hub e
  unfolding execute_hubitat
  execute_hubitat-Seen c h =
      let c' = set_device_status device updating c in
      let (s, ended) = attempts (some e) cfg hub device cfg.operation_retries 0 (c', new_result) in
      elim (Bool-cases (verify_backoff_active cfg c' device hub.clock)) [
        | inl open_ ↦ cc (rw open_ at h)
        | inr shut ↦
            attempts-claims cfg.operation_retries 0 (c', new_result) (omega arith) refl
              (completed-claims ended s (rw shut at h))
      ]

module _ (cfg : Config) (hub : Hub) (device : String) where
  after_polls-sent :
      (end : PollEnd) (e : Expected) (c : Commander) (r : CommandResult)
      → (after_polls end cfg hub device e c r).0.0.sent ≡ c.sent
  unfolding after_polls set_device_status record_verify_result update_cache
  after_polls-sent confirmed e c r = refl
  after_polls-sent unconfirmed e c r = refl
  after_polls-sent timed_out e c r = refl

  after_send-sent :
      (send : Send) (e : Option Expected) (outer : ℕ) (c : Commander) (r : CommandResult)
      → (after_send send e cfg hub device outer c r).0.0.sent ≡ c.sent
  unfolding after_send verify_state set_device_status
  after_send-sent accepted none outer c r = refl
  after_send-sent accepted (some e) outer c r =
      let (r', end) =
        poll_loop cfg hub e outer cfg.verify_retries 0 (record r { success = true }) in
      after_polls-sent end e c r'
  after_send-sent refused e outer c r = refl
  after_send-sent raised e outer c r = refl

  continue-sent :
      (next : Next) (s : State) (rest : State × Bool) (n : ℕ)
      → length s.0.sent ≤ n
      → length rest.0.0.sent ≤ n
      → length (continue next s rest).0.0.sent ≤ n
  unfolding continue
  continue-sent go_on s rest n h k = k
  continue-sent break s rest n h k = h
  continue-sent return s rest n h k = h

  attempts-sent :
      (e : Option Expected) (left outer : ℕ) (s : State)
      → length (attempts e cfg hub device left outer s).0.0.sent ≤ length s.0.sent + left
  unfolding attempts attempt
  attempts-sent e zero outer s = omega arith
  attempts-sent e (suc left) outer (c, r) =
      let c' = record c { sent = c.sent ++ device ∷ [] } in
      let (s', next) = attempt e cfg hub device outer (c, r) in
      let one =
        ap length
          (after_send-sent (hub.send outer) e outer c' (record r { outer_retries = some outer })) in
      let more = length-append c.sent (device ∷ []) in
      continue-sent next s' (attempts e cfg hub device left (suc outer) s')
        (length c.sent + suc left) (omega (arith, one, more))
        (omega (arith, one, more, attempts-sent e left (suc outer) s'))

  give_up-sent : (e : Option Expected) (s : State) → (give_up e cfg hub device s).0.sent ≡ s.0.sent
  unfolding give_up record_verify_result set_device_status
  give_up-sent none s = refl
  give_up-sent (some e) (c, r) = ground arith

  completed-sent :
      (e : Option Expected) (s : State) (ended : Bool)
      → (completed (s, ended) e cfg hub device).0.sent ≡ s.0.sent
  unfolding completed
  completed-sent e s true = give_up-sent e s
  completed-sent e s false = refl

  -- Whatever the hub does, one command is sent at most as often as there are operation retries.
  execute_hubitat-sent :
      (verify : Bool) (e : Option Expected) (c : Commander)
      → length (execute_hubitat cfg hub device verify e c).0.sent
        ≤ length c.sent + cfg.operation_retries
  unfolding execute_hubitat set_device_status
  execute_hubitat-sent verify e c =
      let c' = set_device_status device updating c in
      let (s, ended) = attempts e cfg hub device cfg.operation_retries 0 (c', new_result) in
      let same = ap length (completed-sent e s ended) in
      let bound = attempts-sent e cfg.operation_retries 0 (c', new_result) in
      elim (Bool-cases (verify && verify_backoff_active cfg c' device hub.clock)) [
        | inl backed_off ↦ rw backed_off (omega arith)
        | inr runs ↦ rw runs (omega (arith, same, bound))
      ]
