-- ===== src/Commander/Status.antt =====
-- services/device_commander.py: the status that an execution leaves the device in.
use mobius_smart_home.Prelude.{
  ℕ, zero, suc, ◌≡◌, ◌≢◌, ◌↔◌, ◌⊎◌, refl, sym, ◌∙◌, String, Bool, true, false, Option, none, some,
  arith, get-put_self, Bool-cases, inl, inr, [], ◌∷◌, ◌++◌,
}
use mobius_smart_home.Commander.{
  CommandStatus, idle, updating, verified, failed, timeout, CommandResult, new_result, Expected,
  Config, Commander, get_device_status, set_device_status, verify_backoff_active,
  record_verify_result, update_cache,
}
use mobius_smart_home.Commander.Execute.{
  Send, accepted, refused, raised, Hub, poll_loop, PollEnd, confirmed, unconfirmed, timed_out,
  observe, after_polls, verify_state, after_send, Next, break, go_on, return, attempt, State,
  attempts, continue, completed, give_up, execute_hubitat,
}

-- None of the attempts from `outer` on, `left` of them, is taken by the hub.
abbrev pub NoneTaken : Hub → ℕ → ℕ → Type 0
NoneTaken hub zero outer = Unit
NoneTaken hub (suc left) outer = (hub.send outer ≢ accepted) × NoneTaken hub left (suc outer)

Send-cases : (s : Send) → (s ≢ accepted) → (s ≡ refused) ⊎ (s ≡ raised)
Send-cases accepted h = absurd (h refl)
Send-cases refused h = inl refl
Send-cases raised h = inr refl

Send-known : (s : Send) → (s ≡ accepted) ⊎ (s ≢ accepted)
Send-known accepted = inl refl
Send-known refused = inr (λ e. cc e)
Send-known raised = inr (λ e. cc e)

idle-ne : idle ≢ updating
idle-ne e = cc

-- How far an execution without verification is, with no send taken yet.
record Waiting (device : String) (s : State) : Type 0 where
  table : get_device_status s.0 device ≡ updating
  status : s.1.status ≡ idle
  success : s.1.success ≡ false
  unseen : s.1.expected_state ≡ none

module _ (cfg : Config) (hub : Hub) (device : String) where
  pub set-get :
      (status : CommandStatus) (c : Commander)
      → get_device_status (set_device_status device status c) device ≡ status
  unfolding get_device_status set_device_status
  set-get status c = rw (get-put_self c.device_status device status) refl

  attempt-Waiting :
      (outer : ℕ) (s : State) (e : Option Expected)
      → hub.send outer ≢ accepted
      → Waiting device s
      → let (s', next) = attempt e cfg hub device outer s in Waiting device s' × (next ≡ go_on)
  unfolding attempt after_send get_device_status
  attempt-Waiting outer s e t w = elim (Send-cases (hub.send outer) t) [
    | inl r ↦ rw r (
      record { table = w.table; status = w.status; success = w.success; unseen = w.unseen },
      refl,
    )
    | inr r ↦ rw r (
      record { table = w.table; status = w.status; success = w.success; unseen = w.unseen },
      refl,
    )
  ]

  attempts-Waiting :
      (left outer : ℕ) (s : State) (e : Option Expected)
      → NoneTaken hub left outer
      → Waiting device s
      → let (s', ended) = attempts e cfg hub device left outer s in
        Waiting device s' × (ended ≡ true)
  unfolding attempts
  attempts-Waiting zero outer s e t w = (w, refl)
  attempts-Waiting (suc left) outer s e (t, ts) w =
      let (w', next) = attempt-Waiting outer s e t w in
      rw next (attempts-Waiting left (suc outer) (attempt e cfg hub device outer s).0 e ts w')

  started : (c : Commander) → Waiting device (set_device_status device updating c, new_result)
  started c = record { table = set-get updating c; status = refl; success = refl; unseen = refl }

  attempts-taken :
      (left outer : ℕ) (s : State)
      → Waiting device s
      → let (s', ended) = attempts none cfg hub device left outer s in
        ((get_device_status s'.0 device ≡ updating) ↔ NoneTaken hub left outer) × (ended ≡ true)
  unfolding attempts attempt after_send verify_state
  attempts-taken zero outer s w = ((λ _. tt, λ _. w.table), refl)
  attempts-taken (suc left) outer s w = elim (Send-known (hub.send outer)) [
    | inl yes_taken ↦
        rw yes_taken
          ((λ u. absurd (idle-ne (sym (set-get idle _) ∙ u)), λ t. absurd (t.0 refl)), refl)
    | inr not_taken ↦
        let (w', next) = attempt-Waiting outer s none not_taken w in
        let (both, ended) =
          attempts-taken left (suc outer) (attempt none cfg hub device outer s).0 w' in
        rw next ((λ u. (not_taken, both.0 u), λ t. both.1 t.1), ended)
  ]

  -- A command without verification leaves the device's status at UPDATING exactly when the hub takes
  -- none of its attempts, and then for good: nothing but another command to the device changes it.
  pub fire_and_forget-updating :
      (c : Commander)
      → let (c', r, row) = execute_hubitat cfg hub device false none c in
        (get_device_status c' device ≡ updating) ↔ NoneTaken hub cfg.operation_retries 0
  unfolding execute_hubitat give_up
  fire_and_forget-updating c =
      let s : State = (set_device_status device updating c, new_result) in
      let (both, ended) = attempts-taken cfg.operation_retries 0 s (started c) in rw ended both

-- The status in the table is the one of the result, and the command is over.
pub record Settled (device : String) (s : State) : Type 0 where
  pub agrees : get_device_status s.0 device ≡ s.1.status
  pub final : (s.1.status ≡ verified) ⊎ (s.1.status ≡ failed) ⊎ (s.1.status ≡ timeout)

record IsVerified (device : String) (s : State) : Type 0 where
  claimed : s.1.is_verified ≡ true
  in_table : get_device_status s.0 device ≡ verified
  in_result : s.1.status ≡ verified

record TimedOut (device : String) (s : State) : Type 0 where
  in_table : get_device_status s.0 device ≡ timeout
  in_result : s.1.status ≡ timeout

-- What an attempt leaves, by how the loop goes on.
abbrev Ends : String → Next → State → Type 0
Ends device go_on s = s.1.is_verified ≡ false
Ends device break s = IsVerified device s
Ends device return s = TimedOut device s

-- What the loop leaves.
abbrev Finished : String → Bool → State → Type 0
Finished device true s = (s.1.is_verified ≡ false) ⊎ IsVerified device s
Finished device false s = TimedOut device s

module _ (cfg : Config) (hub : Hub) (device : String) (e : Expected) where
  get_device_status-record :
      (ok : Bool) (now : ℕ) (c : Commander)
      → get_device_status (record_verify_result cfg device ok now c) device
        ≡ get_device_status c device
  unfolding record_verify_result get_device_status
  get_device_status-record true now c = refl
  get_device_status-record false now c = refl

  pub poll_loop-keeps :
      (outer left mid : ℕ) (r : CommandResult)
      → let (r', end) = poll_loop cfg hub e outer left mid r in
        (r'.is_verified ≡ r.is_verified) × (end ≡ timed_out → r'.status ≡ timeout)
  unfolding poll_loop observe
  poll_loop-keeps outer zero mid r = (refl, λ h. cc)
  poll_loop-keeps outer (suc left) mid r =
      let r' = record r { verify_retries = some mid } in
      ground (arith, poll_loop-keeps outer left (suc mid) (observe (hub.poll outer mid) e r').0)

  after_polls-Ends :
      (end : PollEnd) (c : Commander) (r : CommandResult)
      → r.is_verified ≡ false
      → (end ≡ timed_out → r.status ≡ timeout)
      → let (s', next) = after_polls end cfg hub device e c r in Ends device next s'
  unfolding after_polls update_cache set_device_status get_device_status
  after_polls-Ends confirmed c r f t = record {
    claimed = refl;
    in_table =
        get_device_status-record true hub.ended
          (update_cache device e (set_device_status device verified c))
        ∙ set-get cfg hub device verified c;
    in_result = refl;
  }
  after_polls-Ends unconfirmed c r f t = f
  after_polls-Ends timed_out c r f t = record {
    in_table = set-get cfg hub device timeout c;
    in_result = t refl;
  }

  after_send-Ends :
      (send : Send) (outer : ℕ) (c : Commander) (r : CommandResult)
      → r.is_verified ≡ false
      → let (s', next) = after_send send (some e) cfg hub device outer c r in Ends device next s'
  unfolding after_send verify_state
  after_send-Ends accepted outer c r f =
      let r' = record r { success = true } in
      let (same, out) = poll_loop-keeps outer cfg.verify_retries 0 r' in
      let (r'', end) = poll_loop cfg hub e outer cfg.verify_retries 0 r' in
      after_polls-Ends end c r'' (same ∙ f) out
  after_send-Ends refused outer c r f = f
  after_send-Ends raised outer c r f = f

  continue-Finished :
      (next : Next) (s : State) (rest : State × Bool)
      → Ends device next s
      → (next ≡ go_on → Finished device rest.1 rest.0)
      → let (s', ended) = continue next s rest in Finished device ended s'
  unfolding continue
  continue-Finished go_on s rest h k = k refl
  continue-Finished break s rest h k = inr h
  continue-Finished return s rest h k = h

  unverified :
      (next : Next) (s : State) → next ≡ go_on → Ends device next s → s.1.is_verified ≡ false
  unverified go_on s n h = h
  unverified break s n h = cc
  unverified return s n h = cc

  attempts-Finished :
      (left outer : ℕ) (s : State)
      → s.1.is_verified ≡ false
      → let (s', ended) = attempts (some e) cfg hub device left outer s in Finished device ended s'
  unfolding attempts attempt
  attempts-Finished zero outer s f = inl f
  attempts-Finished (suc left) outer (c, r) f =
      let (s', next) = attempt (some e) cfg hub device outer (c, r) in
      let ends =
        after_send-Ends (hub.send outer) outer (record c { sent = c.sent ++ device ∷ [] })
          (record r { outer_retries = some outer }) f in
      continue-Finished next s' (attempts (some e) cfg hub device left (suc outer) s') ends
        (λ n. attempts-Finished left (suc outer) s' (unverified next s' n ends))

  completed-Settled :
      (ended : Bool) (s : State)
      → Finished device ended s
      → let (c, r, row) = completed (s, ended) (some e) cfg hub device in Settled device (c, r)
  unfolding completed give_up
  completed-Settled true (c, r) (inl f) = rw f (record {
    agrees =
        get_device_status-record false hub.ended (set_device_status device failed c)
        ∙ set-get cfg hub device failed c;
    final = inr (inl refl);
  })
  completed-Settled true (c, r) (inr v) =
      rw (v.claimed) (record { agrees = v.in_table ∙ sym v.in_result; final = inl v.in_result })
  completed-Settled false (c, r) t = record {
    agrees = t.in_table ∙ sym t.in_result;
    final = inr (inr t.in_result);
  }

  -- A command with verification always ends: whatever the hub answers and however long it takes, the
  -- table and the result agree on VERIFIED, FAILED or TIMEOUT.
  pub execute_hubitat-Settled :
      (c : Commander)
      → let (c', r, row) = execute_hubitat cfg hub device true (some e) c in Settled device (c', r)
  unfolding execute_hubitat
  execute_hubitat-Settled c =
      let c' = set_device_status device updating c in
      let (s, ended) = attempts (some e) cfg hub device cfg.operation_retries 0 (c', new_result) in
      elim (Bool-cases (verify_backoff_active cfg c' device hub.clock)) [
        | inl open_ ↦
            rw open_ (record { agrees = set-get cfg hub device failed c'; final = inr (inl refl) })
        | inr shut ↦ rw shut (
            completed-Settled ended s
              (attempts-Finished cfg.operation_retries 0 (c', new_result) refl))
      ]
