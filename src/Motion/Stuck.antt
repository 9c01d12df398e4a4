-- ===== src/Motion/Stuck.antt =====
-- apps/advanced_motion_lighting/motion_detection.py: a sensor that is jammed in the active state.
use mobius_smart_home.Prelude.{
  ℕ, ◌≡◌, ◌≢◌, refl, String, true, false, not, none, List, [], ◌∷◌, arith, Bool-cases, inl, inr,
  if◌then◌else◌,
}
use mobius_smart_home.Motion.{
  EventLog, Settings, keeps_on, is_jammed, reads_active, currently_active_nonstuck,
  latest_inactive_transition, within_timeout, is_empty, is_motion_active, functional_after,
  transition, later_of, reads_inactive, is_active, is_inactive,
}

-- A sensor that reads active and whose run of it is known to have begun more than the threshold ago.
abbrev pub Jammed : EventLog → ℕ → ℕ → String → Type 0
Jammed log threshold now sid = is_jammed log threshold now sid ≡ true

Jammed-off :
    (log : EventLog) (threshold now : ℕ) (sid : String)
    → Jammed log threshold now sid
    → keeps_on log threshold now sid ≡ false
unfolding is_jammed keeps_on
Jammed-off log threshold now sid h = ground arith

Jammed-transition :
    (log : EventLog) (threshold now : ℕ) (sid : String)
    → Jammed log threshold now sid
    → transition log sid ≡ none
unfolding is_jammed transition reads_active reads_inactive is_active is_inactive
Jammed-transition log threshold now sid h = ground arith

active-remaining :
    (log : EventLog) (threshold now : ℕ) (sensors : List String)
    → currently_active_nonstuck log threshold now sensors
      ≡ currently_active_nonstuck log threshold now (functional_after log threshold now sensors)
unfolding currently_active_nonstuck functional_after
active-remaining log threshold now [] = refl
active-remaining log threshold now (sid ∷ rest) =
    elim (Bool-cases (is_jammed log threshold now sid)) [
      | inl jammed ↦
          rw (jammed, Jammed-off log threshold now sid jammed)
            (active-remaining log threshold now rest)
      | inr works ↦ rw works (rw (← active-remaining log threshold now rest))
    ]

latest-remaining :
    (log : EventLog) (threshold now : ℕ) (sensors : List String)
    → latest_inactive_transition log sensors
      ≡ latest_inactive_transition log (functional_after log threshold now sensors)
unfolding latest_inactive_transition functional_after later_of
latest-remaining log threshold now [] = refl
latest-remaining log threshold now (sid ∷ rest) =
    elim (Bool-cases (is_jammed log threshold now sid)) [
      | inl jammed ↦
          rw (jammed, Jammed-transition log threshold now sid jammed, later_of)
            (latest-remaining log threshold now rest)
      | inr works ↦ rw works (rw (← latest-remaining log threshold now rest))
    ]

decision :
    (s : Settings) (log : EventLog) (now : ℕ) (sensors : List String)
    → sensors ≢ []
    → is_motion_active s log now sensors ≡ (
        if not (is_empty (currently_active_nonstuck log s.stuck_active now sensors))
        then true
        else within_timeout (latest_inactive_transition log sensors) s.timeout now)
unfolding is_motion_active is_empty
decision s log now [] h = absurd (h refl)
decision s log now (sid ∷ rest) h = refl

cons_ne : (sid : String) (rest : List String) → sid ∷ rest ≢ []
cons_ne sid rest e = cc

-- Stuck sensors do not count: as long as at least one sensor is not stuck, the decision over all the
-- functional sensors is the decision over those that are left when the evaluation has flagged the
-- stuck ones.
stuck_sensors_ignored :
    (s : Settings) (log : EventLog) (now : ℕ) (sid : String) (rest : List String)
    → functional_after log s.stuck_active now (sid ∷ rest) ≢ []
    → is_motion_active s log now (sid ∷ rest)
      ≡ is_motion_active s log now (functional_after log s.stuck_active now (sid ∷ rest))
stuck_sensors_ignored s log now sid rest some_left =
    let all = sid ∷ rest in
    let left = functional_after log s.stuck_active now all in
    rw (decision s log now all (cons_ne sid rest), decision s log now left some_left)
      (rw
        (active-remaining log s.stuck_active now all, latest-remaining log s.stuck_active now all))
