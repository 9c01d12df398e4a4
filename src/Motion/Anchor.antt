-- ===== src/Motion/Anchor.antt =====
-- apps/advanced_motion_lighting/motion_detection.py: events that only repeat a sensor's state.
use mobius_smart_home.Prelude.{
  ℕ, ◌≡◌, refl, ap, String, Bool, true, false, ◌&&◌, Option, none, some, List, [], ◌∷◌, ◌++◌, ◌⊎◌,
  subst, str_eq, eq_iff, arith, Bool-cases, inl, inr, if◌then◌else◌,
}
use mobius_smart_home.Motion.{
  MotionEvent, Value, active, inactive, EventLog, Settings, first, last, of_sensor, went_active,
  went_inactive, received, after, onset, state_of, keeps_on, transition, is_active, is_inactive,
  reads_active, reads_inactive, currently_active_nonstuck, latest_inactive_transition,
  is_motion_active,
}

-- The log after one more event.
abbrev pub appended : EventLog → MotionEvent → EventLog
appended log e = record log { events = log.events ++ e ∷ [] }

or_new : Option MotionEvent → Bool → MotionEvent → Option MotionEvent
or_new (some x) fits e = some x
or_new none fits e = if fits then some e else none

first-append :
    (p : MotionEvent → Bool) (xs : List MotionEvent) (e : MotionEvent)
    → first p (xs ++ e ∷ []) ≡ or_new (first p xs) (p e) e
unfolding first or_new
first-append p [] e = refl
first-append p (x ∷ rest) e = ground (arith, first-append p rest e)

last-append :
    (p : MotionEvent → Bool) (xs : List MotionEvent) (e : MotionEvent)
    → last p (xs ++ e ∷ []) ≡ (if p e then some e else last p xs)
unfolding last
last-append p [] e = refl
last-append p (x ∷ rest) e = ground (arith, last-append p rest e)

or_new-false : (o : Option MotionEvent) (e : MotionEvent) → or_new o false e ≡ o
unfolding or_new
or_new-false none e = refl
or_new-false (some x) e = refl

or_new-some :
    (o : Option MotionEvent) (fits : Bool) (e : MotionEvent) {a : ℕ}
    → received o ≡ some a
    → received (or_new o fits e) ≡ received o
unfolding or_new
or_new-some none fits e h = cc
or_new-some (some x) fits e h = refl

not_both : (o : Option Value) → reads_active o ≡ true → reads_inactive o ≡ false
unfolding reads_active reads_inactive is_active is_inactive
not_both o h = ground arith

-- The events that the two kinds of query look for, after their boundary.
abbrev quiet_after : EventLog → String → MotionEvent → Bool
quiet_after log s x = went_inactive s x && after (received (last (went_active s) log.events)) x

abbrev busy_after : EventLog → String → MotionEvent → Bool
busy_after log s x = went_active s x && after (received (last (went_inactive s) log.events)) x

module _ (log : EventLog) (s : String) where
  transition_parts :
      {a : ℕ}
      → transition log s ≡ some a
      → (reads_inactive (state_of log s) ≡ true)
        × (received (first (quiet_after log s) log.events) ≡ some a)
  unfolding transition
  transition_parts h = ground arith

  onset_parts :
      {a : ℕ}
      → onset log s ≡ some a
      → (log.raises s ≡ false) × (received (first (busy_after log s) log.events) ≡ some a)
  unfolding onset
  onset_parts h = ground arith

  state_of_quiet : {a : ℕ} → transition log s ≡ some a → reads_active (state_of log s) ≡ false
  unfolding transition reads_active reads_inactive is_active is_inactive
  state_of_quiet h = ground arith

module _ (log : EventLog) (e : MotionEvent) (s : String) where
  -- An event of another sensor.
  module _ (other : str_eq e.sensor s ≡ false) where
    state_of_other : state_of (appended log e) s ≡ state_of log s
    unfolding state_of
    state_of_other = rw (last-append (of_sensor s) log.events e, other)

    transition_other : transition (appended log e) s ≡ transition log s
    unfolding transition
    transition_other =
        rw (state_of_other, last-append (went_active s) log.events e, other)
          (rw (first-append (quiet_after log s) log.events e, other)
            (rw (or_new-false (first (quiet_after log s) log.events) e)))

    onset_other : onset (appended log e) s ≡ onset log s
    unfolding onset
    onset_other =
        rw (last-append (went_inactive s) log.events e, other)
          (rw (first-append (busy_after log s) log.events e, other)
            (rw (or_new-false (first (busy_after log s) log.events) e)))

  -- One more `inactive` of the sensor, when the transition to it is in the log.
  module _ (same : str_eq e.sensor s ≡ true) (calm : is_active e.value ≡ false)
      (quiet : is_inactive e.value ≡ true) where
    state_of_quiet' :
        {a : ℕ}
        → transition log s ≡ some a
        → (reads_active (state_of (appended log e) s) ≡ false)
          × (reads_inactive (state_of (appended log e) s) ≡ true)
    unfolding transition state_of reads_active reads_inactive
    state_of_quiet' h = rw (last-append (of_sensor s) log.events e, same) (ground arith)

    transition_quiet :
        {a : ℕ} → transition log s ≡ some a → transition (appended log e) s ≡ transition log s
    unfolding transition
    transition_quiet h =
        let (reads, found) = transition_parts log s h in
        rw ((state_of_quiet' h).1, reads, last-append (went_active s) log.events e, same, calm)
          (rw (first-append (quiet_after log s) log.events e)
            (or_new-some (first (quiet_after log s) log.events) _ e found))

  -- One more `active` of the sensor, when the start of its run is in the log.
  module _ (same : str_eq e.sensor s ≡ true) (busy : is_active e.value ≡ true)
      (stirred : is_inactive e.value ≡ false) where
    reads_busy :
        {a : ℕ}
        → onset log s ≡ some a
        → reads_active (state_of log s) ≡ true
        → (reads_active (state_of (appended log e) s) ≡ true)
          × (reads_inactive (state_of (appended log e) s) ≡ false)
    unfolding onset state_of reads_active reads_inactive
    reads_busy h r = rw (last-append (of_sensor s) log.events e, same) (ground arith)

    onset_busy : {a : ℕ} → onset log s ≡ some a → onset (appended log e) s ≡ onset log s
    unfolding onset
    onset_busy h =
        let (answers, found) = onset_parts log s h in
        rw (answers, last-append (went_inactive s) log.events e, same, stirred)
          (rw (first-append (busy_after log s) log.events e)
            (or_new-some (first (busy_after log s) log.events) _ e found))

-- The event repeats the state that its sensor is in, and the log shows since when it is.
abbrev pub Repeats : EventLog → MotionEvent → Type 0
Repeats log e =
    ((e.value ≡ inactive) × ((a : ℕ) × (transition log e.sensor ≡ some a)))
    ⊎ ((e.value ≡ active)
        × ((a : ℕ) × (onset log e.sensor ≡ some a))
        × (reads_active (state_of log e.sensor) ≡ true))

module _ (log : EventLog) (e : MotionEvent) (r : Repeats log e) (threshold now : ℕ) where
  one_sensor :
      (s : String)
      → (keeps_on (appended log e) threshold now s ≡ keeps_on log threshold now s)
        × (transition (appended log e) s ≡ transition log s)
  unfolding keeps_on is_active is_inactive
  one_sensor s = elim (Bool-cases (str_eq e.sensor s)) [
    | inr other ↦ (
      rw (state_of_other log e s other, onset_other log e s other),
      transition_other log e s other,
    )
    | inl same ↦ elim r [
      | inl (quiet, (a, h)) ↦
          let h' : transition log s ≡ some a =
            subst (λ k. transition log k ≡ some a) ((eq_iff e.sensor s).0 same) h in
          let calm = ap is_active quiet in
          let still = ap is_inactive quiet in
          (
            rw ((state_of_quiet' log e s same calm still h').0, state_of_quiet log s h'),
            transition_quiet log e s same calm still h',
          )
      | inr (busy, (a, h), reads) ↦
          let same_sensor = (eq_iff e.sensor s).0 same in
          let h' : onset log s ≡ some a = subst (λ k. onset log k ≡ some a) same_sensor h in
          let reads' : reads_active (state_of log s) ≡ true =
            subst (λ k. reads_active (state_of log k) ≡ true) same_sensor reads in
          let on = ap is_active busy in
          let stirred = ap is_inactive busy in
          let (still_on, not_off) = reads_busy log e s same on stirred h' reads' in
          (
            rw (still_on, reads', onset_busy log e s same on stirred h'),
            unfold transition in rw (not_off, not_both (state_of log s) reads'),
          )
    ]
  ]

  currently_active-same :
      (functional : List String)
      → currently_active_nonstuck (appended log e) threshold now functional
        ≡ currently_active_nonstuck log threshold now functional
  unfolding currently_active_nonstuck
  currently_active-same [] = refl
  currently_active-same (s ∷ rest) = rw ((one_sensor s).0, currently_active-same rest)

  latest-same :
      (functional : List String)
      → latest_inactive_transition (appended log e) functional
        ≡ latest_inactive_transition log functional
  unfolding latest_inactive_transition
  latest-same [] = refl
  latest-same (s ∷ rest) = rw ((one_sensor s).1, latest-same rest)

-- A report that only confirms the state its sensor is in, as a reconcile poll makes, changes nothing: the
-- anchor of the off-timer stays where it was, and the decision, at any time and for any settings,
-- stays what it was. The log must show since when the sensor is in that state.
pub reconfirmation_changes_nothing :
    (s : Settings) (log : EventLog) (e : MotionEvent) (now : ℕ) (functional : List String)
    → Repeats log e
    → (latest_inactive_transition (appended log e) functional
        ≡ latest_inactive_transition log functional)
      × (is_motion_active s (appended log e) now functional ≡ is_motion_active s log now functional)
unfolding is_motion_active
reconfirmation_changes_nothing s log e now functional r =
    let anchor = latest-same log e r s.stuck_active now functional in
    let active = currently_active-same log e r s.stuck_active now functional in
    (anchor, rw (anchor, active))
