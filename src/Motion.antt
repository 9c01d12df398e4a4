-- ===== src/Motion.antt =====
-- apps/advanced_motion_lighting/motion_detection.py: whether a room counts as occupied, by the log of
-- motion events. The log lists the events oldest first; a time is a `received_at`, as a number in
-- the order of the ISO texts. A query either answers with the status 200 or raises.
pub mod Anchor
pub mod Stuck
pub mod Countdown
mod Scenarios
use mobius_smart_home.Prelude.{
  ℕ, ◌+◌, ◌*◌, String, Bool, true, false, ◌&&◌, not, Option, none, some, List, [], ◌∷◌, ltb, max,
  str_eq, if◌then◌else◌,
}

-- An `event_value` in lower case.
pub data Value : Type 0 where
  active inactive other : Value

pub record MotionEvent : Type 0 where
  pub sensor : String
  pub value : Value
  pub received_at : ℕ

-- The database as one evaluation sees it, and for which sensors its queries raise.
pub record EventLog : Type 0 where
  pub events : List MotionEvent
  pub raises : String → Bool

unfoldable pub is_active : Value → Bool
is_active active = true
is_active inactive = false
is_active other = false

unfoldable pub is_inactive : Value → Bool
is_inactive active = false
is_inactive inactive = true
is_inactive other = false

-- `order=received_at.asc, limit=1`
unfoldable pub first : (MotionEvent → Bool) → List MotionEvent → Option MotionEvent
first p [] = none
first p (e ∷ rest) = let later = first p rest in if p e then some e else later

or_this : Option MotionEvent → Bool → MotionEvent → Option MotionEvent
or_this (some later) fits e = some later
or_this none fits e = if fits then some e else none

-- `order=received_at.desc, limit=1`
unfoldable pub last : (MotionEvent → Bool) → List MotionEvent → Option MotionEvent
unfolding or_this
last p [] = none
last p (e ∷ rest) = or_this (last p rest) (p e) e

abbrev pub of_sensor : String → MotionEvent → Bool
of_sensor sid e = str_eq e.sensor sid

abbrev pub went_active : String → MotionEvent → Bool
went_active sid e = str_eq e.sensor sid && is_active e.value

abbrev pub went_inactive : String → MotionEvent → Bool
went_inactive sid e = str_eq e.sensor sid && is_inactive e.value

abbrev pub received : Option MotionEvent → Option ℕ
received none = none
received (some e) = some e.received_at

-- `received_at=gt.<t>`, where there is such a boundary
abbrev pub after : Option ℕ → MotionEvent → Bool
after none e = true
after (some t) e = ltb t e.received_at

-- The start of the current run of `active`, from `_active_onset_age_seconds`; None for an error.
unfoldable pub onset : EventLog → String → Option ℕ
onset log sid =
    let boundary = received (last (went_inactive sid) log.events) in
    if log.raises sid
    then none
    else received (first (λ e. went_active sid e && after boundary e) log.events)

-- `onset_age > stuck_threshold`, for an age that is known
unfoldable pub is_stuck : Option ℕ → ℕ → ℕ → Bool
is_stuck none threshold now = false
is_stuck (some t) threshold now = ltb (t + threshold) now

-- The state of a sensor in `_gather_per_sensor_state`: the value of its last event.
unfoldable pub state_of : EventLog → String → Option Value
state_of log sid =
    if log.raises sid
    then none
    else elim (last (of_sensor sid) log.events) [ none ↦ none | some e ↦ some e.value ]

unfoldable pub reads_active : Option Value → Bool
reads_active none = false
reads_active (some v) = is_active v

unfoldable pub reads_inactive : Option Value → Bool
reads_inactive none = false
reads_inactive (some v) = is_inactive v

-- The sensors whose state is active and whose run of it is not stuck: `_currently_active_nonstuck`
unfoldable pub keeps_on : EventLog → ℕ → ℕ → String → Bool
keeps_on log threshold now sid =
    reads_active (state_of log sid) && not (is_stuck (onset log sid) threshold now)

-- Those that it flags as not functional
unfoldable pub is_jammed : EventLog → ℕ → ℕ → String → Bool
is_jammed log threshold now sid =
    reads_active (state_of log sid) && is_stuck (onset log sid) threshold now

unfoldable pub currently_active_nonstuck : EventLog → ℕ → ℕ → List String → List String
currently_active_nonstuck log threshold now [] = []
currently_active_nonstuck log threshold now (sid ∷ rest) =
    let others = currently_active_nonstuck log threshold now rest in
    if keeps_on log threshold now sid then sid ∷ others else others

-- The transition of one sensor in `_latest_inactive_transition_iso`
unfoldable pub transition : EventLog → String → Option ℕ
transition log sid =
    let boundary = received (last (went_active sid) log.events) in
    let found = received (first (λ e. went_inactive sid e && after boundary e) log.events) in
    if reads_inactive (state_of log sid) then found else none

unfoldable pub later_of : Option ℕ → Option ℕ → Option ℕ
later_of none b = b
later_of (some a) none = some a
later_of (some a) (some b) = some (max a b)

-- `_latest_inactive_transition_iso`: the anchor of the off-timer
unfoldable pub latest_inactive_transition : EventLog → List String → Option ℕ
latest_inactive_transition log [] = none
latest_inactive_transition log (sid ∷ rest) =
    later_of (transition log sid) (latest_inactive_transition log rest)

-- The settings that the detection reads: `considerActiveWhenFail`, the stuck threshold (the setting or
-- DEFAULT_STUCK_ACTIVE_SECONDS) and the timeout, in the unit of the clock.
pub record Settings : Type 0 where
  pub consider_active_when_fail : Bool
  pub stuck_active : ℕ
  pub timeout : ℕ

unfoldable pub is_empty : List String → Bool
is_empty [] = true
is_empty (x ∷ xs) = false

unfoldable pub within_timeout : Option ℕ → ℕ → ℕ → Bool
within_timeout none timeout now = false
within_timeout (some t) timeout now = ltb now (t + timeout)

-- `_is_motion_active`, for the sensors that are functional at its start
unfoldable pub is_motion_active : Settings → EventLog → ℕ → List String → Bool
unfolding is_empty
is_motion_active s log now functional =
    if is_empty functional
    then s.consider_active_when_fail
    else if not (is_empty (currently_active_nonstuck log s.stuck_active now functional))
    then true
    else within_timeout (latest_inactive_transition log functional) s.timeout now

pub record OffTimer : Type 0 where
  pub is_active : Bool
  pub off_anchor : Option ℕ

-- `off_timer_status`
unfoldable pub off_timer_status : Settings → EventLog → ℕ → List String → OffTimer
unfolding is_empty
off_timer_status s log now functional =
    if is_empty functional
    then record { is_active = s.consider_active_when_fail; off_anchor = none }
    else if not (is_empty (currently_active_nonstuck log s.stuck_active now functional))
    then record { is_active = true; off_anchor = none }
    else record { is_active = false; off_anchor = latest_inactive_transition log functional }

-- The sensors still functional after an evaluation: `_functional_sensors` without those flagged
unfoldable pub functional_after : EventLog → ℕ → ℕ → List String → List String
functional_after log threshold now [] = []
functional_after log threshold now (sid ∷ rest) =
    let others = functional_after log threshold now rest in
    if is_jammed log threshold now sid then others else sid ∷ others

-- `_stuck_active_seconds`, from what `int()` makes of the setting: `none` if it raises, or for a number
-- below 0.
unfoldable pub stuck_active_seconds : Option ℕ → ℕ
stuck_active_seconds none = 4 * 3600
stuck_active_seconds (some n) = if ltb 0 n then n else 4 * 3600
