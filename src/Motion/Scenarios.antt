-- ===== src/Motion/Scenarios.antt =====
-- apps/advanced_motion_lighting/motion_detection.py: the theorems at a concrete log of events.
use mobius_smart_home.Prelude.{◌≡◌, ◌≢◌, refl, inl, String, true, false, some, List, [], ◌∷◌}
use mobius_smart_home.Motion.{
  MotionEvent, active, inactive, EventLog, Settings, first, last, is_active, is_inactive, state_of,
  onset, reads_active, reads_inactive, transition, is_jammed, is_stuck, latest_inactive_transition,
  is_motion_active, functional_after,
}
use mobius_smart_home.Motion.Anchor.{appended, Repeats, reconfirmation_changes_nothing}

abbrev settings : Settings
settings = record { consider_active_when_fail = true; stuck_active = 14400; timeout = 300 }

-- Sensor 2 has been active since 5; sensor 1 went quiet at 20000.
abbrev day : EventLog
day = record {
  events =
      record { sensor = "2"; value = active; received_at = 5 }
      ∷ record { sensor = "1"; value = active; received_at = 19000 }
      ∷ record { sensor = "1"; value = inactive; received_at = 20000 }
      ∷ [];
  raises = λ _. false;
}

abbrev poll : MotionEvent
poll = record { sensor = "1"; value = inactive; received_at = 20200 }

abbrev sensors : List String
sensors = "1" ∷ "2" ∷ []

went_quiet_at : transition day "1" ≡ some 20000
unfolding transition reads_inactive state_of first last is_active is_inactive
went_quiet_at = refl

poll-Repeats : Repeats day poll
poll-Repeats = inl (refl, (20000, went_quiet_at))

reconfirmation_changes_nothing_example :
    (latest_inactive_transition (appended day poll) sensors
      ≡ latest_inactive_transition day sensors)
    × (is_motion_active settings (appended day poll) 20250 sensors
        ≡ is_motion_active settings day 20250 sensors)
reconfirmation_changes_nothing_example =
    reconfirmation_changes_nothing settings day poll 20250 sensors poll-Repeats

left : functional_after day 14400 20250 sensors ≡ "1" ∷ []
unfolding functional_after is_jammed is_stuck onset state_of reads_active first last is_active
    is_inactive
left = refl

left_ne : functional_after day 14400 20250 sensors ≢ []
left_ne e = cc left
