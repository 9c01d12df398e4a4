-- ===== src/Motion/Countdown.antt =====
-- apps/advanced_motion_lighting/motion_detection.py: the countdown that is shown and the decision.
use mobius_smart_home.Prelude.{ℕ, ◌≡◌, String, ◌||◌, List, arith}
use mobius_smart_home.Motion.{
  EventLog, Settings, is_motion_active, off_timer_status, within_timeout,
}

-- The countdown on the screen never disagrees with the decision: the room counts as occupied exactly
-- when the status says active, or gives an anchor from which the timeout has not passed.
off_timer_status-agrees :
    (s : Settings) (log : EventLog) (now : ℕ) (functional : List String)
    → let status = off_timer_status s log now functional in
      is_motion_active s log now functional
      ≡ status.is_active || within_timeout status.off_anchor s.timeout now
unfolding is_motion_active off_timer_status within_timeout
off_timer_status-agrees s log now functional = ground arith
