-- ===== src/Power/Scenarios.antt =====
-- apps/power_management/app.py: a pump and its meter.
use mobius_smart_home.Prelude.{◌&&◌, ◌≡◌, refl, true, false, none, some, [], ◌∷◌, arith}
use mobius_smart_home.Power.Worst.{any_hot, maybe_trip_high-any_hot}
use mobius_smart_home.Power.{maybe_trip_high, cooldown_clear, PowerSettings, PowerState, high}
use mobius_smart_home.Power.Recovery.{
  reading, poll, resume, evaluate, power_run, OnlyOff, power_run-OnlyOff,
}
use mobius_smart_home.Power.Window.{short_window-paused}
use mobius_smart_home.Power.Cooldown.{cooldown_silent}

abbrev pump : PowerSettings
pump = record {
  cutoff_switches = "7" ∷ [];
  high_threshold = some 1500;
  average_window = 60;
  cooldown = 600;
  auto_recovery_enabled = true;
  auto_recovery_window = 300;
  dry_run = false;
  low_threshold = none;
  low_threshold_grace = 120;
}

abbrev quiet : PowerState
quiet = record {
  power_buffer = [];
  last_trip = 0;
  last_trip_reason = none;
  first_active = [];
  is_paused = false;
  sent = [];
}

abbrev tripped : PowerState
tripped = record {
  power_buffer = ("4", (1000, 2000) ∷ []) ∷ [];
  last_trip = 1000;
  last_trip_reason = some high;
  first_active = ("4", 1000) ∷ [];
  is_paused = true;
  sent = ("7", "off") ∷ [];
}

power_run-OnlyOff_example :
    OnlyOff
      (power_run pump
        (reading 1000 "4" (some 2000) ∷ poll 2000 (("4", 0) ∷ []) ∷ resume 2100 ∷ [])
        quiet).sent
power_run-OnlyOff_example =
    power_run-OnlyOff pump
      (reading 1000 "4" (some 2000) ∷ poll 2000 (("4", 0) ∷ []) ∷ resume 2100 ∷ []) quiet tt

short_window-paused_example :
    (power_run pump
      (reading 1100 "4" (some 0) ∷ reading 9000 "4" (some 0) ∷ evaluate 9001 ∷ [])
      tripped).is_paused
    ≡ true
short_window-paused_example =
    short_window-paused pump
      (reading 1100 "4" (some 0) ∷ reading 9000 "4" (some 0) ∷ evaluate 9001 ∷ []) tripped
      (ground arith) (tt, (tt, (tt, tt))) refl

cooldown_silent_example :
    let st' = power_run pump (resume 1010 ∷ reading 1020 "4" (some 9000) ∷ []) tripped in
    (st'.sent ≡ ("7", "off") ∷ []) × (st'.last_trip ≡ 1000)
cooldown_silent_example =
    cooldown_silent pump (resume 1010 ∷ reading 1020 "4" (some 9000) ∷ []) tripped (ground arith)
      (ground arith, (ground arith, tt))

maybe_trip_high-any_hot_example :
    (maybe_trip_high pump 5000 tripped).1
    ≡ (any_hot 1500 tripped.power_buffer && cooldown_clear pump 5000 tripped)
maybe_trip_high-any_hot_example = maybe_trip_high-any_hot pump 5000 1500 tripped refl
