-- ===== src/Lifecycle/Scenarios.antt =====
-- apps/advanced_motion_lighting: the theorems on the pauses at a concrete instance.
use mobius_smart_home.Prelude.{
  ◌≡◌, ◌≢◌, refl, inl, String, true, false, none, some, List, [], ◌∷◌, ◌++◌,
}
use mobius_smart_home.Lifecycle.{Instance, Kind, aml, manual, auto_resume_id, for_mode}
use mobius_smart_home.Lifecycle.Sync.{
  Operation, user_pause, user_resume, self_pause, auto_resume_fires, mode_change,
}
use mobius_smart_home.Lifecycle.ModePause.{excluded, change_modes, mode_changes_track_exclusion}

-- The user had switched the keep-off lamp 4 on.
abbrev hallway : Instance
hallway = record {
  is_paused = false;
  pause_reason = none;
  keep = ("4", record { is_on = true; source = manual }) ∷ [];
  timeout_job_id = some "timeout";
  auto_resume_job_id = none;
  jobs = ("timeout", 90) ∷ [];
  row = record { is_paused = false; pause_reason = none; pause_expires_at = none };
  evaluations = 0;
}

abbrev stopped : Instance
stopped = record hallway { is_paused = true; pause_reason = some "guests" }

abbrev lighting : Kind
lighting = aml ("4" ∷ []) ("5" ∷ [])

abbrev away_modes : List String
away_modes = "Away" ∷ "Night" ∷ []

abbrev evening : List Operation
evening =
    mode_change away_modes "Away"
    ∷ user_resume
    ∷ user_pause 3600 10 (some "guests")
    ∷ mode_change away_modes "Home"
    ∷ self_pause 0 20 none
    ∷ auto_resume_fires
    ∷ []

mode_changes_track_exclusion_example :
    (change_modes lighting away_modes false
      (("Away" ∷ "Home" ∷ []) ++ "Night" ∷ [])
      hallway).is_paused
    ≡ excluded away_modes "Night"
mode_changes_track_exclusion_example =
    mode_changes_track_exclusion lighting away_modes false ("Away" ∷ "Home" ∷ []) "Night" hallway
      (inl refl)

guests_not_mode : for_mode (some "guests") ≡ false
unfolding for_mode
guests_not_mode = refl

other_job : some "timeout" ≢ some auto_resume_id
other_job e = cc
