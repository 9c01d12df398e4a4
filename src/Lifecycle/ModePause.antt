-- ===== src/Lifecycle/ModePause.antt =====
-- apps/advanced_motion_lighting/mode_change.py: the pause of the exclusion modes.
use mobius_smart_home.Prelude.{
  ℕ, ◌≡◌, refl, String, Bool, true, false, Option, List, [], ◌∷◌, ◌++◌, any, All, ◌⊎◌, str_eq,
  eq_iff, arith,
}
use mobius_smart_home.Lifecycle.{
  Instance, Kind, base, aml, pause, resume, pause_instance, resume_instance, on_mode_change,
  for_mode, reset_memoization, evaluate, cancel_timeout, mode_exclusion,
}

abbrev pub excluded : List String → String → Bool
excluded exclusion_modes mode = any (λ m. str_eq m mode) exclusion_modes

unfoldable pub change_modes : Kind → List String → Bool → List String → Instance → Instance
change_modes kind exclusion_modes reachable [] i = i
change_modes kind exclusion_modes reachable (mode ∷ rest) i =
    change_modes kind exclusion_modes reachable rest
      (on_mode_change kind exclusion_modes reachable mode i)

-- The instance is not paused, or it is paused for the mode.
abbrev pub PausedForMode : Instance → Type 0
PausedForMode i = i.is_paused ≡ true → for_mode i.pause_reason ≡ true

on_mode_change-tracks :
    (kind : Kind) (ex : List String) (reachable : Bool) (mode : String) (i : Instance)
    → PausedForMode i
    → let i' = on_mode_change kind ex reachable mode i in
      PausedForMode i' × (i'.is_paused ≡ excluded ex mode)
unfolding on_mode_change for_mode reset_memoization evaluate cancel_timeout
on_mode_change-tracks kind ex reachable mode i h =
    ground (arith, (eq_iff mode_exclusion mode_exclusion).1 refl)

change_modes-tracks :
    (kind : Kind) (ex : List String) (reachable : Bool) (modes : List String) (last : String)
    (i : Instance)
    → PausedForMode i
    → (change_modes kind ex reachable (modes ++ last ∷ []) i).is_paused ≡ excluded ex last
unfolding change_modes
change_modes-tracks kind ex reachable [] last i h =
    (on_mode_change-tracks kind ex reachable last i h).1
change_modes-tracks kind ex reachable (mode ∷ rest) last i h =
    change_modes-tracks kind ex reachable rest last (on_mode_change kind ex reachable mode i)
      (on_mode_change-tracks kind ex reachable mode i h).0

-- If an instance is not paused, or paused for the mode, then after any mode changes, and whether or not
-- the database takes the writes, it is paused exactly when the last mode is an exclusion mode.
pub mode_changes_track_exclusion :
    (kind : Kind) (ex : List String) (reachable : Bool) (modes : List String) (last : String)
    (i : Instance)
    → (i.is_paused ≡ false) ⊎ (for_mode i.pause_reason ≡ true)
    → (change_modes kind ex reachable (modes ++ last ∷ []) i).is_paused ≡ excluded ex last
mode_changes_track_exclusion kind ex reachable modes last i h =
    change_modes-tracks kind ex reachable modes last i (λ paused. ground arith)

keeps_paused :
    (kind : Kind) (ex : List String) (reachable : Bool) (mode : String) (i : Instance)
    → i.is_paused ≡ true
    → for_mode i.pause_reason ≡ false
    → excluded ex mode ≡ false
    → on_mode_change kind ex reachable mode i ≡ i
unfolding on_mode_change
keeps_paused kind ex reachable mode i paused user allowed = ground arith

-- A pause whose reason, in memory, is not the mode is left alone by any number of changes to modes that
-- are not excluded: nothing of the instance changes, and it is not evaluated.
mode_changes_keep_user_pause :
    (kind : Kind) (ex : List String) (reachable : Bool) (modes : List String) (i : Instance)
    → i.is_paused ≡ true
    → for_mode i.pause_reason ≡ false
    → All (λ mode. excluded ex mode ≡ false) modes
    → change_modes kind ex reachable modes i ≡ i
unfolding change_modes
mode_changes_keep_user_pause kind ex reachable [] i paused user allowed = refl
mode_changes_keep_user_pause kind ex reachable (mode ∷ rest) i paused user allowed =
    rw (keeps_paused kind ex reachable mode i paused user allowed.0)
      (mode_changes_keep_user_pause kind ex reachable rest i paused user allowed.1)

user_pause-reason :
    (kind : Kind) (reachable : Bool) (duration now : ℕ) (reason : Option String) (i : Instance)
    → for_mode i.pause_reason ≡ true
    → for_mode (pause_instance kind reachable duration now reason i).pause_reason ≡ true
unfolding pause_instance pause reset_memoization
user_pause-reason base reachable duration now reason i h = ground arith
user_pause-reason (aml keep_off keep_on) reachable duration now reason i h = ground arith

user_resume-reason :
    (keep_off keep_on : List String) (reachable : Bool) (i : Instance)
    → (resume_instance (aml keep_off keep_on) reachable i).pause_reason ≡ i.pause_reason
unfolding resume_instance resume reset_memoization evaluate
user_resume-reason keep_off keep_on reachable i = ground arith

exclude-reason :
    (kind : Kind) (ex : List String) (mode : String) (i : Instance)
    → excluded ex mode ≡ true
    → for_mode (on_mode_change kind ex true mode i).pause_reason ≡ true
unfolding on_mode_change for_mode cancel_timeout
exclude-reason kind ex mode i out = ground (arith, (eq_iff mode_exclusion mode_exclusion).1 refl)

user_pause-paused :
    (kind : Kind) (duration now : ℕ) (reason : Option String) (i : Instance)
    → let i' = pause_instance kind true duration now reason i in
      (i'.is_paused ≡ true) × (i'.row.pause_reason ≡ reason)
unfolding pause_instance pause reset_memoization
user_pause-paused base duration now reason i = ground arith
user_pause-paused (aml keep_off keep_on) duration now reason i = ground arith

include-resumes :
    (keep_off keep_on ex : List String) (mode : String) (i : Instance)
    → for_mode i.pause_reason ≡ true
    → excluded ex mode ≡ false
    → i.is_paused ≡ true
    → let i' = on_mode_change (aml keep_off keep_on) ex true mode i in
      (i'.is_paused ≡ false) × (i'.row.is_paused ≡ false)
unfolding on_mode_change reset_memoization evaluate cancel_timeout
include-resumes keep_off keep_on ex mode i mine allowed paused = ground arith

-- A pause by the user is undone by the next change to a mode that is not excluded, whatever reason the
-- user gave, if an exclusion mode had paused the motion-lighting instance before: the reason in
-- memory is still that of the mode, since its `resume` does not clear it and the user's pause does
-- not replace it.
mode_change_undoes_user_pause :
    (keep_off keep_on ex : List String) (duration now : ℕ) (reason : Option String)
    (away home : String) (i : Instance)
    → i.is_paused ≡ false
    → excluded ex away ≡ true
    → excluded ex home ≡ false
    → let kind = aml keep_off keep_on in
      let gone = on_mode_change kind ex true away i in
      let resumed = resume_instance kind true gone in
      let paused = pause_instance kind true duration now reason resumed in
      let back = on_mode_change kind ex true home paused in
      (paused.is_paused ≡ true)
      × (paused.row.pause_reason ≡ reason)
      × (back.is_paused ≡ false)
      × (back.row.is_paused ≡ false)
mode_change_undoes_user_pause keep_off keep_on ex duration now reason away home i awake out
      allowed =
    let kind = aml keep_off keep_on in
    let gone = on_mode_change kind ex true away i in
    let resumed = resume_instance kind true gone in
    let mine : for_mode resumed.pause_reason ≡ true =
      rw (user_resume-reason keep_off keep_on true gone) (exclude-reason kind ex away i out) in
    let (paused, given) = user_pause-paused kind duration now reason resumed in
    let (back, row) =
      include-resumes keep_off keep_on ex home _
        (user_pause-reason kind true duration now reason resumed mine) allowed paused in
    (paused, given, back, row)
