-- ===== src/Lifecycle.antt =====
-- apps/base/pause_resume.py, apps/base/scheduling.py, services/instance_manager.py and the overrides of
-- apps/advanced_motion_lighting (memoization.py, mode_change.py): pausing and resuming an app
-- instance. A duration is in seconds (the source's minutes times 60); `reachable` tells whether the
-- database takes the PATCH.
pub mod Seeding
pub mod Sync
pub mod ModePause
pub mod AutoResume
mod Scenarios
use mobius_smart_home.Prelude.{
  ℕ, suc, ◌+◌, String, Bool, true, false, ◌&&◌, ◌||◌, not, Option, none, some, List, [], ◌∷◌, Dict,
  get, put, remove, ltb, any, str_eq, if◌then◌else◌,
}

-- The pause columns of `app_instances`
pub record PauseRow : Type 0 where
  pub is_paused : Bool
  pub pause_reason : Option String
  pub pause_expires_at : Option ℕ

pub data Source : Type 0 where
  app manual : Source

pub record Mark : Type 0 where
  pub is_on : Bool
  pub source : Source

-- A running instance, the scheduler's pending jobs (id and time), and its database row. `keep` is the
-- part of `switch_state` under the keys `keep:<device>`, by device; the other memo entries are
-- dropped by each reset and are not modelled. `evaluations` counts the calls of `master`.
pub record Instance : Type 0 where
  pub is_paused : Bool
  pub pause_reason : Option String
  pub keep : Dict Mark
  pub timeout_job_id : Option String
  pub auto_resume_job_id : Option String
  pub jobs : Dict ℕ
  pub row : PauseRow
  pub evaluations : ℕ

-- Which class: one with the inherited `resume` and memo, or AdvancedMotionLightingApp with its lists.
pub data Kind : Type 0 where
  base : Kind
  aml : List String → List String → Kind

-- The rounds of the two loops of `_init_memoization_keys`
seed_from : Option Mark → Bool → Dict Mark → String → Dict Mark
seed_from none state d device = put d device (record { is_on = state; source = app })
seed_from (some mark) state d device = d

unfoldable pub seed : Bool → List String → Dict Mark → Dict Mark
unfolding seed_from
seed state [] d = d
seed state (device ∷ rest) d = seed state rest (seed_from (get d device) state d device)

-- `_reset_memoization`, of the base class and of the override
unfoldable pub reset_memoization : Kind → Instance → Instance
reset_memoization base i = record i { keep = [] }
reset_memoization (aml keep_off keep_on) i = record i {
  keep = seed true keep_on (seed false keep_off []);
}

-- `scheduler.cancel(id)` for an id that may be None
unfoldable pub cancel_job : Option String → Dict ℕ → Dict ℕ
cancel_job none jobs = jobs
cancel_job (some id) jobs = remove jobs id

abbrev pub auto_resume_id : String
auto_resume_id = "auto_resume"

-- `_persist_pause_patch`, `_patch_pause_state` and the PATCH of the manager: nothing if it fails.
patch : Bool → PauseRow → Instance → Instance
patch reachable row i = if reachable then record i { row = row } else i

new_reason : Option String → Option String → Option String
new_reason none old = old
new_reason (some r) old = some r

-- `pause_expires_at`
unfoldable pub expiry : ℕ → ℕ → Option ℕ
expiry duration now = if ltb 0 duration then some (now + duration) else none

schedule_auto_resume : ℕ → ℕ → Instance → Instance
unfolding cancel_job
schedule_auto_resume duration now i =
    if ltb 0 duration
    then record i {
      jobs =
          put (remove (cancel_job i.auto_resume_job_id i.jobs) auto_resume_id) auto_resume_id
            (now + duration);
      auto_resume_job_id = some auto_resume_id;
    }
    else i

paused_with : Option String → Instance → Instance
unfolding new_reason
paused_with reason i = record i {
  is_paused = true;
  pause_reason = new_reason reason i.pause_reason;
}

-- `pause(duration, reason)` at the time `now`
unfoldable pub pause : Kind → Bool → ℕ → ℕ → Option String → Instance → Instance
unfolding paused_with patch cancel_job schedule_auto_resume new_reason
pause kind reachable duration now reason i =
    let reset = reset_memoization kind (paused_with reason i) in
    let written =
      patch reachable
        (record {
          is_paused = true;
          pause_reason = new_reason reason i.row.pause_reason;
          pause_expires_at = expiry duration now;
        })
        reset in
    schedule_auto_resume duration now
      (record written { jobs = cancel_job i.timeout_job_id written.jobs })

-- `master` as far as the lifecycle sees it
unfoldable pub evaluate : Instance → Instance
evaluate i = record i { evaluations = suc i.evaluations }

without_auto_resume : Instance → Instance
unfolding cancel_job
without_auto_resume i = record i {
  jobs = cancel_job i.auto_resume_job_id i.jobs;
  auto_resume_job_id = none;
}

cleared : PauseRow
cleared = record { is_paused = false; pause_reason = none; pause_expires_at = none }

-- `resume`: the inherited one, and the override of AdvancedMotionLightingApp
unfoldable pub resume : Kind → Bool → Instance → Instance
unfolding without_auto_resume patch cleared
resume base reachable i = evaluate (
    reset_memoization base (
      without_auto_resume
        (patch reachable cleared (record i { is_paused = false; pause_reason = none }))))
resume (aml keep_off keep_on) reachable i = evaluate (
    reset_memoization (aml keep_off keep_on) (without_auto_resume (record i { is_paused = false })))

-- `InstanceManager.pause_instance`, with the duration 0 for None
unfoldable pub pause_instance : Kind → Bool → ℕ → ℕ → Option String → Instance → Instance
unfolding patch
pause_instance kind reachable duration now reason i =
    let expires = if ltb 0 duration then some (now + duration) else i.row.pause_expires_at in
    let written =
      patch reachable
        (record { is_paused = true; pause_reason = reason; pause_expires_at = expires }) i in
    if reachable then pause kind reachable duration now none written else i

-- `InstanceManager.resume_instance`
unfoldable pub resume_instance : Kind → Bool → Instance → Instance
unfolding patch cleared
resume_instance kind reachable i =
    if reachable then resume kind reachable (patch reachable cleared i) else i

-- The scheduler runs the auto-resume job: the job is gone, then `_auto_resume`.
unfoldable pub auto_resume : Kind → Bool → Instance → Instance
auto_resume kind reachable i =
    resume_instance kind reachable
      (record i { jobs = remove i.jobs auto_resume_id; auto_resume_job_id = none })

-- `cancel_timeout`
unfoldable pub cancel_timeout : Instance → Instance
unfolding cancel_job
cancel_timeout i = record i { jobs = cancel_job i.timeout_job_id i.jobs; timeout_job_id = none }

abbrev pub mode_exclusion : String
mode_exclusion = "mode_exclusion"

-- `_pause_reason == 'mode_exclusion'`
unfoldable pub for_mode : Option String → Bool
for_mode none = false
for_mode (some r) = str_eq r mode_exclusion

exclude : Bool → Instance → Instance
unfolding patch
exclude reachable i =
    if not i.is_paused || not (for_mode i.pause_reason)
    then (let i' =
          cancel_timeout (record i { is_paused = true; pause_reason = some mode_exclusion }) in
        patch reachable (record i.row { is_paused = true; pause_reason = some mode_exclusion }) i')
    else i

include : Kind → Bool → Instance → Instance
unfolding patch
include kind reachable i =
    let resumed =
      patch reachable (record i.row { is_paused = false; pause_reason = none })
        (record i { is_paused = false; pause_reason = none }) in
    let fresh = λ (j : Instance). evaluate (cancel_timeout (reset_memoization kind j)) in
    if i.is_paused && for_mode i.pause_reason
    then fresh resumed
    else if i.is_paused
    then i
    else fresh i

-- `on_mode_change` of AdvancedMotionLightingApp, with its setting `exclusionModes`
unfoldable pub on_mode_change : Kind → List String → Bool → String → Instance → Instance
unfolding exclude include
on_mode_change kind exclusion_modes reachable mode i =
    if any (λ m. str_eq m mode) exclusion_modes
    then exclude reachable i
    else include kind reachable i
