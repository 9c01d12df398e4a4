-- ===== src/Lifecycle/AutoResume.antt =====
-- apps/base/pause_resume.py: the scheduled auto-resume.
use mobius_smart_home.Prelude.{
  ℕ, ◌+◌, ◌<◌, ◌≡◌, ◌≢◌, refl, String, true, false, none, some, Option, Dict, get, get-remove,
  eq_iff, arith, get-put_self, lt→ltb, sym, ◌∙◌,
}
use mobius_smart_home.Lifecycle.{
  Instance, Kind, base, aml, pause, resume, auto_resume, auto_resume_id, reset_memoization,
  evaluate, resume_instance, cancel_job, expiry,
}

cancel_other :
    (o : Option String) (jobs : Dict ℕ)
    → o ≢ some auto_resume_id
    → get (cancel_job o jobs) auto_resume_id ≡ get jobs auto_resume_id
unfolding cancel_job
cancel_other none jobs ne = refl
cancel_other (some id) jobs ne =
    ground (arith, get-remove jobs id auto_resume_id, eq_iff id auto_resume_id)

timed_pause :
    (kind : Kind) (duration now : ℕ) (reason : Option String) (i : Instance)
    → 0 < duration
    → let i' = pause kind true duration now reason i in
      (i'.timeout_job_id ≡ i.timeout_job_id) × (get i'.jobs auto_resume_id ≡ some (now + duration))
unfolding pause reset_memoization
timed_pause base duration now reason i pos =
    rw (lt→ltb _ _ pos) (refl, get-put_self _ auto_resume_id (now + duration))
timed_pause (aml keep_off keep_on) duration now reason i pos =
    rw (lt→ltb _ _ pos) (refl, get-put_self _ auto_resume_id (now + duration))

indefinite_pause :
    (kind : Kind) (now : ℕ) (reason : Option String) (i : Instance)
    → i.timeout_job_id ≢ some auto_resume_id
    → let i' = pause kind true 0 now reason i in
      (i'.is_paused ≡ true)
      × (i'.row.pause_expires_at ≡ none)
      × (get i'.jobs auto_resume_id ≡ get i.jobs auto_resume_id)
unfolding pause reset_memoization expiry
indefinite_pause base now reason i ne = (refl, refl, cancel_other i.timeout_job_id i.jobs ne)
indefinite_pause (aml keep_off keep_on) now reason i ne =
    (refl, refl, cancel_other i.timeout_job_id i.jobs ne)

auto_resume-resumes :
    (kind : Kind) (i : Instance)
    → let i' = auto_resume kind true i in (i'.is_paused ≡ false) × (i'.row.is_paused ≡ false)
unfolding auto_resume resume_instance resume reset_memoization evaluate
auto_resume-resumes base i = (refl, refl)
auto_resume-resumes (aml keep_off keep_on) i = (refl, refl)

-- An indefinite pause does not call off the auto-resume of a timed pause before it: although the row
-- then has no expiry, the job is still due at the end of the first pause, and when it fires the
-- instance is resumed, in memory and in the row. (The id of the
-- instance's timeout job, if it has one, is another.)
indefinite_pause_auto_resumes :
    (kind : Kind) (duration now later : ℕ) (reason reason' : Option String) (i : Instance)
    → 0 < duration
    → i.timeout_job_id ≢ some auto_resume_id
    → let timed = pause kind true duration now reason i in
      let indefinite = pause kind true 0 later reason' timed in
      let fired = auto_resume kind true indefinite in
      (indefinite.is_paused ≡ true)
      × (indefinite.row.pause_expires_at ≡ none)
      × (get indefinite.jobs auto_resume_id ≡ some (now + duration))
      × (fired.is_paused ≡ false)
      × (fired.row.is_paused ≡ false)
indefinite_pause_auto_resumes kind duration now later reason reason' i pos other =
    let timed = pause kind true duration now reason i in
    let (same, job) = timed_pause kind duration now reason i pos in
    let (paused, forever, jobs) =
      indefinite_pause kind later reason' timed (λ e. other (sym same ∙ e)) in
    let (awake, row) = auto_resume-resumes kind (pause kind true 0 later reason' timed) in
    (paused, forever, jobs ∙ job, awake, row)
