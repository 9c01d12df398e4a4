-- ===== src/Lifecycle/Sync.antt =====
-- apps/base/pause_resume.py, services/instance_manager.py: the database row follows the instance.
use mobius_smart_home.Prelude.{ℕ, ◌≡◌, String, true, Option, List, [], ◌∷◌, All, arith}
use mobius_smart_home.Lifecycle.{
  Instance, Kind, base, aml, pause, resume, pause_instance, resume_instance, auto_resume,
  on_mode_change, reset_memoization, evaluate, cancel_timeout,
}

-- The operations of an instance's life, on a database that takes each PATCH.
pub data Operation : Type 0 where
  self_pause : ℕ → ℕ → Option String → Operation
  self_resume : Operation
  user_pause : ℕ → ℕ → Option String → Operation
  user_resume : Operation
  auto_resume_fires : Operation
  mode_change : List String → String → Operation

unfoldable pub perform : Kind → Instance → Operation → Instance
perform kind i (self_pause duration now reason) = pause kind true duration now reason i
perform kind i self_resume = resume kind true i
perform kind i (user_pause duration now reason) = pause_instance kind true duration now reason i
perform kind i user_resume = resume_instance kind true i
perform kind i auto_resume_fires = auto_resume kind true i
perform kind i (mode_change exclusion_modes mode) = on_mode_change kind exclusion_modes true mode i

unfoldable pub perform_all : Kind → Instance → List Operation → Instance
perform_all kind i [] = i
perform_all kind i (op ∷ rest) = perform_all kind (perform kind i op) rest

-- All operations but two: the mode changes are those of the motion-lighting app, whose own `resume` is
-- the one that writes nothing.
abbrev pub WritesThrough : Kind → Operation → Type 0
WritesThrough base (mode_change exclusion_modes mode) = ⊥
WritesThrough base _ = Unit
WritesThrough (aml keep_off keep_on) self_resume = ⊥
WritesThrough (aml keep_off keep_on) _ = Unit

abbrev pub InSync : Instance → Type 0
InSync i = i.row.is_paused ≡ i.is_paused

perform-InSync :
    (kind : Kind) (i : Instance) (op : Operation)
    → WritesThrough kind op
    → InSync i
    → InSync (perform kind i op)
unfolding perform pause resume pause_instance resume_instance auto_resume on_mode_change
    reset_memoization evaluate cancel_timeout
perform-InSync base i (self_pause duration now reason) w h = ground arith
perform-InSync base i self_resume w h = ground arith
perform-InSync base i (user_pause duration now reason) w h = ground arith
perform-InSync base i user_resume w h = ground arith
perform-InSync base i auto_resume_fires w h = ground arith
perform-InSync base i (mode_change exclusion_modes mode) w h = absurd w
perform-InSync (aml keep_off keep_on) i (self_pause duration now reason) w h = ground arith
perform-InSync (aml keep_off keep_on) i self_resume w h = absurd w
perform-InSync (aml keep_off keep_on) i (user_pause duration now reason) w h = ground arith
perform-InSync (aml keep_off keep_on) i user_resume w h = ground arith
perform-InSync (aml keep_off keep_on) i auto_resume_fires w h = ground arith
perform-InSync (aml keep_off keep_on) i (mode_change exclusion_modes mode) w h = ground arith

-- While the database takes the writes, after any sequence of pauses, resumes, expiries and mode
-- changes, the row says paused exactly when the instance is, so that a restart restores its state;
-- for the motion-lighting app this leaves out a direct call of its own `resume`, which does not
-- write.
perform_all-InSync :
    (kind : Kind) (i : Instance) (ops : List Operation)
    → InSync i
    → All (WritesThrough kind) ops
    → InSync (perform_all kind i ops)
unfolding perform_all
perform_all-InSync kind i [] h w = h
perform_all-InSync kind i (op ∷ rest) h w =
    perform_all-InSync kind (perform kind i op) rest (perform-InSync kind i op w.0 h) w.1
