-- ===== src/Lighting/Directed.antt =====
-- apps/advanced_motion_lighting/keep_switches/enforcement.py: which way a keep switch is driven.
use mobius_smart_home.Prelude.{
  is_in, ◌≡◌, refl, String, Bool, true, false, List, [], ◌∷◌, ◌++◌, All, eq_iff, arith,
  if◌then◌else◌,
}
use mobius_smart_home.Lighting.{
  KeepSettings, Sent, House, KeepState, KeepInput, cycle, switch_event, force, enforce_one,
  enforce_each, enforces, difference, enforce_keep_switches, handle_switch, keep_step, keep_run,
}

-- A command is an `off` to a keep-off switch, or an `on` to a keep-on switch that is no keep-off switch.
abbrev pub Directed : KeepSettings → Sent → Type 0
Directed s (device, false) = is_in device s.keep_off_switches ≡ true
Directed s (device, true) =
    (is_in device s.keep_on_switches ≡ true) × (is_in device s.keep_off_switches ≡ false)

All-append_one :
    (P : Sent → Type 0) (xs : List Sent) (x : Sent) → All P xs → P x → All P (xs ++ x ∷ [])
All-append_one P [] x h p = (p, tt)
All-append_one P (y ∷ xs) x h p = (h.0, All-append_one P xs x h.1 p)

either :
    (P : KeepState → Type 0) (b : Bool) {st st' : KeepState}
    → P st
    → P st'
    → P (if b then st else st')
either P true h h' = h
either P false h h' = h'

module _ (s : KeepSettings) where
  abbrev AllDirected : KeepState → Type 0
  AllDirected st = All (Directed s) st.sent

  enforce_one-Directed :
      (env : House) (state : Bool) (d : String) (st : KeepState)
      → Directed s (d, state)
      → AllDirected st
      → AllDirected (enforce_one env state d st)
  unfolding enforce_one force
  enforce_one-Directed env state d st fits h =
      let more = All-append_one (Directed s) st.sent (d, state) h fits in
      either AllDirected _ (either AllDirected (env.send_raises st.sent d state) more more) h

  enforce_each-Directed :
      (env : House) (state : Bool) (ds : List String) (st : KeepState)
      → All (λ d. Directed s (d, state)) ds
      → AllDirected st
      → AllDirected (enforce_each env state ds st)
  unfolding enforce_each
  enforce_each-Directed env state [] st fits h = h
  enforce_each-Directed env state (d ∷ rest) st fits h =
      enforce_each-Directed env state rest (enforce_one env state d st) fits.1
        (enforce_one-Directed env state d st fits.0 h)

-- The elements of a list satisfy what every member does.
All-members :
    (P : String → Type 0) (xs : List String) → ((x : String) → is_in x xs ≡ true → P x) → All P xs
unfolding is_in
All-members P [] h = tt
All-members P (x ∷ xs) h =
    (h x (rw ((eq_iff x x).1 refl)), All-members P xs (λ y m. h y (weaken y m)))
  where
    weaken : (y : String) → is_in y xs ≡ true → is_in y (x ∷ xs) ≡ true
    weaken y m = ground arith

pub difference-members :
    (a b : List String) (x : String)
    → is_in x (difference a b) ≡ true
    → (is_in x a ≡ true) × (is_in x b ≡ false)
unfolding difference is_in
difference-members [] b x h = cc
difference-members (y ∷ a) b x h = ground (arith, difference-members a b x, eq_iff y x)

module _ (s : KeepSettings) where
  enforce_keep_switches-Directed :
      (env : House) (st : KeepState)
      → AllDirected s st
      → AllDirected s (enforce_keep_switches s env st)
  unfolding enforce_keep_switches
  enforce_keep_switches-Directed env st h =
      let off =
        enforce_each-Directed s env false s.keep_off_switches st
          (All-members _ s.keep_off_switches (λ x m. m)) h in
      let after =
        either (AllDirected s) (enforces s.keep_off_enabled s.keep_off_modes env.current_mode) off
          h in
      let ids = difference s.keep_on_switches s.keep_off_switches in
      either (AllDirected s) (enforces s.keep_on_enabled s.keep_on_modes env.current_mode)
        (enforce_each-Directed s env true ids _
          (All-members _ ids (difference-members s.keep_on_switches s.keep_off_switches)) after)
        after

  handle_switch-Directed :
      (updating : Bool) (d v : String) (st : KeepState)
      → AllDirected s st
      → AllDirected s (handle_switch s updating d v st)
  unfolding handle_switch
  handle_switch-Directed updating d v st h =
      either (AllDirected s) updating h (either (AllDirected s) _ h h)

  -- In any run of cycles and switch events, whatever the readings and failures, the enforcement only
  -- ever turns off keep-off switches, and turns on keep-on switches that are no keep-off switches.
  keep_run-Directed :
      (inputs : List KeepInput) (st : KeepState)
      → All (Directed s) st.sent
      → All (Directed s) (keep_run s inputs st).sent
  unfolding keep_run keep_step
  keep_run-Directed [] st h = h
  keep_run-Directed (cycle env ∷ rest) st h =
      keep_run-Directed rest (enforce_keep_switches s env st)
        (enforce_keep_switches-Directed env st h)
  keep_run-Directed (switch_event updating d v ∷ rest) st h =
      keep_run-Directed rest (handle_switch s updating d v st)
        (handle_switch-Directed updating d v st h)
