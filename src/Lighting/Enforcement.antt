-- ===== src/Lighting/Enforcement.antt =====
-- apps/advanced_motion_lighting/keep_switches/enforcement.py: the first cycle after a reset.
use mobius_smart_home.Prelude.{
  is_in, ◌≡◌, refl, ◌∙◌, String, Bool, true, false, ◌||◌, not, Option, List, [], ◌∷◌, ◌++◌, get,
  get-put, eq_iff, arith, Bool-cases, inl, inr, if◌then◌else◌,
}
use mathlib.Core.List.{append-nil, append_assoc}
use mobius_smart_home.Lifecycle.{app, aml, Instance, reset_memoization}
use mobius_smart_home.Lifecycle.Seeding.{get-reset_memoization}
use mobius_smart_home.Lighting.Directed.{difference-members}
use mobius_smart_home.Lighting.{
  KeepSettings, Sent, House, KeepState, enforceable, reads_as, force, enforce_one, enforce_each,
  enforces, difference, enforce_keep_switches,
}

-- The commands for those of the devices that read the opposite state.
unfoldable pub corrections : (String → Option String) → Bool → List String → List Sent
corrections read state [] = []
corrections read state (device ∷ rest) =
    let later = corrections read state rest in
    if reads_as (not state) (read device) then (device, state) ∷ later else later

-- The app may enforce each of these devices.
abbrev Enforceable : List String → KeepState → Type 0
Enforceable ds st = (d : String) → is_in d ds ≡ true → enforceable (get st.keep d) ≡ true

-- The readings of the cycle stay as they are: the event log lags behind the commands.
module _ (env : House) (read : String → Option String)
    (steady : (sent : List Sent) (d : String) → env.get_switch_state sent d ≡ read d) where
  one :
      (state : Bool) (d : String) (st : KeepState)
      → enforceable (get st.keep d) ≡ true
      → (enforce_one env state d st).sent ≡ st.sent ++ corrections read state (d ∷ [])
  unfolding enforce_one force corrections
  one state d st ours =
      rw (steady st.sent d, ours)
        (elim (Bool-cases (reads_as (not state) (read d))) [
          | inl wrong ↦ rw wrong (elim (Bool-cases (env.send_raises st.sent d state)) [
            | inl raised ↦ rw raised refl
            | inr went ↦ rw went refl
          ])
          | inr right ↦ rw (right, append-nil) refl
        ])

  one-Enforceable :
      (state : Bool) (d e : String) (st : KeepState)
      → enforceable (get st.keep e) ≡ true
      → enforceable (get (enforce_one env state d st).keep e) ≡ true
  unfolding enforce_one force enforceable
  one-Enforceable state d e st ours =
      ground (arith, get-put st.keep d e (record { is_on = state; source = app }))

  each :
      (state : Bool) (ds : List String) (st : KeepState)
      → Enforceable ds st
      → (enforce_each env state ds st).sent ≡ st.sent ++ corrections read state ds
  unfolding enforce_each corrections is_in
  each state [] st h = rw append-nil refl
  each state (d ∷ rest) st h =
      let st' = enforce_one env state d st in
      let later = each state rest st' (λ e m. one-Enforceable state d e st (h e (ground arith))) in
      later
      ∙ rw (one state d st (h d (rw ((eq_iff d d).1 refl)))) (
          append_assoc st.sent (corrections read state (d ∷ [])) (corrections read state rest)
          ∙ split state d rest st.sent)
    where
      split :
          (b : Bool) (x : String) (xs : List String) (sent : List Sent)
          → sent ++ (corrections read b (x ∷ []) ++ corrections read b xs)
            ≡ sent ++ corrections read b (x ∷ xs)
      split b x xs sent = elim (Bool-cases (reads_as (not b) (read x))) [
        | inl wrong ↦ rw wrong refl
        | inr right ↦ rw right refl
      ]

  each-Enforceable :
      (state : Bool) (ds : List String) (e : String) (st : KeepState)
      → enforceable (get st.keep e) ≡ true
      → enforceable (get (enforce_each env state ds st).keep e) ≡ true
  unfolding enforce_each
  each-Enforceable state [] e st h = h
  each-Enforceable state (d ∷ rest) e st h =
      each-Enforceable state rest e (enforce_one env state d st) (one-Enforceable state d e st h)

reset-Enforceable :
    (keep_off keep_on : List String) (i : Instance) (d : String)
    → is_in d keep_off || is_in d keep_on ≡ true
    → enforceable (get (reset_memoization (aml keep_off keep_on) i).keep d) ≡ true
unfolding is_in enforceable
reset-Enforceable keep_off keep_on i d listed =
    rw (get-reset_memoization keep_off keep_on i d) (ground arith)

-- In the first cycle after a reset of the marks (by a pause, a resume or a mode change), whatever the
-- user had overridden before, the app turns off every keep-off switch that reads on, if that is
-- enabled for the mode, and then on every keep-on switch outside of the keep-off list that reads
-- off, and sends nothing else, whichever commands raise; the readings of the cycle are taken not to
-- change with its own commands.
pub enforce_keep_switches-sent :
    (s : KeepSettings) (env : House) (read : String → Option String) (i : Instance)
    (sent : List Sent)
    → ((before : List Sent) (d : String) → env.get_switch_state before d ≡ read d)
    → let keep = (reset_memoization (aml s.keep_off_switches s.keep_on_switches) i).keep in
      let st : KeepState = record { keep = keep; sent = sent } in
      let off = corrections read false s.keep_off_switches in
      let on = corrections read true (difference s.keep_on_switches s.keep_off_switches) in
      (enforce_keep_switches s env st).sent
      ≡ (sent
          ++ (if enforces s.keep_off_enabled s.keep_off_modes env.current_mode then off else []))
        ++ (if enforces s.keep_on_enabled s.keep_on_modes env.current_mode then on else [])
unfolding enforce_keep_switches
enforce_keep_switches-sent s env read i sent steady =
    let keep = (reset_memoization (aml s.keep_off_switches s.keep_on_switches) i).keep in
    let st : KeepState = record { keep = keep; sent = sent } in
    let ids = difference s.keep_on_switches s.keep_off_switches in
    let all = reset-Enforceable s.keep_off_switches s.keep_on_switches i in
    let in_off : Enforceable s.keep_off_switches st = λ d m. all d (ground arith) in
    let in_on : Enforceable ids st = λ d m.
      all d (ground (arith, difference-members s.keep_on_switches s.keep_off_switches d m)) in
    let off = each env read steady false s.keep_off_switches st in_off in
    let st' = enforce_each env false s.keep_off_switches st in
    let in_on' : Enforceable ids st' =
      λ d m. each-Enforceable env read steady false s.keep_off_switches d st (in_on d m) in
    let on = each env read steady true ids st in_on in
    let on' = each env read steady true ids st' in_on' in
    elim (Bool-cases (enforces s.keep_off_enabled s.keep_off_modes env.current_mode)) [
      | inl offs ↦ elim (Bool-cases (enforces s.keep_on_enabled s.keep_on_modes env.current_mode)) [
        | inl ons ↦ rw (offs, ons) (on' ∙ rw off refl)
        | inr skips ↦ rw (offs, skips, append-nil) off
      ]
      | inr none_off ↦
          elim (Bool-cases (enforces s.keep_on_enabled s.keep_on_modes env.current_mode)) [
            | inl ons ↦ rw (none_off, ons, append-nil) on
            | inr skips ↦ rw (none_off, skips) (rw append-nil (rw append-nil refl))
          ]
    ]
