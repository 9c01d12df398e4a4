-- ===== src/Lights/Control/Saved.antt =====
-- apps/advanced_motion_lighting: the memo of the lights, its copy in the database, and the answers of the
-- hub.
use mobius_smart_home.Prelude.{
  is_in, ℕ, ◌≡◌, inl, inr, refl, sym, ◌∙◌, String, Bool, true, false, ◌||◌, not, Option, none, some,
  List, [], ◌∷◌, All, str_eq, arith, Bool-cases, if_both,
}
use mobius_smart_home.Lights.{
  Device, World, LightSettings, LightState, LevelEvent, save_memoization, handle_level_color,
  memo_dim_override, memo_color_temp_override,
}
use mobius_smart_home.Lights.Switches.{turn_on_switch, turn_off_switch}
use mobius_smart_home.Lights.Switches.Honest.{Honest, turn_on_switch-Honest, turn_off_switch-Honest}
use mobius_smart_home.Lights.Control.{
  device_of, should_skip_due_to_memo, is_stale, forget, action_of, switch_to, is_kept, control_one,
  control_each, save_if, control_lights,
}

-- While nothing is dirty, the database has the memo.
abbrev Synced : LightState × Bool → Type 0
Synced p = p.1 ≡ false → p.0.stored ≡ p.0.memo

Honest-Synced :
    (st : LightState) (dirty : Bool) (r : LightState × Bool)
    → Honest st r
    → Synced (st, dirty)
    → Synced (r.0, dirty || r.1)
Honest-Synced st dirty r honest synced = λ clean.
    let (memo, stored) = honest (ground (arith, clean)) in
    stored ∙ synced (ground (arith, clean)) ∙ sym memo

switch_to-Synced :
    (w : World) (s : LightSettings) (is_on : Bool) (id name : String) (d : Option Device)
    (p : LightState × Bool)
    → Synced p
    → Synced (switch_to w s is_on id name d p)
unfolding switch_to
switch_to-Synced w s is_on id name d (st, dirty) synced = elim (Bool-cases is_on) [
  | inl lights ↦ rw lights (
      Honest-Synced st dirty (turn_on_switch w s id name d st)
        (turn_on_switch-Honest w s id name d st) synced)
  | inr dark ↦ rw dark (
      Honest-Synced st dirty (turn_off_switch w id name d st)
        (turn_off_switch-Honest w id name d st) synced)
]

control_one-Synced :
    (w : World) (s : LightSettings) (is_on : Bool) (id : String) (p : LightState × Bool)
    → Synced p
    → Synced (control_one w s is_on id p)
unfolding control_one
control_one-Synced w s is_on id (st, dirty) synced = if_both Synced (is_kept s id) synced (
    if_both Synced (should_skip_due_to_memo s st.memo _ (action_of is_on))
      (if_both Synced (is_stale (device_of w s id st) (action_of is_on))
        (switch_to-Synced w s is_on id _ _ (forget _ st, true) (λ h. absurd (ground (arith, h))))
        synced)
      (switch_to-Synced w s is_on id _ _ (st, dirty) synced))

control_each-Synced :
    (w : World) (s : LightSettings) (is_on : Bool) (ids : List String) (p : LightState × Bool)
    → Synced p
    → Synced (control_each w s is_on ids p)
unfolding control_each
control_each-Synced w s is_on [] p synced = synced
control_each-Synced w s is_on (id ∷ ids) p synced =
    control_each-Synced w s is_on ids (control_one w s is_on id p)
      (control_one-Synced w s is_on id p synced)

save_if-Synced :
    (saves : Bool) (p : LightState × Bool)
    → saves ≡ true
    → Synced p
    → (save_if saves p).stored ≡ (save_if saves p).memo
unfolding save_if save_memoization
save_if-Synced saves (st, true) done synced = rw done refl
save_if-Synced saves (st, false) done synced = synced refl

-- What happens to the lights: a cycle, or an event with the outcome of its write and the answer of the
-- guard
pub data LightInput : Type 0 where
  cycle : World → Bool → LightInput
  event : Bool → Bool → String → LevelEvent → LightInput

unfoldable pub light_step : LightSettings → LightInput → LightState → LightState
light_step s (cycle w is_on) st = control_lights w s is_on st
light_step s (event saves is_updating resolved e) st =
    handle_level_color s saves is_updating resolved e st

unfoldable pub light_run : LightSettings → List LightInput → LightState → LightState
unfolding light_step
light_run s [] st = st
light_run s (i ∷ is) st = light_run s is (light_step s i st)

handle_level_color-InSync :
    (s : LightSettings) (saves is_updating : Bool) (resolved : String) (e : LevelEvent)
    (st : LightState)
    → saves ≡ true
    → st.stored ≡ st.memo
    → let st' = handle_level_color s saves is_updating resolved e st in st'.stored ≡ st'.memo
unfolding handle_level_color memo_dim_override memo_color_temp_override save_memoization
handle_level_color-InSync s saves is_updating resolved e st done saved =
    let synced : LightState → Type 0 = λ x. x.stored ≡ x.memo in
    if_both synced (not (is_in e.device_id s.switches)) saved (
      if_both synced is_updating saved (
        if_both synced (str_eq e.event_type "level") (dim _ e.value)
          (if_both synced (str_eq e.event_type "colorTemperature") (temp _ e.value) saved)))
  where
    dim :
        (name : String) (v : Option ℕ)
        → let st' = memo_dim_override saves name v st in st'.stored ≡ st'.memo
    dim name none = saved
    dim name (some v) = rw done refl

    temp :
        (name : String) (v : Option ℕ)
        → let st' = memo_color_temp_override saves name v st in st'.stored ≡ st'.memo
    temp name none = saved
    temp name (some v) = rw done refl

-- The database takes the memo, if the input writes it.
abbrev pub Saves : LightInput → Type 0
Saves (cycle w is_on) = w.saves ≡ true
Saves (event saves is_updating resolved e) = saves ≡ true

-- When the database has the memo of the lights, it has it after any cycles and events of levels and
-- colors whose writes to the database succeed, whatever the hub answers: the one write at the end of a
-- cycle misses no change of the cycle.
pub light_run-InSync :
    (s : LightSettings) (is : List LightInput) (st : LightState)
    → All Saves is
    → st.stored ≡ st.memo
    → let st' = light_run s is st in st'.stored ≡ st'.memo
unfolding light_run light_step control_lights
light_run-InSync s [] st saves saved = saved
light_run-InSync s (cycle w is_on ∷ is) st (done, saves) saved = light_run-InSync s is _ saves (
    save_if-Synced w.saves _ done
      (control_each-Synced w s is_on s.switches (st, false) (λ h. saved)))
light_run-InSync s (event saves is_updating resolved e ∷ is) st (done, later) saved =
    light_run-InSync s is _ later
      (handle_level_color-InSync s saves is_updating resolved e st done saved)
