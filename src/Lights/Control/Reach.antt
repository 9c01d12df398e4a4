-- ===== src/Lights/Control/Reach.antt =====
-- apps/advanced_motion_lighting/light_control: which devices a cycle sends commands to.
use mobius_smart_home.Prelude.{
  is_in, ◌≡◌, inl, inr, refl, sym, ap, ◌∙◌, String, Bool, true, false, ◌&&◌, ◌||◌, not, Option,
  some, List, [], ◌∷◌, str_eq, eq_iff, arith, Bool-cases, if_both,
}
use mobius_smart_home.Lights.{Device, Sent, World, LightSettings, LightState, save_memoization}
use mobius_smart_home.Lights.Switches.{switch_reads}
use mobius_smart_home.Lights.Switches.Sends.{
  commanded, OnlyTo, OnlyTo-refl, turn_off_switch-OnlyTo, turn_off_switch-commanded,
  turn_on_switch-OnlyTo, turn_on_switch-reaches, turn_on_switch-spares,
}
use mobius_smart_home.Lights.Control.{
  get_switch_state, overlay, device_of, should_skip_due_to_memo, is_stale, forget, action_of,
  switch_to, is_kept, control_one, control_each, save_if, control_lights,
}

module _ (w : World) (s : LightSettings) (is_on : Bool) where
  switch_to-OnlyTo :
      (id name : String) (d : Option Device) (p : LightState × Bool)
      → OnlyTo id p.0.sent (switch_to w s is_on id name d p).0.sent
  unfolding switch_to
  switch_to-OnlyTo id name d (st, dirty) = elim (Bool-cases is_on) [
    | inl lights ↦ rw lights (turn_on_switch-OnlyTo id w s name d st)
    | inr dark ↦ rw dark (turn_off_switch-OnlyTo id w name d st)
  ]

  control_one-OnlyTo :
      (id : String) (p : LightState × Bool) → OnlyTo id p.0.sent (control_one w s is_on id p).0.sent
  unfolding control_one forget
  control_one-OnlyTo id (st, dirty) =
      let only : LightState × Bool → Type 0 = λ r. OnlyTo id st.sent r.0.sent in
      let same : OnlyTo id st.sent st.sent = OnlyTo-refl id st.sent in
      if_both only (is_kept s id) same (
        if_both only (should_skip_due_to_memo s st.memo _ (action_of is_on))
          (if_both only (is_stale (device_of w s id st) (action_of is_on))
            (switch_to-OnlyTo id _ _ (forget _ st, true)) same)
          (switch_to-OnlyTo id _ _ (st, dirty)))

  module _ (d v : String) (reading : (sent : List Sent) → get_switch_state w sent d ≡ some v) where
    device_of-reads :
        (st : LightState) (a : String) → switch_reads (device_of w s d st) a ≡ str_eq v a
    unfolding device_of overlay switch_reads
    device_of-reads st a = rw (reading st.sent) refl

    device_of-stale :
        (st : LightState) (a : String) → is_stale (device_of w s d st) a ≡ not (str_eq v a)
    unfolding device_of overlay is_stale
    device_of-stale st a = rw (reading st.sent) (ground arith)

    switch_to-commanded :
        (name : String) (dev : Option Device) (p : LightState × Bool)
        → ((a : String) → switch_reads dev a ≡ str_eq v a)
        → (is_on && s.use_dim && str_eq v "on") ≡ false
        → commanded d (switch_to w s is_on d name dev p).0.sent
          ≡ (commanded d p.0.sent || not (str_eq v (action_of is_on)))
    unfolding switch_to action_of
    switch_to-commanded name dev (st, dirty) dev_reads undimmed = elim (Bool-cases is_on) [
      | inr dark ↦ rw dark (turn_off_switch-commanded d w name dev st ∙ rw (dev_reads "off") refl)
      | inl lights ↦ elim (Bool-cases (switch_reads dev "on")) [
        | inl is_lit ↦
            rw
              (
                lights,
                turn_on_switch-spares d w s name dev st
                    (ground (arith, undimmed, lights, sym (dev_reads "on") ∙ is_lit)) is_lit,
              )
              (ground (arith, sym (dev_reads "on") ∙ is_lit))
        | inr is_dark ↦ rw lights (
            turn_on_switch-reaches d w s name dev st is_dark
            ∙ ground (arith, sym (dev_reads "on") ∙ is_dark))
      ]
    ]

    control_one-commanded :
        (p : LightState × Bool)
        → is_kept s d ≡ false
        → (is_on && s.use_dim && str_eq v "on") ≡ false
        → commanded d (control_one w s is_on d p).0.sent
          ≡ (commanded d p.0.sent || not (str_eq v (action_of is_on)))
    unfolding control_one forget
    control_one-commanded (st, dirty) free undimmed =
        let right : LightState × Bool → Type 0 =
          λ r. commanded d r.0.sent ≡ (commanded d st.sent || not (str_eq v (action_of is_on))) in
        rw free (
          if_both right (should_skip_due_to_memo s st.memo _ (action_of is_on))
            (rw (device_of-stale st (action_of is_on))
              (elim (Bool-cases (str_eq v (action_of is_on))) [
                | inl same ↦ rw same (ground arith)
                | inr differs ↦ rw differs (
                    switch_to-commanded _ _ (forget _ st, true) (device_of-reads st) undimmed
                    ∙ rw differs refl)
              ]))
            (switch_to-commanded _ _ (st, dirty) (device_of-reads st) undimmed))

    round-commanded :
        (id : String) (p : LightState × Bool)
        → is_kept s d ≡ false
        → (is_on && s.use_dim && str_eq v "on") ≡ false
        → commanded d (control_one w s is_on id p).0.sent
          ≡ (commanded d p.0.sent || (str_eq id d && not (str_eq v (action_of is_on))))
    round-commanded id p free undimmed = elim (Bool-cases (str_eq id d)) [
      | inl same ↦
          rw ((eq_iff id d).0 same, (eq_iff d d).1 refl) (control_one-commanded p free undimmed)
      | inr other ↦
          (control_one-OnlyTo id p).others d (λ e. cc (other, (eq_iff id d).1 (sym e)))
          ∙ ground (arith, other)
    ]

    control_each-commanded :
        (ids : List String) (p : LightState × Bool)
        → is_kept s d ≡ false
        → (is_on && s.use_dim && str_eq v "on") ≡ false
        → commanded d (control_each w s is_on ids p).0.sent
          ≡ (commanded d p.0.sent || (is_in d ids && not (str_eq v (action_of is_on))))
    unfolding control_each is_in
    control_each-commanded [] p free undimmed = ground arith
    control_each-commanded (id ∷ ids) p free undimmed =
        control_each-commanded ids (control_one w s is_on id p) free undimmed
        ∙ ground (arith, round-commanded id p free undimmed)

  control_one-kept :
      (d id : String) (p : LightState × Bool)
      → is_kept s d ≡ true
      → commanded d (control_one w s is_on id p).0.sent ≡ commanded d p.0.sent
  unfolding control_one
  control_one-kept d id (st, dirty) kept = elim (Bool-cases (str_eq id d)) [
    | inl same ↦ rw ((eq_iff id d).0 same, kept) refl
    | inr other ↦
        (control_one-OnlyTo id (st, dirty)).others d (λ e. cc (other, (eq_iff id d).1 (sym e)))
  ]

  control_each-kept :
      (d : String) (ids : List String) (p : LightState × Bool)
      → is_kept s d ≡ true
      → commanded d (control_each w s is_on ids p).0.sent ≡ commanded d p.0.sent
  unfolding control_each
  control_each-kept d [] p kept = refl
  control_each-kept d (id ∷ ids) p kept =
      control_each-kept d ids (control_one w s is_on id p) kept ∙ control_one-kept d id p kept

  save_if-sent : (saves : Bool) (p : LightState × Bool) → (save_if saves p).sent ≡ p.0.sent
  unfolding save_if save_memoization
  save_if-sent saves (st, true) = refl
  save_if-sent saves (st, false) = refl

  -- A cycle sends a command to a device that got none before, and that reads the same state whenever it
  -- is asked, exactly when it is one of the switches, is on neither keep list, and that state is not the
  -- wanted one: whatever the memo says of it, and whatever becomes of the commands to it and to the
  -- others. Only a device that reads on in a cycle that turns on with dimming is left out of this.
  pub control_lights-commanded :
      (d v : String) (st : LightState)
      → ((sent : List Sent) → get_switch_state w sent d ≡ some v)
      → (is_on && s.use_dim && str_eq v "on") ≡ false
      → commanded d st.sent ≡ false
      → commanded d (control_lights w s is_on st).sent
        ≡ (is_in d s.switches && not (is_kept s d) && not (str_eq v (action_of is_on)))
  unfolding control_lights
  control_lights-commanded d v st reading undimmed none_before =
      ap (commanded d) (save_if-sent w.saves (control_each w s is_on s.switches (st, false)))
      ∙ elim (Bool-cases (is_kept s d)) [
        | inl kept ↦
            control_each-kept d s.switches (st, false) kept ∙ ground (arith, kept, none_before)
        | inr free ↦
            control_each-commanded d v reading s.switches (st, false) free undimmed
            ∙ ground (arith, free, none_before)
      ]
