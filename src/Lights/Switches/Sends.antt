-- ===== src/Lights/Switches/Sends.antt =====
-- apps/advanced_motion_lighting/light_control: to which devices the commands go.
use mobius_smart_home.Prelude.{
  ℕ, ◌≡◌, ◌≢◌, inl, inr, refl, ◌∙◌, String, Bool, true, false, ◌||◌, not, Option, none, some, List,
  [], ◌∷◌, ◌++◌, any, str_eq, eq_iff, arith, Bool-cases,
}
use mobius_smart_home.Lights.{
  Device, Command, off, set_level, Sent, Answer, confirmed, unconfirmed, failed, raised, World,
  LightSettings, Color, temperature, color, LightState, issue,
}
use mobius_smart_home.Lights.Switches.{
  applied, apply_color_dict, apply_some, set_color_of, note_switch, note_dim, note_color,
  when_verified, switch_reads, relevel, level_is, level_of, lit, target_level, turn_on_switch,
  turn_off_switch,
}

-- Whether a device got a command
abbrev pub commanded : String → List Sent → Bool
commanded d sent = any (λ c. str_eq c.0 d) sent

-- From one list of commands to a later one, only the device got new ones.
pub record OnlyTo (device : String) (before after : List Sent) : Type 0 where
  pub others : (d : String) → d ≢ device → commanded d after ≡ commanded d before
  pub grows : commanded device before ≡ true → commanded device after ≡ true

module _ (device : String) where
  pub OnlyTo-refl : (xs : List Sent) → OnlyTo device xs xs
  OnlyTo-refl xs = record { others = λ d other. refl; grows = λ h. h }

  OnlyTo-trans :
      {xs ys zs : List Sent} → OnlyTo device xs ys → OnlyTo device ys zs → OnlyTo device xs zs
  OnlyTo-trans f g = record {
    others = λ d other. g.others d other ∙ f.others d other;
    grows = λ h. g.grows (f.grows h);
  }

  commanded-append :
      (d : String) (xs : List Sent) (c : Sent)
      → commanded d (xs ++ c ∷ []) ≡ (commanded d xs || str_eq c.0 d)
  commanded-append d [] c = ground arith
  commanded-append d (x ∷ xs) c = ground (arith, commanded-append d xs c)

  issue-OnlyTo :
      (w : World) (c : Command) (st : LightState)
      → OnlyTo device st.sent (issue w (device, c) st).0.sent
  unfolding issue
  issue-OnlyTo w c st = record {
    others =
        λ d other. commanded-append d st.sent (device, c) ∙ ground (arith, eq_iff device d, other);
    grows = λ h. commanded-append device st.sent (device, c) ∙ ground (arith, h);
  }

  issue-commanded :
      (w : World) (c : Command) (st : LightState)
      → commanded device (issue w (device, c) st).0.sent ≡ true
  unfolding issue
  issue-commanded w c st =
      commanded-append device st.sent (device, c) ∙ ground (arith, eq_iff device device)

  applied-sent : (c : Color) (p : LightState × Answer) → (applied c p).0.sent ≡ p.0.sent
  unfolding applied
  applied-sent c (st, confirmed) = refl
  applied-sent c (st, unconfirmed) = refl
  applied-sent c (st, failed) = refl
  applied-sent c (st, raised) = refl

  apply_color_dict-OnlyTo :
      (w : World) (c : Color) (has_ct has_color : Bool) (st : LightState)
      → OnlyTo device st.sent (apply_color_dict w device c has_ct has_color st).0.sent
  unfolding apply_color_dict
  apply_color_dict-OnlyTo w (temperature t source) true has_color st =
      rw (applied-sent _ _) (issue-OnlyTo w _ st)
  apply_color_dict-OnlyTo w (temperature t source) false has_color st = OnlyTo-refl st.sent
  apply_color_dict-OnlyTo w (color h s source) has_ct true st =
      rw (applied-sent _ _) (issue-OnlyTo w _ st)
  apply_color_dict-OnlyTo w (color h s source) has_ct false st = OnlyTo-refl st.sent

  apply_some-OnlyTo :
      (w : World) (c : Option Color) (has_ct has_color : Bool) (st : LightState)
      → OnlyTo device st.sent (apply_some w device c has_ct has_color st).0.sent
  unfolding apply_some
  apply_some-OnlyTo w none has_ct has_color st = OnlyTo-refl st.sent
  apply_some-OnlyTo w (some c) has_ct has_color st = apply_color_dict-OnlyTo w c has_ct has_color st

  note_color-sent :
      (name : String) (p : LightState × Option Color) → (note_color name p).sent ≡ p.0.sent
  unfolding note_color
  note_color-sent name (st, none) = refl
  note_color-sent name (st, some c) = refl

  note_dim-sent :
      (name : String) (target : Option ℕ) (st : LightState)
      → (note_dim name target st).sent ≡ st.sent
  unfolding note_dim
  note_dim-sent name none st = refl
  note_dim-sent name (some l) st = refl

  lit-OnlyTo :
      (w : World) (s : LightSettings) (name : String) (d : Option Device) (target : Option ℕ)
      (st : LightState)
      → OnlyTo device st.sent (lit w s device name d target st).sent
  unfolding lit set_color_of note_switch
  lit-OnlyTo w s name d target st =
      rw (note_dim-sent name target _) (elim (Bool-cases s.use_color) [
        | inl colors ↦ rw (colors, note_color-sent name _) (apply_some-OnlyTo w _ _ _ st)
        | inr plain ↦ rw plain (OnlyTo-refl st.sent)
      ])

  when_verified-OnlyTo :
      (note : LightState → LightState) (xs : List Sent) (p : LightState × Answer)
      → ((st : LightState) → OnlyTo device st.sent (note st).sent)
      → OnlyTo device xs p.0.sent
      → OnlyTo device xs (when_verified note p).0.sent
  unfolding when_verified
  when_verified-OnlyTo note xs (st, confirmed) keeps so_far = OnlyTo-trans so_far (keeps st)
  when_verified-OnlyTo note xs (st, unconfirmed) keeps so_far = so_far
  when_verified-OnlyTo note xs (st, failed) keeps so_far = so_far
  when_verified-OnlyTo note xs (st, raised) keeps so_far = so_far

  when_verified-commanded :
      (note : LightState → LightState) (p : LightState × Answer)
      → ((st : LightState) → OnlyTo device st.sent (note st).sent)
      → commanded device p.0.sent ≡ true
      → commanded device (when_verified note p).0.sent ≡ true
  unfolding when_verified
  when_verified-commanded note (st, confirmed) keeps h = (keeps st).grows h
  when_verified-commanded note (st, unconfirmed) keeps h = h
  when_verified-commanded note (st, failed) keeps h = h
  when_verified-commanded note (st, raised) keeps h = h

  relevel-OnlyTo :
      (w : World) (name : String) (d : Option Device) (target : Option ℕ) (st : LightState)
      → OnlyTo device st.sent (relevel w device name d target st).0.sent
  unfolding relevel
  relevel-OnlyTo w name d none st = OnlyTo-refl st.sent
  relevel-OnlyTo w name d (some level) st = elim (Bool-cases (level_is (level_of d) level)) [
    | inl same ↦ rw same (OnlyTo-refl st.sent)
    | inr differs ↦ rw differs (
        when_verified-OnlyTo (note_dim name (some level)) st.sent _
          (λ st'. rw (note_dim-sent name (some level) st') (OnlyTo-refl st'.sent))
          (issue-OnlyTo w (set_level level) st))
  ]

  pub turn_off_switch-OnlyTo :
      (w : World) (name : String) (d : Option Device) (st : LightState)
      → OnlyTo device st.sent (turn_off_switch w device name d st).0.sent
  unfolding turn_off_switch note_switch
  turn_off_switch-OnlyTo w name d st = elim (Bool-cases (switch_reads d "off")) [
    | inl is_off ↦ rw is_off (OnlyTo-refl st.sent)
    | inr not_off ↦ rw not_off (
        when_verified-OnlyTo (note_switch name "off") st.sent _ (λ st'. OnlyTo-refl st'.sent)
          (issue-OnlyTo w off st))
  ]

  pub turn_off_switch-commanded :
      (w : World) (name : String) (d : Option Device) (st : LightState)
      → commanded device (turn_off_switch w device name d st).0.sent
        ≡ (commanded device st.sent || not (switch_reads d "off"))
  unfolding turn_off_switch note_switch
  turn_off_switch-commanded w name d st = elim (Bool-cases (switch_reads d "off")) [
    | inl is_off ↦ rw is_off (ground arith)
    | inr not_off ↦ rw not_off (
        when_verified-commanded (note_switch name "off") _ (λ st'. OnlyTo-refl st'.sent)
          (issue-commanded w off st)
        ∙ ground arith)
  ]

  pub turn_on_switch-OnlyTo :
      (w : World) (s : LightSettings) (name : String) (d : Option Device) (st : LightState)
      → OnlyTo device st.sent (turn_on_switch w s device name d st).0.sent
  unfolding turn_on_switch
  turn_on_switch-OnlyTo w s name d st = elim (Bool-cases (switch_reads d "on")) [
    | inl is_on ↦ rw is_on (relevel-OnlyTo w name d _ st)
    | inr not_on ↦ rw not_on (
        when_verified-OnlyTo (lit w s device name d _) st.sent _ (lit-OnlyTo w s name d _)
          (issue-OnlyTo w _ st))
  ]

  pub turn_on_switch-reaches :
      (w : World) (s : LightSettings) (name : String) (d : Option Device) (st : LightState)
      → switch_reads d "on" ≡ false
      → commanded device (turn_on_switch w s device name d st).0.sent ≡ true
  unfolding turn_on_switch
  turn_on_switch-reaches w s name d st not_on = rw not_on (
      when_verified-commanded (lit w s device name d _) _ (lit-OnlyTo w s name d _)
        (issue-commanded w _ st))

  pub turn_on_switch-spares :
      (w : World) (s : LightSettings) (name : String) (d : Option Device) (st : LightState)
      → s.use_dim ≡ false
      → switch_reads d "on" ≡ true
      → turn_on_switch w s device name d st ≡ (st, false)
  unfolding turn_on_switch target_level relevel
  turn_on_switch-spares w s name d st no_dim is_on = rw (is_on, no_dim) refl
