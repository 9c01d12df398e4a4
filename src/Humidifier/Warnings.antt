-- ===== src/Humidifier/Warnings.antt =====
-- apps/humidifier/app.py: how often a missing reading is reported.
use mobius_smart_home.Prelude.{
  ℕ, suc, ◌+◌, ◌≤◌, ◌<◌, ◌≡◌, inl, inr, ◌⊎◌, refl, ◌∙◌, String, false, ◌||◌, not, some, List, [],
  ◌∷◌, leb, ltb, All, arith, Bool-cases, if_both,
}
use mobius_smart_home.Humidifier.{
  HumidifierSettings, Room, HumidifierState, warn_no_reading, warned_lately, humidity_now, highest,
  motion_is_active, any_contact_open, apply_one, apply, reads_as, in_restricted_mode, master,
  master_all,
}

-- One step from the state before: nothing is reported, or one warning, at a time when none was lately.
abbrev Reported : Room → HumidifierState → HumidifierState → Type 0
Reported r st st' =
    ((st'.last_no_reading_warn ≡ st.last_no_reading_warn) × (st'.warnings ≡ st.warnings))
    ⊎ ((warned_lately st.last_no_reading_warn r.monotonic ≡ false)
        × (st'.last_no_reading_warn ≡ some r.monotonic)
        × (st'.warnings ≡ suc st.warnings))

humidity_now-Reported : (r : Room) (st : HumidifierState) → Reported r st (humidity_now r st).0
unfolding humidity_now warn_no_reading
humidity_now-Reported r st = elim (Bool-cases (ltb 0 (highest r.humidity))) [
  | inl reading ↦ rw reading (inl (refl, refl))
  | inr missing ↦
      rw missing (elim (Bool-cases (warned_lately st.last_no_reading_warn r.monotonic)) [
        | inl lately ↦ rw lately (inl (refl, refl))
        | inr not_lately ↦ rw not_lately (inr (refl, refl, refl))
      ])
]

apply_one-Reported :
    (r : Room) (target device : String) (st₀ st : HumidifierState)
    → Reported r st₀ st
    → Reported r st₀ (apply_one r target device st)
unfolding apply_one
apply_one-Reported r target device st₀ st so_far =
    if_both (Reported r st₀) (reads_as (r.get_switch_state st.sent device) target) so_far so_far

apply-Reported :
    (r : Room) (target : String) (ids : List String) (st₀ st : HumidifierState)
    → Reported r st₀ st
    → Reported r st₀ (apply r target ids st)
unfolding apply
apply-Reported r target [] st₀ st so_far = so_far
apply-Reported r target (id ∷ ids) st₀ st so_far =
    apply-Reported r target ids st₀ _ (apply_one-Reported r target id st₀ st so_far)

master-Reported :
    (s : HumidifierSettings) (r : Room) (st : HumidifierState) → Reported r st (master s r st)
unfolding master
master-Reported s r st =
    let reported = Reported r st in
    let still : reported st = inl (refl, refl) in
    let read = humidity_now-Reported r st in
    if_both reported r.is_paused still (
      if_both reported (in_restricted_mode s r)
        (if_both reported s.off_in_restricted_mode (apply-Reported r "off" _ st st still) still)
        (if_both reported
          (leb s.humidity_threshold (humidity_now r st).1
            || not (motion_is_active s r)
            || any_contact_open r)
          (apply-Reported r "off" _ st _ read) (apply-Reported r "on" _ st _ read)))

-- The clock reads within the hour from a time on.
abbrev pub Within : ℕ → Room → Type 0
Within t r = (t ≤ r.monotonic) × (r.monotonic < t + 3600)

quiet_after :
    (s : HumidifierSettings) (t w : ℕ) (rs : List Room) (st : HumidifierState)
    → t ≤ w
    → st.last_no_reading_warn ≡ some w
    → All (Within t) rs
    → (master_all s rs st).warnings ≡ st.warnings
unfolding master_all warned_lately
quiet_after s t w [] st later warned all_within = refl
quiet_after s t w (r ∷ rs) st later warned ((from, to), all_within) =
    elim (master-Reported s r st) [
      | inl (same_last, same) ↦
          quiet_after s t w rs (master s r st) later (same_last ∙ warned) all_within ∙ same
      | inr (not_lately, last, more) ↦ absurd (ground (arith, not_lately, warned, later, to))
    ]

-- However often the humidifier runs within an hour, and whatever its sensors give, at most one warning of
-- a missing reading is logged.
master_all-warnings :
    (s : HumidifierSettings) (t : ℕ) (rs : List Room) (st : HumidifierState)
    → All (Within t) rs
    → (master_all s rs st).warnings ≤ suc st.warnings
unfolding master_all
master_all-warnings s t [] st all_within = omega arith
master_all-warnings s t (r ∷ rs) st ((from, to), all_within) = elim (master-Reported s r st) [
  | inl (same_last, same) ↦
      omega (arith, master_all-warnings s t rs (master s r st) all_within, same)
  | inr (not_lately, last, more) ↦
      omega (arith, quiet_after s t r.monotonic rs (master s r st) from last all_within, more)
]
