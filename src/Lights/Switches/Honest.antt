-- ===== src/Lights/Switches/Honest.antt =====
-- apps/advanced_motion_lighting/light_control/switch_commands.py: what the returned Boolean says.
use mobius_smart_home.Prelude.{
  ℕ, ◌≡◌, refl, String, Bool, false, Option, none, some, [], ◌∷◌, ◌++◌, arith, if_both,
}
use mobius_smart_home.Lights.{
  Device, Sent, Answer, confirmed, unconfirmed, failed, raised, World, LightSettings, LightState,
  issue,
}
use mobius_smart_home.Lights.Switches.{
  when_verified, switch_reads, relevel, level_is, level_of, turn_on_switch, turn_off_switch,
}

-- A result that reports no change has none.
abbrev pub Honest : LightState → LightState × Bool → Type 0
Honest st r = r.1 ≡ false → (r.0.memo ≡ st.memo) × (r.0.stored ≡ st.stored)

when_verified-Honest :
    (note : LightState → LightState) (w : World) (c : Sent) (st : LightState)
    → Honest st (when_verified note (issue w c st))
unfolding issue when_verified
when_verified-Honest note w c st =
    answered (w.answer st.sent c) (record st { sent = st.sent ++ c ∷ [] }) (refl, refl)
  where
    answered :
        (a : Answer) (st' : LightState)
        → (st'.memo ≡ st.memo) × (st'.stored ≡ st.stored)
        → Honest st (when_verified note (st', a))
    answered confirmed st' same = λ h. absurd (ground (arith, h))
    answered unconfirmed st' same = λ h. same
    answered failed st' same = λ h. same
    answered raised st' same = λ h. same

relevel-Honest :
    (w : World) (id name : String) (d : Option Device) (target : Option ℕ) (st : LightState)
    → Honest st (relevel w id name d target st)
unfolding relevel
relevel-Honest w id name d none st = λ h. (refl, refl)
relevel-Honest w id name d (some level) st =
    if_both (Honest st) (level_is (level_of d) level) (λ h. (refl, refl))
      (when_verified-Honest _ w _ st)

pub turn_on_switch-Honest :
    (w : World) (s : LightSettings) (id name : String) (d : Option Device) (st : LightState)
    → Honest st (turn_on_switch w s id name d st)
unfolding turn_on_switch
turn_on_switch-Honest w s id name d st =
    if_both (Honest st) (switch_reads d "on") (relevel-Honest w id name d _ st)
      (when_verified-Honest _ w _ st)

pub turn_off_switch-Honest :
    (w : World) (id name : String) (d : Option Device) (st : LightState)
    → Honest st (turn_off_switch w id name d st)
unfolding turn_off_switch
turn_off_switch-Honest w id name d st =
    if_both (Honest st) (switch_reads d "off") (λ h. (refl, refl)) (when_verified-Honest _ w _ st)
