-- ===== src/Lights/Confirmed.antt =====
-- apps/advanced_motion_lighting on services/device_commander.py: what stands behind an entry of the memo.
use mobius_smart_home.Prelude.{
  ◌≡◌, inl, inr, refl, sym, ◌∙◌, String, true, Option, some, get, get-put_self, if◌then◌else◌,
  arith, Bool-cases,
}
use mobius_smart_home.Commander.{CommandResult, Expected, Config, Commander}
use mobius_smart_home.Commander.Execute.{Hub, execute_hubitat}
use mobius_smart_home.Commander.Verified.{Seen, execute_hubitat-Seen}
use mobius_smart_home.Lifecycle.{app}
use mobius_smart_home.Lights.{
  Device, off, entry, Answer, confirmed, unconfirmed, failed, raised, World, LightState, issue,
}
use mobius_smart_home.Lights.Switches.{when_verified, switch_reads, turn_off_switch, note_switch}

-- What the light control makes of the result of a command
unfoldable pub answer_of : CommandResult → Answer
answer_of r = if r.success then (if r.is_verified then confirmed else unconfirmed) else failed

confirmed_is_verified : (r : CommandResult) → answer_of r ≡ confirmed → r.is_verified ≡ true
unfolding answer_of
confirmed_is_verified r h = ground (arith, h)

when_verified-confirmed :
    (note : LightState → LightState) (st : LightState) (a : Answer)
    → (when_verified note (st, a)).1 ≡ true
    → a ≡ confirmed
unfolding when_verified
when_verified-confirmed note st confirmed h = refl
when_verified-confirmed note st unconfirmed h = absurd (ground (arith, h))
when_verified-confirmed note st failed h = absurd (ground (arith, h))
when_verified-confirmed note st raised h = absurd (ground (arith, h))

abbrev pub to_off : Expected
to_off = record { attribute = "switch"; value = "off" }

-- When the command to turn off is executed over Hubitat and the light control takes note of it, its memo
-- has the device as off, and a poll of the device within the time showed it off, after the hub had taken
-- the command.
noted_off-Seen :
    (cfg : Config) (hub : Hub) (c : Commander) (w : World) (id name : String) (d : Option Device)
    (st : LightState)
    → w.answer st.sent (id, off) ≡ answer_of (execute_hubitat cfg hub id true (some to_off) c).1
    → (turn_off_switch w id name d st).1 ≡ true
    → (get (turn_off_switch w id name d st).0.memo.switch_state name ≡ some (entry "off" app))
      × Seen cfg hub to_off
unfolding turn_off_switch issue when_verified note_switch
noted_off-Seen cfg hub c w id name d st answers noted = elim (Bool-cases (switch_reads d "off")) [
  | inl is_off ↦ absurd (ground (arith, rw is_off at noted))
  | inr not_off ↦
      let took =
        when_verified-confirmed (note_switch name "off") (issue w (id, off) st).0
          (w.answer st.sent (id, off)) (rw not_off at noted) in
      (
        rw (not_off, took) (get-put_self st.memo.switch_state name (entry "off" app)),
        execute_hubitat-Seen cfg hub id to_off c (confirmed_is_verified _ (sym answers ∙ took)),
      )
]
