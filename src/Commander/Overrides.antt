-- ===== src/Commander/Overrides.antt =====
-- services/device_commander.py with apps/advanced_motion_lighting/event_handlers/switch_override.py:
-- the guard of the override detection reads the commander's status table.
use mobius_smart_home.Prelude.{
  ◌≡◌, refl, String, Bool, true, false, none, [], ◌∷◌, ◌++◌, get, arith,
}
use mobius_smart_home.Commander.{
  CommandStatus, idle, updating, verified, failed, timeout, Config, Commander, get_device_status,
}
use mobius_smart_home.Commander.Execute.{Hub, execute_hubitat}
use mobius_smart_home.Commander.Status.{NoneTaken, fire_and_forget-updating}
use mobius_smart_home.Lighting.{
  KeepSettings, House, KeepState, enforceable, reads_as, force, enforce_one, handle_switch,
}

-- `get_device_status(…) == CommandStatus.UPDATING`
unfoldable pub is_updating : CommandStatus → Bool
is_updating idle = false
is_updating updating = true
is_updating verified = false
is_updating failed = false
is_updating timeout = false

-- When the enforcement has sent a keep switch a command (it asks for no verification) and the hub took
-- none of the attempts, the user's hand on that switch goes unnoticed until the next command: a switch
-- event with any value changes nothing in the memo, and the next round of the enforcement, where
-- the device reads on and its mark is still the app's, turns it off against the user.
override_lost :
    (cfg : Config) (hub : Hub) (device v : String) (c : Commander) (s : KeepSettings) (env : House)
    (st : KeepState)
    → NoneTaken hub cfg.operation_retries 0
    → enforceable (get st.keep device) ≡ true
    → reads_as true (env.get_switch_state st.sent device) ≡ true
    → let c' = (execute_hubitat cfg hub device false none c).0 in
      let st' = handle_switch s (is_updating (get_device_status c' device)) device v st in
      (st' ≡ st) × ((enforce_one env false device st').sent ≡ st.sent ++ (device, false) ∷ [])
unfolding is_updating handle_switch enforce_one force
override_lost cfg hub device v c s env st none_taken ours on =
    let stuck = (fire_and_forget-updating cfg hub device c).1 none_taken in
    rw (stuck, on, ours) (refl, ground arith)
