-- ===== src/Lights/Switches/Dims.antt =====
-- apps/advanced_motion_lighting/light_control/switch_commands.py: turning on with a dim level.
use mobius_smart_home.Prelude.{
  ℕ, ◌≡◌, ◌≢◌, refl, String, Bool, true, false, Option, none, some, [], ◌∷◌, ◌++◌, get, put, str_eq,
  eq_iff, if◌then◌else◌, arith,
}
use mobius_smart_home.Lifecycle.{app}
use mobius_smart_home.Lights.{
  Device, set_level, confirmed, World, LightSettings, entry, DimMemo, LightMemo, LightState,
  device_has_capability, issue, settings_dim_level, get_current_dim_level, is_manual, manual_level,
  or_default,
}
use mobius_smart_home.Lights.Switches.{
  turn_on_switch, turn_on_command, when_verified, switch_reads, target_level, lit, note_dim,
  note_switch,
}

-- The level of a device with an entry in the memo
pub level-by_source :
    (w : World) (s : LightSettings) (memo : LightMemo) (name : String) (e : DimMemo)
    → name ≢ ""
    → get memo.dim_level name ≡ some e
    → get_current_dim_level w s memo name
      ≡ (if is_manual e.source then e.level else settings_dim_level w s)
unfolding get_current_dim_level manual_level or_default
level-by_source w s memo name e named found =
    let not_empty : str_eq name "" ≡ false = ground (arith, eq_iff name "", named) in
    rw (not_empty, found) (by_source (is_manual e.source))
  where
    by_source :
        (b : Bool)
        → or_default (if b then some e.level else none) (settings_dim_level w s)
          ≡ (if b then e.level else settings_dim_level w s)
    by_source true = refl
    by_source false = refl

is_target :
    (w : World) (s : LightSettings) (name : String) (d : Device) (memo : LightMemo) (level : ℕ)
    → s.use_dim ≡ true
    → device_has_capability (some d) "SwitchLevel" ≡ true
    → get_current_dim_level w s memo name ≡ level
    → target_level w s memo name (some d) ≡ some level
unfolding target_level
is_target w s name d memo level use_dim dims is_level = ground (arith, use_dim, dims, is_level)

lit-plain :
    (w : World) (s : LightSettings) (id name : String) (d : Option Device) (level : ℕ)
    (st : LightState)
    → s.use_color ≡ false
    → lit w s id name d (some level) st ≡ note_dim name (some level) (note_switch name "on" st)
unfolding lit
lit-plain w s id name d level st no_color = rw no_color refl

-- A device that is off, and that takes levels, when the command is verified
pub turn_on_switch-dimmed :
    (w : World) (s : LightSettings) (id name : String) (d : Device) (st : LightState) (level : ℕ)
    → s.use_dim ≡ true
    → s.use_color ≡ false
    → device_has_capability (some d) "SwitchLevel" ≡ true
    → d.switch ≡ some "off"
    → get_current_dim_level w s st.memo name ≡ level
    → w.answer st.sent (id, set_level level) ≡ confirmed
    → (turn_on_switch w s id name (some d) st).0 ≡ (record st {
      sent = st.sent ++ (id, set_level level) ∷ [];
      memo = record st.memo {
        switch_state = put st.memo.switch_state name (entry "on" app);
        dim_level = put st.memo.dim_level name (record { level = level; source = app });
      };
    })
unfolding turn_on_switch switch_reads turn_on_command issue when_verified note_dim note_switch
turn_on_switch-dimmed w s id name d st level use_dim no_color dims is_off is_level verified =
    let target = is_target w s name d st.memo level use_dim dims is_level in
    rw (target, is_off, verified, target) (lit-plain w s id name (some d) level _ no_color)
