-- ===== src/Lights/Dimming.antt =====
-- apps/advanced_motion_lighting: a dim level that the user sets, and the next command to turn on.
use mobius_smart_home.Prelude.{
  is_in, ℕ, ◌≡◌, ◌≢◌, refl, ap, String, Bool, true, false, some, [], ◌∷◌, ◌++◌, put, get-put_self,
  str_eq, eq_iff, arith,
}
use mobius_smart_home.Lifecycle.{app, manual}
use mobius_smart_home.Lights.{
  Device, set_level, confirmed, World, LightSettings, LightState, LevelEvent, device_has_capability,
  save_memoization, settings_dim_level, get_current_dim_level, handle_level_color,
  memo_dim_override, is_manual,
}
use mobius_smart_home.Lights.Switches.{turn_on_switch}
use mobius_smart_home.Lights.Switches.Dims.{level-by_source, turn_on_switch-dimmed}

-- The event of a level that the user sets on one of the switches
abbrev pub LevelSet : LightSettings → LevelEvent → ℕ → Type 0
LevelSet s e level =
    (is_in e.device_id s.switches ≡ true)
    × (e.event_type ≡ "level")
    × (e.device_name ≢ "")
    × (e.value ≡ some level)

handle_level_color-noted :
    (s : LightSettings) (saves : Bool) (resolved : String) (e : LevelEvent) (level : ℕ)
    (st : LightState)
    → LevelSet s e level
    → handle_level_color s saves false resolved e st
      ≡ save_memoization saves (record st {
        memo = record st.memo {
          dim_level =
              put st.memo.dim_level e.device_name (record { level = level; source = manual });
        };
      })
unfolding handle_level_color memo_dim_override
handle_level_color-noted s saves resolved e level st (managed, is_level, named, value) =
    let not_empty : str_eq e.device_name "" ≡ false =
      ground (arith, eq_iff e.device_name "", named) in
    rw (managed, is_level, value, not_empty) refl

-- A level that the user sets is what the next command to turn the device on asks for, and that command,
-- once verified, ends it: from then on the level of the settings applies.
dim_override_used_once :
    (w : World) (s : LightSettings) (saves : Bool) (resolved : String) (e : LevelEvent) (level : ℕ)
    (d : Device) (st : LightState)
    → LevelSet s e level
    → s.use_dim ≡ true
    → s.use_color ≡ false
    → device_has_capability (some d) "SwitchLevel" ≡ true
    → d.switch ≡ some "off"
    → w.answer st.sent (e.device_id, set_level level) ≡ confirmed
    → let noted = handle_level_color s saves false resolved e st in
      let (st', changed) = turn_on_switch w s e.device_id e.device_name (some d) noted in
      (get_current_dim_level w s noted.memo e.device_name ≡ level)
      × (st'.sent ≡ st.sent ++ (e.device_id, set_level level) ∷ [])
      × (get_current_dim_level w s st'.memo e.device_name ≡ settings_dim_level w s)
unfolding save_memoization is_manual
dim_override_used_once w s saves resolved e level d st set use_dim no_color dims is_off verified =
    let (managed, is_level, named, value) = set in
    rw (handle_level_color-noted s saves resolved e level st set)
      (noted_level named, lit_sent named, lit_level named)
  where
    noted : LightState
    noted = save_memoization saves (record st {
      memo = record st.memo {
        dim_level = put st.memo.dim_level e.device_name (record { level = level; source = manual });
      };
    })

    noted_level : e.device_name ≢ "" → get_current_dim_level w s noted.memo e.device_name ≡ level
    noted_level named =
        level-by_source w s noted.memo e.device_name (record { level = level; source = manual })
          named
          (get-put_self st.memo.dim_level e.device_name (record { level = level; source = manual }))

    lit_sent :
        e.device_name ≢ ""
        → (turn_on_switch w s e.device_id e.device_name (some d) noted).0.sent
          ≡ st.sent ++ (e.device_id, set_level level) ∷ []
    lit_sent named =
        ap (λ x. x.sent)
          (turn_on_switch-dimmed w s e.device_id e.device_name d noted level use_dim no_color dims
            is_off (noted_level named) verified)

    lit_level :
        e.device_name ≢ ""
        → get_current_dim_level w s
            (turn_on_switch w s e.device_id e.device_name (some d) noted).0.memo
            e.device_name
          ≡ settings_dim_level w s
    lit_level named =
        rw
          (turn_on_switch-dimmed w s e.device_id e.device_name d noted level use_dim no_color dims
            is_off (noted_level named) verified)
          (level-by_source w s _ e.device_name (record { level = level; source = app }) named
            (get-put_self noted.memo.dim_level e.device_name
              (record { level = level; source = app })))
