-- ===== src/Instances/Edits/Restart.antt =====
-- services/instance_manager.py: `update_instance`.
use mobius_smart_home.Prelude.{
  ℕ, ◌≡◌, refl, ap, ◌∙◌, String, true, false, Option, none, some, ◌++◌, Dict, set_at, ◌==◌, arith,
}
use mobius_smart_home.Instances.Subscriptions.Own.{others}
use mobius_smart_home.Instances.{InstanceRow, Manager, get_instance, stop_app, stop_instance, track}
use mobius_smart_home.Instances.Edits.{
  done, Update, UpdateCalls, applied, accepted, write_row, on_row, patch_row, merged, apply_update,
  patch_and_restart, update_data, is_nothing, update_instance,
}
use mobius_smart_home.Instances.Wired.{
  Rebuilds, Works, rewired, rewired-twice, rebuild_subscriptions-rewired, start_from_db-rewired,
  rows_of,
}

-- A stop leaves the tables.
stop_app-tables :
    (app : Option InstanceRow) (now i : ℕ) (st : Manager)
    → let st' = (stop_app app now i st).0 in
      (st'.app_instances ≡ st.app_instances) × (st'.device_subscriptions ≡ st.device_subscriptions)
unfolding stop_app
stop_app-tables none now i st = (refl, refl)
stop_app-tables (some app) now i st = (refl, refl)

patched :
    (i : ℕ) (u : Update) (row : InstanceRow) (st : Manager)
    → st.app_instances i ≡ some row
    → patch_row i (apply_update u) true st ≡ write_row i (some (apply_update u row)) st
unfolding patch_row on_row
patched i u row st is_row = rw is_row refl

written :
    (i : ℕ) (row : InstanceRow) (st : Manager)
    → (write_row i (some row) st).app_instances i ≡ some row
unfolding write_row set_at
written i row st = let self : (i == i) ≡ true = ground arith in rw self refl

patch_and_restart-done :
    (c : UpdateCalls) (i : ℕ) (u : Update) (row : InstanceRow) (st : Manager)
    → c.patch ≡ done
    → st.app_instances i ≡ some row
    → Rebuilds c.rebuild (apply_update u row)
    → Works c.start (apply_update u row)
    → let new = apply_update u row in
      patch_and_restart c i u st ≡ (track i new (rewired i new (write_row i (some new) st)), true)
unfolding patch_and_restart applied accepted
patch_and_restart-done c i u row st is_done is_row rebuilds works =
    let new : InstanceRow = apply_update u row in
    let st' : Manager = write_row i (some new) st in
    rw
      (
        is_done,
        patched i u row st is_row,
        rebuild_subscriptions-rewired c.rebuild i new st' rebuilds (written i new st),
        start_from_db-rewired c.start i new (rewired i new st') works (written i new st),
        rewired-twice i new st',
      )
      refl

-- Something to change, the PATCH done, the rebuild and the start as they should be: `update_instance`
-- answers yes, and afterwards the table has the changed row, the app runs and was made from it, and the
-- subscriptions of the instance are those that the changed row asks for, after those of the other
-- instances, which are as they were.
pub update_instance-restarts :
    (now : ℕ) (c : UpdateCalls) (i : ℕ) (u : Update) (row : InstanceRow) (st : Manager)
    → st.app_instances i ≡ some row
    → is_nothing (update_data c.reads i u st) ≡ false
    → c.patch ≡ done
    → let new = apply_update (update_data c.reads i u st) row in
      Rebuilds c.rebuild new
      → Works c.start new
      → let (st', answer) = update_instance now c i u st in
        (answer ≡ true)
        × (st'.app_instances i ≡ some new)
        × (st'.running_instances i ≡ some new)
        × (st'.device_subscriptions ≡ others i st.device_subscriptions ++ rows_of i new.config)
unfolding update_instance track write_row set_at stop_instance
update_instance-restarts now c i u row st is_row something is_done rebuilds works =
    let self : (i == i) ≡ true = ground arith in
    let u' : Update = update_data c.reads i u st in
    let (same_rows, same_subs) = stop_app-tables (st.running_instances i) now i st in
    rw
      (
        something,
        patch_and_restart-done c i u' row (stop_instance now i st).0 is_done
            (ap (λ table. table i) same_rows ∙ is_row) rebuilds works,
        self,
        same_subs,
      )
      (refl, refl, refl, refl)

merged_unread : (settings : Option (Dict String)) → merged settings none ≡ none
unfolding merged
merged_unread none = refl
merged_unread (some new) = refl

-- When the old settings cannot be read, an update does, and answers, what it would if it had been given no
-- settings: the new ones are dropped, and nothing says so.
update_instance-drops_settings :
    (now : ℕ) (c : UpdateCalls) (i : ℕ) (u : Update) (st : Manager)
    → c.reads ≡ false
    → update_instance now c i u st ≡ update_instance now c i (record u { settings = none }) st
unfolding update_instance update_data get_instance
update_instance-drops_settings now c i u st fails = rw (fails, merged_unread u.settings) refl
