-- ===== src/Instances/Edits.antt =====
-- services/instance_manager.py: the calls that change an instance.
pub mod Keeps
pub mod Restart
use mobius_smart_home.Prelude.{
  ℕ, suc, String, Bool, true, false, ◌||◌, not, Option, none, some, List, [], ◌∷◌, Dict, put,
  set_at, ◌==◌, if◌then◌else◌,
}
use mobius_smart_home.Instances.Subscriptions.{Selections}
use mobius_smart_home.Instances.{
  Config, InstanceRow, Manager, RebuildCalls, StartCalls, get_instance, delete_subscriptions,
  create_subscriptions, rebuild_subscriptions, start_instance, start_from_db, stop_instance,
}

-- A write: done, answered with an error, or an exception, where it may be done or not.
pub data Write : Type 0 where
  done refused : Write
  lost : Bool → Write

applied : Write → Bool
applied done = true
applied refused = false
applied (lost b) = b

accepted : Write → Bool
accepted done = true
accepted refused = false
accepted (lost b) = false

write_row : ℕ → Option InstanceRow → Manager → Manager
write_row i row st = record st { app_instances = set_at st.app_instances i row }

on_row : (InstanceRow → InstanceRow) → Option InstanceRow → Option InstanceRow
on_row f none = none
on_row f (some row) = some (f row)

-- A PATCH of a row: none if there is none
unfoldable pub patch_row : ℕ → (InstanceRow → InstanceRow) → Bool → Manager → Manager
unfolding write_row on_row
patch_row i f sent st = if sent then write_row i (on_row f (st.app_instances i)) st else st

-- `existing.update(settings)`
unfoldable pub merge : Dict String → Dict String → Dict String
merge existing [] = existing
merge existing ((k, v) ∷ rest) = merge (put existing k v) rest

-- The body of the PATCH of an update, without the memo
pub record Update : Type 0 where
  pub label : Option String
  pub device_selections : Option Selections
  pub settings : Option (Dict String)

or_old {ℓ} : {A : Type ℓ} → Option A → A → A
or_old none old = old
or_old (some new) old = new

merged : Option (Dict String) → Option InstanceRow → Option (Dict String)
merged none row = none
merged (some new) none = none
merged (some new) (some row) = some (merge row.config.settings new)

abbrev given {ℓ} : {A : Type ℓ} → Option A → Bool
given none = false
given (some x) = true

unfoldable pub apply_update : Update → InstanceRow → InstanceRow
unfolding or_old
apply_update u row = record row {
  config = record {
    label = or_old u.label row.config.label;
    device_selections = or_old u.device_selections row.config.device_selections;
    settings = or_old u.settings row.config.settings;
  };
  memoization_state =
      if given u.settings || given u.device_selections then [] else row.memoization_state;
}

-- How the calls of an update end: the GET of the old settings, the PATCH, the rebuild, the start
pub record UpdateCalls : Type 0 where
  pub reads : Bool
  pub patch : Write
  pub rebuild : RebuildCalls
  pub start : StartCalls

patch_and_restart : UpdateCalls → ℕ → Update → Manager → Manager × Bool
unfolding applied accepted
patch_and_restart c i u st =
    let st' = patch_row i (apply_update u) (applied c.patch) st in
    if accepted c.patch
    then ((start_from_db c.start i (rebuild_subscriptions c.rebuild i st')).0, true)
    else ((start_from_db c.start i st').0, false)

-- `update_data`
unfoldable pub update_data : Bool → ℕ → Update → Manager → Update
unfolding merged
update_data reads i u st = record u { settings = merged u.settings (get_instance reads i st) }

unfoldable pub is_nothing : Update → Bool
is_nothing u = not (given u.label || given u.device_selections || given u.settings)

-- `update_instance`, at the time `now`
unfoldable pub update_instance : ℕ → UpdateCalls → ℕ → Update → Manager → Manager × Bool
unfolding patch_and_restart is_nothing
update_instance now c i u st =
    let u' = update_data c.reads i u st in
    if is_nothing u' then (st, true) else patch_and_restart c i u' (stop_instance now i st).0

-- The row and, by the CASCADE, its subscriptions
delete_row : ℕ → Bool → Manager → Manager
unfolding write_row
delete_row i sent st = if sent then delete_subscriptions true i (write_row i none st) else st

-- `delete_instance`
unfoldable pub delete_instance : ℕ → Write → ℕ → Manager → Manager × Bool
unfolding delete_row applied accepted
delete_instance now deletion i st =
    (delete_row i (applied deletion) (stop_instance now i st).0, accepted deletion)

new_row : ℕ → Config → InstanceRow
new_row type_id config = record {
  app_type_id = type_id;
  config = config;
  is_enabled = true;
  is_paused = false;
  memoization_state = [];
}

insert_row : InstanceRow → Bool → Manager → Manager
unfolding write_row
insert_row row sent st =
    if sent then record (write_row st.next_id (some row) st) { next_id = suc st.next_id } else st

-- `create_instance`: a type without an id, or with the id 0, is refused.
unfoldable pub create_instance :
    Option ℕ → Write → StartCalls → Config → Manager → Manager × Option ℕ
unfolding new_row insert_row applied accepted
create_instance none posted c config st = (st, none)
create_instance (some type_id) posted c config st =
    let row = new_row type_id config in
    let st' = insert_row row (applied posted) st in
    if type_id == 0
    then (st, none)
    else if accepted posted
    then (
      (start_instance c st.next_id row
          (create_subscriptions c.rebuild.posts st.next_id config st')).0,
      some st.next_id,
    )
    else (st', none)

-- `update_memoization`
unfoldable pub update_memoization : Write → ℕ → Dict String → Manager → Manager × Bool
unfolding applied accepted
update_memoization patch i memo st = (
  patch_row i (λ row. record row { memoization_state = memo }) (applied patch) st,
  accepted patch,
)
