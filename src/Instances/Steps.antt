-- ===== src/Instances/Steps.antt =====
-- services/instance_manager.py: what happens to the instances, in any order.
use mobius_smart_home.Prelude.{ℕ, String, Bool, Option, List, [], ◌∷◌, Dict}
use mobius_smart_home.Instances.{Config, Manager, StartCalls, start_from_db, stop_instance}
use mobius_smart_home.Instances.Edits.{
  Write, Update, UpdateCalls, create_instance, update_instance, delete_instance, update_memoization,
}
use mobius_smart_home.Instances.Boot.{initialize_all_instances, revive_dead_instances}
use mobius_smart_home.Instances.Fresh.{Fresh, start_from_db-Fresh, stop_instance-Fresh}
use mobius_smart_home.Instances.Edits.Keeps.{
  create_instance-Fresh, update_instance-Fresh, delete_instance-Fresh, update_memoization-Fresh,
}
use mobius_smart_home.Instances.Boot.Keeps.{
  initialize_all_instances-Fresh, revive_dead_instances-Fresh,
}

-- A call of the manager, and how the calls of the database end in it
pub data ManagerStep : Type 0 where
  create : Option ℕ → Write → StartCalls → Config → ManagerStep
  update : ℕ → UpdateCalls → ℕ → Update → ManagerStep
  delete : ℕ → Write → ℕ → ManagerStep
  start : StartCalls → ℕ → ManagerStep
  stop : ℕ → ℕ → ManagerStep
  memoize : Write → ℕ → Dict String → ManagerStep
  initialize : Bool → (ℕ → StartCalls) → List ℕ → ManagerStep
  revive : ℕ → ℕ → Bool → (ℕ → StartCalls) → List ℕ → ManagerStep

unfoldable pub manager_step : ManagerStep → Manager → Manager
manager_step (create type_id posted c config) st = (create_instance type_id posted c config st).0
manager_step (update now c i u) st = (update_instance now c i u st).0
manager_step (delete now deletion i) st = (delete_instance now deletion i st).0
manager_step (start c i) st = (start_from_db c i st).0
manager_step (stop now i) st = (stop_instance now i st).0
manager_step (memoize patch i memo) st = (update_memoization patch i memo st).0
manager_step (initialize reads c order) st = (initialize_all_instances reads c order st).0
manager_step (revive now grace reads c order) st =
    (revive_dead_instances now grace reads c order st).0

unfoldable pub manager_run : List ManagerStep → Manager → Manager
unfolding manager_step
manager_run [] st = st
manager_run (x ∷ xs) st = manager_run xs (manager_step x st)

manager_step-Fresh : (x : ManagerStep) (st : Manager) → Fresh st → Fresh (manager_step x st)
unfolding manager_step
manager_step-Fresh (create type_id posted c config) st =
    create_instance-Fresh type_id posted c config st
manager_step-Fresh (update now c i u) st = update_instance-Fresh now c i u st
manager_step-Fresh (delete now deletion i) st = delete_instance-Fresh now deletion i st
manager_step-Fresh (start c i) st = start_from_db-Fresh c i st
manager_step-Fresh (stop now i) st = stop_instance-Fresh now i st
manager_step-Fresh (memoize patch i memo) st = update_memoization-Fresh patch i memo st
manager_step-Fresh (initialize reads c order) st = initialize_all_instances-Fresh reads c order st
manager_step-Fresh (revive now grace reads c order) st =
    revive_dead_instances-Fresh now grace reads c order st

-- Whatever calls of the manager follow one another, and however the calls of the database in them end,
-- among them writes that raise though they were done: an app that runs was made from a row that is still
-- in the table, with the label, the devices and the settings that the table has now; and an id that was
-- not given out yet has neither a row nor an app.
pub manager_run-Fresh :
    (xs : List ManagerStep) (st : Manager) → Fresh st → Fresh (manager_run xs st)
unfolding manager_run
manager_run-Fresh [] st fresh = fresh
manager_run-Fresh (x ∷ xs) st fresh =
    manager_run-Fresh xs (manager_step x st) (manager_step-Fresh x st fresh)
