-- ===== src/Instances/Scenarios.antt =====
-- services/instance_manager.py: a light and a fan, and a manager that has just started.
use mobius_smart_home.Prelude.{
  ◌≡◌, refl, Bool, true, false, none, some, List, [], ◌∷◌, ◌++◌, str_eq, ◌==◌, if◌then◌else◌, get,
  is_in,
}
use mobius_smart_home.Router.{Router}
use mobius_smart_home.Instances.Subscriptions.{
  Subscription, Selections, subscriptions_of, rows_for, wanted, event_types,
}
use mobius_smart_home.Instances.Subscriptions.Wanted.{subscriptions_of-exact}
use mobius_smart_home.Instances.{
  InstanceRow, Manager, RebuildCalls, StartCalls, has_class, truthy, get_instance,
}
use mobius_smart_home.Instances.Edits.{
  done, lost, Update, UpdateCalls, update_instance, update_data, is_nothing, apply_update,
}
use mobius_smart_home.Instances.Edits.Restart.{update_instance-restarts}
use mobius_smart_home.Instances.Boot.{
  initialize_all_instances, revive_dead_instances, is_running, in_grace,
}
use mobius_smart_home.Instances.Boot.Watchdog.{watchdog-revives, disabled-revived}
use mobius_smart_home.Instances.Fresh.{Fresh}
use mobius_smart_home.Instances.Steps.{
  ManagerStep, create, update, delete, stop, revive, manager_run, manager_run-Fresh,
}
use mobius_smart_home.Instances.Wired.{Rebuilds, Works, rows_of}

abbrev selections : Selections
selections =
    ("motion_sensors", some 7 ∷ some 7 ∷ none ∷ [])
    ∷ ("fans", some 9 ∷ [])
    ∷ ("trigger_button", some 3 ∷ [])
    ∷ []

abbrev hall : InstanceRow
hall = record {
  app_type_id = 1;
  config = record {
    label = "Hall";
    device_selections = selections;
    settings = ("noMotionTime", "5") ∷ [];
  };
  is_enabled = false;
  is_paused = false;
  memoization_state = ("dim", "80") ∷ [];
}

abbrev router : Router
router = record {
  label_to_canonical = [];
  instance_queues = λ i. none;
  cached = [];
  event_log = [];
  handled = [];
  failures = [];
}

abbrev boot : Manager
boot = record {
  app_instances = λ i. none;
  next_id = 1;
  device_subscriptions = [];
  running_instances = λ i. none;
  recently_stopped = λ i. none;
  router = router;
}

abbrev theirs : Subscription
theirs = record { device_id = 7; instance_id = 2; event_type = "motion" }

abbrev one_row : Manager
one_row = record boot {
  app_instances = λ i. if i == 1 then some hall else none;
  next_id = 2;
  device_subscriptions =
      theirs ∷ record { device_id = 8; instance_id = 1; event_type = "motion" } ∷ [];
}

abbrev rebuilding : RebuildCalls
rebuilding = record {
  deletes = true;
  reads = true;
  type_name = λ n. some "lights";
  posts = λ table rows. table ++ rows;
}

abbrev starting : StartCalls
starting = record {
  reads = true;
  type_name = λ n. some "lights";
  registered = λ name. str_eq name "lights";
  initializes = true;
  rebuild = rebuilding;
}

rebuilds : (row : InstanceRow) → Rebuilds rebuilding row
unfolding truthy
rebuilds row = record { deletes = refl; reads = refl; type_name = refl; posts = λ table rows. refl }

works : (row : InstanceRow) → Works starting row
unfolding has_class
works row = record { reads = refl; starts = refl; rebuild = rebuilds row }

abbrev updating : Bool → UpdateCalls
updating reads = record { reads = reads; patch = done; rebuild = rebuilding; start = starting }

abbrev longer : Update
longer = record {
  label = none;
  device_selections = none;
  settings = some (("noMotionTime", "9") ∷ []);
}

boot-Fresh : Fresh boot
boot-Fresh = record { matches = λ i. tt; unused_app = λ i late. refl; unused_row = λ i late. refl }

abbrev calls : List ManagerStep
calls =
    create (some 1) done starting hall.config
    ∷ update 50 (updating true) 1 longer
    ∷ stop 60 1
    ∷ revive 990 900 true (λ i. starting) (1 ∷ [])
    ∷ delete 999 (lost true) 1
    ∷ []

manager_run-Fresh_example : Fresh (manager_run calls boot)
manager_run-Fresh_example = manager_run-Fresh calls boot boot-Fresh

subscriptions_of-exact_example : rows_for 3 "pushed" (subscriptions_of 1 "held" selections) ≡ 1
unfolding wanted event_types get is_in
subscriptions_of-exact_example = subscriptions_of-exact 1 3 "pushed" "held" selections

update_instance-restarts_example :
    let (st', answer) = update_instance 50 (updating true) 1 longer one_row in
    let new = apply_update (update_data true 1 longer one_row) hall in
    (answer ≡ true)
    × (st'.app_instances 1 ≡ some new)
    × (st'.running_instances 1 ≡ some new)
    × (st'.device_subscriptions ≡ theirs ∷ rows_of 1 new.config)
unfolding update_data is_nothing get_instance
update_instance-restarts_example =
    update_instance-restarts 50 (updating true) 1 longer hall one_row refl refl refl (rebuilds _)
      (works _)

watchdog-revives_example :
    is_running (
      (revive_dead_instances 990 900 true (λ i. starting) (4 ∷ 1 ∷ []) one_row).0.running_instances
        1)
    ≡ true
unfolding in_grace has_class
watchdog-revives_example =
    watchdog-revives 990 900 1 (λ i. starting) (4 ∷ 1 ∷ []) hall one_row refl refl refl refl refl
      refl

disabled-revived_example :
    let st' = (initialize_all_instances true (λ i. starting) (1 ∷ []) one_row).0 in
    (st'.running_instances 1 ≡ none)
    × (is_running
          ((revive_dead_instances 990 900 true (λ i. starting) (1 ∷ []) st').0.running_instances 1)
        ≡ true)
unfolding has_class
disabled-revived_example =
    disabled-revived 990 900 1 (λ i. starting) (λ i. starting) (1 ∷ []) (1 ∷ []) hall one_row refl
      refl refl refl refl refl refl refl
