-- ===== src/Router/Scenarios.antt =====
-- services/webhook_router.py: a hub with a motion sensor and a lamp, and two app instances.
use mobius_smart_home.Prelude.{
  ℕ, ◌≡◌, ◌≢◌, inl, inr, refl, true, false, none, some, List, [], ◌∷◌, str_eq, ◌==◌, if◌then◌else◌,
  get, strip, arith,
}
use mobius_smart_home.Router.Labels.{candidates, drop_mesh_suffix, number_of}
use mobius_smart_home.Router.{
  Canonical, Payload, Services, Router, found, no_row, raised, route_event, dispatch, event_of,
  by_number, enqueue,
}
use mobius_smart_home.Router.Fifo.{
  RouterStep, event, worker_round, stop, flush, Flows, received, logged, router_run,
  router_run-Flows,
}
use mobius_smart_home.Router.Resolve.{CopyOf, native_copy, deliver, route_copies, route_copies-once}
use mobius_smart_home.Router.Cache.{failure-sticks}

abbrev sensor : Canonical
sensor = record { id = 7; hub_ip = "10.0.0.4" }

abbrev services : Services
services = record {
  by_label = λ label. if str_eq label "Hall" then found sensor else no_row;
  has_device = λ n. n == 12;
  subscribed = λ id kind. if id == 7 then 1 ∷ 2 ∷ [] else if id == 12 then 3 ∷ [] else [];
  running = λ i. if i == 2 then false else true;
  takes = λ i. true;
  logs = true;
}

-- The database does not answer.
abbrev down : Services
down = record services { by_label = λ label. raised }

abbrev active : Payload
active = record {
  device_id = "12";
  name = "motion";
  value = "active";
  display_name = "Hall";
  hub_ip = "10.0.0.4";
}

abbrev start : Router
start = record {
  label_to_canonical = [];
  instance_queues = λ i. none;
  cached = [];
  event_log = [];
  handled = [];
  failures = [];
}

abbrev aware : Router
aware = record start { label_to_canonical = ("Hall", some sensor) ∷ ("Hall on Home 2", none) ∷ [] }

abbrev steps : List RouterStep
steps =
    event services active
    ∷ worker_round (λ i. true) (λ i e. true) 1
    ∷ stop 4
    ∷ flush
    ∷ event services active
    ∷ []

four_is_not_one : ◌≢◌ {A = ℕ} 4 1
four_is_not_one = ground arith

stop_is_not_flush : stop 1 ≢ flush
stop_is_not_flush = ground arith

router_run-Flows_example : Flows 1 (router_run steps start)
unfolding received logged
router_run-Flows_example =
    router_run-Flows 1 steps start (refl, (refl, (four_is_not_one, (tt, (refl, tt))))) refl

abbrev with_two : Router
with_two = enqueue (event_of active (some 7)) 1 (enqueue (event_of active none) 1 start)

-- What the second hub sends of the mirror of the sensor
abbrev mirrored : Payload
mirrored = record {
  device_id = "55";
  name = "motion";
  value = "active";
  display_name = "Hall on Home 2";
  hub_ip = "10.0.0.5";
}

active-CopyOf : CopyOf sensor aware.label_to_canonical active
unfolding strip get
active-CopyOf = record {
  hub = refl;
  device = refl;
  attribute = refl;
  label = refl;
  resolves = inl refl;
}

mirrored-CopyOf : CopyOf sensor aware.label_to_canonical mirrored
unfolding strip drop_mesh_suffix get
mirrored-CopyOf = record {
  hub = refl;
  device = refl;
  attribute = refl;
  label = refl;
  resolves = inr (refl, refl, refl, refl);
}

route_copies-once_example :
    route_copies services (mirrored ∷ active ∷ []) aware
    ≡ (dispatch services (event_of active (some 7)) aware).0
unfolding native_copy deliver
route_copies-once_example =
    route_copies-once services (mirrored ∷ active ∷ []) aware sensor
      (mirrored-CopyOf, (active-CopyOf, tt)) ((refl, tt), (tt, tt))

-- The sensor is served as the lamp.
failure-sticks_example :
    let st' = router_run (stop 1 ∷ []) (route_event down active start).0 in
    route_event services active st' ≡ dispatch services (event_of active (some 12)) st'
unfolding candidates strip drop_mesh_suffix get by_number number_of
failure-sticks_example =
    failure-sticks down services active active start (stop 1 ∷ []) refl refl refl refl refl refl
      refl refl (stop_is_not_flush, tt)
