-- ===== src/Router.antt =====
-- services/webhook_router.py: the events of the devices, from a hub to the queues of the app instances,
-- and the workers that drain these. Router/Labels is the label of a device.
pub mod Labels
pub mod Fifo
pub mod Resolve
pub mod Cache
mod Scenarios
use mobius_smart_home.Prelude.{
  ℕ, String, Bool, true, false, ◌&&◌, not, Option, none, some, List, [], ◌∷◌, ◌++◌, map, length,
  only, Dict, get, put, set_at, ◌==◌, str_eq, if◌then◌else◌,
}
use mobius_smart_home.Router.Labels.{candidates, number_of}

-- A row of `devices`, as far as the router reads it
pub record Canonical : Type 0 where
  pub id : ℕ
  pub hub_ip : String

-- What the query of a label gives: a row, no row, a status other than 200, or an exception.
pub data LabelAnswer : Type 0 where
  found : Canonical → LabelAnswer
  no_row bad_status raised : LabelAnswer

pub record Payload : Type 0 where
  pub device_id : String
  pub name : String
  pub value : String
  pub display_name : String
  pub hub_ip : String

-- `event.device_id` is the canonical id, or else `hubitat_id`.
pub record DeviceEvent : Type 0 where
  pub canonical_id : Option ℕ
  pub hubitat_id : String
  pub device_name : String
  pub event_type : String
  pub value : String

pub data RoutingOutcome : Type 0 where
  routed dropped_unsub failed_enqueue dropped_orphan : RoutingOutcome

-- A row of `event_routings`, without the id of its event
abbrev pub Routing : Type 0
Routing = Option ℕ × RoutingOutcome

-- A row of `event_log`, with its routings
pub record LogRow : Type 0 where
  pub event : DeviceEvent
  pub routed_to : List ℕ
  pub routings : List Routing

-- What an event meets: the tables of the devices and the subscriptions, the running instances, and
-- whether the log takes rows. `has_device` is `get_device_by_canonical_id`; `takes` is false for an
-- instance where the queue or the `put` raises.
pub record Services : Type 0 where
  pub by_label : String → LabelAnswer
  pub has_device : ℕ → Bool
  pub subscribed : ℕ → String → List ℕ
  pub running : ℕ → Bool
  pub takes : ℕ → Bool
  pub logs : Bool

-- The caches and queues, with a worker for each queue; the writes to the device cache; the log; the
-- calls of `on_event` that the workers made, in their order; and those of them that raised.
pub record Router : Type 0 where
  pub label_to_canonical : Dict (Option Canonical)
  pub instance_queues : ℕ → Option (List DeviceEvent)
  pub cached : List (ℕ × String × String)
  pub event_log : List LogRow
  pub handled : List (ℕ × DeviceEvent)
  pub failures : List (ℕ × DeviceEvent)

abbrev pub LabelCache : Type 0
LabelCache = Dict (Option Canonical)

-- One candidate: the new cache, and the row if the search ends here
try_answer : LabelAnswer → String → LabelCache → LabelCache × Option Canonical
try_answer (found row) label cache = (put cache label (some row), some row)
try_answer no_row label cache = (put cache label none, none)
try_answer bad_status label cache = (cache, none)
try_answer raised label cache = (put cache label none, none)

try_cached :
    Option (Option Canonical) → Services → String → LabelCache → LabelCache × Option Canonical
unfolding try_answer
try_cached none s label cache = try_answer (s.by_label label) label cache
try_cached (some cached) s label cache = (cache, cached)

or_next :
    LabelCache × Option Canonical
    → (LabelCache → LabelCache × Option Canonical)
    → LabelCache × Option Canonical
or_next (cache, none) next = next cache
or_next (cache, some row) next = (cache, some row)

try_each : Services → List String → LabelCache → LabelCache × Option Canonical
unfolding try_cached or_next
try_each s [] cache = (cache, none)
try_each s (label ∷ rest) cache =
    or_next (try_cached (get cache label) s label cache) (try_each s rest)

-- `_lookup_canonical_by_label`
unfoldable pub lookup_canonical_by_label :
    Services → String → LabelCache → LabelCache × Option Canonical
unfolding try_each
lookup_canonical_by_label s label cache = try_each s (candidates label) cache

-- `invalidate_device_cache`
unfoldable pub invalidate_device_cache : Router → Router
invalidate_device_cache st = record st { label_to_canonical = [] }

-- An event of a hub that is not the one of the row
is_mirror : String → Option Canonical → Bool
is_mirror hub_ip none = false
is_mirror hub_ip (some row) = not (str_eq hub_ip "") && not (str_eq row.hub_ip hub_ip)

pub by_number : Services → Option ℕ → Option ℕ
by_number s none = none
by_number s (some n) = if s.has_device n then some n else none

-- The canonical id: of the row, or else the device id of the event, if it is one
unfoldable pub canonical_id_of : Services → Option Canonical → String → Option ℕ
unfolding by_number
canonical_id_of s (some row) device_id = some row.id
canonical_id_of s none device_id = by_number s (number_of device_id)

abbrev or_empty : Option (List DeviceEvent) → List DeviceEvent
or_empty none = []
or_empty (some q) = q

-- The events that wait for an instance
abbrev pub waiting : Router → ℕ → List DeviceEvent
waiting st i = or_empty (st.instance_queues i)

-- `_get_or_create_queue` and `put`
unfoldable pub enqueue : DeviceEvent → ℕ → Router → Router
enqueue e i st = record st {
  instance_queues = set_at st.instance_queues i (some (waiting st i ++ e ∷ []));
}

-- The instance runs, and the event gets into its queue.
abbrev pub receives : Services → ℕ → Bool
receives s i = s.running i && s.takes i

-- The loop over the subscribed instances
unfoldable pub enqueue_each : Services → DeviceEvent → List ℕ → Router → Router
unfolding enqueue
enqueue_each s e [] st = st
enqueue_each s e (i ∷ rest) st = enqueue_each s e rest (if receives s i then enqueue e i st else st)

routing_of : Services → ℕ → Routing
routing_of s i = (
  some i,
  (if s.running i then (if s.takes i then routed else failed_enqueue) else dropped_unsub),
)

-- The subscribed instances, and the routings of the event
unfoldable pub subscribed_to : Services → DeviceEvent → List ℕ
subscribed_to s e = elim e.canonical_id [ none ↦ [] | some id ↦ s.subscribed id e.event_type ]

unfoldable pub routings_of : Services → DeviceEvent → List Routing
unfolding routing_of
routings_of s e = elim e.canonical_id [
  | none ↦ (none, dropped_orphan) ∷ []
  | some id ↦ map (routing_of s) (s.subscribed id e.event_type)
]

-- `_log_event_v2` and `_log_routings`
unfoldable pub log_event : Services → DeviceEvent → List ℕ → Router → Router
log_event s e routed_to st =
    if s.logs
    then record st {
      event_log =
          st.event_log
          ++ record { event = e; routed_to = routed_to; routings = routings_of s e } ∷ [];
    }
    else st

write_cache : Option ℕ → DeviceEvent → Router → Router
write_cache none e st = st
write_cache (some id) e st = record st { cached = st.cached ++ (id, e.event_type, e.value) ∷ [] }

update_cache : DeviceEvent → Router → Router
unfolding write_cache
update_cache e st = write_cache e.canonical_id e st

-- From the event object on
unfoldable pub dispatch : Services → DeviceEvent → Router → Router × ℕ
unfolding update_cache
dispatch s e st =
    let instances = subscribed_to s e in
    let routed_to = only (receives s) instances in
    (log_event s e routed_to (enqueue_each s e instances (update_cache e st)), length routed_to)

unfoldable pub event_of : Payload → Option ℕ → DeviceEvent
event_of p id = record {
  canonical_id = id;
  hubitat_id = p.device_id;
  device_name = p.display_name;
  event_type = p.name;
  value = p.value;
}

-- `route_event`; the broadcasts to the dashboards are left out.
unfoldable pub route_event : Services → Payload → Router → Router × ℕ
unfolding is_mirror
route_event s p st =
    let (cache, row) = lookup_canonical_by_label s p.display_name st.label_to_canonical in
    let st' = record st { label_to_canonical = cache } in
    if str_eq p.device_id ""
    then (st, 0)
    else if str_eq p.name ""
    then (st, 0)
    else if is_mirror p.hub_ip row
    then (st', 0)
    else dispatch s (event_of p (canonical_id_of s row p.device_id)) st'

-- The call of `on_event`: where it raises, the worker logs the failure and goes on.
handle : Bool → ℕ → DeviceEvent → Router → Router
handle raises i e st = record st {
  handled = st.handled ++ (i, e) ∷ [];
  failures = if raises then st.failures ++ (i, e) ∷ [] else st.failures;
}

-- One round of `_instance_worker`: whether the instance runs, and whether its `on_event` raises
work_on : Bool → (DeviceEvent → Bool) → ℕ → List DeviceEvent → Router → Router
unfolding handle
work_on running raises i [] st = st
work_on running raises i (e ∷ rest) st =
    let st' = record st { instance_queues = set_at st.instance_queues i (some rest) } in
    if running then handle (raises e) i e st' else st'

unfoldable pub work : (ℕ → Bool) → (ℕ → DeviceEvent → Bool) → ℕ → Router → Router
unfolding work_on
work running raises i st = work_on (running i) (raises i) i (waiting st i) st

-- `stop_instance_worker`
unfoldable pub stop_instance_worker : ℕ → Router → Router
stop_instance_worker i st = record st { instance_queues = set_at st.instance_queues i none }
