-- ===== src/Instances.antt =====
-- services/instance_manager.py: the instances of the apps, in the database and in memory. The pause is in
-- Lifecycle, the subscriptions of an instance are in Instances/Subscriptions.
pub mod Subscriptions
pub mod Edits
pub mod Boot
pub mod Fresh
pub mod Steps
pub mod Wired
mod Scenarios
use mobius_smart_home.Prelude.{
  ℕ, suc, ◌+◌, String, Bool, true, false, ◌&&◌, ◌||◌, not, Option, none, some, List, [], ◌∷◌, ◌++◌,
  map, only, Dict, get, put, set_at, ltb, ◌==◌, str_eq, if◌then◌else◌,
}
use mobius_smart_home.Router.{Router, stop_instance_worker}
use mobius_smart_home.Instances.Subscriptions.{Subscription, Selections, subscriptions_of}

-- The columns of `app_instances` that an update sets and an app reads. The settings are strings.
pub record Config : Type 0 where
  pub label : String
  pub device_selections : Selections
  pub settings : Dict String

pub record InstanceRow : Type 0 where
  pub app_type_id : ℕ
  pub config : Config
  pub is_enabled : Bool
  pub is_paused : Bool
  pub memoization_state : Dict String

-- The tables `app_instances`, by its primary key, with the next value of that key, and
-- `device_subscriptions`; the running apps, each with the row that it was made from; the times of the last
-- stops; and the router, which has a worker for each app.
pub record Manager : Type 0 where
  pub app_instances : ℕ → Option InstanceRow
  pub next_id : ℕ
  pub device_subscriptions : List Subscription
  pub running_instances : ℕ → Option InstanceRow
  pub recently_stopped : ℕ → Option ℕ
  pub router : Router

-- How the calls of a rebuild of the subscriptions end. `posts` is the table after the POST.
pub record RebuildCalls : Type 0 where
  pub deletes : Bool
  pub reads : Bool
  pub type_name : ℕ → Option String
  pub posts : List Subscription → List Subscription → List Subscription

-- How the calls of a start end: the GET of the row, the name of the app type, whether a class is
-- registered for it, whether its constructor and `initialize` return
pub record StartCalls : Type 0 where
  pub reads : Bool
  pub type_name : ℕ → Option String
  pub registered : String → Bool
  pub initializes : Bool
  pub rebuild : RebuildCalls

-- `get_instance`
unfoldable pub get_instance : Bool → ℕ → Manager → Option InstanceRow
get_instance reads i st = if reads then st.app_instances i else none

-- `_delete_subscriptions`
unfoldable pub delete_subscriptions : Bool → ℕ → Manager → Manager
delete_subscriptions deletes i st =
    if deletes
    then record st {
      device_subscriptions = only (λ s. not (s.instance_id == i)) st.device_subscriptions;
    }
    else st

pub or_held : Option String → String
or_held none = "held"
or_held (some e) = e

post_rows :
    (List Subscription → List Subscription → List Subscription)
    → List Subscription
    → Manager
    → Manager
post_rows posts [] st = st
post_rows posts (s ∷ rest) st = record st {
  device_subscriptions = posts st.device_subscriptions (s ∷ rest);
}

-- `_create_subscriptions`
unfoldable pub create_subscriptions :
    (List Subscription → List Subscription → List Subscription) → ℕ → Config → Manager → Manager
unfolding post_rows or_held
create_subscriptions posts i config st =
    post_rows posts
      (subscriptions_of i (or_held (get config.settings "buttonEventType"))
        config.device_selections)
      st

is_empty : Selections → Bool
is_empty [] = true
is_empty (x ∷ rest) = false

-- A name that is not empty
pub truthy : Option String → Bool
truthy none = false
truthy (some name) = not (str_eq name "")

rebuild_from : RebuildCalls → ℕ → Option InstanceRow → Manager → Manager
unfolding is_empty truthy
rebuild_from c i none st = st
rebuild_from c i (some row) st =
    if not (is_empty row.config.device_selections) && truthy (c.type_name row.app_type_id)
    then create_subscriptions c.posts i row.config st
    else st

-- `_rebuild_subscriptions`
unfoldable pub rebuild_subscriptions : RebuildCalls → ℕ → Manager → Manager
unfolding rebuild_from
rebuild_subscriptions c i st =
    let st' = delete_subscriptions c.deletes i st in
    rebuild_from c i (get_instance c.reads i st') st'

unfoldable pub has_class : StartCalls → Option String → Bool
has_class c none = false
has_class c (some name) = not (str_eq name "") && c.registered name

unfoldable pub track : ℕ → InstanceRow → Manager → Manager
track i row st = record st {
  running_instances = set_at st.running_instances i (some row);
  recently_stopped = set_at st.recently_stopped i none;
}

-- `_start_instance`
unfoldable pub start_instance : StartCalls → ℕ → InstanceRow → Manager → Manager × Bool
unfolding has_class track
start_instance c i row st =
    if has_class c (c.type_name row.app_type_id) && c.initializes
    then (track i row (rebuild_subscriptions c.rebuild i st), true)
    else (st, false)

start_row : StartCalls → ℕ → Option InstanceRow → Manager → Manager × Bool
start_row c i none st = (st, false)
start_row c i (some row) st = start_instance c i row st

-- `_start_from_db`
unfoldable pub start_from_db : StartCalls → ℕ → Manager → Manager × Bool
unfolding start_row
start_from_db c i st = start_row c i (get_instance c.reads i st) st

stop_app : Option InstanceRow → ℕ → ℕ → Manager → Manager × Bool
stop_app none now i st = (st, false)
stop_app (some app) now i st = (
  record st {
    running_instances = set_at st.running_instances i none;
    recently_stopped = set_at st.recently_stopped i (some now);
    router = stop_instance_worker i st.router;
  },
  true,
)

-- `stop_instance`
unfoldable pub stop_instance : ℕ → ℕ → Manager → Manager × Bool
unfolding stop_app
stop_instance now i st = stop_app (st.running_instances i) now i st
