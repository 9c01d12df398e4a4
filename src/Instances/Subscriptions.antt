-- ===== src/Instances/Subscriptions.antt =====
-- services/instance_manager.py: the subscriptions that an instance gets for its selected devices.
pub mod Wanted
pub mod Own
use mobius_smart_home.Prelude.{
  ℕ, suc, ◌+◌, ◌≡◌, inl, inr, refl, ◌∙◌, ap, String, Bool, true, false, ◌&&◌, ◌||◌, Option, none,
  some, List, [], ◌∷◌, ◌++◌, any, Dict, get, str_eq, eq_iff, ◌==◌, is_in, if◌then◌else◌, arith,
  Bool-cases,
}

-- A row of `device_subscriptions`
pub record Subscription : Type 0 where
  pub device_id : ℕ
  pub instance_id : ℕ
  pub event_type : String

-- The devices by category: of each entry what `int()` makes of it, `none` where it raises
abbrev pub Selections : Type 0
Selections = Dict (List (Option ℕ))

-- A string is one event type; the empty one is dropped by `if not event_spec`.
one_event : String → List String
one_event e = if str_eq e "" then [] else e ∷ []

-- `category_events`
category_events : String → Dict (List String)
unfolding one_event
category_events button_event =
    ("motion_sensors", one_event "motion")
    ∷ ("switches", one_event "switch")
    ∷ ("contacts", one_event "contact")
    ∷ ("illuminance_sensor", one_event "illuminance")
    ∷ ("pause_buttons", one_event button_event)
    ∷ ("keep_off_switches", one_event "switch")
    ∷ ("keep_on_switches", one_event "switch")
    ∷ ("manual_fan_level_override_switches", one_event "switch")
    ∷ ("humidity_sensors", one_event "humidity")
    ∷ ("presence_sensors", one_event "presence")
    ∷ ("power_sensors", one_event "power")
    ∷ ("trigger_button", "pushed" ∷ "held" ∷ "doubleTapped" ∷ [])
    ∷ []

or_no_types : Option (List String) → List String
or_no_types none = []
or_no_types (some types) = types

-- The event types of a category, none for one that is not in the map
unfoldable pub event_types : String → String → List String
unfolding category_events or_no_types
event_types button_event category = or_no_types (get (category_events button_event) category)

is_for : ℕ → String → Subscription → Bool
is_for d e s = s.device_id == d && str_eq s.event_type e

-- `key in sub_keys`: the keys are those of the rows gathered so far.
has_key : ℕ → String → List Subscription → Bool
unfolding is_for
has_key d e subs = any (is_for d e) subs

add_key : ℕ → ℕ → String → List Subscription → List Subscription
unfolding has_key
add_key i d e subs =
    if has_key d e subs
    then subs
    else subs ++ record { device_id = d; instance_id = i; event_type = e } ∷ []

add_events : ℕ → ℕ → List String → List Subscription → List Subscription
unfolding add_key
add_events i d [] subs = subs
add_events i d (e ∷ rest) subs = add_events i d rest (add_key i d e subs)

add_devices : ℕ → List String → List (Option ℕ) → List Subscription → List Subscription
unfolding add_events
add_devices i types [] subs = subs
add_devices i types (none ∷ rest) subs = add_devices i types rest subs
add_devices i types (some d ∷ rest) subs = add_devices i types rest (add_events i d types subs)

add_categories : ℕ → String → Selections → List Subscription → List Subscription
unfolding add_devices
add_categories i button_event [] subs = subs
add_categories i button_event ((category, devices) ∷ rest) subs =
    add_categories i button_event rest
      (add_devices i (event_types button_event category) devices subs)

-- The rows that `_create_subscriptions` posts
unfoldable pub subscriptions_of : ℕ → String → Selections → List Subscription
unfolding add_categories
subscriptions_of i button_event selections = add_categories i button_event selections []

-- How many of the rows are for a device and an event type
pub rows_for : ℕ → String → List Subscription → ℕ
unfolding is_for
rows_for d e [] = 0
rows_for d e (s ∷ rest) = let n = rows_for d e rest in if is_for d e s then suc n else n

holds : ℕ → List (Option ℕ) → Bool
holds d [] = false
holds d (none ∷ rest) = holds d rest
holds d (some d' ∷ rest) = d' == d || holds d rest

-- Whether some category that has the device is one for the event type
unfoldable pub wanted : ℕ → String → String → Selections → Bool
unfolding holds
wanted d e button_event [] = false
wanted d e button_event ((category, devices) ∷ rest) =
    holds d devices && is_in e (event_types button_event category) || wanted d e button_event rest

bit : Bool → ℕ
bit b = if b then 1 else 0
