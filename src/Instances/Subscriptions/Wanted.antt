-- ===== src/Instances/Subscriptions/Wanted.antt =====
-- services/instance_manager.py: the subscriptions of an instance are those that its selections ask for.
use mobius_smart_home.Prelude.{
  ℕ, ◌+◌, ◌≡◌, refl, String, Bool, false, ◌&&◌, ◌||◌, Option, none, some, List, [], ◌∷◌, ◌++◌,
  str_eq, eq_iff, ◌==◌, is_in, if◌then◌else◌, arith, ltb,
}
use mobius_smart_home.Instances.Subscriptions.{
  Subscription, Selections, event_types, is_for, has_key, add_key, add_events, add_devices,
  add_categories, subscriptions_of, rows_for, holds, wanted, bit,
}

has_key-rows_for :
    (d : ℕ) (e : String) (subs : List Subscription) → has_key d e subs ≡ ltb 0 (rows_for d e subs)
unfolding has_key rows_for
has_key-rows_for d e [] = refl
has_key-rows_for d e (s ∷ rest) = ground (arith, has_key-rows_for d e rest)

rows_for-append :
    (d : ℕ) (e : String) (subs : List Subscription) (s : Subscription)
    → rows_for d e (subs ++ s ∷ []) ≡ rows_for d e subs + bit (is_for d e s)
unfolding rows_for bit
rows_for-append d e [] s = ground arith
rows_for-append d e (x ∷ rest) s = ground (arith, rows_for-append d e rest s)

-- At most one row, and one iff `b`
abbrev Has : ℕ → String → Bool → List Subscription → Type 0
Has d e b subs = rows_for d e subs ≡ bit b

add_key-Has :
    (i d d' : ℕ) (e e' : String) (b : Bool) (subs : List Subscription)
    → Has d e b subs
    → Has d e (b || d' == d && str_eq e' e) (add_key i d' e' subs)
unfolding add_key bit is_for
add_key-Has i d d' e e' b subs has =
    let new : Subscription = record { device_id = d'; instance_id = i; event_type = e' } in
    ground (arith, has, has_key-rows_for d' e' subs, rows_for-append d e subs new, eq_iff e' e)

add_events-Has :
    (i d d' : ℕ) (e : String) (types : List String) (b : Bool) (subs : List Subscription)
    → Has d e b subs
    → Has d e (b || d' == d && is_in e types) (add_events i d' types subs)
unfolding add_events is_in
add_events-Has i d d' e [] b subs has = ground (arith, has)
add_events-Has i d d' e (e' ∷ rest) b subs has = ground (
  arith,
  add_events-Has i d d' e rest (b || d' == d && str_eq e' e) (add_key i d' e' subs)
      (add_key-Has i d d' e e' b subs has),
)

add_devices-Has :
    (i d : ℕ) (e : String) (types : List String) (devices : List (Option ℕ)) (b : Bool)
    (subs : List Subscription)
    → Has d e b subs
    → Has d e (b || holds d devices && is_in e types) (add_devices i types devices subs)
unfolding add_devices holds
add_devices-Has i d e types [] b subs has = ground (arith, has)
add_devices-Has i d e types (none ∷ rest) b subs has = add_devices-Has i d e types rest b subs has
add_devices-Has i d e types (some d' ∷ rest) b subs has = ground (
  arith,
  add_devices-Has i d e types rest (b || d' == d && is_in e types) (add_events i d' types subs)
      (add_events-Has i d d' e types b subs has),
)

add_categories-Has :
    (i d : ℕ) (e button_event : String) (selections : Selections) (b : Bool)
    (subs : List Subscription)
    → Has d e b subs
    → Has d e
        (b || wanted d e button_event selections)
        (add_categories i button_event selections subs)
unfolding add_categories wanted
add_categories-Has i d e button_event [] b subs has = ground (arith, has)
add_categories-Has i d e button_event ((category, devices) ∷ rest) b subs has =
    let types = event_types button_event category in
    ground (
      arith,
      add_categories-Has i d e button_event rest (b || holds d devices && is_in e types)
          (add_devices i types devices subs) (add_devices-Has i d e types devices b subs has),
    )

-- Whatever the selections are, with what repetitions and in what order, the posted rows have exactly one
-- for a device and an event type if some selected category that has the device is one for the event type,
-- and none otherwise: no pair is posted twice, none is forgotten, and none is there that was not
-- asked for.
pub subscriptions_of-exact :
    (i d : ℕ) (e button_event : String) (selections : Selections)
    → rows_for d e (subscriptions_of i button_event selections)
      ≡ (if wanted d e button_event selections then 1 else 0)
unfolding subscriptions_of rows_for bit
subscriptions_of-exact i d e button_event selections =
    add_categories-Has i d e button_event selections false [] refl
