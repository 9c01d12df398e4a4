-- ===== src/Instances/Subscriptions/Own.antt =====
-- services/instance_manager.py: the subscriptions of an instance are its own.
use mobius_smart_home.Prelude.{
  ℕ, ◌≡◌, refl, String, true, not, Option, none, some, List, [], ◌∷◌, only, only-append, ◌==◌,
  arith, if_both,
}
use mobius_smart_home.Instances.Subscriptions.{
  Subscription, Selections, event_types, has_key, add_key, add_events, add_devices, add_categories,
  subscriptions_of,
}

-- The rows of the other instances
abbrev pub others : ℕ → List Subscription → List Subscription
others i subs = only (λ s. not (s.instance_id == i)) subs

add_key-others :
    (i d : ℕ) (e : String) (subs : List Subscription)
    → others i subs ≡ []
    → others i (add_key i d e subs) ≡ []
unfolding add_key
add_key-others i d e subs own =
    let self : (i == i) ≡ true = ground arith in
    if_both (λ l. others i l ≡ []) (has_key d e subs) own
      (rw
        (
          only-append (λ s. not (s.instance_id == i)) subs
              (record { device_id = d; instance_id = i; event_type = e } ∷ []),
          own,
          self,
        )
        refl)

add_events-others :
    (i d : ℕ) (types : List String) (subs : List Subscription)
    → others i subs ≡ []
    → others i (add_events i d types subs) ≡ []
unfolding add_events
add_events-others i d [] subs own = own
add_events-others i d (e ∷ rest) subs own =
    add_events-others i d rest (add_key i d e subs) (add_key-others i d e subs own)

add_devices-others :
    (i : ℕ) (types : List String) (devices : List (Option ℕ)) (subs : List Subscription)
    → others i subs ≡ []
    → others i (add_devices i types devices subs) ≡ []
unfolding add_devices
add_devices-others i types [] subs own = own
add_devices-others i types (none ∷ rest) subs own = add_devices-others i types rest subs own
add_devices-others i types (some d ∷ rest) subs own =
    add_devices-others i types rest (add_events i d types subs)
      (add_events-others i d types subs own)

add_categories-others :
    (i : ℕ) (button_event : String) (selections : Selections) (subs : List Subscription)
    → others i subs ≡ []
    → others i (add_categories i button_event selections subs) ≡ []
unfolding add_categories
add_categories-others i button_event [] subs own = own
add_categories-others i button_event ((category, devices) ∷ rest) subs own =
    add_categories-others i button_event rest _
      (add_devices-others i (event_types button_event category) devices subs own)

pub subscriptions_of-others :
    (i : ℕ) (button_event : String) (selections : Selections)
    → others i (subscriptions_of i button_event selections) ≡ []
unfolding subscriptions_of
subscriptions_of-others i button_event selections =
    add_categories-others i button_event selections [] refl
