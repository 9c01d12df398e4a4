-- ===== src/Rules/Plan.antt =====
-- apps/rules/interpreter.py: what one event does when no pause interferes, computed ahead of the run.
use mobius_smart_home.Prelude.{
  ℕ, suc, ◌≡◌, refl, ◌∙◌, String, true, false, some, List, [], ◌∷◌, ◌++◌, map, Dict, arith,
  Bool-cases, inl, inr, all, str_eq, if◌then◌else◌,
}
use mathlib.Core.List.{append-nil, append_assoc}
use mobius_smart_home.Rules.{
  Target, on, off, Action, set_state, toggle_uniform, toggle_independent, set_mode, Rule, RuleSpec,
}
use mobius_smart_home.Rules.Host.{Host, World}
use mobius_smart_home.Rules.Interpreter.{
  Event, switch_is_on, send_one, send_to_all, unless_paused, exec_set_state, exec_toggle_uniform,
  toggle_each, exec_toggle_independent, exec_set_mode, dispatch_action, run_actions, run_rules,
  matches, debounce, execute_event,
}

abbrev pub blank : World
blank = record { reads = 0; activity = 0; sent = []; reports = []; modes_set = [] }

-- The commands that an action stands for, read off the device cache as it is before the event.
unfoldable pub planned : Host → Action → List (String × Target)
planned h (set_state category target) = map (λ d. (d, target)) (h.get_devices category)
planned h (toggle_uniform category) =
    let ids = h.get_devices category in
    let target = if all (switch_is_on h blank) ids then off else on in map (λ d. (d, target)) ids
planned h (toggle_independent category) =
    map (λ d. (d, if switch_is_on h blank d then off else on)) (h.get_devices category)
planned h (set_mode mode) = []

unfoldable pub planned_actions : Host → List Action → List (String × Target)
planned_actions h [] = []
planned_actions h (a ∷ rest) = planned h a ++ planned_actions h rest

unfoldable pub planned_rules : Host → List Rule → String → Event → List (String × Target)
planned_rules h [] event_type e = []
planned_rules h (rule ∷ rest) event_type e =
    let later = planned_rules h rest event_type e in
    if matches h rule event_type e then planned_actions h rule.actions ++ later else later

pub sent-send_to_all :
    (h : Host) (ids : List String) (target : Target) (w : World)
    → (send_to_all h ids target w).sent ≡ w.sent ++ map (λ d. (d, target)) ids
unfolding send_to_all send_one
sent-send_to_all h [] target w = rw append-nil
sent-send_to_all h (d ∷ rest) target w =
    rw (sent-send_to_all h rest target (send_one h d target w))
      (append_assoc w.sent ((d, target) ∷ []) (map (λ x. (x, target)) rest))

sent-exec_set_mode : (h : Host) (mode : String) (w : World) → (exec_set_mode h mode w).sent ≡ w.sent
unfolding exec_set_mode unless_paused
sent-exec_set_mode h mode w = ground arith

abbrev wake : World → World
wake w = record w { reads = suc w.reads }

-- The host is never found paused, and the cached switch states do not change under the run.
module _ (h : Host) (awake : (n : ℕ) → h.is_paused n ≡ false)
    (cached : (w : World) (d : String) → switch_is_on h w d ≡ switch_is_on h blank d) where
  all-cached :
      (w : World) (ids : List String) → all (switch_is_on h w) ids ≡ all (switch_is_on h blank) ids
  all-cached w [] = refl
  all-cached w (d ∷ rest) = cc (cached w d, all-cached w rest)

  sent-toggle_each :
      (ids : List String) (w : World)
      → (toggle_each h ids w).sent
        ≡ w.sent ++ map (λ d. (d, if switch_is_on h blank d then off else on)) ids
  unfolding toggle_each
  sent-toggle_each [] w = rw append-nil
  sent-toggle_each (d ∷ rest) w =
      let target = if switch_is_on h blank d then off else on in
      rw (awake w.reads, cached (wake w) d)
        (sent-toggle_each rest (send_to_all h (d ∷ []) target (wake w))
          ∙ rw (sent-send_to_all h (d ∷ []) target (wake w))
              (append_assoc w.sent ((d, target) ∷ []) _))

  pub sent-dispatch_action :
      (a : Action) (w : World) → (dispatch_action h a w).sent ≡ w.sent ++ planned h a
  unfolding dispatch_action planned exec_set_state exec_toggle_uniform exec_toggle_independent
      unless_paused
  sent-dispatch_action (set_state category target) w =
      rw (awake w.reads) (sent-send_to_all h (h.get_devices category) target (wake w))
  sent-dispatch_action (toggle_uniform category) w =
      rw (awake w.reads, all-cached (wake w) (h.get_devices category))
        (sent-send_to_all h (h.get_devices category) _ (wake w))
  sent-dispatch_action (toggle_independent category) w =
      rw (awake w.reads) (sent-toggle_each (h.get_devices category) (wake w))
  sent-dispatch_action (set_mode mode) w = rw append-nil (sent-exec_set_mode h mode w)

  run_actions-sent :
      (actions : List Action) (w : World)
      → ((run_actions h actions w).0.sent ≡ w.sent ++ planned_actions h actions)
        × ((run_actions h actions w).1 ≡ true)
  unfolding run_actions planned_actions
  run_actions-sent [] w = (rw append-nil, refl)
  run_actions-sent (a ∷ rest) w =
      let (sent, go_on) = run_actions-sent rest (dispatch_action h a (wake w)) in
      rw (awake w.reads) (
        sent
            ∙ rw (sent-dispatch_action a (wake w))
                (append_assoc w.sent (planned h a) (planned_actions h rest)),
        go_on,
      )

  run_rules-sent :
      (rules : List Rule) (event_type : String) (e : Event) (w : World)
      → (run_rules h rules event_type e w).sent ≡ w.sent ++ planned_rules h rules event_type e
  unfolding run_rules planned_rules
  run_rules-sent [] event_type e w = rw append-nil
  run_rules-sent (rule ∷ rest) event_type e w = elim (Bool-cases (matches h rule event_type e)) [
    | inl fires ↦
        let (sent, go_on) = run_actions-sent rule.actions w in
        rw (fires, go_on)
          (run_rules-sent rest event_type e (run_actions h rule.actions w).0
            ∙ rw sent (
                append_assoc w.sent (planned_actions h rule.actions)
                  (planned_rules h rest event_type e)))
    | inr skips ↦ rw skips (run_rules-sent rest event_type e w)
  ]

  -- On a host that is never found paused and whose cached switch states do not change under the run,
  -- an event that the debounce lets pass sends exactly the planned commands, after those sent before:
  -- for each rule whose trigger matches, in the order of the rules, and for each of its actions in
  -- their order, every device of the action's category in the order of the category. A failing or
  -- raising command ends nothing.
  pub execute_event-sent :
      (spec : RuleSpec) (event_type : String) (e : Event) (now : ℕ) (table table' : Dict ℕ)
      (w : World)
      → e.event_type ≡ some event_type
      → str_eq event_type "" ≡ false
      → debounce spec event_type now table ≡ some table'
      → (execute_event h spec e now table w).0.sent
        ≡ w.sent ++ planned_rules h spec.rules event_type e
  unfolding execute_event unless_paused
  execute_event-sent spec event_type e now table table' w typed named passes = ground (
    arith,
    awake w.reads,
    run_rules-sent spec.rules event_type e
        (record w { activity = suc w.activity; reads = suc w.reads }),
  )
