-- ===== src/Rules/Toggle.antt =====
-- apps/rules/interpreter.py: the group toggle and the trigger test, each against its own description.
use mathlib.Core.List.{Mem, mem-cons, not-mem-nil}
use mathlib.Core.Logic.Or
use mobius_smart_home.Prelude.{
  suc, ◌≡◌, ◌↔◌, refl, sym, String, Bool, true, false, Option, none, some, List, [], ◌∷◌, ◌++◌, map,
  arith, Bool-cases, inl, inr, all, any, str_eq, eq_iff, if◌then◌else◌,
}
use mobius_smart_home.Rules.{Target, on, off, Trigger}
use mobius_smart_home.Prelude.{strip}
use mobius_smart_home.Rules.Host.{Host, World}
use mobius_smart_home.Rules.Interpreter.{
  switch_is_on, exec_toggle_uniform, unless_paused, trigger_matches, value_matches,
}
use mobius_smart_home.Rules.Plan.{sent-send_to_all}

-- A group toggle that is not paused sends one and the same target to every device of the category, in
-- order: off if the cache shows every device on, and on if it shows any device not on.
exec_toggle_uniform-sent :
    (h : Host) (category : String) (w : World)
    → h.is_paused w.reads ≡ false
    → let ids = h.get_devices category in
      let read = switch_is_on h (record w { reads = suc w.reads }) in
      (t : Target) × ((exec_toggle_uniform h category w).sent ≡ w.sent ++ map (λ d. (d, t)) ids)
      × ((t ≡ off) ↔ (all read ids ≡ true))
unfolding exec_toggle_uniform unless_paused
exec_toggle_uniform-sent h category w awake =
    let w' = record w { reads = suc w.reads } in
    let ids = h.get_devices category in
    (
      if all (switch_is_on h w') ids then off else on,
      rw awake (sent-send_to_all h ids _ w'),
      ground arith,
    )

Bool-set : IsSet Bool
Bool-set = hlevel

any-mem :
    (device_id : String) (ids : List String)
    → (any (λ c. str_eq c device_id) ids ≡ true) ↔ Mem device_id ids
any-mem device_id [] = (λ e. cc, λ m. absurd (not-mem-nil m))
any-mem device_id (c ∷ rest) = elim (Bool-cases (str_eq c device_id)) [
  | inl same ↦ (λ e. mem-cons.1 (Or.inl (sym ((eq_iff c device_id).0 same))), λ m. rw same)
  | inr other ↦ (
    λ e. mem-cons.1 (Or.inr ((any-mem device_id rest).0 (rw other at e))),
    λ m. rw other (
        Or.elim (Bool-set _ _) (mem-cons.0 m) (λ e. cc ((eq_iff c device_id).1 (sym e)))
          (any-mem device_id rest).1),
  )
]

-- What a trigger asks of the value of an event.
abbrev pub ValueFits : Option String → String → Type 0
ValueFits none v = Unit
ValueFits (some wanted) v = strip v ≡ strip wanted

value_matches_iff : (o : Option String) (v : String) → (value_matches o v ≡ true) ↔ ValueFits o v
unfolding value_matches
value_matches_iff none v = (λ _. tt, λ _. refl)
value_matches_iff (some wanted) v = eq_iff (strip v) (strip wanted)

-- A trigger matches exactly the events of its type, from a device of its category, whose value, if it
-- names one, is its value up to the white space around both.
pub trigger_matches_iff :
    (h : Host) (t : Trigger) (event_type device_id v : String)
    → (trigger_matches h t event_type device_id v ≡ true) ↔ (
        (t.event_type ≡ event_type)
        × Mem device_id (h.get_devices t.device_category)
        × ValueFits t.value v)
unfolding trigger_matches
trigger_matches_iff h t event_type device_id v =
    let members = any-mem device_id (h.get_devices t.device_category) in
    let value = value_matches_iff t.value v in
    (
      λ e. (
        (eq_iff t.event_type event_type).0 (ground arith),
        members.0 (ground arith),
        value.0 (ground arith),
      ),
      λ (same, member, fits).
          rw ((eq_iff t.event_type event_type).1 same, members.1 member, value.1 fits),
    )
