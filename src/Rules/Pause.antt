-- ===== src/Rules/Pause.antt =====
-- apps/rules/interpreter.py: a pause that takes effect stops the commands.
use mobius_smart_home.Prelude.{ℕ, ◌≤◌, ◌≡◌, refl, String, true, List, [], ◌∷◌, Dict, arith}
use mobius_smart_home.Rules.{
  Action, set_state, toggle_uniform, toggle_independent, set_mode, Rule, RuleSpec,
}
use mobius_smart_home.Rules.Host.{Host, World}
use mobius_smart_home.Rules.Interpreter.{
  Event, unless_paused, exec_set_state, exec_toggle_uniform, toggle_each, exec_toggle_independent,
  exec_set_mode, dispatch_action, run_actions, run_rules, execute_event,
}

-- Nothing was sent to a device and no mode was set between two worlds.
pub record SameEffects (w w' : World) : Type 0 where
  pub same_sent : w'.sent ≡ w.sent
  pub same_modes : w'.modes_set ≡ w.modes_set

-- From the n-th reading on, the flag reads paused.
abbrev pub PausedFrom : Host → ℕ → Type 0
PausedFrom h n = (m : ℕ) → n ≤ m → h.is_paused m ≡ true

unless_paused-SameEffects :
    (h : Host) (body : World → World) (w : World)
    → PausedFrom h w.reads
    → SameEffects w (unless_paused h body w)
unfolding unless_paused
unless_paused-SameEffects h body w p =
    rw (p w.reads (omega arith)) (record { same_sent = refl; same_modes = refl })

run_actions_paused :
    (h : Host) (actions : List Action) (w : World)
    → PausedFrom h w.reads
    → SameEffects w (run_actions h actions w).0
unfolding run_actions
run_actions_paused h [] w p = record { same_sent = refl; same_modes = refl }
run_actions_paused h (a ∷ rest) w p =
    rw (p w.reads (omega arith)) (record { same_sent = refl; same_modes = refl })

run_actions-reads :
    (h : Host) (actions : List Action) (w : World)
    → PausedFrom h w.reads
    → w.reads ≤ (run_actions h actions w).0.reads
unfolding run_actions
run_actions-reads h [] w p = omega arith
run_actions-reads h (a ∷ rest) w p = rw (p w.reads (omega arith)) (omega arith)

pub run_rules_paused :
    (h : Host) (rules : List Rule) (event_type : String) (e : Event) (w : World)
    → PausedFrom h w.reads
    → SameEffects w (run_rules h rules event_type e w)
unfolding run_rules
run_rules_paused h [] event_type e w p = record { same_sent = refl; same_modes = refl }
run_rules_paused h (rule ∷ rest) event_type e w p =
    let (w', go_on) = run_actions h rule.actions w in
    let fired = run_actions_paused h rule.actions w p in
    let later =
      run_rules_paused h rest event_type e w'
        (λ m le. p m (omega (arith, run_actions-reads h rule.actions w p))) in
    ground (arith, run_rules_paused h rest event_type e w p)

dispatch_action_paused :
    (h : Host) (a : Action) (w : World)
    → PausedFrom h w.reads
    → SameEffects w (dispatch_action h a w)
unfolding dispatch_action exec_set_state exec_toggle_uniform exec_toggle_independent exec_set_mode
dispatch_action_paused h (set_state category target) w p = unless_paused-SameEffects h _ w p
dispatch_action_paused h (toggle_uniform category) w p = unless_paused-SameEffects h _ w p
dispatch_action_paused h (toggle_independent category) w p = unless_paused-SameEffects h _ w p
dispatch_action_paused h (set_mode mode) w p = unless_paused-SameEffects h _ w p

toggle_each_paused :
    (h : Host) (devices : List String) (w : World)
    → PausedFrom h w.reads
    → SameEffects w (toggle_each h devices w)
unfolding toggle_each
toggle_each_paused h [] w p = record { same_sent = refl; same_modes = refl }
toggle_each_paused h (device ∷ rest) w p =
    rw (p w.reads (omega arith)) (record { same_sent = refl; same_modes = refl })

-- Once the pause flag reads true and stays so, none of these has any effect, from whatever world: a whole
-- event, the rules that are left of one, the actions that are left of a rule, an action that starts, and
-- the devices that are left of an independent toggle. None sends a command or sets a mode. (The commands
-- that are left of an action that sets or toggles all its devices alike are not among them: between
-- those the code does not read the flag.)
pub execute_event_paused :
    (h : Host) (spec : RuleSpec) (e : Event) (now : ℕ) (table : Dict ℕ) (w : World)
    (rules : List Rule) (event_type : String) (actions : List Action) (a : Action)
    (devices : List String)
    → PausedFrom h w.reads
    → SameEffects w (execute_event h spec e now table w).0
      × SameEffects w (run_rules h rules event_type e w)
      × SameEffects w (run_actions h actions w).0
      × SameEffects w (dispatch_action h a w)
      × SameEffects w (toggle_each h devices w)
unfolding execute_event unless_paused
execute_event_paused h spec e now table w rules event_type actions a devices p = (
  ground (arith, p w.reads),
  run_rules_paused h rules event_type e w p,
  run_actions_paused h actions w p,
  dispatch_action_paused h a w p,
  toggle_each_paused h devices w p,
)
