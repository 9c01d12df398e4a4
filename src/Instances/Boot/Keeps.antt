-- ===== src/Instances/Boot/Keeps.antt =====
-- services/instance_manager.py: the start of all instances and the watchdog keep the running apps fresh.
use mobius_smart_home.Prelude.{
  ℕ, ◌≡◌, refl, ap, ◌∙◌, Bool, Option, none, some, List, [], ◌∷◌, if_both,
}
use mobius_smart_home.Instances.{InstanceRow, Manager, StartCalls, track, start_instance}
use mobius_smart_home.Instances.Boot.{
  start_enabled, initialize_each, listed, initialize_all_instances, Report, revive_row,
  report_start, is_running, revive_one, revive_each, revive_dead_instances, in_grace,
}
use mobius_smart_home.Instances.Fresh.{
  Fresh, start_instance-Fresh, start_from_db-Fresh, rebuild_subscriptions-SameApps,
}

-- A start writes no row.
pub start_instance-rows :
    (c : StartCalls) (i : ℕ) (row : InstanceRow) (st : Manager)
    → (start_instance c i row st).0.app_instances ≡ st.app_instances
unfolding start_instance track
start_instance-rows c i row st =
    if_both (λ (r : Manager × Bool). r.0.app_instances ≡ st.app_instances) _
      (rebuild_subscriptions-SameApps c.rebuild i st).rows refl

start_enabled-Fresh :
    (c : StartCalls) (i : ℕ) (row : Option InstanceRow) (st : Manager)
    → st.app_instances i ≡ row
    → Fresh st
    → Fresh (start_enabled c i row st).0
unfolding start_enabled
start_enabled-Fresh c i none st is_row fresh = fresh
start_enabled-Fresh c i (some row) st is_row fresh =
    if_both (λ (r : Manager × Bool). Fresh r.0) row.is_enabled
      (start_instance-Fresh c i row st is_row fresh) fresh

start_enabled-rows :
    (c : StartCalls) (i : ℕ) (row : Option InstanceRow) (st : Manager)
    → (start_enabled c i row st).0.app_instances ≡ st.app_instances
unfolding start_enabled
start_enabled-rows c i none st = refl
start_enabled-rows c i (some row) st =
    if_both (λ (r : Manager × Bool). r.0.app_instances ≡ st.app_instances) row.is_enabled
      (start_instance-rows c i row st) refl

initialize_each-Fresh :
    (c : ℕ → StartCalls) (order : List ℕ) (listing : ℕ → Option InstanceRow) (st : Manager)
    → st.app_instances ≡ listing
    → Fresh st
    → Fresh (initialize_each c order listing st).0
unfolding initialize_each
initialize_each-Fresh c [] listing st is_listing fresh = fresh
initialize_each-Fresh c (i ∷ rest) listing st is_listing fresh =
    initialize_each-Fresh c rest listing (start_enabled (c i) i (listing i) st).0
      (start_enabled-rows (c i) i (listing i) st ∙ is_listing)
      (start_enabled-Fresh (c i) i (listing i) st (ap (λ table. table i) is_listing) fresh)

pub initialize_all_instances-Fresh :
    (reads : Bool) (c : ℕ → StartCalls) (order : List ℕ) (st : Manager)
    → Fresh st
    → Fresh (initialize_all_instances reads c order st).0
unfolding initialize_all_instances
initialize_all_instances-Fresh reads c order st fresh =
    initialize_each-Fresh c (listed reads order) st.app_instances st refl fresh

revive_row-Fresh :
    (now grace : ℕ) (c : StartCalls) (i : ℕ) (row : Option InstanceRow) (st : Manager)
    (report : Report)
    → Fresh st
    → Fresh (revive_row now grace c i row st report).0
unfolding revive_row report_start
revive_row-Fresh now grace c i none st report fresh = fresh
revive_row-Fresh now grace c i (some row) st report fresh =
    let ok : Manager × Report → Type 0 = λ r. Fresh r.0 in
    if_both ok row.is_paused fresh (
      if_both ok (in_grace now grace (st.recently_stopped i)) fresh
        (start_from_db-Fresh c i st fresh))

revive_each-Fresh :
    (now grace : ℕ) (c : ℕ → StartCalls) (order : List ℕ) (listing : ℕ → Option InstanceRow)
    (st : Manager) (report : Report)
    → Fresh st
    → Fresh (revive_each now grace c order listing st report).0
unfolding revive_each revive_one
revive_each-Fresh now grace c [] listing st report fresh = fresh
revive_each-Fresh now grace c (i ∷ rest) listing st report fresh =
    revive_each-Fresh now grace c rest listing _ _ (
      if_both (λ (r : Manager × Report). Fresh r.0) (is_running (st.running_instances i)) fresh
        (revive_row-Fresh now grace (c i) i (listing i) st report fresh))

pub revive_dead_instances-Fresh :
    (now grace : ℕ) (reads : Bool) (c : ℕ → StartCalls) (order : List ℕ) (st : Manager)
    → Fresh st
    → Fresh (revive_dead_instances now grace reads c order st).0
unfolding revive_dead_instances
revive_dead_instances-Fresh now grace reads c order st fresh =
    revive_each-Fresh now grace c (listed reads order) st.app_instances st _ fresh
