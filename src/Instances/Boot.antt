-- ===== src/Instances/Boot.antt =====
-- services/instance_manager.py: the start of all instances, and the watchdog.
pub mod Keeps
pub mod Watchdog
use mobius_smart_home.Prelude.{
  ℕ, suc, ◌+◌, Bool, true, false, Option, none, some, List, [], ◌∷◌, ◌++◌, ltb, if◌then◌else◌,
}
use mobius_smart_home.Instances.{InstanceRow, Manager, StartCalls, start_instance, start_from_db}

start_enabled : StartCalls → ℕ → Option InstanceRow → Manager → Manager × Bool
start_enabled c i none st = (st, false)
start_enabled c i (some row) st = if row.is_enabled then start_instance c i row st else (st, false)

-- The loop of `initialize_all_instances` over the listed ids: the instances that it started
unfoldable pub initialize_each :
    (ℕ → StartCalls) → List ℕ → (ℕ → Option InstanceRow) → Manager → Manager × ℕ
unfolding start_enabled
initialize_each c [] listing st = (st, 0)
initialize_each c (i ∷ rest) listing st =
    let (st', started) = start_enabled (c i) i (listing i) st in
    let (st'', n) = initialize_each c rest listing st' in (st'', if started then suc n else n)

-- `get_all_instances`: the ids of the table in the order of its rows
listed : Bool → List ℕ → List ℕ
listed reads order = if reads then order else []

-- `initialize_all_instances`
unfoldable pub initialize_all_instances : Bool → (ℕ → StartCalls) → List ℕ → Manager → Manager × ℕ
unfolding listed
initialize_all_instances reads c order st =
    initialize_each c (listed reads order) st.app_instances st

pub record Report : Type 0 where
  pub revived : List ℕ
  pub skipped_paused : ℕ
  pub skipped_grace : ℕ

unfoldable pub in_grace : ℕ → ℕ → Option ℕ → Bool
in_grace now grace none = false
in_grace now grace (some stopped_at) = ltb now (stopped_at + grace)

report_start : ℕ → Report → Manager × Bool → Manager × Report
report_start i report (st, started) =
    (st, if started then record report { revived = report.revived ++ i ∷ [] } else report)

revive_row : ℕ → ℕ → StartCalls → ℕ → Option InstanceRow → Manager → Report → Manager × Report
unfolding in_grace report_start
revive_row now grace c i none st report = (st, report)
revive_row now grace c i (some row) st report =
    if row.is_paused
    then (st, record report { skipped_paused = suc report.skipped_paused })
    else if in_grace now grace (st.recently_stopped i)
    then (st, record report { skipped_grace = suc report.skipped_grace })
    else report_start i report (start_from_db c i st)

pub is_running : Option InstanceRow → Bool
is_running none = false
is_running (some app) = true

revive_one : ℕ → ℕ → StartCalls → ℕ → (ℕ → Option InstanceRow) → Manager → Report → Manager × Report
unfolding revive_row is_running
revive_one now grace c i listing st report =
    if is_running (st.running_instances i)
    then (st, report)
    else revive_row now grace c i (listing i) st report

-- The loop of `revive_dead_instances` over the listed ids
unfoldable pub revive_each :
    ℕ
    → ℕ
    → (ℕ → StartCalls)
    → List ℕ
    → (ℕ → Option InstanceRow)
    → Manager
    → Report
    → Manager × Report
unfolding revive_one
revive_each now grace c [] listing st report = (st, report)
revive_each now grace c (i ∷ rest) listing st report =
    let (st', report') = revive_one now grace (c i) i listing st report in
    revive_each now grace c rest listing st' report'

-- `revive_dead_instances`
unfoldable pub revive_dead_instances :
    ℕ → ℕ → Bool → (ℕ → StartCalls) → List ℕ → Manager → Manager × Report
unfolding listed
revive_dead_instances now grace reads c order st =
    revive_each now grace c (listed reads order) st.app_instances st
      (record { revived = []; skipped_paused = 0; skipped_grace = 0 })
