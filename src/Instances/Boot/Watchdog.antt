-- ===== src/Instances/Boot/Watchdog.antt =====
-- services/instance_manager.py: which instances run after the start of all and after a pass of the
-- watchdog.
use mobius_smart_home.Prelude.{
  ℕ, ◌≡◌, inl, inr, refl, sym, ap, subst, ◌∙◌, Bool, true, false, ◌&&◌, Option, none, some, List,
  [], ◌∷◌, set_at, ◌==◌, any, arith, Bool-cases, if_both,
}
use mobius_smart_home.Instances.{
  InstanceRow, Manager, StartCalls, has_class, track, start_instance, start_row, start_from_db,
  get_instance,
}
use mobius_smart_home.Instances.Boot.{
  start_enabled, initialize_each, listed, initialize_all_instances, Report, revive_row,
  report_start, is_running, revive_one, revive_each, revive_dead_instances, in_grace,
}
use mobius_smart_home.Instances.Fresh.{SameApps, rebuild_subscriptions-SameApps}

-- What concerns one instance
record SameAt (i : ℕ) (st st' : Manager) : Type 0 where
  running : st'.running_instances i ≡ st.running_instances i
  stopped : st'.recently_stopped i ≡ st.recently_stopped i
  rows : st'.app_instances ≡ st.app_instances

same_at : (i : ℕ) (st : Manager) → SameAt i st st
same_at i st = record { running = refl; stopped = refl; rows = refl }

track-SameAt :
    (i j : ℕ) (row : InstanceRow) (st st' : Manager)
    → (j == i) ≡ false
    → SameApps st st'
    → SameAt i st (track j row st')
unfolding track set_at
track-SameAt i j row st st' other same = record {
  running = rw (other, same.running) refl;
  stopped = rw (other, same.stopped) refl;
  rows = same.rows;
}

start_instance-SameAt :
    (i j : ℕ) (c : StartCalls) (row : InstanceRow) (st : Manager)
    → (j == i) ≡ false
    → SameAt i st (start_instance c j row st).0
unfolding start_instance
start_instance-SameAt i j c row st other =
    let started = track-SameAt i j row st _ other (rebuild_subscriptions-SameApps c.rebuild j st) in
    if_both (λ (r : Manager × Bool). SameAt i st r.0) _ started (same_at i st)

start_row-SameAt :
    (i j : ℕ) (c : StartCalls) (row : Option InstanceRow) (st : Manager)
    → (j == i) ≡ false
    → SameAt i st (start_row c j row st).0
unfolding start_row
start_row-SameAt i j c none st other = same_at i st
start_row-SameAt i j c (some row) st other = start_instance-SameAt i j c row st other

-- The class of the app is registered, and its constructor and `initialize` return.
abbrev pub Starts : StartCalls → InstanceRow → Type 0
Starts c row = (has_class c (c.type_name row.app_type_id) && c.initializes) ≡ true

module _ (now grace i : ℕ) where
  revive_row-SameAt :
      (j : ℕ) (c : StartCalls) (row : Option InstanceRow) (st : Manager) (report : Report)
      → (j == i) ≡ false
      → SameAt i st (revive_row now grace c j row st report).0
  unfolding revive_row report_start start_from_db
  revive_row-SameAt j c none st report other = same_at i st
  revive_row-SameAt j c (some row) st report other =
      let ok : Manager × Report → Type 0 = λ r. SameAt i st r.0 in
      if_both ok row.is_paused (same_at i st) (
        if_both ok (in_grace now grace (st.recently_stopped j)) (same_at i st)
          (start_row-SameAt i j c (get_instance c.reads j st) st other))

  revive_one-SameAt :
      (j : ℕ) (c : StartCalls) (listing : ℕ → Option InstanceRow) (st : Manager) (report : Report)
      → (j == i) ≡ false
      → SameAt i st (revive_one now grace c j listing st report).0
  unfolding revive_one
  revive_one-SameAt j c listing st report other =
      if_both (λ (r : Manager × Report). SameAt i st r.0) (is_running (st.running_instances j))
        (same_at i st) (revive_row-SameAt j c (listing j) st report other)

  abbrev Runs : Manager → Type 0
  Runs st = is_running (st.running_instances i) ≡ true

  revive_one-stays :
      (j : ℕ) (c : StartCalls) (listing : ℕ → Option InstanceRow) (st : Manager) (report : Report)
      → Runs st
      → Runs (revive_one now grace c j listing st report).0
  unfolding revive_one
  revive_one-stays j c listing st report runs = elim (Bool-cases (j == i)) [
    | inl same ↦
        let is_i : j ≡ i = ground (arith, same) in
        rw (ap (λ k. is_running (st.running_instances k)) is_i ∙ runs) runs
    | inr other ↦ rw (revive_one-SameAt j c listing st report other).running runs
  ]

  revive_each-stays :
      (c : ℕ → StartCalls) (order : List ℕ) (listing : ℕ → Option InstanceRow) (st : Manager)
      (report : Report)
      → Runs st
      → Runs (revive_each now grace c order listing st report).0
  unfolding revive_each
  revive_each-stays c [] listing st report runs = runs
  revive_each-stays c (j ∷ rest) listing st report runs =
      revive_each-stays c rest listing _ _ (revive_one-stays j (c j) listing st report runs)

  revive_one-revives :
      (c : StartCalls) (listing : ℕ → Option InstanceRow) (row : InstanceRow) (st : Manager)
      (report : Report)
      → listing i ≡ some row
      → st.app_instances i ≡ some row
      → row.is_paused ≡ false
      → in_grace now grace (st.recently_stopped i) ≡ false
      → c.reads ≡ true
      → Starts c row
      → Runs (revive_one now grace c i listing st report).0
  unfolding revive_one revive_row report_start start_from_db start_row start_instance get_instance
      track set_at is_running
  revive_one-revives c listing row st report is_listed is_row awake past reads starts =
      let self : (i == i) ≡ true = ground arith in
      elim (Bool-cases (is_running (st.running_instances i))) [
        | inl runs ↦ rw runs runs
        | inr dead ↦ rw (dead, is_listed, awake, past, reads, is_row, starts, self) refl
      ]

  revive_each-revives :
      (c : ℕ → StartCalls) (order : List ℕ) (listing : ℕ → Option InstanceRow) (row : InstanceRow)
      (st : Manager) (report : Report)
      → any (λ j. j == i) order ≡ true
      → listing i ≡ some row
      → st.app_instances i ≡ some row
      → row.is_paused ≡ false
      → in_grace now grace (st.recently_stopped i) ≡ false
      → (c i).reads ≡ true
      → Starts (c i) row
      → Runs (revive_each now grace c order listing st report).0
  unfolding revive_each
  revive_each-revives c [] listing row st report there is_listed is_row awake past reads starts =
      ground (arith, there)
  revive_each-revives c (j ∷ rest) listing row st report there is_listed is_row awake past reads
        starts =
      elim (Bool-cases (j == i)) [
        | inl same ↦
            let is_i : j ≡ i = ground (arith, same) in
            revive_each-stays c rest listing _ _ (
              subst (λ k. Runs (revive_one now grace (c k) k listing st report).0) (sym is_i)
                (revive_one-revives (c i) listing row st report is_listed is_row awake past reads
                  starts))
        | inr other ↦
            let kept = revive_one-SameAt j (c j) listing st report other in
            revive_each-revives c rest listing row _ _ (ground (arith, there, other)) is_listed
              (ap (λ table. table i) kept.rows ∙ is_row) awake (rw kept.stopped past) reads starts
      ]

-- A pass of the watchdog that can list the table and start the instance leaves the instance running, if
-- it is in the table, not paused, and was not stopped within the grace period: wherever it is in the
-- list, and whatever becomes of the others.
pub watchdog-revives :
    (now grace i : ℕ) (c : ℕ → StartCalls) (order : List ℕ) (row : InstanceRow) (st : Manager)
    → any (λ j. j == i) order ≡ true
    → st.app_instances i ≡ some row
    → row.is_paused ≡ false
    → in_grace now grace (st.recently_stopped i) ≡ false
    → (c i).reads ≡ true
    → Starts (c i) row
    → is_running ((revive_dead_instances now grace true c order st).0.running_instances i) ≡ true
unfolding revive_dead_instances listed
watchdog-revives now grace i c order row st there is_row awake past reads starts =
    revive_each-revives now grace i c order st.app_instances row st _ there is_row is_row awake past
      reads starts

start_enabled-SameAt :
    (i j : ℕ) (c : StartCalls) (row : Option InstanceRow) (st : Manager)
    → (j == i) ≡ false
    → SameAt i st (start_enabled c j row st).0
unfolding start_enabled
start_enabled-SameAt i j c none st other = same_at i st
start_enabled-SameAt i j c (some row) st other =
    if_both (λ (r : Manager × Bool). SameAt i st r.0) row.is_enabled
      (start_instance-SameAt i j c row st other) (same_at i st)

skip_disabled :
    (i j : ℕ) (c : StartCalls) (listing : ℕ → Option InstanceRow) (row : InstanceRow) (st : Manager)
    → listing i ≡ some row
    → row.is_enabled ≡ false
    → SameAt i st (start_enabled c j (listing j) st).0
unfolding start_enabled
skip_disabled i j c listing row st is_listed disabled = elim (Bool-cases (j == i)) [
  | inl same ↦
      let is_i : j ≡ i = ground (arith, same) in
      rw (ap listing is_i ∙ is_listed, disabled) (same_at i st)
  | inr other ↦ start_enabled-SameAt i j c (listing j) st other
]

initialize_each-skips :
    (i : ℕ) (c : ℕ → StartCalls) (order : List ℕ) (listing : ℕ → Option InstanceRow)
    (row : InstanceRow) (st : Manager)
    → listing i ≡ some row
    → row.is_enabled ≡ false
    → SameAt i st (initialize_each c order listing st).0
unfolding initialize_each
initialize_each-skips i c [] listing row st is_listed disabled = same_at i st
initialize_each-skips i c (j ∷ rest) listing row st is_listed disabled =
    let one = skip_disabled i j (c j) listing row st is_listed disabled in
    let two = initialize_each-skips i c rest listing row _ is_listed disabled in
    record {
      running = two.running ∙ one.running;
      stopped = two.stopped ∙ one.stopped;
      rows = two.rows ∙ one.rows;
    }

-- An instance that is disabled and not paused, and was neither running nor stopped before, is not started
-- with the others when the program starts; but the next pass of the watchdog starts it, if it can list the
-- table and start the instance.
pub disabled-revived :
    (now grace i : ℕ) (c c' : ℕ → StartCalls) (order order' : List ℕ) (row : InstanceRow)
    (st : Manager)
    → st.app_instances i ≡ some row
    → row.is_enabled ≡ false
    → row.is_paused ≡ false
    → st.running_instances i ≡ none
    → st.recently_stopped i ≡ none
    → any (λ j. j == i) order' ≡ true
    → (c' i).reads ≡ true
    → Starts (c' i) row
    → let st' = (initialize_all_instances true c order st).0 in
      (st'.running_instances i ≡ none)
      × (is_running ((revive_dead_instances now grace true c' order' st').0.running_instances i)
          ≡ true)
unfolding initialize_all_instances listed in_grace
disabled-revived now grace i c c' order order' row st is_row disabled awake dead never there reads
      starts =
    let st' : Manager = (initialize_all_instances true c order st).0 in
    let kept = initialize_each-skips i c order st.app_instances row st is_row disabled in
    (
      kept.running ∙ dead,
      watchdog-revives now grace i c' order' row st' there
          (ap (λ table. table i) kept.rows ∙ is_row) awake (rw (kept.stopped ∙ never) refl) reads
          starts,
    )
