-- ===== src/Instances/Fresh.antt =====
-- services/instance_manager.py: the running apps against the table.
use mobius_smart_home.Prelude.{
  ℕ, ◌≤◌, ◌≡◌, refl, sym, subst, ◌∙◌, Bool, true, false, Option, none, some, List, [], ◌∷◌, set_at,
  set_at_both, ◌==◌, arith, if_both,
}
use mobius_smart_home.Instances.Subscriptions.{Subscription}
use mobius_smart_home.Instances.{
  Config, InstanceRow, Manager, RebuildCalls, StartCalls, get_instance, delete_subscriptions,
  create_subscriptions, post_rows, rebuild_from, rebuild_subscriptions, track, start_instance,
  start_row, start_from_db, stop_app, stop_instance,
}

-- What concerns the running apps and the rows
pub record SameApps (st st' : Manager) : Type 0 where
  pub running : st'.running_instances ≡ st.running_instances
  pub rows : st'.app_instances ≡ st.app_instances
  pub next_id : st'.next_id ≡ st.next_id
  pub stopped : st'.recently_stopped ≡ st.recently_stopped

same_apps : (st : Manager) → SameApps st st
same_apps st = record { running = refl; rows = refl; next_id = refl; stopped = refl }

pub delete_subscriptions-SameApps :
    (deletes : Bool) (i : ℕ) (st : Manager) → SameApps st (delete_subscriptions deletes i st)
unfolding delete_subscriptions
delete_subscriptions-SameApps true i st = record {
  running = refl;
  rows = refl;
  next_id = refl;
  stopped = refl;
}
delete_subscriptions-SameApps false i st = same_apps st

post_rows-SameApps :
    (posts : List Subscription → List Subscription → List Subscription) (subs : List Subscription)
    (st : Manager)
    → SameApps st (post_rows posts subs st)
unfolding post_rows
post_rows-SameApps posts [] st = same_apps st
post_rows-SameApps posts (s ∷ rest) st = record {
  running = refl;
  rows = refl;
  next_id = refl;
  stopped = refl;
}

pub create_subscriptions-SameApps :
    (posts : List Subscription → List Subscription → List Subscription) (i : ℕ) (config : Config)
    (st : Manager)
    → SameApps st (create_subscriptions posts i config st)
unfolding create_subscriptions
create_subscriptions-SameApps posts i config st = post_rows-SameApps posts _ st

rebuild_from-SameApps :
    (c : RebuildCalls) (i : ℕ) (row : Option InstanceRow) (st : Manager)
    → SameApps st (rebuild_from c i row st)
unfolding rebuild_from
rebuild_from-SameApps c i none st = same_apps st
rebuild_from-SameApps c i (some row) st =
    if_both (SameApps st) _ (create_subscriptions-SameApps c.posts i row.config st) (same_apps st)

pub rebuild_subscriptions-SameApps :
    (c : RebuildCalls) (i : ℕ) (st : Manager) → SameApps st (rebuild_subscriptions c i st)
unfolding rebuild_subscriptions
rebuild_subscriptions-SameApps c i st =
    let st' : Manager = delete_subscriptions c.deletes i st in
    let one = delete_subscriptions-SameApps c.deletes i st in
    let two = rebuild_from-SameApps c i (get_instance c.reads i st') st' in
    record {
      running = two.running ∙ one.running;
      rows = two.rows ∙ one.rows;
      next_id = two.next_id ∙ one.next_id;
      stopped = two.stopped ∙ one.stopped;
    }

-- An app that runs was made from what the table now has: label, devices and settings.
abbrev pub Matches : Option InstanceRow → Option InstanceRow → Type 0
Matches none row = Unit
Matches (some app) none = ⊥
Matches (some app) (some row) = app.config ≡ row.config

-- Every app that runs matches its row, and no id is used before it is given out.
pub record Fresh (st : Manager) : Type 0 where
  pub matches : (i : ℕ) → Matches (st.running_instances i) (st.app_instances i)
  pub unused_app : (i : ℕ) → st.next_id ≤ i → st.running_instances i ≡ none
  pub unused_row : (i : ℕ) → st.next_id ≤ i → st.app_instances i ≡ none

pub SameApps-Fresh : (st st' : Manager) → SameApps st st' → Fresh st → Fresh st'
SameApps-Fresh st st' same fresh = record {
  matches = λ i. rw (same.running, same.rows) (fresh.matches i);
  unused_app =
      λ i late. rw same.running (fresh.unused_app i (subst (λ n. n ≤ i) same.next_id late));
  unused_row = λ i late. rw same.rows (fresh.unused_row i (subst (λ n. n ≤ i) same.next_id late));
}

-- An app for a row of the table
track-Fresh :
    (i : ℕ) (row : InstanceRow) (st : Manager)
    → st.app_instances i ≡ some row
    → Fresh st
    → Fresh (track i row st)
unfolding track
track-Fresh i row st is_row fresh = record {
  matches =
      set_at_both (λ j app. Matches app (st.app_instances j)) st.running_instances i (some row)
        (rw is_row refl) fresh.matches;
  unused_app =
      set_at_both (λ j app. st.next_id ≤ j → app ≡ none) st.running_instances i (some row)
        (λ late. sym is_row ∙ fresh.unused_row i late) fresh.unused_app;
  unused_row = fresh.unused_row;
}

pub start_instance-Fresh :
    (c : StartCalls) (i : ℕ) (row : InstanceRow) (st : Manager)
    → st.app_instances i ≡ some row
    → Fresh st
    → Fresh (start_instance c i row st).0
unfolding start_instance
start_instance-Fresh c i row st is_row fresh =
    let same = rebuild_subscriptions-SameApps c.rebuild i st in
    let st' : Manager = rebuild_subscriptions c.rebuild i st in
    let fresh' = track-Fresh i row st' (rw same.rows is_row) (SameApps-Fresh st st' same fresh) in
    if_both (λ (r : Manager × Bool). Fresh r.0) _ fresh' fresh

start_row-Fresh :
    (c : StartCalls) (i : ℕ) (row : Option InstanceRow) (st : Manager)
    → ((r : InstanceRow) → row ≡ some r → st.app_instances i ≡ some r)
    → Fresh st
    → Fresh (start_row c i row st).0
unfolding start_row
start_row-Fresh c i none st is_row fresh = fresh
start_row-Fresh c i (some row) st is_row fresh =
    start_instance-Fresh c i row st (is_row row refl) fresh

get_instance_sound :
    (reads : Bool) (i : ℕ) (st : Manager) (row : InstanceRow)
    → get_instance reads i st ≡ some row
    → st.app_instances i ≡ some row
unfolding get_instance
get_instance_sound true i st row got = got
get_instance_sound false i st row got = ground (arith, got)

pub start_from_db-Fresh :
    (c : StartCalls) (i : ℕ) (st : Manager) → Fresh st → Fresh (start_from_db c i st).0
unfolding start_from_db
start_from_db-Fresh c i st fresh =
    start_row-Fresh c i (get_instance c.reads i st) st (get_instance_sound c.reads i st) fresh

-- An instance that is stopped
forget-Fresh :
    (app : Option InstanceRow) (now i : ℕ) (st : Manager)
    → Fresh st
    → Fresh (stop_app app now i st).0
unfolding stop_app
forget-Fresh none now i st fresh = fresh
forget-Fresh (some app) now i st fresh = record {
  matches =
      set_at_both (λ j app'. Matches app' (st.app_instances j)) st.running_instances i none tt
        fresh.matches;
  unused_app =
      set_at_both (λ j app'. st.next_id ≤ j → app' ≡ none) st.running_instances i none
        (λ late. refl) fresh.unused_app;
  unused_row = fresh.unused_row;
}

pub stop_instance-Fresh : (now i : ℕ) (st : Manager) → Fresh st → Fresh (stop_instance now i st).0
unfolding stop_instance
stop_instance-Fresh now i st fresh = forget-Fresh (st.running_instances i) now i st fresh

stop_app-stops :
    (app : Option InstanceRow) (now i : ℕ) (st : Manager)
    → st.running_instances i ≡ app
    → (stop_app app now i st).0.running_instances i ≡ none
unfolding stop_app set_at
stop_app-stops none now i st is_app = is_app
stop_app-stops (some app) now i st is_app =
    let self : (i == i) ≡ true = ground arith in rw self refl

pub stop_instance-stops :
    (now i : ℕ) (st : Manager) → (stop_instance now i st).0.running_instances i ≡ none
unfolding stop_instance
stop_instance-stops now i st = stop_app-stops (st.running_instances i) now i st refl
