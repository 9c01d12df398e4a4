-- ===== src/Instances/Wired.antt =====
-- services/instance_manager.py: an instance after a start, and after an update.
use mathlib.Core.List.{append-nil}
use mobius_smart_home.Prelude.{
  ℕ, ◌≡◌, sym, ap, ◌∙◌, String, Bool, true, ◌&&◌, not, some, List, [], ◌∷◌, ◌++◌, only-append,
  only-only, get, ◌==◌, if◌then◌else◌,
}
use mobius_smart_home.Instances.Subscriptions.{Subscription, Selections, subscriptions_of}
use mobius_smart_home.Instances.Subscriptions.Own.{others, subscriptions_of-others}
use mobius_smart_home.Instances.{
  Config, InstanceRow, Manager, RebuildCalls, StartCalls, get_instance, delete_subscriptions,
  create_subscriptions, post_rows, or_held, rebuild_from, rebuild_subscriptions, is_empty, truthy,
  has_class, track, start_instance, start_row, start_from_db,
}

-- The calls of a rebuild and of a start succeed; a POST after the DELETE appends its rows.
pub record Rebuilds (c : RebuildCalls) (row : InstanceRow) : Type 0 where
  pub deletes : c.deletes ≡ true
  pub reads : c.reads ≡ true
  pub type_name : truthy (c.type_name row.app_type_id) ≡ true
  pub posts : (table rows : List Subscription) → c.posts table rows ≡ table ++ rows

-- The rows that the configuration of an instance asks for
unfoldable pub rows_of : ℕ → Config → List Subscription
rows_of i config =
    subscriptions_of i (or_held (get config.settings "buttonEventType")) config.device_selections

post_rows-append :
    (posts : List Subscription → List Subscription → List Subscription) (subs : List Subscription)
    (st : Manager)
    → ((table rows : List Subscription) → posts table rows ≡ table ++ rows)
    → post_rows posts subs st ≡ record st { device_subscriptions = st.device_subscriptions ++ subs }
unfolding post_rows
post_rows-append posts [] st appends =
    ap (λ l. record st { device_subscriptions = l }) (sym (append-nil st.device_subscriptions))
post_rows-append posts (s ∷ rest) st appends =
    ap (λ l. record st { device_subscriptions = l }) (appends st.device_subscriptions (s ∷ rest))

rebuild_when :
    (posts : List Subscription → List Subscription → List Subscription) (named : Bool) (i : ℕ)
    (button_event : String) (selections : Selections) (st : Manager)
    → ((table rows : List Subscription) → posts table rows ≡ table ++ rows)
    → named ≡ true
    → (if not (is_empty selections) && named
        then post_rows posts (subscriptions_of i button_event selections) st
        else st)
      ≡ record st {
        device_subscriptions =
            st.device_subscriptions ++ subscriptions_of i button_event selections;
      }
unfolding is_empty subscriptions_of
rebuild_when posts named i button_event [] st appends is_named =
    ap (λ l. record st { device_subscriptions = l }) (sym (append-nil st.device_subscriptions))
rebuild_when posts named i button_event (x ∷ rest) st appends is_named =
    rw is_named (post_rows-append posts (subscriptions_of i button_event (x ∷ rest)) st appends)

-- The table after a rebuild
abbrev pub rewired : ℕ → InstanceRow → Manager → Manager
rewired i row st = record st {
  device_subscriptions = others i st.device_subscriptions ++ rows_of i row.config;
}

pub rebuild_subscriptions-rewired :
    (c : RebuildCalls) (i : ℕ) (row : InstanceRow) (st : Manager)
    → Rebuilds c row
    → st.app_instances i ≡ some row
    → rebuild_subscriptions c i st ≡ rewired i row st
unfolding rebuild_subscriptions delete_subscriptions rebuild_from get_instance create_subscriptions
    rows_of
rebuild_subscriptions-rewired c i row st ok is_row =
    rw (ok.deletes, ok.reads, is_row)
      (rebuild_when c.posts (truthy (c.type_name row.app_type_id)) i _ row.config.device_selections
        (record st { device_subscriptions = others i st.device_subscriptions }) ok.posts
        ok.type_name)

pub rewired-twice :
    (i : ℕ) (row : InstanceRow) (st : Manager) → rewired i row (rewired i row st) ≡ rewired i row st
unfolding rows_of
rewired-twice i row st =
    let own =
      subscriptions_of-others i (or_held (get row.config.settings "buttonEventType"))
        row.config.device_selections in
    let theirs = λ (s : Subscription). not (s.instance_id == i) in
    ap (λ l. record st { device_subscriptions = l ++ rows_of i row.config })
      (only-append theirs (others i st.device_subscriptions) (rows_of i row.config)
        ∙ rw (own, only-only theirs st.device_subscriptions) (append-nil _))

-- The calls of a start of an instance succeed.
pub record Works (c : StartCalls) (row : InstanceRow) : Type 0 where
  pub reads : c.reads ≡ true
  pub starts : (has_class c (c.type_name row.app_type_id) && c.initializes) ≡ true
  pub rebuild : Rebuilds c.rebuild row

pub start_from_db-rewired :
    (c : StartCalls) (i : ℕ) (row : InstanceRow) (st : Manager)
    → Works c row
    → st.app_instances i ≡ some row
    → start_from_db c i st ≡ (track i row (rewired i row st), true)
unfolding start_from_db get_instance start_row start_instance
start_from_db-rewired c i row st works is_row =
    rw (works.reads, is_row, works.starts)
      (ap (λ st'. (track i row st', true))
        (rebuild_subscriptions-rewired c.rebuild i row st works.rebuild is_row))
