-- ===== src/Instances/Edits/Keeps.antt =====
-- services/instance_manager.py: the calls that change an instance keep the running apps fresh.
use mobius_smart_home.Prelude.{
  ℕ, suc, ◌≤◌, ◌≡◌, inl, inr, refl, sym, ◌∙◌, String, Bool, true, Option, none, some, Dict, set_at,
  set_at_both, ◌==◌, arith, Bool-cases, if_both,
}
use mobius_smart_home.Instances.{
  Config, InstanceRow, Manager, StartCalls, delete_subscriptions, create_subscriptions,
  rebuild_subscriptions, stop_instance,
}
use mobius_smart_home.Instances.Edits.{
  Write, done, refused, lost, Update, UpdateCalls, applied, accepted, write_row, on_row, patch_row,
  apply_update, patch_and_restart, update_data, is_nothing, update_instance, delete_row,
  delete_instance, new_row, insert_row, create_instance, update_memoization,
}
use mobius_smart_home.Instances.Fresh.{
  Fresh, Matches, SameApps-Fresh, delete_subscriptions-SameApps, create_subscriptions-SameApps,
  rebuild_subscriptions-SameApps, start_instance-Fresh, start_from_db-Fresh, stop_instance-Fresh,
  stop_instance-stops,
}

-- A row of the table changes.
write_row-Fresh :
    (i : ℕ) (row : Option InstanceRow) (st : Manager)
    → Matches (st.running_instances i) row
    → (st.next_id ≤ i → row ≡ none)
    → Fresh st
    → Fresh (write_row i row st)
unfolding write_row
write_row-Fresh i row st matches unused fresh = record {
  matches =
      set_at_both (λ j row'. Matches (st.running_instances j) row') st.app_instances i row matches
        fresh.matches;
  unused_app = fresh.unused_app;
  unused_row =
      set_at_both (λ j row'. st.next_id ≤ j → row' ≡ none) st.app_instances i row unused
        fresh.unused_row;
}

on_row-none :
    (f : InstanceRow → InstanceRow) (row : Option InstanceRow) → row ≡ none → on_row f row ≡ none
unfolding on_row
on_row-none f row nothing = rw nothing refl

-- Either no app runs, or the PATCH leaves label, devices and settings.
on_row-Matches :
    (f : InstanceRow → InstanceRow) (app row : Option InstanceRow)
    → ((r : InstanceRow) → (f r).config ≡ r.config)
    → Matches app row
    → Matches app (on_row f row)
unfolding on_row
on_row-Matches f none row keeps matches = tt
on_row-Matches f (some app) none keeps matches = matches
on_row-Matches f (some app) (some row) keeps matches = matches ∙ sym (keeps row)

patch_row-Fresh :
    (i : ℕ) (f : InstanceRow → InstanceRow) (sent : Bool) (st : Manager)
    → Matches (st.running_instances i) (on_row f (st.app_instances i))
    → Fresh st
    → Fresh (patch_row i f sent st)
unfolding patch_row
patch_row-Fresh i f sent st matches fresh =
    if_both Fresh sent
      (write_row-Fresh i (on_row f (st.app_instances i)) st matches
        (λ late. on_row-none f (st.app_instances i) (fresh.unused_row i late)) fresh)
      fresh

patch_and_restart-Fresh :
    (c : UpdateCalls) (i : ℕ) (u : Update) (st : Manager)
    → st.running_instances i ≡ none
    → Fresh st
    → Fresh (patch_and_restart c i u st).0
unfolding patch_and_restart
patch_and_restart-Fresh c i u st stopped fresh =
    let st' : Manager = patch_row i (apply_update u) (applied c.patch) st in
    let fresh' = patch_row-Fresh i (apply_update u) (applied c.patch) st (rw stopped tt) fresh in
    let rebuilt = SameApps-Fresh st' _ (rebuild_subscriptions-SameApps c.rebuild i st') fresh' in
    if_both (λ (r : Manager × Bool). Fresh r.0) (accepted c.patch)
      (start_from_db-Fresh c.start i (rebuild_subscriptions c.rebuild i st') rebuilt)
      (start_from_db-Fresh c.start i st' fresh')

pub update_instance-Fresh :
    (now : ℕ) (c : UpdateCalls) (i : ℕ) (u : Update) (st : Manager)
    → Fresh st
    → Fresh (update_instance now c i u st).0
unfolding update_instance
update_instance-Fresh now c i u st fresh =
    if_both (λ (r : Manager × Bool). Fresh r.0) (is_nothing (update_data c.reads i u st)) fresh
      (patch_and_restart-Fresh c i (update_data c.reads i u st) (stop_instance now i st).0
        (stop_instance-stops now i st) (stop_instance-Fresh now i st fresh))

delete_row-Fresh :
    (i : ℕ) (sent : Bool) (st : Manager)
    → st.running_instances i ≡ none
    → Fresh st
    → Fresh (delete_row i sent st)
unfolding delete_row
delete_row-Fresh i sent st stopped fresh =
    let gone : Manager = write_row i none st in
    if_both Fresh sent
      (SameApps-Fresh gone (delete_subscriptions true i gone)
        (delete_subscriptions-SameApps true i gone)
        (write_row-Fresh i none st (rw stopped tt) (λ late. refl) fresh))
      fresh

pub delete_instance-Fresh :
    (now : ℕ) (deletion : Write) (i : ℕ) (st : Manager)
    → Fresh st
    → Fresh (delete_instance now deletion i st).0
unfolding delete_instance
delete_instance-Fresh now deletion i st fresh =
    delete_row-Fresh i (applied deletion) (stop_instance now i st).0 (stop_instance-stops now i st)
      (stop_instance-Fresh now i st fresh)

pub update_memoization-Fresh :
    (patch : Write) (i : ℕ) (memo : Dict String) (st : Manager)
    → Fresh st
    → Fresh (update_memoization patch i memo st).0
unfolding update_memoization
update_memoization-Fresh patch i memo st fresh =
    patch_row-Fresh i _ (applied patch) st
      (on_row-Matches _ (st.running_instances i) (st.app_instances i) (λ r. refl) (fresh.matches i))
      fresh

insert_row-Fresh :
    (row : InstanceRow) (sent : Bool) (st : Manager) → Fresh st → Fresh (insert_row row sent st)
unfolding insert_row write_row
insert_row-Fresh row sent st fresh =
    if_both Fresh sent
      (record {
        matches =
            set_at_both (λ j row'. Matches (st.running_instances j) row') st.app_instances
              st.next_id (some row) (rw (fresh.unused_app st.next_id (ground arith)) tt)
              fresh.matches;
        unused_app = λ j late. fresh.unused_app j (ground (arith, late));
        unused_row =
            set_at_both (λ j row'. suc st.next_id ≤ j → row' ≡ none) st.app_instances st.next_id
              (some row) (λ late. ground (arith, late))
              (λ j late. fresh.unused_row j (ground (arith, late)));
      })
      fresh

inserted :
    (row : InstanceRow) (sent : Bool) (st : Manager)
    → sent ≡ true
    → (insert_row row sent st).app_instances st.next_id ≡ some row
unfolding insert_row write_row set_at
inserted row sent st is_sent =
    let self : (st.next_id == st.next_id) ≡ true = ground arith in rw (is_sent, self) refl

accepted-applied : (w : Write) → accepted w ≡ true → applied w ≡ true
unfolding accepted applied
accepted-applied done ok = refl
accepted-applied refused ok = ok
accepted-applied (lost b) ok = ground (arith, ok)

pub create_instance-Fresh :
    (type_id : Option ℕ) (posted : Write) (c : StartCalls) (config : Config) (st : Manager)
    → Fresh st
    → Fresh (create_instance type_id posted c config st).0
unfolding create_instance
create_instance-Fresh none posted c config st fresh = fresh
create_instance-Fresh (some type_id) posted c config st fresh =
    let row = new_row type_id config in
    let st' : Manager = insert_row row (applied posted) st in
    let fresh' = insert_row-Fresh row (applied posted) st fresh in
    let same = create_subscriptions-SameApps c.rebuild.posts st.next_id config st' in
    if_both (λ (r : Manager × Option ℕ). Fresh r.0) (type_id == 0) fresh
      (elim (Bool-cases (accepted posted)) [
        | inl taken ↦ rw taken (
            start_instance-Fresh c st.next_id row
              (create_subscriptions c.rebuild.posts st.next_id config st')
              (rw same.rows (inserted row (applied posted) st (accepted-applied posted taken)))
              (SameApps-Fresh st' _ same fresh'))
        | inr failed ↦ rw failed fresh'
      ])
