-- ===== src/Router/Fifo.antt =====
-- services/webhook_router.py: the queues against the log.
use mathlib.Core.List.{append-nil, append_assoc}
use mobius_smart_home.Prelude.{
  ℕ, ◌≡◌, ◌≢◌, inl, inr, refl, sym, ap, ◌∙◌, Bool, true, false, Option, none, some, List, [], ◌∷◌,
  ◌++◌, ◌&&◌, only, set_at, ◌==◌, if◌then◌else◌, All, arith, Bool-cases, if_true, if_both, str_eq,
}
use mobius_smart_home.Router.{
  DeviceEvent, Payload, Services, Router, LogRow, lookup_canonical_by_label,
  invalidate_device_cache, waiting, enqueue, enqueue_each, receives, subscribed_to, routings_of,
  log_event, write_cache, update_cache, dispatch, is_mirror, route_event, work, handle, work_on,
  stop_instance_worker,
}

-- What happens to the router: an event, a round of a worker, the stop of a worker, and the flush of the
-- caches
pub data RouterStep : Type 0 where
  event : Services → Payload → RouterStep
  worker_round : (ℕ → Bool) → (ℕ → DeviceEvent → Bool) → ℕ → RouterStep
  stop : ℕ → RouterStep
  flush : RouterStep

unfoldable pub router_step : RouterStep → Router → Router
router_step (event s p) st = (route_event s p st).0
router_step (worker_round running raises i) st = work running raises i st
router_step (stop i) st = stop_instance_worker i st
router_step flush st = invalidate_device_cache st

unfoldable pub router_run : List RouterStep → Router → Router
unfolding router_step
router_run [] st = st
router_run (x ∷ xs) st = router_run xs (router_step x st)

-- The events that an instance was handed
unfoldable pub received : ℕ → List (ℕ × DeviceEvent) → List DeviceEvent
received i [] = []
received i ((j, e) ∷ rest) = let after = received i rest in if j == i then e ∷ after else after

-- An event, as often as it was routed to the instance
copies : ℕ → DeviceEvent → List ℕ → List DeviceEvent
copies i e [] = []
copies i e (j ∷ rest) = let after = copies i e rest in if j == i then e ∷ after else after

-- The events of the log that were routed to an instance
unfoldable pub logged : ℕ → List LogRow → List DeviceEvent
unfolding copies
logged i [] = []
logged i (row ∷ rest) = copies i row.event row.routed_to ++ logged i rest

logged-append : (i : ℕ) (xs ys : List LogRow) → logged i (xs ++ ys) ≡ logged i xs ++ logged i ys
unfolding logged
logged-append i [] ys = refl
logged-append i (x ∷ xs) ys =
    rw (logged-append i xs ys)
      (sym (append_assoc (copies i x.event x.routed_to) (logged i xs) (logged i ys)))

pub received-append :
    (i : ℕ) (xs ys : List (ℕ × DeviceEvent))
    → received i (xs ++ ys) ≡ received i xs ++ received i ys
unfolding received
received-append i [] ys = refl
received-append i ((j, e) ∷ xs) ys = ground (arith, received-append i xs ys)

-- What concerns the order of events
record SameFlow (st st' : Router) : Type 0 where
  queues : st'.instance_queues ≡ st.instance_queues
  handled : st'.handled ≡ st.handled
  event_log : st'.event_log ≡ st.event_log

write_cache-SameFlow :
    (id : Option ℕ) (e : DeviceEvent) (st : Router) → SameFlow st (write_cache id e st)
unfolding write_cache
write_cache-SameFlow none e st = record { queues = refl; handled = refl; event_log = refl }
write_cache-SameFlow (some id) e st = record { queues = refl; handled = refl; event_log = refl }

update_cache-SameFlow : (e : DeviceEvent) (st : Router) → SameFlow st (update_cache e st)
unfolding update_cache
update_cache-SameFlow e st = write_cache-SameFlow e.canonical_id e st

enqueue-waiting :
    (e : DeviceEvent) (i j : ℕ) (st : Router)
    → waiting (enqueue e j st) i ≡ waiting st i ++ (if j == i then e ∷ [] else [])
unfolding enqueue set_at
enqueue-waiting e i j st = elim (Bool-cases (j == i)) [
  | inl same ↦ rw same (ap (λ k. waiting st k ++ e ∷ []) (ground (arith, same)))
  | inr other ↦ rw other (sym (append-nil _))
]

-- The queue of an instance after the loop over the subscribed ones
enqueue_each-waiting :
    (s : Services) (e : DeviceEvent) (i : ℕ) (is : List ℕ) (st : Router)
    → waiting (enqueue_each s e is st) i ≡ waiting st i ++ copies i e (only (receives s) is)
unfolding enqueue_each copies
enqueue_each-waiting s e i [] st = sym (append-nil (waiting st i))
enqueue_each-waiting s e i (j ∷ is) st = elim (Bool-cases (s.running j && s.takes j)) [
  | inl runs ↦
      rw (runs, enqueue_each)
        (enqueue_each-waiting s e i is (enqueue e j st)
          ∙ ap (λ q. q ++ copies i e (only (receives s) is)) (enqueue-waiting e i j st)
          ∙ queued (j == i))
  | inr stands ↦ rw (stands, enqueue_each) (enqueue_each-waiting s e i is st)
]
  where
    queued :
        (b : Bool)
        → (waiting st i ++ (if b then e ∷ [] else [])) ++ copies i e (only (receives s) is)
          ≡ waiting st i
            ++ (if b
                then e ∷ copies i e (only (receives s) is)
                else copies i e (only (receives s) is))
    queued true = append_assoc (waiting st i) (e ∷ []) (copies i e (only (receives s) is))
    queued false = ap (λ q. q ++ copies i e (only (receives s) is)) (append-nil (waiting st i))

enqueue_each-keeps :
    (s : Services) (e : DeviceEvent) (is : List ℕ) (st : Router)
    → ((enqueue_each s e is st).handled ≡ st.handled)
      × ((enqueue_each s e is st).event_log ≡ st.event_log)
unfolding enqueue_each enqueue
enqueue_each-keeps s e [] st = (refl, refl)
enqueue_each-keeps s e (j ∷ is) st = elim (Bool-cases (s.running j && s.takes j)) [
  | inl runs ↦ rw (enqueue_each, runs) (enqueue_each-keeps s e is (enqueue e j st))
  | inr stands ↦ rw (enqueue_each, stands) (enqueue_each-keeps s e is st)
]

-- What an instance was handed, and what waits for it, is what was routed to it by the log.
abbrev pub Flows : ℕ → Router → Type 0
Flows i st = received i st.handled ++ waiting st i ≡ logged i st.event_log

SameFlow-Flows : (i : ℕ) (st st' : Router) → SameFlow st st' → Flows i st → Flows i st'
SameFlow-Flows i st st' same flows = rw (same.queues, same.handled, same.event_log) flows

dispatch-Flows :
    (i : ℕ) (s : Services) (e : DeviceEvent) (st : Router)
    → s.logs ≡ true
    → Flows i st
    → Flows i (dispatch s e st).0
unfolding dispatch log_event logged copies
dispatch-Flows i s e st logs flows =
    let st' = update_cache e st in
    let is = subscribed_to s e in
    let st'' = enqueue_each s e is st' in
    let (same_handled, same_log) = enqueue_each-keeps s e is st' in
    let start = SameFlow-Flows i st st' (update_cache-SameFlow e st) flows in
    let row : LogRow = record {
      event = e;
      routed_to = only (receives s) is;
      routings = routings_of s e;
    } in
    rw (if_true (record st'' { event_log = st''.event_log ++ row ∷ [] }) st'' logs) (
      ap (λ h. received i h ++ waiting st'' i) same_handled
      ∙ ap (λ q. received i st'.handled ++ q) (enqueue_each-waiting s e i is st')
      ∙ sym (append_assoc (received i st'.handled) (waiting st' i) (copies i e row.routed_to))
      ∙ ap (λ q. q ++ copies i e row.routed_to) start
      ∙ rw (logged-append i st''.event_log (row ∷ []), same_log)
          (ap (λ q. logged i st'.event_log ++ q) (sym (append-nil (copies i e row.routed_to)))))

-- The steps that leave the worker of an instance alone, while the instance runs and the log takes rows
abbrev pub Undisturbed : ℕ → RouterStep → Type 0
Undisturbed i (event s p) = s.logs ≡ true
Undisturbed i (worker_round running raises j) = running i ≡ true
Undisturbed i (stop j) = j ≢ i
Undisturbed i flush = Unit

route_event-Flows :
    (i : ℕ) (s : Services) (p : Payload) (st : Router)
    → s.logs ≡ true
    → Flows i st
    → Flows i (route_event s p st).0
unfolding route_event
route_event-Flows i s p st logs flows =
    let (cache, row) = lookup_canonical_by_label s p.display_name st.label_to_canonical in
    let flowing : Router × ℕ → Type 0 = λ r. Flows i r.0 in
    if_both flowing (str_eq p.device_id "") flows (
      if_both flowing (str_eq p.name "") flows (
        if_both flowing (is_mirror p.hub_ip row) flows
          (dispatch-Flows i s _ (record st { label_to_canonical = cache }) logs flows)))

work_on-Flows :
    (i j : ℕ) (running : Bool) (raises : DeviceEvent → Bool) (q : List DeviceEvent) (st : Router)
    → (i ≡ j → running ≡ true)
    → waiting st j ≡ q
    → Flows i st
    → Flows i (work_on running raises j q st)
unfolding work_on handle set_at received
work_on-Flows i j running raises [] st runs is_q flows = flows
work_on-Flows i j running raises (e ∷ rest) st runs is_q flows = elim (Bool-cases (j == i)) [
  | inl same ↦
      let j_is_i : j ≡ i = ground (arith, same) in
      rw (runs (sym j_is_i), same, received-append i st.handled ((j, e) ∷ []), same)
        (append_assoc (received i st.handled) (e ∷ []) rest
          ∙ ap (λ q. received i st.handled ++ q) (sym is_q ∙ ap (waiting st) j_is_i)
          ∙ flows)
  | inr other ↦
      if_both (Flows i) running
        (rw
          (
            other,
            received-append i st.handled ((j, e) ∷ []),
            other,
            append-nil (received i st.handled),
          )
          flows)
        (rw other flows)
]

router_step-Flows :
    (i : ℕ) (x : RouterStep) (st : Router)
    → Undisturbed i x
    → Flows i st
    → Flows i (router_step x st)
unfolding router_step work stop_instance_worker set_at invalidate_device_cache
router_step-Flows i (event s p) st logs flows = route_event-Flows i s p st logs flows
router_step-Flows i (worker_round running raises j) st runs flows =
    work_on-Flows i j (running j) (raises j) (waiting st j) st
      (λ same. ap running (sym same) ∙ runs) refl flows
router_step-Flows i (stop j) st other flows =
    let apart : (j == i) ≡ false = ground (arith, other) in rw apart flows
router_step-Flows i flush st quiet flows = flows

-- With each event routed in one step: as long as the worker of an instance is not stopped, the instance
-- runs when its worker has a round, and the log takes its rows: the calls of its `on_event`, those that
-- raise among them, followed by the events in its queue, are exactly the events that the log says were routed to it, as often and in the order in which they were, whatever
-- else happens to the router, its caches and the other instances in between.
pub router_run-Flows :
    (i : ℕ) (xs : List RouterStep) (st : Router)
    → All (Undisturbed i) xs
    → Flows i st
    → Flows i (router_run xs st)
unfolding router_run
router_run-Flows i [] st quiet flows = flows
router_run-Flows i (x ∷ xs) st (quiet, all_quiet) flows =
    router_run-Flows i xs (router_step x st) all_quiet (router_step-Flows i x st quiet flows)
