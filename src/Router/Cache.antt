-- ===== src/Router/Cache.antt =====
-- services/webhook_router.py: what a failed query of a label leaves in the cache.
use mobius_smart_home.Prelude.{
  ℕ, ◌≡◌, ◌≢◌, inl, inr, refl, String, Bool, true, false, Option, none, some, List, [], ◌∷◌, get,
  put, get-put, get-put_self, strip, str_eq, eq_iff, All, arith, Option-cases, if_both,
}
use mobius_smart_home.Router.Labels.{candidates, number_of}
use mobius_smart_home.Router.{
  Canonical, LabelAnswer, Payload, Services, Router, LabelCache, try_answer, try_cached, or_next,
  try_each, found, no_row, bad_status, raised, lookup_canonical_by_label, canonical_id_of,
  by_number, dispatch, event_of, is_mirror, route_event, work, work_on, stop_instance_worker,
  DeviceEvent, waiting,
}
use mobius_smart_home.Router.Fifo.{
  RouterStep, event, worker_round, stop, flush, router_step, router_run,
}
use mobius_smart_home.Router.Resolve.{Knows, Named, dispatch-labels}

-- What the cache has, it keeps.
put-keeps :
    (label key : String) (cache : LabelCache) (row row' : Option Canonical)
    → get cache label ≡ none
    → get cache key ≡ some row
    → get (put cache label row') key ≡ some row
put-keeps label key cache row row' fresh kept =
    ground (arith, get-put cache label key row', eq_iff label key, fresh, kept)

try_answer-keeps :
    (answer : LabelAnswer) (label key : String) (cache : LabelCache) (row : Option Canonical)
    → get cache label ≡ none
    → get cache key ≡ some row
    → get (try_answer answer label cache).0 key ≡ some row
unfolding try_answer
try_answer-keeps (found row') label key cache row = put-keeps label key cache row (some row')
try_answer-keeps no_row label key cache row = put-keeps label key cache row none
try_answer-keeps bad_status label key cache row = λ _ kept. kept
try_answer-keeps raised label key cache row = put-keeps label key cache row none

try_cached-keeps :
    (s : Services) (label key : String) (cache : LabelCache) (row : Option Canonical)
    → get cache key ≡ some row
    → get (try_cached (get cache label) s label cache).0 key ≡ some row
unfolding try_cached
try_cached-keeps s label key cache row kept = elim (Option-cases (get cache label)) [
  | inl fresh ↦ rw fresh (try_answer-keeps (s.by_label label) label key cache row fresh kept)
  | inr (cached, there) ↦ rw there kept
]

or_next-keeps :
    (r : LabelCache × Option Canonical) (next : LabelCache → LabelCache × Option Canonical)
    (key : String) (row : Option Canonical)
    → ((cache : LabelCache) → get cache key ≡ some row → get (next cache).0 key ≡ some row)
    → get r.0 key ≡ some row
    → get (or_next r next).0 key ≡ some row
unfolding or_next
or_next-keeps (cache, none) next key row rest kept = rest cache kept
or_next-keeps (cache, some row') next key row rest kept = kept

try_each-keeps :
    (s : Services) (key : String) (row : Option Canonical) (labels : List String)
    (cache : LabelCache)
    → get cache key ≡ some row
    → get (try_each s labels cache).0 key ≡ some row
unfolding try_each
try_each-keeps s key row [] cache kept = kept
try_each-keeps s key row (label ∷ rest) cache kept =
    or_next-keeps (try_cached (get cache label) s label cache) (try_each s rest) key row
      (try_each-keeps s key row rest) (try_cached-keeps s label key cache row kept)

route_event-keeps :
    (s : Services) (p : Payload) (st : Router) (label : String) (row : Option Canonical)
    → Knows label row st
    → Knows label row (route_event s p st).0
unfolding route_event lookup_canonical_by_label
route_event-keeps s p st label row known =
    let tried : LabelCache × Option Canonical =
      try_each s (candidates p.display_name) st.label_to_canonical in
    let known' =
      try_each-keeps s (strip label) row (candidates p.display_name) st.label_to_canonical known in
    let knowing : Router × ℕ → Type 0 = λ r. Knows label row r.0 in
    let st' : Router = record st { label_to_canonical = tried.0 } in
    if_both knowing (str_eq p.device_id "") known (
      if_both knowing (str_eq p.name "") known (
        if_both knowing (is_mirror p.hub_ip tried.1) known'
          (rw (dispatch-labels s (event_of p (canonical_id_of s tried.1 p.device_id)) st') known')))

work_on-keeps :
    (running : Bool) (raises : DeviceEvent → Bool) (i : ℕ) (q : List DeviceEvent) (st : Router)
    (label : String) (row : Option Canonical)
    → Knows label row st
    → Knows label row (work_on running raises i q st)
unfolding work_on
work_on-keeps running raises i [] st label row known = known
work_on-keeps true raises i (e ∷ rest) st label row known = known
work_on-keeps false raises i (e ∷ rest) st label row known = known

-- Whatever the cache has of a label stays until the caches are flushed.
router_step-keeps :
    (x : RouterStep) (st : Router) (label : String) (row : Option Canonical)
    → x ≢ flush
    → Knows label row st
    → Knows label row (router_step x st)
unfolding router_step work work_on stop_instance_worker
router_step-keeps (event s p) st label row lasting known = route_event-keeps s p st label row known
router_step-keeps (worker_round running raises i) st label row lasting known =
    work_on-keeps (running i) (raises i) i (waiting st i) st label row known
router_step-keeps (stop i) st label row lasting known = known
router_step-keeps flush st label row lasting known = elim (lasting refl) [ ]

router_run-keeps :
    (xs : List RouterStep) (st : Router) (label : String) (row : Option Canonical)
    → All (λ x. x ≢ flush) xs
    → Knows label row st
    → Knows label row (router_run xs st)
unfolding router_run
router_run-keeps [] st label row lasting known = known
router_run-keeps (x ∷ xs) st label row (lasting, all_lasting) known =
    router_run-keeps xs (router_step x st) label row all_lasting
      (router_step-keeps x st label row lasting known)

-- No row, and so no mirror
unresolved :
    (s : Services) (p : Payload) (st : Router) (cache : LabelCache)
    → Named p.device_id
    → Named p.name
    → lookup_canonical_by_label s p.display_name st.label_to_canonical ≡ (cache, none)
    → route_event s p st
      ≡ dispatch s
          (event_of p (canonical_id_of s none p.device_id))
          (record st { label_to_canonical = cache })
unfolding route_event is_mirror
unresolved s p st cache with_id with_name nothing = rw (nothing, with_id, with_name) refl

lookup-failed :
    (s : Services) (label : String) (cache : LabelCache)
    → candidates label ≡ strip label ∷ []
    → get cache (strip label) ≡ none
    → s.by_label (strip label) ≡ raised
    → lookup_canonical_by_label s label cache ≡ (put cache (strip label) none, none)
unfolding lookup_canonical_by_label try_each try_cached try_answer or_next
lookup-failed s label cache single fresh failed = rw (single, fresh, failed) refl

lookup-hidden :
    (s : Services) (label : String) (cache : LabelCache)
    → candidates label ≡ strip label ∷ []
    → get cache (strip label) ≡ some none
    → lookup_canonical_by_label s label cache ≡ (cache, none)
unfolding lookup_canonical_by_label try_each try_cached or_next
lookup-hidden s label cache single hidden = rw (single, hidden) refl

failed-Knows :
    (s : Services) (p : Payload) (st : Router)
    → Named p.device_id
    → Named p.name
    → candidates p.display_name ≡ strip p.display_name ∷ []
    → get st.label_to_canonical (strip p.display_name) ≡ none
    → s.by_label (strip p.display_name) ≡ raised
    → Knows p.display_name none (route_event s p st).0
failed-Knows s p st with_id with_name single fresh failed =
    let key = strip p.display_name in
    let cache = put st.label_to_canonical key none in
    rw
      (
        unresolved s p st cache with_id with_name
            (lookup-failed s p.display_name st.label_to_canonical single fresh failed),
        dispatch-labels s (event_of p (canonical_id_of s none p.device_id))
            (record st { label_to_canonical = cache }),
      )
      (get-put_self st.label_to_canonical key none)

-- After one query of a label that raised (a timeout), where the label has no mesh suffix: until the caches
-- are flushed, whatever else happens, and whatever the table of devices then holds for the label, an event
-- with this label is dispatched without the row of its device: as one of the device whose canonical id
-- equals the number that the hub gave to its own device, if there is such a device, and else as one of no
-- device.
pub failure-sticks :
    (s s' : Services) (p p' : Payload) (st : Router) (xs : List RouterStep)
    → Named p.device_id
    → Named p.name
    → Named p'.device_id
    → Named p'.name
    → p'.display_name ≡ p.display_name
    → candidates p.display_name ≡ strip p.display_name ∷ []
    → get st.label_to_canonical (strip p.display_name) ≡ none
    → s.by_label (strip p.display_name) ≡ raised
    → All (λ x. x ≢ flush) xs
    → let st' = router_run xs (route_event s p st).0 in
      route_event s' p' st' ≡ dispatch s' (event_of p' (by_number s' (number_of p'.device_id))) st'
unfolding canonical_id_of
failure-sticks s s' p p' st xs with_id with_name with_id' with_name' same single fresh failed
      lasting =
    let st' : Router = router_run xs (route_event s p st).0 in
    let hidden =
      router_run-keeps xs (route_event s p st).0 p.display_name none lasting
        (failed-Knows s p st with_id with_name single fresh failed) in
    unresolved s' p' st' st'.label_to_canonical with_id' with_name'
      (rw same (lookup-hidden s' p.display_name st'.label_to_canonical single hidden))
