-- ===== src/Router/Resolve.antt =====
-- services/webhook_router.py: the row of a label, the copies of an event that come from other hubs, and
-- the cache of labels.
use text.Mathlib.TextEquality.{eq_iff}
use mobius_smart_home.Prelude.{
  ℕ, ◌≡◌, inl, inr, refl, sym, subst, ◌⊎◌, ◌∙◌, String, true, false, ◌&&◌, Option, none, some, List,
  [], ◌∷◌, get, strip, str_eq, if◌then◌else◌, All, arith, Bool-cases, if_both,
}
use mobius_smart_home.Router.Labels.{candidates, drop_mesh_suffix}
use mobius_smart_home.Router.{
  Canonical, DeviceEvent, Payload, Services, Router, LabelCache, try_cached, or_next, try_each,
  lookup_canonical_by_label, canonical_id_of, enqueue_each, enqueue, subscribed_to, log_event,
  write_cache, update_cache, dispatch, event_of, is_mirror, route_event,
}

-- The copies of one event that the hubs send
unfoldable pub route_copies : Services → List Payload → Router → Router
route_copies s [] st = st
route_copies s (p ∷ ps) st = route_copies s ps (route_event s p st).0

-- Different hubs
abbrev pub AllDistinct : List Payload → Type 0
AllDistinct [] = Unit
AllDistinct (p ∷ ps) = All (λ q. str_eq q.hub_ip p.hub_ip ≡ false) ps × AllDistinct ps

-- The cache has the row for a label, or nothing for it and the row for the label without its mesh suffix.
abbrev pub Resolves : LabelCache → Canonical → String → Type 0
Resolves cache row label =
    let base = strip (drop_mesh_suffix (strip label)) in
    (get cache (strip label) ≡ some (some row))
    ⊎ ((get cache (strip label) ≡ some none)
        × (str_eq base "" ≡ false)
        × (str_eq base (strip label) ≡ false)
        × (get cache base ≡ some (some row)))

-- A copy that a hub sends, under its own label and device id
pub record CopyOf (row : Canonical) (cache : LabelCache) (p : Payload) : Type 0 where
  pub hub : str_eq p.hub_ip "" ≡ false
  pub device : str_eq p.device_id "" ≡ false
  pub attribute : str_eq p.name "" ≡ false
  pub label : str_eq (strip p.display_name) "" ≡ false
  pub resolves : Resolves cache row p.display_name

-- The copy of the hub of the row
unfoldable pub native_copy : Canonical → List Payload → Option Payload
native_copy row [] = none
native_copy row (p ∷ ps) = if str_eq p.hub_ip row.hub_ip then some p else native_copy row ps

-- That copy, delivered as an event of the row
unfoldable pub deliver : Services → Canonical → Option Payload → Router → Router
deliver s row none st = st
deliver s row (some p) st = (dispatch s (event_of p (some row.id)) st).0

-- The router knows the row of a label.
abbrev pub Knows : String → Option Canonical → Router → Type 0
Knows label row st = get st.label_to_canonical (strip label) ≡ some row

lookup-cached :
    (s : Services) (label : String) (cache : LabelCache) (row : Canonical)
    → str_eq (strip label) "" ≡ false
    → get cache (strip label) ≡ some (some row)
    → lookup_canonical_by_label s label cache ≡ (cache, some row)
unfolding lookup_canonical_by_label candidates try_each try_cached or_next
lookup-cached s label cache row named known = rw (named, known) refl

enqueue_each-labels :
    (s : Services) (e : DeviceEvent) (is : List ℕ) (st : Router)
    → (enqueue_each s e is st).label_to_canonical ≡ st.label_to_canonical
unfolding enqueue_each enqueue
enqueue_each-labels s e [] st = refl
enqueue_each-labels s e (i ∷ is) st = elim (Bool-cases (s.running i && s.takes i)) [
  | inl runs ↦ rw (enqueue_each, runs) (enqueue_each-labels s e is (enqueue e i st))
  | inr stands ↦ rw (enqueue_each, stands) (enqueue_each-labels s e is st)
]

write_cache-labels :
    (id : Option ℕ) (e : DeviceEvent) (st : Router)
    → (write_cache id e st).label_to_canonical ≡ st.label_to_canonical
unfolding write_cache
write_cache-labels none e st = refl
write_cache-labels (some id) e st = refl

pub dispatch-labels :
    (s : Services) (e : DeviceEvent) (st : Router)
    → (dispatch s e st).0.label_to_canonical ≡ st.label_to_canonical
unfolding dispatch log_event update_cache
dispatch-labels s e st =
    let kept : Router → Type 0 = λ st'. st'.label_to_canonical ≡ st.label_to_canonical in
    let same =
      enqueue_each-labels s e (subscribed_to s e) (update_cache e st)
      ∙ write_cache-labels e.canonical_id e st in
    if_both kept s.logs same same

-- What `route_event` does once the row is resolved
unfoldable pub resolved : Services → Payload → Option Canonical → Router → Router × ℕ
unfolding is_mirror
resolved s p row st =
    if str_eq p.device_id ""
    then (st, 0)
    else if str_eq p.name ""
    then (st, 0)
    else if is_mirror p.hub_ip row
    then (st, 0)
    else dispatch s (event_of p (canonical_id_of s row p.device_id)) st

pub resolved-labels :
    (s : Services) (p : Payload) (row : Option Canonical) (st : Router)
    → (resolved s p row st).0.label_to_canonical ≡ st.label_to_canonical
unfolding resolved
resolved-labels s p row st =
    let kept : Router × ℕ → Type 0 = λ r. r.0.label_to_canonical ≡ st.label_to_canonical in
    if_both kept (str_eq p.device_id "") refl (
      if_both kept (str_eq p.name "") refl (
        if_both kept (is_mirror p.hub_ip row) refl
          (dispatch-labels s (event_of p (canonical_id_of s row p.device_id)) st)))

route_event-known :
    (s : Services) (p : Payload) (st : Router) (row : Canonical)
    → str_eq (strip p.display_name) "" ≡ false
    → Knows p.display_name (some row) st
    → route_event s p st ≡ resolved s p (some row) st
unfolding route_event resolved
route_event-known s p st row named known =
    rw (lookup-cached s p.display_name st.label_to_canonical row named known) refl

abbrev pub Named : String → Type 0
Named s = str_eq s "" ≡ false

foreign_hub :
    (hub : String) (row : Canonical)
    → Named hub
    → str_eq hub row.hub_ip ≡ false
    → is_mirror hub (some row) ≡ true
unfolding is_mirror
foreign_hub hub row named other =
    let differ : str_eq row.hub_ip hub ≡ false =
      ground (arith, other, eq_iff hub row.hub_ip, eq_iff row.hub_ip hub) in
    rw (named, differ) refl

lookup-Resolves :
    (s : Services) (label : String) (cache : LabelCache) (row : Canonical)
    → str_eq (strip label) "" ≡ false
    → Resolves cache row label
    → lookup_canonical_by_label s label cache ≡ (cache, some row)
unfolding lookup_canonical_by_label candidates try_each try_cached or_next
lookup-Resolves s label cache row named (inl known) = lookup-cached s label cache row named known
lookup-Resolves s label cache row named (inr (missed, based, other, known)) =
    rw (named, based, other, missed, known) refl

route_event-native :
    (s : Services) (p : Payload) (st : Router) (row : Canonical)
    → CopyOf row st.label_to_canonical p
    → str_eq p.hub_ip row.hub_ip ≡ true
    → (route_event s p st).0 ≡ (dispatch s (event_of p (some row.id)) st).0
unfolding route_event is_mirror canonical_id_of
route_event-native s p st row copy native =
    let same : str_eq row.hub_ip p.hub_ip ≡ true =
      (eq_iff row.hub_ip p.hub_ip).1 (sym ((eq_iff p.hub_ip row.hub_ip).0 native)) in
    rw
      (
        copy.device,
        copy.attribute,
        lookup-Resolves s p.display_name st.label_to_canonical row copy.label copy.resolves,
        copy.hub,
        same,
      )
      refl

route_event-foreign :
    (s : Services) (p : Payload) (st : Router) (row : Canonical)
    → CopyOf row st.label_to_canonical p
    → str_eq p.hub_ip row.hub_ip ≡ false
    → (route_event s p st).0 ≡ st
unfolding route_event
route_event-foreign s p st row copy other =
    rw
      (
        copy.device,
        copy.attribute,
        lookup-Resolves s p.display_name st.label_to_canonical row copy.label copy.resolves,
        foreign_hub p.hub_ip row copy.hub other,
      )
      refl

foreign_copies :
    (s : Services) (ps : List Payload) (st : Router) (row : Canonical)
    → All (CopyOf row st.label_to_canonical) ps
    → All (λ p. str_eq p.hub_ip row.hub_ip ≡ false) ps
    → route_copies s ps st ≡ st
unfolding route_copies
foreign_copies s [] st row copies others = refl
foreign_copies s (p ∷ ps) st row (copy, copies) (other, others) =
    rw (route_event-foreign s p st row copy other) (foreign_copies s ps st row copies others)

-- The hubs send copies of one event, each under its own label and with its own device id. When the
-- cache has the row for each label, or for the label without its mesh suffix where it has noted that the
-- label itself has none: the copies of different hubs, in whatever order, amount to one delivery of the
-- copy of the hub of the row, under the id of the row, if it is among them, and to nothing if it is not. So no
-- instance is handed the event twice, and the log and the caches have it once.
pub route_copies-once :
    (s : Services) (ps : List Payload) (st : Router) (row : Canonical)
    → All (CopyOf row st.label_to_canonical) ps
    → AllDistinct ps
    → route_copies s ps st ≡ deliver s row (native_copy row ps) st
unfolding route_copies native_copy deliver
route_copies-once s [] st row copies distinct = refl
route_copies-once s (p ∷ ps) st row (copy, copies) (apart, distinct) =
    elim (Bool-cases (str_eq p.hub_ip row.hub_ip)) [
      | inl native ↦
          rw (native, route_event-native s p st row copy native)
            (foreign_copies s ps (dispatch s (event_of p (some row.id)) st).0 row
              (subst (λ c. All (CopyOf row c) ps)
                (sym (dispatch-labels s (event_of p (some row.id)) st)) copies)
              (subst (λ h. All (λ q. str_eq q.hub_ip h ≡ false) ps)
                ((eq_iff p.hub_ip row.hub_ip).0 native) apart))
      | inr other ↦
          rw (other, route_event-foreign s p st row copy other)
            (route_copies-once s ps st row copies distinct)
    ]
