-- ===== src/Devices/Coherent.antt =====
-- services/device_cache.py: the memory against the table.
use mobius_smart_home.Prelude.{
  ℕ, ◌≡◌, inl, inr, refl, sym, ap, ◌∙◌, String, Bool, true, false, Option, none, some, List, [],
  ◌∷◌, Dict, get, put, remove, get-put, get-remove, str_eq, eq_iff, if◌then◌else◌, All, arith,
  Bool-cases, if_both,
}
use mobius_smart_home.Devices.{
  Entry, DeviceCache, DeviceData, Registered, Resolve, get_all, load_all, is_cache_valid,
  get_device, read_through_table, keep_in_memory, with_capabilities, backfill_capabilities,
  update_device_attribute, touched, update_device, update_all, save_entries, cache_entries,
  put_entries, invalidate, clear,
}

-- A call of the cache
pub data CacheCall : Type 0 where
  all : Bool → ℕ → CacheCall
  one : Bool → Option Registered → String → CacheCall
  attribute : Bool → ℕ → String → String → String → CacheCall
  device : Bool → ℕ → String → DeviceData → CacheCall
  devices : Bool → ℕ → String → Resolve → List DeviceData → CacheCall
  forget : Option String → CacheCall
  empty : Bool → CacheCall

unfoldable pub call : CacheCall → DeviceCache → DeviceCache
call (all reads now) st = (get_all reads now st).0
call (one reads registered key) st = (get_device reads registered key st).0
call (attribute saved now key name value) st =
    (update_device_attribute saved now key name value st).0
call (device saved now key d) st = (update_device saved now key d st).0
call (devices saved now hub_ip resolve ds) st = (update_all saved now hub_ip resolve ds st).0
call (forget key) st = invalidate key st
call (empty deleted) st = (clear deleted st).0

unfoldable pub calls : List CacheCall → DeviceCache → DeviceCache
unfolding call
calls [] st = st
calls (x ∷ xs) st = calls xs (call x st)

-- The writes of the call are done.
abbrev pub Saved : CacheCall → Type 0
Saved (attribute saved now key name value) = saved ≡ true
Saved (device saved now key d) = saved ≡ true
Saved (devices saved now hub_ip resolve ds) = saved ≡ true
Saved _ = Unit

-- What memory has of a device, the table has with the same attributes.
abbrev pub Agrees : Option Entry → Option Entry → Type 0
Agrees none row = Unit
Agrees (some entry) none = ⊥
Agrees (some entry) (some row) = entry.attributes ≡ row.attributes

abbrev pub Coherent : DeviceCache → Type 0
Coherent st = (key : String) → Agrees (get st.memory_cache key) (get st.table key)

Agrees-refl : (row : Option Entry) → Agrees row row
Agrees-refl none = tt
Agrees-refl (some row) = refl

put_both :
    (memory table : Dict Entry) (key : String) (entry row : Entry)
    → entry.attributes ≡ row.attributes
    → ((k : String) → Agrees (get memory k) (get table k))
    → (k : String) → Agrees (get (put memory key entry) k) (get (put table key row) k)
put_both memory table key entry row same agrees k =
    rw (get-put memory key k entry, get-put table key k row)
      (elim (Bool-cases (str_eq key k)) [
        | inl here ↦ rw here same
        | inr other ↦ rw other (agrees k)
      ])

put_entries-Agrees :
    (es : List (String × Entry)) (memory table : Dict Entry)
    → ((k : String) → Agrees (get memory k) (get table k))
    → (k : String) → Agrees (get (put_entries memory es) k) (get (put_entries table es) k)
unfolding put_entries
put_entries-Agrees [] memory table agrees = agrees
put_entries-Agrees ((key, entry) ∷ rest) memory table agrees =
    put_entries-Agrees rest (put memory key entry) (put table key entry)
      (put_both memory table key entry entry refl agrees)

with_capabilities-attributes :
    (r : Option Registered) (caps : List String) (entry : Entry)
    → (with_capabilities r caps entry).attributes ≡ entry.attributes
unfolding with_capabilities backfill_capabilities
with_capabilities-attributes none [] entry = refl
with_capabilities-attributes (some r) [] entry = refl
with_capabilities-attributes r (c ∷ rest) entry = refl

keep_in_memory-Coherent :
    (key : String) (r : Option Registered) (row : Option Entry) (st : DeviceCache)
    → ((entry : Entry) → row ≡ some entry → get st.table key ≡ some entry)
    → Coherent st
    → Coherent (keep_in_memory key r row st).0
unfolding keep_in_memory
keep_in_memory-Coherent key r none st is_row coherent = coherent
keep_in_memory-Coherent key r (some row) st is_row coherent = λ k.
    (let entry : Entry = with_capabilities r row.capabilities row in
      rw (get-put st.memory_cache key k entry) (elim (Bool-cases (str_eq key k)) [
        | inl here ↦
            let is_k : key ≡ k = (eq_iff key k).0 here in
            rw (here, ap (get st.table) (sym is_k) ∙ is_row row refl)
              (with_capabilities-attributes r row.capabilities row)
        | inr other ↦ rw other (coherent k)
      ]))

read_row :
    (reads : Bool) (table : Dict Entry) (key : String) (entry : Entry)
    → (if reads then get table key else none) ≡ some entry
    → get table key ≡ some entry
read_row true table key entry got = got
read_row false table key entry got = ground (arith, got)

read_through_table-Coherent :
    (cached : Option Entry) (reads : Bool) (r : Option Registered) (key : String) (st : DeviceCache)
    → Coherent st
    → Coherent (read_through_table cached reads r key st).0
unfolding read_through_table
read_through_table-Coherent (some entry) reads r key st coherent = coherent
read_through_table-Coherent none reads r key st coherent =
    keep_in_memory-Coherent key r (if reads then get st.table key else none) st
      (read_row reads st.table key) coherent

load_all-Coherent :
    (now : ℕ) (rows : Dict Entry) (st : DeviceCache)
    → rows ≡ st.table
    → Coherent st
    → Coherent (load_all now rows st).0
unfolding load_all
load_all-Coherent now [] st is_table coherent = coherent
load_all-Coherent now (row ∷ rows) st is_table coherent =
    λ k. rw (sym is_table) (Agrees-refl (get (row ∷ rows) k))

get_all-Coherent :
    (reads : Bool) (now : ℕ) (st : DeviceCache) → Coherent st → Coherent (get_all reads now st).0
unfolding get_all load_all
get_all-Coherent true now st coherent =
    if_both (λ (r : DeviceCache × List Entry). Coherent r.0) (is_cache_valid now st) coherent
      (load_all-Coherent now st.table st refl coherent)
get_all-Coherent false now st coherent =
    if_both (λ (r : DeviceCache × List Entry). Coherent r.0) (is_cache_valid now st) coherent
      coherent

save_entries-Coherent :
    (now : ℕ) (es : List (String × Entry)) (st : DeviceCache)
    → Coherent st
    → Coherent (save_entries true now es st).0
unfolding save_entries
save_entries-Coherent now [] st coherent = coherent
save_entries-Coherent now (e ∷ rest) st coherent =
    put_entries-Agrees (e ∷ rest) st.memory_cache st.table coherent

update_all-Coherent :
    (now : ℕ) (hub_ip : String) (resolve : Resolve) (ds : List DeviceData) (st : DeviceCache)
    → Coherent st
    → Coherent (update_all true now hub_ip resolve ds st).0
unfolding update_all
update_all-Coherent now hub_ip resolve [] st coherent = coherent
update_all-Coherent now hub_ip resolve (d ∷ rest) st coherent =
    if_both (λ (r : DeviceCache × Bool). Coherent r.0) (str_eq hub_ip "") coherent
      (save_entries-Coherent now (cache_entries now hub_ip resolve (d ∷ rest)) st coherent)

forget-Coherent :
    (key : String) (st : DeviceCache)
    → Coherent st
    → Coherent (record st { memory_cache = remove st.memory_cache key })
forget-Coherent key st coherent = λ k.
    rw (get-remove st.memory_cache key k)
      (if_both (λ entry. Agrees entry (get st.table k)) (str_eq key k) tt (coherent k))

call-Coherent : (x : CacheCall) (st : DeviceCache) → Saved x → Coherent st → Coherent (call x st)
unfolding call get_device update_device_attribute touched update_device invalidate clear get
call-Coherent (all reads now) st saved coherent = get_all-Coherent reads now st coherent
call-Coherent (one reads r key) st saved coherent =
    read_through_table-Coherent (get st.memory_cache key) reads r key st coherent
call-Coherent (attribute done now key name value) st saved coherent =
    rw saved (put_both st.memory_cache st.table key _ _ refl coherent)
call-Coherent (device done now key d) st saved coherent =
    rw saved (put_both st.memory_cache st.table key _ _ refl coherent)
call-Coherent (devices done now hub_ip resolve ds) st saved coherent =
    rw saved (update_all-Coherent now hub_ip resolve ds st coherent)
call-Coherent (forget none) st saved coherent = λ k. tt
call-Coherent (forget (some key)) st saved coherent = forget-Coherent key st coherent
call-Coherent (empty deleted) st saved coherent = λ k. tt

-- Whatever calls of the cache follow one another, as long as its writes are done (a failed deletion of the
-- table, and failed reads, do not matter): every device in memory has a row in the table, with the same
-- attributes.
pub calls-Coherent :
    (xs : List CacheCall) (st : DeviceCache) → All Saved xs → Coherent st → Coherent (calls xs st)
unfolding calls
calls-Coherent [] st saved coherent = coherent
calls-Coherent (x ∷ xs) st (saved, all_saved) coherent =
    calls-Coherent xs (call x st) all_saved (call-Coherent x st saved coherent)
