-- ===== src/Devices/Blind.antt =====
-- services/device_cache.py: a device whose first event comes before its first read.
use mobius_smart_home.Prelude.{
  ℕ, ◌≡◌, inl, inr, refl, ap, ◌∙◌, String, Bool, false, Option, none, some, List, [], ◌∷◌, Dict,
  get, put, get-put, get-put_self, str_eq, eq_iff, arith, Bool-cases, if◌then◌else◌, if_each,
}
use mobius_smart_home.Devices.{
  Entry, DeviceCache, Registered, get_device, read_through_table, keep_in_memory,
  update_device_attribute, bare, or_bare, touched,
}

-- What happens in the cache between two full refreshes: events, and reads, each with what `devices` has
pub data CacheStep : Type 0 where
  event : Bool → ℕ → String → String → String → CacheStep
  read : Bool → Option Registered → String → CacheStep

unfoldable pub cache_step : CacheStep → DeviceCache → DeviceCache
cache_step (event saved now key name value) st =
    (update_device_attribute saved now key name value st).0
cache_step (read reads registered key) st = (get_device reads registered key st).0

unfoldable pub cache_run : List CacheStep → DeviceCache → DeviceCache
unfolding cache_step
cache_run [] st = st
cache_run (x ∷ xs) st = cache_run xs (cache_step x st)

-- The device is in memory, without capabilities.
abbrev Blind : String → DeviceCache → Type 0
Blind key st = (entry : Entry) × (get st.memory_cache key ≡ some entry) × (entry.capabilities ≡ [])

event-Blind :
    (saved : Bool) (now : ℕ) (key key' name value : String) (st : DeviceCache)
    → Blind key st
    → Blind key (update_device_attribute saved now key' name value st).0
unfolding update_device_attribute touched or_bare
event-Blind saved now key key' name value st (entry, there, none_there) =
    let old : Entry = or_bare (get st.memory_cache key') in
    let entry' : Entry = touched now (put old.attributes name value) old in
    elim (Bool-cases (str_eq key' key)) [
      | inl same ↦
          let is_key : key' ≡ key = (eq_iff key' key).0 same in
          (
            entry',
            rw (get-put st.memory_cache key' key entry', same) refl,
            ap (λ k. (or_bare (get st.memory_cache k)).capabilities) is_key ∙ rw there none_there,
          )
      | inr other ↦ (entry, rw (get-put st.memory_cache key' key entry', other) there, none_there)
    ]

keep_in_memory-Blind :
    (key key' : String) (registered : Option Registered) (row : Option Entry) (st : DeviceCache)
    → str_eq key' key ≡ false
    → Blind key st
    → Blind key (keep_in_memory key' registered row st).0
unfolding keep_in_memory
keep_in_memory-Blind key key' registered none st other blind = blind
keep_in_memory-Blind key key' registered (some row) st other (entry, there, none_there) =
    (entry, rw (get-put st.memory_cache key' key _, other) there, none_there)

read_through_table-Blind :
    (cached : Option Entry) (reads : Bool) (registered : Option Registered) (key key' : String)
    (st : DeviceCache)
    → get st.memory_cache key' ≡ cached
    → Blind key st
    → Blind key (read_through_table cached reads registered key' st).0
unfolding read_through_table
read_through_table-Blind (some entry) reads registered key key' st is_cached blind = blind
read_through_table-Blind none reads registered key key' st is_cached (entry, there, none_there) =
    let other : str_eq key' key ≡ false = ground (arith, eq_iff key' key, is_cached, there) in
    keep_in_memory-Blind key key' registered _ st other (entry, there, none_there)

cache_step-Blind :
    (x : CacheStep) (key : String) (st : DeviceCache) → Blind key st → Blind key (cache_step x st)
unfolding cache_step get_device
cache_step-Blind (event saved now key' name value) key st =
    event-Blind saved now key key' name value st
cache_step-Blind (read reads registered key') key st =
    read_through_table-Blind (get st.memory_cache key') reads registered key key' st refl

cache_run-Blind :
    (xs : List CacheStep) (key : String) (st : DeviceCache)
    → Blind key st
    → Blind key (cache_run xs st)
unfolding cache_run
cache_run-Blind [] key st blind = blind
cache_run-Blind (x ∷ xs) key st blind =
    cache_run-Blind xs key (cache_step x st) (cache_step-Blind x key st blind)

abbrev pub capabilities_of : Option Entry → Option (List String)
capabilities_of none = none
capabilities_of (some entry) = some entry.capabilities

abbrev pub attributes_of : Option Entry → Option (Dict String)
attributes_of none = none
attributes_of (some entry) = some entry.attributes

get_device-Blind :
    (reads : Bool) (registered : Option Registered) (key : String) (st : DeviceCache)
    → Blind key st
    → capabilities_of (get_device reads registered key st).1 ≡ some []
unfolding get_device read_through_table
get_device-Blind reads registered key st (entry, there, none_there) = rw (there, none_there) refl

-- A device that is not in memory has an event before it is read: until the memory is refreshed, after
-- whatever events and reads, `get_device` answers it without capabilities, whatever the table and
-- `devices` have of them, and whether or not the event is saved; and if it is, the attributes of its row
-- are then the one of the event alone, whatever they were, while otherwise they stay.
pub first_event_blinds :
    (saved : Bool) (now : ℕ) (key name value : String) (st : DeviceCache) (xs : List CacheStep)
    (reads : Bool) (registered : Option Registered)
    → get st.memory_cache key ≡ none
    → let st' = (update_device_attribute saved now key name value st).0 in
      (capabilities_of (get_device reads registered key (cache_run xs st')).1 ≡ some [])
      × (attributes_of (get st'.table key)
          ≡ (if saved then some ((name, value) ∷ []) else attributes_of (get st.table key)))
unfolding update_device_attribute or_bare bare touched put
first_event_blinds saved now key name value st xs reads registered absent =
    let st' : DeviceCache = (update_device_attribute saved now key name value st).0 in
    let old : Entry = or_bare (get st.memory_cache key) in
    let entry' : Entry = touched now (put old.attributes name value) old in
    let blind : Blind key st' = (entry', get-put_self st.memory_cache key entry', rw absent refl) in
    (
      get_device-Blind reads registered key (cache_run xs st') (cache_run-Blind xs key st' blind),
      if_each
          (λ (table : Dict Entry).
            attributes_of (get table key)
            ≡ (if saved then some ((name, value) ∷ []) else attributes_of (get st.table key)))
          saved
          (λ is_saved.
            rw
              (
                is_saved,
                get-put_self st.table key
                    (touched now (put old.attributes name value) (or_bare (get st.table key))),
                absent,
              )
              refl)
          (λ lost. rw lost refl),
    )
