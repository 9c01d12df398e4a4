-- ===== src/Devices/View.antt =====
-- services/device_cache.py: the attributes that the cache gives, after events.
use mobius_smart_home.Prelude.{
  ℕ, ◌≡◌, inl, inr, refl, ap, ◌∙◌, String, Bool, ◌&&◌, Option, none, some, List, [], ◌∷◌, get, put,
  get-put, str_eq, eq_iff, if◌then◌else◌, Bool-cases,
}
use mobius_smart_home.Devices.{
  Entry, DeviceCache, Registered, get_device, read_through_table, update_device_attribute, or_bare,
  touched,
}

-- The attribute of a device in memory
unfoldable pub attribute : DeviceCache → String → String → Option String
unfolding or_bare
attribute st key name = get (or_bare (get st.memory_cache key)).attributes name

-- An event of a device: whether its row is saved, when, and what it says
pub record Report : Type 0 where
  pub saved : Bool
  pub now : ℕ
  pub key : String
  pub name : String
  pub value : String

unfoldable pub update_each : List Report → DeviceCache → DeviceCache
update_each [] st = st
update_each (r ∷ rest) st =
    update_each rest (update_device_attribute r.saved r.now r.key r.name r.value st).0

-- The value of the last event for the attribute, or else what there was
unfoldable pub latest : List Report → String → String → Option String → Option String
latest [] key name old = old
latest (r ∷ rest) key name old =
    latest rest key name (if str_eq r.key key && str_eq r.name name then some r.value else old)

update_device_attribute-attribute :
    (saved : Bool) (now : ℕ) (key name value : String) (st : DeviceCache) (key' name' : String)
    → attribute (update_device_attribute saved now key name value st).0 key' name'
      ≡ (if str_eq key key' && str_eq name name' then some value else attribute st key' name')
unfolding update_device_attribute attribute or_bare touched
update_device_attribute-attribute saved now key name value st key' name' =
    let old = or_bare (get st.memory_cache key) in
    let entry = touched now (put old.attributes name value) old in
    elim (Bool-cases (str_eq key key')) [
      | inl same ↦
          let is_key : key ≡ key' = (eq_iff key key').0 same in
          rw (get-put st.memory_cache key key' entry, same)
            (get-put old.attributes name name' value
              ∙ ap (λ k. if str_eq name name' then some value else attribute st k name') is_key)
      | inr other ↦ rw (get-put st.memory_cache key key' entry, other) refl
    ]

update_each-attribute :
    (rs : List Report) (st : DeviceCache) (key name : String)
    → attribute (update_each rs st) key name ≡ latest rs key name (attribute st key name)
unfolding update_each latest
update_each-attribute [] st key name = refl
update_each-attribute (r ∷ rest) st key name =
    update_each-attribute rest (update_device_attribute r.saved r.now r.key r.name r.value st).0 key
      name
    ∙ ap (latest rest key name)
        (update_device_attribute-attribute r.saved r.now r.key r.name r.value st key name)

-- The device is in memory.
abbrev InMemory : String → DeviceCache → Type 0
InMemory key st = (entry : Entry) × (get st.memory_cache key ≡ some entry)

update_each-InMemory :
    (rs : List Report) (st : DeviceCache) (key : String)
    → InMemory key st
    → InMemory key (update_each rs st)
unfolding update_each update_device_attribute
update_each-InMemory [] st key there = there
update_each-InMemory (r ∷ rest) st key (entry, there) =
    let entry' =
      touched r.now (put (or_bare (get st.memory_cache r.key)).attributes r.name r.value)
        (or_bare (get st.memory_cache r.key)) in
    update_each-InMemory rest (update_device_attribute r.saved r.now r.key r.name r.value st).0 key
      (elim (Bool-cases (str_eq r.key key)) [
        | inl same ↦ (entry', rw (get-put st.memory_cache r.key key entry', same) refl)
        | inr other ↦ (entry, rw (get-put st.memory_cache r.key key entry', other) there)
      ])

-- The attribute of an entry, if there is one
unfoldable pub reading : Option Entry → String → Option String
reading none name = none
reading (some entry) name = get entry.attributes name

get_device-reading :
    (reads : Bool) (registered : Option Registered) (key name : String) (st : DeviceCache)
    → InMemory key st
    → reading (get_device reads registered key st).1 name ≡ attribute st key name
unfolding get_device read_through_table reading attribute or_bare
get_device-reading reads registered key name st (entry, there) = rw there refl

-- For a device in memory, after events of this and other devices, in whatever order, and whether or not
-- the table took them: `get_device` answers, for each attribute, the value of the last event of the
-- device for it, and for an attribute without an event the value that it had before.
pub update_each-get_device :
    (rs : List Report) (st : DeviceCache) (key name : String) (entry : Entry) (reads : Bool)
    (registered : Option Registered)
    → get st.memory_cache key ≡ some entry
    → reading (get_device reads registered key (update_each rs st)).1 name
      ≡ latest rs key name (get entry.attributes name)
unfolding attribute or_bare
update_each-get_device rs st key name entry reads registered there =
    get_device-reading reads registered key name (update_each rs st)
      (update_each-InMemory rs st key (entry, there))
    ∙ update_each-attribute rs st key name
    ∙ rw there refl
