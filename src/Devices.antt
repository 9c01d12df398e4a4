-- ===== src/Devices.antt =====
-- services/device_cache.py: the states of the devices, in memory and in the table `device_cache`. The keys
-- are the texts of the canonical ids, and the values of attributes are texts. A write that raises is not
-- done.
pub mod View
pub mod Coherent
pub mod Blind
mod Scenarios
use mobius_smart_home.Prelude.{
  ℕ, ◌+◌, String, Bool, true, false, Option, none, some, List, [], ◌∷◌, ◌++◌, only, Dict, get, put,
  remove, is_in, ltb, str_eq, if◌then◌else◌,
}

-- An entry of the cache, and a row of the table
pub record Entry : Type 0 where
  pub device_name : Option String
  pub device_label : Option String
  pub device_type : Option String
  pub capabilities : List String
  pub attributes : Dict String
  pub last_synced_at : ℕ
  pub sync_source : String

pub record DeviceCache : Type 0 where
  pub ttl_seconds : ℕ
  pub memory_cache : Dict Entry
  pub last_full_sync : Option ℕ
  pub table : Dict Entry

-- What `devices` has of a device: the capabilities and the type
pub record Registered : Type 0 where
  pub capabilities : List String
  pub device_type : Option String

-- The attributes of a device, as Hubitat gives them: a list with repetitions, or a dict
pub data AttributeFormat : Type 0 where
  as_list : List (String × String) → AttributeFormat
  as_dict : Dict String → AttributeFormat

pub record DeviceData : Type 0 where
  pub id : String
  pub name : Option String
  pub label : Option String
  pub type_name : Option String
  pub capabilities : List String
  pub attributes : AttributeFormat

put_listed : Dict String → List (String × String) → Dict String
put_listed d [] = d
put_listed d ((name, value) ∷ rest) =
    put_listed (if str_eq name "" then d else put d name value) rest

-- `_extract_attributes`
unfoldable pub extract_attributes : AttributeFormat → Dict String
unfolding put_listed
extract_attributes (as_list xs) = put_listed [] xs
extract_attributes (as_dict d) = d

fresh_enough : ℕ → ℕ → Option ℕ → Bool
fresh_enough now ttl none = false
fresh_enough now ttl (some synced) = ltb now (synced + ttl)

-- `_is_cache_valid`
unfoldable pub is_cache_valid : ℕ → DeviceCache → Bool
unfolding fresh_enough
is_cache_valid now st = fresh_enough now st.ttl_seconds st.last_full_sync

values : Dict Entry → List Entry
values [] = []
values ((key, entry) ∷ rest) = entry ∷ values rest

load_all : ℕ → Dict Entry → DeviceCache → DeviceCache × List Entry
unfolding values
load_all now [] st = (st, [])
load_all now (row ∷ rows) st =
    (record st { memory_cache = row ∷ rows; last_full_sync = some now }, values (row ∷ rows))

-- `get_all`, with `_load_from_database`
unfoldable pub get_all : Bool → ℕ → DeviceCache → DeviceCache × List Entry
unfolding load_all
get_all reads now st =
    if is_cache_valid now st
    then (st, values st.memory_cache)
    else load_all now (if reads then st.table else []) st

-- `get_devices_by_capability`
unfoldable pub get_devices_by_capability : Bool → ℕ → String → DeviceCache → List Entry
unfolding values
get_devices_by_capability reads now capability st =
    let having = only (λ e. is_in capability e.capabilities) in
    if is_cache_valid now st
    then having (values st.memory_cache)
    else if reads
    then having (values st.table)
    else []

or_registered : List String → List String → List String
or_registered [] old = old
or_registered (c ∷ rest) old = c ∷ rest

or_type : Option String → Option String → Option String
or_type none registered = registered
or_type (some t) registered = if str_eq t "" then registered else some t

-- `_backfill_capabilities`
unfoldable pub backfill_capabilities : Option Registered → Entry → Entry
unfolding or_registered or_type
backfill_capabilities none entry = entry
backfill_capabilities (some r) entry = record entry {
  capabilities = or_registered r.capabilities entry.capabilities;
  device_type = or_type entry.device_type r.device_type;
}

with_capabilities : Option Registered → List String → Entry → Entry
with_capabilities r [] entry = backfill_capabilities r entry
with_capabilities r (c ∷ rest) entry = entry

keep_in_memory :
    String → Option Registered → Option Entry → DeviceCache → DeviceCache × Option Entry
unfolding with_capabilities
keep_in_memory key r none st = (st, none)
keep_in_memory key r (some row) st =
    let entry = with_capabilities r row.capabilities row in
    (record st { memory_cache = put st.memory_cache key entry }, some entry)

read_through_table :
    Option Entry → Bool → Option Registered → String → DeviceCache → DeviceCache × Option Entry
unfolding keep_in_memory
read_through_table (some entry) reads r key st = (st, some entry)
read_through_table none reads r key st =
    keep_in_memory key r (if reads then get st.table key else none) st

-- `get_device`
unfoldable pub get_device :
    Bool → Option Registered → String → DeviceCache → DeviceCache × Option Entry
unfolding read_through_table
get_device reads r key st = read_through_table (get st.memory_cache key) reads r key st

bare : Entry
bare = record {
  device_name = none;
  device_label = none;
  device_type = none;
  capabilities = [];
  attributes = [];
  last_synced_at = 0;
  sync_source = "";
}

or_bare : Option Entry → Entry
unfolding bare
or_bare none = bare
or_bare (some entry) = entry

-- An entry or a row after an event
touched : ℕ → Dict String → Entry → Entry
touched now attrs entry = record entry {
  attributes = attrs;
  last_synced_at = now;
  sync_source = "webhook";
}

-- `update_device_attribute`; the upsert replaces the columns it has, and a new row has the defaults.
unfoldable pub update_device_attribute :
    Bool → ℕ → String → String → String → DeviceCache → DeviceCache × Bool
unfolding or_bare touched
update_device_attribute saved now key name value st =
    let old = or_bare (get st.memory_cache key) in
    let attrs = put old.attributes name value in
    (
      record st {
        memory_cache = put st.memory_cache key (touched now attrs old);
        table =
            if saved
            then put st.table key (touched now attrs (or_bare (get st.table key)))
            else st.table;
      },
      saved,
    )

entry_of : ℕ → DeviceData → Entry
entry_of now d = record {
  device_name = d.name;
  device_label = d.label;
  device_type = d.type_name;
  capabilities = d.capabilities;
  attributes = extract_attributes d.attributes;
  last_synced_at = now;
  sync_source = "api";
}

-- `update_device`
unfoldable pub update_device : Bool → ℕ → String → DeviceData → DeviceCache → DeviceCache × Bool
unfolding entry_of
update_device saved now key d st =
    let entry = entry_of now d in
    (
      record st {
        memory_cache = put st.memory_cache key entry;
        table = if saved then put st.table key entry else st.table;
      },
      saved,
    )

-- The row that `get_hub_for_device` finds for a hub's number: its key and its hub
abbrev pub Resolve : Type 0
Resolve = String → Option (String × String)

entry_at : ℕ → String → DeviceData → Option (String × String) → List (String × Entry)
unfolding entry_of
entry_at now hub_ip d none = []
entry_at now hub_ip d (some (key, hub)) =
    if str_eq hub hub_ip then (key, entry_of now d) ∷ [] else []

cache_entries : ℕ → String → Resolve → List DeviceData → List (String × Entry)
unfolding entry_at
cache_entries now hub_ip resolve [] = []
cache_entries now hub_ip resolve (d ∷ rest) =
    (if str_eq d.id "" then [] else entry_at now hub_ip d (resolve d.id))
    ++ cache_entries now hub_ip resolve rest

put_entries : Dict Entry → List (String × Entry) → Dict Entry
put_entries d [] = d
put_entries d ((key, entry) ∷ rest) = put_entries (put d key entry) rest

save_entries : Bool → ℕ → List (String × Entry) → DeviceCache → DeviceCache × Bool
unfolding put_entries
save_entries saved now [] st = (st, true)
save_entries saved now (e ∷ rest) st =
    let st' = record st { memory_cache = put_entries st.memory_cache (e ∷ rest) } in
    if saved
    then (record st' { table = put_entries st.table (e ∷ rest); last_full_sync = some now }, true)
    else (st', false)

-- `update_all`; without a hub, `hub_ip` is empty.
unfoldable pub update_all :
    Bool → ℕ → String → Resolve → List DeviceData → DeviceCache → DeviceCache × Bool
unfolding save_entries cache_entries
update_all saved now hub_ip resolve [] st = (st, true)
update_all saved now hub_ip resolve (d ∷ rest) st =
    if str_eq hub_ip ""
    then (st, false)
    else save_entries saved now (cache_entries now hub_ip resolve (d ∷ rest)) st

-- `invalidate`
unfoldable pub invalidate : Option String → DeviceCache → DeviceCache
invalidate none st = record st { memory_cache = []; last_full_sync = none }
invalidate (some key) st = record st { memory_cache = remove st.memory_cache key }

-- `clear`
unfoldable pub clear : Bool → DeviceCache → DeviceCache × Bool
clear deleted st = (
  record st { memory_cache = []; last_full_sync = none; table = if deleted then [] else st.table },
  deleted,
)
