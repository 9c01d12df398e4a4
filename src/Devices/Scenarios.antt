-- ===== src/Devices/Scenarios.antt =====
-- services/device_cache.py: a lamp.
use mobius_smart_home.Prelude.{◌≡◌, refl, true, false, Option, none, some, List, [], ◌∷◌, get}
use mobius_smart_home.Devices.{
  Entry, DeviceCache, Registered, DeviceData, as_list, get_device, update_device_attribute,
}
use mobius_smart_home.Devices.View.{Report, update_each, latest, reading, update_each-get_device}
use mobius_smart_home.Devices.Blind.{
  read, cache_run, capabilities_of, attributes_of, first_event_blinds,
}
use mobius_smart_home.Devices.Coherent.{
  CacheCall, all, one, attribute, devices, forget, calls, Coherent, calls-Coherent,
}

abbrev lamp : Entry
lamp = record {
  device_name = none;
  device_label = some "Lamp";
  device_type = none;
  capabilities = "switchLevel" ∷ [];
  attributes = ("switch", "on") ∷ ("level", "40") ∷ [];
  last_synced_at = 5;
  sync_source = "api";
}

abbrev restarted : DeviceCache
restarted = record {
  ttl_seconds = 300;
  memory_cache = [];
  last_full_sync = none;
  table = ("9", lamp) ∷ [];
}

abbrev warm : DeviceCache
warm = record restarted { memory_cache = ("9", lamp) ∷ [] }

abbrev registered : Option Registered
registered = some (record { capabilities = "switchLevel" ∷ []; device_type = some "Dimmer" })

abbrev data_of : DeviceData
data_of = record {
  id = "4";
  name = none;
  label = some "Lamp";
  type_name = none;
  capabilities = "switchLevel" ∷ [];
  attributes = as_list (("level", "30") ∷ []);
}

abbrev reports : List Report
reports =
    record { saved = true; now = 10; key = "9"; name = "level"; value = "50" }
    ∷ record { saved = false; now = 11; key = "8"; name = "level"; value = "70" }
    ∷ record { saved = false; now = 12; key = "9"; name = "level"; value = "60" }
    ∷ []

update_each-get_device_example :
    reading (get_device false none "9" (update_each reports warm)).1 "level" ≡ some "60"
unfolding latest get
update_each-get_device_example =
    update_each-get_device reports warm "9" "level" lamp false none refl

first_event_blinds_example :
    let st' = (update_device_attribute true 10 "9" "level" "50" restarted).0 in
    (capabilities_of
        (get_device true registered "9" (cache_run (read true registered "9" ∷ []) st')).1
      ≡ some [])
    × (attributes_of (get st'.table "9") ≡ some (("level", "50") ∷ []))
unfolding get
first_event_blinds_example =
    first_event_blinds true 10 "9" "level" "50" restarted (read true registered "9" ∷ []) true
      registered refl

abbrev used : List CacheCall
used =
    one true registered "9"
    ∷ attribute true 10 "9" "level" "50"
    ∷ devices true 20 "10.0.0.4" (λ id. some ("9", "10.0.0.4")) (data_of ∷ [])
    ∷ forget (some "9")
    ∷ all true 30
    ∷ []

restarted-Coherent : Coherent restarted
unfolding get
restarted-Coherent key = tt

calls-Coherent_example : Coherent (calls used restarted)
calls-Coherent_example =
    calls-Coherent used restarted (tt, (refl, (refl, (tt, (tt, tt))))) restarted-Coherent
