-- ===== src/Settings/Scenarios.antt =====
-- services/settings_resolver.py: the theorems at concrete tables, and tests.
use mobius_smart_home.Prelude.{
  ℕ, ◌+◌, ◌≡◌, ◌≢◌, ◌≤◌, refl, String, true, false, none, some, List, [], ◌∷◌, All, get, str_eq,
  ◌==◌, not, lowers_to, if◌then◌else◌, arith,
}
use mobius_smart_home.Settings.{
  nothing, text, object, Python, Row, Entry, SettingsResolver, Tables, Call, done, Query, int, bool,
  value_type_of, coerce, serialize, fetch_row, store, hit, read_through, get_system, instance_value,
  get_setting, set_system, invalidate_all, str_of, truth_of,
}
use mobius_smart_home.Settings.Cascade.{
  Op, read, read_system, write_system, Told, cascade, perform_all,
}
use mobius_smart_home.Settings.Refine.{get_setting-refines, stale_for_ttl_at_most}
use mobius_smart_home.Settings.Writes.{
  set_system-get_system, unreadable_write_raises, overlapping_read_undoes_write,
}

-- The numbers 60 and 90 are all that these conversions know.
abbrev two_numbers : Python ℕ
two_numbers = record {
  int = λ s.
      if str_eq s "60" then some (object 60) else if str_eq s "90" then some (object 90) else none;
  float = λ _. none;
  loads = λ _. none;
  dumps = λ _. none;
  str = λ n. if n == 60 then "60" else "90";
  truth = λ n. not (n == 0);
}

abbrev floor_row : Row
floor_row = record { value = some "60"; value_type = "int" }

abbrev maker_row : Row
maker_row = record { value = some "true"; value_type = "bool" }

abbrev tables : Tables
tables = record {
  system_settings = ("floor", floor_row) ∷ ("maker", maker_row) ∷ [];
  app_type_settings = λ _. [];
}

abbrev empty : SettingsResolver ℕ
empty = record { sys_cache = []; at_cache = λ _. [] }

-- As after a write past the resolver: the cache still has the value from before.
abbrev outdated : SettingsResolver ℕ
outdated = record {
  sys_cache = ("floor", record { value = object 90; value_type = "int"; fetched_at = 1000 }) ∷ [];
  at_cache = λ _. [];
}

abbrev at_time : ℕ → Call
at_time t = record { now = t; stored = t + 20; answers = true }

abbrev floor_query : Query ℕ
floor_query = record {
  key = "floor";
  instance_settings = some (("other", text "x") ∷ []);
  instance_schema = none;
  app_type_id = none;
  default = object 60;
}

abbrev ops : List (Op ℕ)
ops =
    read_system (at_time 1000) "floor"
    ∷ write_system true done "floor" (object 90)
    ∷ read (at_time 1500) (at_time 1600) floor_query
    ∷ read_system (record { now = 1700; stored = 1700; answers = false }) "maker"
    ∷ []

ops-Told : All Told ops
ops-Told = (tt, ((λ e. cc), (tt, (tt, tt))))

get_setting-refines_example :
    let (t, c) = perform_all two_numbers 5000 ops (tables, invalidate_all two_numbers outdated) in
    (get_setting two_numbers 5000 (at_time 1800) (at_time 1900) t floor_query c).1
    ≡ cascade two_numbers t floor_query
get_setting-refines_example =
    get_setting-refines two_numbers 5000 ops tables outdated (at_time 1800) (at_time 1900)
      floor_query ops-Told refl refl

outdated_stamps :
    (k : String) (e : Entry ℕ) → get outdated.sys_cache k ≡ some e → e.fetched_at ≤ 2000
unfolding get
outdated_stamps k e found = ground (arith, found)

no_stamps :
    (a : ℕ) (k : String) (e : Entry ℕ) → get (outdated.at_cache a) k ≡ some e → e.fetched_at ≤ 2000
unfolding get
no_stamps a k e found = ground (arith, found)

stale_for_ttl_at_most_example :
    let (t, c) = perform_all two_numbers 5000 ops (tables, outdated) in
    (get_setting two_numbers 5000 (at_time 7000) (at_time 7000) t floor_query c).1
    ≡ cascade two_numbers t floor_query
stale_for_ttl_at_most_example =
    stale_for_ttl_at_most two_numbers 5000 2000 ops tables outdated (at_time 7000) (at_time 7000)
      floor_query outdated_stamps no_stamps ops-Told (omega arith) (omega arith) refl refl

floor_is : get tables.system_settings "floor" ≡ some floor_row
unfolding get
floor_is = refl

maker_is : get tables.system_settings "maker" ≡ some maker_row
unfolding get
maker_is = refl

int_type : value_type_of "int" ≡ int
unfolding value_type_of lowers_to
int_type = refl

bool_type : value_type_of "bool" ≡ bool
unfolding value_type_of lowers_to
bool_type = refl

ninety : serialize two_numbers (object 90) "int" ≡ some "90"
unfolding serialize value_type_of lowers_to str_of
ninety = refl

set_system-get_system_example :
    let ((t', c'), ok) = set_system two_numbers true done "floor" (object 90) (tables, outdated) in
    (ok ≡ true)
    × ((get_system two_numbers 5000 (at_time 1100) t' "floor" c').1 ≡ some (object 90))
    × ((j : String)
        → j ≢ "floor"
        → (get_system two_numbers 5000 (at_time 1100) t' j c').1
          ≡ (get_system two_numbers 5000 (at_time 1100) tables j outdated).1)
set_system-get_system_example =
    set_system-get_system two_numbers 5000 (at_time 1100) "floor" (object 90) tables outdated
      floor_row "90" floor_is ninety (rw int_type (90, refl, refl)) refl

false_is_true : truth_of two_numbers (text "false") ≡ true
unfolding truth_of
false_is_true = refl

soon : serialize two_numbers (text "soon") "int" ≡ some "soon"
unfolding serialize value_type_of lowers_to str_of
soon = refl

soon_raises : coerce two_numbers (record { value = some "soon"; value_type = "int" }) ≡ none
unfolding coerce value_type_of lowers_to
soon_raises = refl

not_on_instance : instance_value two_numbers floor_query ≡ nothing
unfolding instance_value get
not_on_instance = refl

unreadable_write_raises_example :
    let ((t', c'), ok) = set_system two_numbers true done "floor" (text "soon") (tables, empty) in
    (ok ≡ true)
    × ((get_setting two_numbers 5000 (at_time 100) (at_time 200) t' floor_query c').1 ≡ none)
unreadable_write_raises_example =
    unreadable_write_raises two_numbers 5000 (at_time 100) (at_time 200) floor_query (text "soon")
      tables empty floor_row "soon" floor_is soon soon_raises not_on_instance refl refl

sixty : coerce two_numbers floor_row ≡ some (object 60)
unfolding coerce value_type_of lowers_to
sixty = refl

overlapping_read_undoes_write_example :
    let fetched = fetch_row two_numbers true tables.system_settings "floor" in
    let ((t', c'), ok) = set_system two_numbers true done "floor" (object 90) (tables, empty) in
    let (cache, first) = store two_numbers (at_time 100) c'.sys_cache "floor" fetched in
    (ok ≡ true)
    × (get t'.system_settings "floor" ≡ some (record floor_row { value = some "90" }))
    × ((get_system two_numbers 5000 (at_time 3000) t' "floor" (record c' { sys_cache = cache })).1
        ≡ some (object 60))
overlapping_read_undoes_write_example =
    overlapping_read_undoes_write two_numbers 5000 (at_time 100) (at_time 3000) "floor" (object 90)
      (object 60) tables empty floor_row "90" floor_is sixty ninety (omega arith)

-- The cache answers within its time, and not after it.
cached_floor :
    (get_system two_numbers 5000 (at_time 2000) tables "floor" outdated).1 ≡ some (object 90)
unfolding get_system read_through hit get
cached_floor = refl

fetched_floor :
    (get_system two_numbers 5000 (at_time 6000) tables "floor" outdated).1 ≡ some (object 60)
unfolding get_system read_through hit get fetch_row store coerce value_type_of lowers_to
fetched_floor = refl
