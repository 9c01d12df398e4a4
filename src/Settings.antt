-- ===== src/Settings.antt =====
-- services/settings_resolver.py: the settings of instances, app types and the system, in a cascade, with
-- a cache that keeps what it has read for `ttl`. This file is the whole class. Its flags `_loaded_at` are
-- never read.
pub mod Coherence
pub mod Cascade
pub mod Refine
pub mod Writes
mod Scenarios
use mobius_smart_home.Prelude.{
  set_at, ℕ, ◌+◌, String, Bool, true, false, ◌&&◌, ◌||◌, Option, none, some, Dict, get, put, remove,
  any, ltb, ◌==◌, str_eq, strip, lowers_to, if◌then◌else◌, List, [],
}

-- A value of Python: `None`, a boolean, a string, or any other object, such as a number.
pub data Value (O : Type 0) : Type 0 where
  nothing : Value O
  boolean : Bool → Value O
  text : String → Value O
  object : O → Value O

-- What Python's conversions give, `none` where they raise.
pub record Python (O : Type 0) : Type 0 where
  pub int : String → Option (Value O)
  pub float : String → Option (Value O)
  pub loads : String → Option (Value O)
  pub dumps : Value O → Option String
  pub str : O → String
  pub truth : O → Bool

-- A row of `system_settings` or of `app_type_settings`
pub record Row : Type 0 where
  pub value : Option String
  pub value_type : String

pub record Entry (O : Type 0) : Type 0 where
  pub value : Value O
  pub value_type : String
  pub fetched_at : ℕ

pub record SettingsResolver (O : Type 0) : Type 0 where
  pub sys_cache : Dict (Entry O)
  pub at_cache : ℕ → Dict (Entry O)

pub record Tables : Type 0 where
  pub system_settings : Dict Row
  pub app_type_settings : ℕ → Dict Row

pub data ValueType : Type 0 where
  int float bool json string : ValueType

unfoldable pub value_type_of : String → ValueType
value_type_of t =
    if lowers_to t "int"
    then int
    else if lowers_to t "float"
    then float
    else if lowers_to t "bool"
    then bool
    else if lowers_to t "json"
    then json
    else string

is_true_word : String → Bool
is_true_word s =
    let w = strip s in lowers_to w "true" || str_eq w "1" || lowers_to w "yes" || lowers_to w "on"

-- One call of a getter: the clock at the look into the cache and at the write of it, and whether the
-- database answers.
pub record Call : Type 0 where
  pub now : ℕ
  pub stored : ℕ
  pub answers : Bool

-- What becomes of a PATCH: it is done, it is refused, or it is done but the answer is lost.
pub data Patch : Type 0 where
  done refused lost : Patch

pub record Query (O : Type 0) : Type 0 where
  pub key : String
  pub instance_settings : Option (Dict (Value O))
  pub instance_schema : Option (List String)
  pub app_type_id : Option ℕ
  pub default : Value O

module _ {O : Type 0} (py : Python O) where
  coerce_as : ValueType → String → Option (Value O)
  unfolding is_true_word
  coerce_as int v = py.int v
  coerce_as float v = py.float v
  coerce_as bool v = some (boolean (is_true_word v))
  coerce_as json v = py.loads v
  coerce_as string v = some (text v)

  coerce_value : Option String → ValueType → Option (Value O)
  coerce_value none vt = some nothing
  coerce_value (some v) vt = coerce_as vt v

  -- `_coerce` at a row
  unfoldable pub coerce : Row → Option (Value O)
  unfolding coerce_value coerce_as
  coerce row = coerce_value row.value (value_type_of row.value_type)

  unfoldable pub str_of : Value O → String
  str_of nothing = "None"
  str_of (boolean b) = if b then "True" else "False"
  str_of (text s) = s
  str_of (object o) = py.str o

  unfoldable pub truth_of : Value O → Bool
  truth_of nothing = false
  truth_of (boolean b) = b
  truth_of (text s) = if str_eq s "" then false else true
  truth_of (object o) = py.truth o

  serialize_as : ValueType → Value O → Option String
  serialize_as json v = py.dumps v
  serialize_as bool v = some (if truth_of v then "true" else "false")
  serialize_as int v = some (str_of v)
  serialize_as float v = some (str_of v)
  serialize_as string v = some (str_of v)

  -- `_serialize`
  unfoldable pub serialize : Value O → String → Option String
  unfolding serialize_as
  serialize v t = serialize_as (value_type_of t) v

  -- `_fetch_system_row`, and `_fetch_app_type_row` at the rows of the app type
  unfoldable pub fetch_row : Bool → Dict Row → String → Option Row
  fetch_row answers rows key = if answers then get rows key else none

  keep_value :
      Call → Dict (Entry O) → String → Row → Option (Value O) → Dict (Entry O) × Option (Value O)
  keep_value call cache key row none = (cache, none)
  keep_value call cache key row (some v) = (
    put cache key (record { value = v; value_type = row.value_type; fetched_at = call.stored }),
    some v,
  )

  -- After the fetch: the second section under the lock
  unfoldable pub store :
      Call → Dict (Entry O) → String → Option Row → Dict (Entry O) × Option (Value O)
  unfolding keep_value
  store call cache key none = (cache, some nothing)
  store call cache key (some row) = keep_value call cache key row (coerce row)

  unfoldable pub hit : ℕ → ℕ → Option (Entry O) → Option (Value O)
  hit ttl now none = none
  hit ttl now (some e) = if ltb now (e.fetched_at + ttl) then some e.value else none

  or_fetch :
      Option (Value O)
      → Dict (Entry O)
      → Dict (Entry O) × Option (Value O)
      → Dict (Entry O) × Option (Value O)
  or_fetch none cache fetched = fetched
  or_fetch (some v) cache fetched = (cache, some v)

  -- What `_get_system` and `_get_app_type` do on the slice of their tier; the result is `none` where the
  -- conversion raises.
  unfoldable pub read_through :
      ℕ → Call → Dict Row → String → Dict (Entry O) → Dict (Entry O) × Option (Value O)
  unfolding or_fetch
  read_through ttl call rows key cache =
      or_fetch (hit ttl call.now (get cache key)) cache
        (store call cache key (fetch_row call.answers rows key))

  -- `_get_system`
  unfoldable pub get_system :
      ℕ → Call → Tables → String → SettingsResolver O → SettingsResolver O × Option (Value O)
  get_system ttl call t key c =
      let (cache, v) = read_through ttl call t.system_settings key c.sys_cache in
      (record c { sys_cache = cache }, v)

  -- `_get_app_type`
  unfoldable pub get_app_type :
      ℕ → Call → Tables → ℕ → String → SettingsResolver O → SettingsResolver O × Option (Value O)
  get_app_type ttl call t a key c =
      let (cache, v) = read_through ttl call (t.app_type_settings a) key (c.at_cache a) in
      (record c { at_cache = set_at c.at_cache a cache }, v)

  or_nothing : Option (Value O) → Value O
  or_nothing none = nothing
  or_nothing (some v) = v

  exposed : Option (List String) → String → Bool
  exposed none key = true
  exposed (some keys) key = any (λ k. str_eq k key) keys

  -- Tier 1, `nothing` where it is skipped
  unfoldable pub instance_value : Query O → Value O
  unfolding or_nothing exposed
  instance_value q = elim q.instance_settings [
    | none ↦ nothing
    | some d ↦ if exposed q.instance_schema q.key then or_nothing (get d q.key) else nothing
  ]

  -- The tiers left, where the tiers before gave `None`
  unfoldable pub or_next :
      Option (Value O)
      → SettingsResolver O
      → SettingsResolver O × Option (Value O)
      → SettingsResolver O × Option (Value O)
  or_next none c next = (c, none)
  or_next (some nothing) c next = next
  or_next (some (boolean b)) c next = (c, some (boolean b))
  or_next (some (text s)) c next = (c, some (text s))
  or_next (some (object o)) c next = (c, some (object o))

  pub app_type_tier :
      Option ℕ
      → ℕ
      → Call
      → Tables
      → String
      → SettingsResolver O
      → SettingsResolver O × Option (Value O)
  app_type_tier none ttl call t key c = (c, some nothing)
  app_type_tier (some a) ttl call t key c = get_app_type ttl call t a key c

  -- `get`; the first call is the one of tier 2, the second the one of tier 3.
  unfoldable pub get_setting :
      ℕ
      → Call
      → Call
      → Tables
      → Query O
      → SettingsResolver O
      → SettingsResolver O × Option (Value O)
  unfolding app_type_tier
  get_setting ttl call call' t q c =
      let (c₁, v₁) = app_type_tier q.app_type_id ttl call t q.key c in
      let (c₂, v₂) = get_system ttl call' t q.key c₁ in
      or_next (some (instance_value q)) c (or_next v₁ c₁ (or_next v₂ c₂ (c₂, some q.default)))

  -- The rows after a PATCH
  unfoldable pub patched : Dict Row → String → Row → Option String → Dict Row
  patched rows key row v = put rows key (record row { value = v })

  set_slot :
      Patch
      → Dict Row
      → String
      → Row
      → Option String
      → Dict (Entry O)
      → Dict Row × Dict (Entry O) × Bool
  set_slot p rows key row none cache = (rows, cache, false)
  set_slot done rows key row (some s) cache =
      (patched rows key row (some s), remove cache key, true)
  set_slot refused rows key row (some s) cache = (rows, cache, false)
  set_slot lost rows key row (some s) cache = (patched rows key row (some s), cache, false)

  set_row :
      Patch
      → Dict Row
      → String
      → Value O
      → Option Row
      → Dict (Entry O)
      → Dict Row × Dict (Entry O) × Bool
  set_row p rows key v none cache = (rows, cache, false)
  set_row p rows key v (some row) cache = set_slot p rows key row (serialize v row.value_type) cache

  -- What `set_system` and `set_app_type` do on the slice of their tier; `answers` is the fetch before.
  unfoldable pub write_through :
      Bool → Patch → Dict Row → String → Value O → Dict (Entry O) → Dict Row × Dict (Entry O) × Bool
  unfolding set_row set_slot
  write_through answers p rows key v cache = set_row p rows key v (fetch_row answers rows key) cache

  unfoldable pub set_system :
      Bool
      → Patch
      → String
      → Value O
      → Tables × SettingsResolver O
      → (Tables × SettingsResolver O) × Bool
  set_system answers p key v (t, c) =
      let (rows, cache, ok) = write_through answers p t.system_settings key v c.sys_cache in
      ((record t { system_settings = rows }, record c { sys_cache = cache }), ok)

  unfoldable pub set_app_type :
      Bool
      → Patch
      → ℕ
      → String
      → Value O
      → Tables × SettingsResolver O
      → (Tables × SettingsResolver O) × Bool
  set_app_type answers p a key v (t, c) =
      let (rows, cache, ok) =
        write_through answers p (t.app_type_settings a) key v (c.at_cache a) in
      (
        (
          record t { app_type_settings = set_at t.app_type_settings a rows },
          record c { at_cache = set_at c.at_cache a cache },
        ),
        ok,
      )

  unfoldable pub invalidate_all : SettingsResolver O → SettingsResolver O
  invalidate_all c = record { sys_cache = []; at_cache = λ _. [] }
