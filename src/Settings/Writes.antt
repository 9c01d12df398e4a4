-- ===== src/Settings/Writes.antt =====
-- services/settings_resolver.py: a write, and the reads after it.
use mobius_smart_home.Prelude.{
  ℕ, ◌+◌, ◌<◌, ◌≡◌, ◌≢◌, refl, sym, ap, ◌∙◌, String, Bool, true, false, Option, none, some, Dict,
  get, put, remove, get-put, get-put_self, get-remove, lt→ltb, eq_iff, strip, lowers_to,
  if◌then◌else◌, arith,
}
use mobius_smart_home.Settings.{
  Value, nothing, boolean, text, object, Python, Row, Entry, SettingsResolver, Tables, Call, done,
  Query, ValueType, int, float, bool, json, string, value_type_of, is_true_word, coerce, coerce_as,
  coerce_value, serialize, serialize_as, str_of, truth_of, fetch_row, store, keep_value, hit,
  or_fetch, read_through, get_system, instance_value, or_next, get_setting, app_type_tier, patched,
  set_slot, set_row, write_through, set_system,
}
use mobius_smart_home.Settings.Coherence.{store-value}

module _ {O : Type 0} (py : Python O) where
  -- The values that a row of a type is there for
  abbrev pub Storable : ValueType → Value O → Type 0
  Storable int v = (o : O) × (v ≡ object o) × (py.int (py.str o) ≡ some (object o))
  Storable float v = (o : O) × (v ≡ object o) × (py.float (py.str o) ≡ some (object o))
  Storable bool v = (b : Bool) × (v ≡ boolean b)
  Storable string v = (s : String) × (v ≡ text s)
  Storable json v = (s : String) × (py.dumps v ≡ some s) × (py.loads s ≡ some v)

  bool_text : (b : Bool) → is_true_word (if b then "true" else "false") ≡ b
  unfolding is_true_word lowers_to strip
  bool_text true = refl
  bool_text false = refl

  coerce-serialize_as :
      (vt : ValueType) (v : Value O) (s : String)
      → Storable vt v
      → serialize_as py vt v ≡ some s
      → coerce_as py vt s ≡ some v
  unfolding coerce_as serialize_as str_of truth_of
  coerce-serialize_as int v s (o, is_o, law) is_s =
      let e : some (py.str o) ≡ some s = sym (ap (serialize_as py int) is_o) ∙ is_s in
      cc (is_o, law, e)
  coerce-serialize_as float v s (o, is_o, law) is_s =
      let e : some (py.str o) ≡ some s = sym (ap (serialize_as py float) is_o) ∙ is_s in
      cc (is_o, law, e)
  coerce-serialize_as bool v s (b, is_b) is_s =
      let e : some (if b then "true" else "false") ≡ some s =
        sym (ap (serialize_as py bool) is_b) ∙ is_s in
      cc (is_b, bool_text b, e)
  coerce-serialize_as string v s (s', is_text) is_s =
      let e : some s' ≡ some s = sym (ap (serialize_as py string) is_text) ∙ is_s in cc (is_text, e)
  coerce-serialize_as json v s (s', dumped, law) is_s = cc (is_s, dumped, law)

  coerce-serialize :
      (v : Value O) (r : Row) (s : String)
      → Storable (value_type_of r.value_type) v
      → serialize py v r.value_type ≡ some s
      → coerce py (record r { value = some s }) ≡ some v
  unfolding coerce coerce_value serialize
  coerce-serialize v r s storable is_s =
      coerce-serialize_as (value_type_of r.value_type) v s storable is_s

  write_through-written :
      (rows : Dict Row) (k : String) (v : Value O) (cache : Dict (Entry O)) (r : Row) (s : String)
      → get rows k ≡ some r
      → serialize py v r.value_type ≡ some s
      → write_through py true done rows k v cache
        ≡ (patched py rows k r (some s), remove cache k, true)
  unfolding write_through fetch_row set_row set_slot
  write_through-written rows k v cache r s row is_s = rw (row, is_s) refl

  read_through-missed :
      (ttl : ℕ) (call : Call) (rows : Dict Row) (k : String) (cache : Dict (Entry O)) (r : Row)
      → call.answers ≡ true
      → get cache k ≡ none
      → get rows k ≡ some r
      → (read_through py ttl call rows k cache).1 ≡ coerce py r
  unfolding read_through or_fetch hit store fetch_row
  read_through-missed ttl call rows k cache r answers missed row =
      let fetched : fetch_row py call.answers rows k ≡ some r = ground (arith, answers, row) in
      rw missed
        (ap (λ o. (store py call cache k o).1) fetched ∙ store-value py call cache k (some r))

  or_fetch-agrees :
      (o : Option (Value O)) (cache cache' : Dict (Entry O))
      (f f' : Dict (Entry O) × Option (Value O))
      → f.1 ≡ f'.1
      → (or_fetch py o cache f).1 ≡ (or_fetch py o cache' f').1
  unfolding or_fetch
  or_fetch-agrees none cache cache' f f' same = same
  or_fetch-agrees (some v) cache cache' f f' same = refl

  -- A read sees nothing of the cache and the table but its own key.
  read_through-agrees :
      (ttl : ℕ) (call : Call) (rows rows' : Dict Row) (k : String) (cache cache' : Dict (Entry O))
      → get cache k ≡ get cache' k
      → get rows k ≡ get rows' k
      → (read_through py ttl call rows k cache).1 ≡ (read_through py ttl call rows' k cache').1
  unfolding read_through fetch_row
  read_through-agrees ttl call rows rows' k cache cache' same_entry same_row =
      rw (same_entry, same_row)
        (or_fetch-agrees _ cache cache' _ _
          (store-value py call cache k _ ∙ sym (store-value py call cache' k _)))

  or_next-raises :
      (v : Option (Value O)) (c : SettingsResolver O) (next : SettingsResolver O × Option (Value O))
      → v ≡ none
      → (or_next py v c next).1 ≡ none
  unfolding or_next
  or_next-raises v c next raises = rw raises refl

  store-stored :
      (call : Call) (rows : Dict Row) (cache : Dict (Entry O)) (k : String) (r : Row)
      (old : Value O)
      → get rows k ≡ some r
      → coerce py r ≡ some old
      → (store py call cache k (fetch_row py true rows k)).0
        ≡ put cache k (record { value = old; value_type = r.value_type; fetched_at = call.stored })
  unfolding store fetch_row keep_value
  store-stored call rows cache k r old row is_old = rw (row, is_old) refl

  read_through-hit :
      (ttl : ℕ) (call : Call) (rows : Dict Row) (k : String) (cache : Dict (Entry O)) (e : Entry O)
      → get cache k ≡ some e
      → call.now < e.fetched_at + ttl
      → (read_through py ttl call rows k cache).1 ≡ some e.value
  unfolding read_through hit or_fetch
  read_through-hit ttl call rows k cache e found early =
      rw (found, lt→ltb call.now (e.fetched_at + ttl) early) refl

  set_system-written :
      (k : String) (v : Value O) (t : Tables) (c : SettingsResolver O) (r : Row) (s : String)
      → get t.system_settings k ≡ some r
      → serialize py v r.value_type ≡ some s
      → set_system py true done k v (t, c) ≡ (
        (
          record t { system_settings = put t.system_settings k (record r { value = some s }) },
          record c { sys_cache = remove c.sys_cache k },
        ),
        true,
      )
  unfolding set_system patched
  set_system-written k v t c r s row is_s =
      rw (write_through-written t.system_settings k v c.sys_cache r s row is_s) refl

  removed : (cache : Dict (Entry O)) (k : String) → get (remove cache k) k ≡ none
  removed cache k = ground (arith, get-remove cache k k, eq_iff k k)

  get_system-written :
      (ttl : ℕ) (call : Call) (k : String) (v : Value O) (t : Tables) (c : SettingsResolver O)
      (r : Row) (s : String)
      → get t.system_settings k ≡ some r
      → serialize py v r.value_type ≡ some s
      → call.answers ≡ true
      → let ((t', c'), ok) = set_system py true done k v (t, c) in
        (get_system py ttl call t' k c').1 ≡ coerce py (record r { value = some s })
  unfolding get_system
  get_system-written ttl call k v t c r s row is_s answers =
      rw (set_system-written k v t c r s row is_s) (
        read_through-missed ttl call _ k _ (record r { value = some s }) answers
          (removed c.sys_cache k) (get-put_self t.system_settings k (record r { value = some s })))

  -- A write that is done, of a value that the row's type is there for, reports success, and a read of the
  -- key that the database answers gives that value, whatever stood in the cache and the row; reads of
  -- other system settings give what they would have given without it.
  pub set_system-get_system :
      (ttl : ℕ) (call : Call) (k : String) (v : Value O) (t : Tables) (c : SettingsResolver O)
      (r : Row) (s : String)
      → get t.system_settings k ≡ some r
      → serialize py v r.value_type ≡ some s
      → Storable (value_type_of r.value_type) v
      → call.answers ≡ true
      → let ((t', c'), ok) = set_system py true done k v (t, c) in
        (ok ≡ true)
        × ((get_system py ttl call t' k c').1 ≡ some v)
        × ((j : String)
            → j ≢ k
            → (get_system py ttl call t' j c').1 ≡ (get_system py ttl call t j c).1)
  unfolding get_system
  set_system-get_system ttl call k v t c r s row is_s storable answers = (
    ap (λ x. x.1) (set_system-written k v t c r s row is_s),
    get_system-written ttl call k v t c r s row is_s answers ∙ coerce-serialize v r s storable is_s,
    λ j other. rw (set_system-written k v t c r s row is_s) (get_system-agrees j other),
  )
    where
      get_system-agrees :
          (j : String)
          → j ≢ k
          → (read_through py ttl call
              (put t.system_settings k (record r { value = some s }))
              j
              (remove c.sys_cache k)).1
            ≡ (read_through py ttl call t.system_settings j c.sys_cache).1
      get_system-agrees j other =
          read_through-agrees ttl call _ _ j _ _
            (ground (arith, get-remove c.sys_cache k j, eq_iff k j, other))
            (ground (
              arith,
              get-put t.system_settings k j (record r { value = some s }),
              eq_iff k j,
              other,
            ))

  -- A write of any value, of whatever type, to a setting of type bool stores its truth value: that is
  -- what a read of it gives then, when the database answers.
  bool_setting_reads_truth :
      (ttl : ℕ) (call : Call) (k : String) (v : Value O) (t : Tables) (c : SettingsResolver O)
      (r : Row)
      → get t.system_settings k ≡ some r
      → value_type_of r.value_type ≡ bool
      → call.answers ≡ true
      → let ((t', c'), ok) = set_system py true done k v (t, c) in
        (ok ≡ true) × ((get_system py ttl call t' k c').1 ≡ some (boolean (truth_of py v)))
  unfolding serialize serialize_as coerce coerce_value coerce_as
  bool_setting_reads_truth ttl call k v t c r row is_bool answers = (
    ap (λ x. x.1) (set_system-written k v t c r _ row as_bool),
    get_system-written ttl call k v t c r _ row as_bool answers
        ∙ rw is_bool (ap (λ b. some (boolean b)) (bool_text (truth_of py v))),
  )
    where
      as_bool : serialize py v r.value_type ≡ some (if truth_of py v then "true" else "false")
      as_bool = rw is_bool refl

  -- A write of a value that the setting's type cannot read back reports success all the same, and then
  -- the next read of the key raises, whatever its default, if it asks with no app type, has no value at
  -- the instance tier, and is answered by the database.
  pub unreadable_write_raises :
      (ttl : ℕ) (call call' : Call) (q : Query O) (v : Value O) (t : Tables)
      (c : SettingsResolver O) (r : Row) (s : String)
      → get t.system_settings q.key ≡ some r
      → serialize py v r.value_type ≡ some s
      → coerce py (record r { value = some s }) ≡ none
      → instance_value py q ≡ nothing
      → q.app_type_id ≡ none
      → call'.answers ≡ true
      → let ((t', c'), ok) = set_system py true done q.key v (t, c) in
        (ok ≡ true) × ((get_setting py ttl call call' t' q c').1 ≡ none)
  unfolding get_setting app_type_tier or_next
  unreadable_write_raises ttl call call' q v t c r s row is_s raises no_instance no_type answers = (
    ap (λ x. x.1) (set_system-written q.key v t c r s row is_s),
    rw (no_instance, no_type)
        (or_next-raises _ _ _
          (get_system-written ttl call' q.key v t c r s row is_s answers ∙ raises)),
  )

  -- A read that has fetched its row before a write, and stores it after, puts the value from before the
  -- write back into the cache: although the write was done and reported so, reads give the old value
  -- until `ttl` after the store.
  pub overlapping_read_undoes_write :
      (ttl : ℕ) (call call' : Call) (k : String) (v old : Value O) (t : Tables)
      (c : SettingsResolver O) (r : Row) (s : String)
      → get t.system_settings k ≡ some r
      → coerce py r ≡ some old
      → serialize py v r.value_type ≡ some s
      → call'.now < call.stored + ttl
      → let fetched = fetch_row py true t.system_settings k in
        let ((t', c'), ok) = set_system py true done k v (t, c) in
        let (cache, first) = store py call c'.sys_cache k fetched in
        (ok ≡ true)
        × (get t'.system_settings k ≡ some (record r { value = some s }))
        × ((get_system py ttl call' t' k (record c' { sys_cache = cache })).1 ≡ some old)
  unfolding get_system
  overlapping_read_undoes_write ttl call call' k v old t c r s row is_old is_s early =
      let e : Entry O = record {
        value = old;
        value_type = r.value_type;
        fetched_at = call.stored;
      } in
      rw (set_system-written k v t c r s row is_s) (
        refl,
        get-put_self t.system_settings k _,
        rw (store-stored call t.system_settings (remove c.sys_cache k) k r old row is_old)
            (read_through-hit ttl call' _ k _ e (get-put_self (remove c.sys_cache k) k e) early),
      )
