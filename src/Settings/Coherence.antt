-- ===== src/Settings/Coherence.antt =====
-- services/settings_resolver.py: the cache against the tables.
use mobius_smart_home.Prelude.{
  ℕ, ◌+◌, ◌≤◌, ◌≡◌, ◌≢◌, ◌⊎◌, inl, inr, refl, sym, ap, ◌∙◌, String, Bool, true, Option, none, some,
  Dict, get, put, get-put, get-remove, eq_iff, arith, Option-cases,
}
use mobius_smart_home.Settings.{
  Value, nothing, Python, Row, Entry, Call, Patch, done, refused, lost, coerce, fetch_row, store,
  hit, read_through, patched, write_through, keep_value, or_fetch, hit, set_slot, set_row,
}

module _ {O : Type 0} (py : Python O) where
  -- The row that an entry of the cache stands for
  abbrev pub Agrees : Dict Row → String → Entry O → Type 0
  Agrees rows k e = (r : Row) × (get rows k ≡ some r) × (coerce py r ≡ some e.value)

  -- Every entry agrees with its row or has a stamp that P allows.
  pub record Kept (P : ℕ → Type 0) (rows : Dict Row) (cache : Dict (Entry O)) : Type 0 where
    pub entry : (k : String) (e : Entry O) → get cache k ≡ some e → Agrees rows k e ⊎ P e.fetched_at

  -- What a read should give: the value of the row, and `None` where there is none.
  abbrev pub value_of_row : Option Row → Option (Value O)
  value_of_row none = some nothing
  value_of_row (some r) = coerce py r

  abbrev pub tier_value : Dict Row → String → Option (Value O)
  tier_value rows k = value_of_row (get rows k)

  keep_value-value :
      (call : Call) (cache : Dict (Entry O)) (k : String) (r : Row) (v : Option (Value O))
      → (keep_value py call cache k r v).1 ≡ v
  unfolding keep_value
  keep_value-value call cache k r none = refl
  keep_value-value call cache k r (some v) = refl

  pub store-value :
      (call : Call) (cache : Dict (Entry O)) (k : String) (o : Option Row)
      → (store py call cache k o).1 ≡ value_of_row o
  unfolding store
  store-value call cache k none = refl
  store-value call cache k (some r) = keep_value-value call cache k r (coerce py r)

  module _ (P : ℕ → Type 0) where
    pub put-Kept :
        (rows : Dict Row) (cache : Dict (Entry O)) (k : String) (e : Entry O)
        → Agrees rows k e
        → Kept P rows cache
        → Kept P rows (put cache k e)
    put-Kept rows cache k e agrees kept = record {
      entry = λ j e' found.
          ground (arith, get-put cache k j e, eq_iff k j, kept.entry j e', agrees, found);
    }

    keep_value-Kept :
        (call : Call) (rows : Dict Row) (cache : Dict (Entry O)) (k : String) (r : Row)
        (v : Option (Value O))
        → get rows k ≡ some r
        → coerce py r ≡ v
        → Kept P rows cache
        → Kept P rows (keep_value py call cache k r v).0
    unfolding keep_value
    keep_value-Kept call rows cache k r none row is_v kept = kept
    keep_value-Kept call rows cache k r (some v) row is_v kept =
        put-Kept rows cache k _ (r, row, is_v) kept

    store-Kept :
        (call : Call) (rows : Dict Row) (cache : Dict (Entry O)) (k : String) (o : Option Row)
        → ((r : Row) → o ≡ some r → get rows k ≡ some r)
        → Kept P rows cache
        → Kept P rows (store py call cache k o).0
    unfolding store
    store-Kept call rows cache k none at kept = kept
    store-Kept call rows cache k (some r) at kept =
        keep_value-Kept call rows cache k r (coerce py r) (at r refl) refl kept

    or_fetch-Kept :
        (v : Option (Value O)) (rows : Dict Row) (cache : Dict (Entry O))
        (fetched : Dict (Entry O) × Option (Value O))
        → Kept P rows cache
        → Kept P rows fetched.0
        → Kept P rows (or_fetch py v cache fetched).0
    unfolding or_fetch
    or_fetch-Kept none rows cache fetched kept fetched-Kept = fetched-Kept
    or_fetch-Kept (some v) rows cache fetched kept fetched-Kept = kept

    fetch_row_row :
        (answers : Bool) (rows : Dict Row) (k : String) (r : Row)
        → fetch_row py answers rows k ≡ some r
        → get rows k ≡ some r
    unfolding fetch_row
    fetch_row_row answers rows k r h = ground (arith, h)

    pub read_through-Kept :
        (ttl : ℕ) (call : Call) (rows : Dict Row) (k : String) (cache : Dict (Entry O))
        → Kept P rows cache
        → Kept P rows (read_through py ttl call rows k cache).0
    unfolding read_through
    read_through-Kept ttl call rows k cache kept =
        or_fetch-Kept _ rows cache _ kept
          (store-Kept call rows cache k _ (fetch_row_row call.answers rows k) kept)

    set_slot-Kept :
        (p : Patch) (rows : Dict Row) (k : String) (r : Row) (v : Option String)
        (cache : Dict (Entry O))
        → p ≢ lost
        → Kept P rows cache
        → let (rows', cache', ok) = set_slot py p rows k r v cache in Kept P rows' cache'
    unfolding set_slot patched
    set_slot-Kept p rows k r none cache told kept = kept
    set_slot-Kept done rows k r (some s) cache told kept = record {
      entry = λ j e found. ground (
        arith,
        get-put rows k j (record r { value = some s }),
        get-remove cache k j,
        eq_iff k j,
        kept.entry j e,
        found,
      );
    }
    set_slot-Kept refused rows k r (some s) cache told kept = kept
    set_slot-Kept lost rows k r (some s) cache told kept = absurd (told refl)

    set_row-Kept :
        (p : Patch) (rows : Dict Row) (k : String) (v : Value O) (r : Option Row)
        (cache : Dict (Entry O))
        → p ≢ lost
        → Kept P rows cache
        → let (rows', cache', ok) = set_row py p rows k v r cache in Kept P rows' cache'
    unfolding set_row
    set_row-Kept p rows k v none cache told kept = kept
    set_row-Kept p rows k v (some r) cache told kept = set_slot-Kept p rows k r _ cache told kept

    pub write_through-Kept :
        (answers : Bool) (p : Patch) (rows : Dict Row) (k : String) (v : Value O)
        (cache : Dict (Entry O))
        → p ≢ lost
        → Kept P rows cache
        → let (rows', cache', ok) = write_through py answers p rows k v cache in Kept P rows' cache'
    unfolding write_through
    write_through-Kept answers p rows k v cache told kept =
        set_row-Kept p rows k v _ cache told kept

    tier_value-row :
        (rows : Dict Row) (k : String) (r : Row)
        → get rows k ≡ some r
        → tier_value rows k ≡ coerce py r
    tier_value-row rows k r row = ap value_of_row row

    hit_right :
        (ttl now : ℕ) (rows : Dict Row) (k : String) (e : Entry O) (v : Value O)
        → ((f : ℕ) → P f → f + ttl ≤ now)
        → Agrees rows k e ⊎ P e.fetched_at
        → hit py ttl now (some e) ≡ some v
        → tier_value rows k ≡ some v
    unfolding hit
    hit_right ttl now rows k e v old (inl (r, row, is_v)) is_hit =
        rw (tier_value-row rows k r row, is_v) (ground (arith, is_hit))
    hit_right ttl now rows k e v old (inr stamp) is_hit =
        absurd (ground (arith, is_hit, old e.fetched_at stamp))

    or_fetch-right :
        (ttl now : ℕ) (rows : Dict Row) (k : String) (cache : Dict (Entry O)) (o : Option (Entry O))
        (fetched : Dict (Entry O) × Option (Value O))
        → ((f : ℕ) → P f → f + ttl ≤ now)
        → Kept P rows cache
        → get cache k ≡ o
        → fetched.1 ≡ tier_value rows k
        → (or_fetch py (hit py ttl now o) cache fetched).1 ≡ tier_value rows k
    unfolding or_fetch hit
    or_fetch-right ttl now rows k cache none fetched old kept is_o right = right
    or_fetch-right ttl now rows k cache (some e) fetched old kept is_o right =
        elim (Option-cases (hit py ttl now (some e))) [
          | inl miss ↦ rw (miss, right)
          | inr (v, is_v) ↦
              rw (is_v, sym (hit_right ttl now rows k e v old (kept.entry k e is_o) is_v)) refl
        ]

    pub read_through-right :
        (ttl : ℕ) (call : Call) (rows : Dict Row) (k : String) (cache : Dict (Entry O))
        → ((f : ℕ) → P f → f + ttl ≤ call.now)
        → call.answers ≡ true
        → Kept P rows cache
        → (read_through py ttl call rows k cache).1 ≡ tier_value rows k
    unfolding read_through fetch_row
    read_through-right ttl call rows k cache old answers kept =
        or_fetch-right ttl call.now rows k cache _ _ old kept refl (
          store-value call cache k (fetch_row py call.answers rows k)
          ∙ ap value_of_row (ground (arith, answers)))
