-- ===== src/Settings/Cascade.antt =====
-- services/settings_resolver.py: the cached getter against the cascade of the tables.
use mobius_smart_home.Prelude.{
  set_at, ℕ, ◌≢◌, inl, inr, subst, String, Bool, Option, none, some, Dict, get, ◌==◌, List, [], ◌∷◌,
  All, arith, Bool-cases,
}
use mobius_smart_home.Settings.{
  Value, nothing, boolean, text, object, Python, Row, Entry, SettingsResolver, Tables, Call, Patch,
  lost, Query, get_system, get_app_type, instance_value, or_next, get_setting, set_system,
  set_app_type, invalidate_all, app_type_tier,
}
use mobius_smart_home.Settings.Coherence.{Kept, tier_value, read_through-Kept, write_through-Kept}

-- The calls of the resolver
pub data Op (O : Type 0) : Type 0 where
  read : Call → Call → Query O → Op O
  read_system : Call → String → Op O
  read_app_type : Call → ℕ → String → Op O
  write_system : Bool → Patch → String → Value O → Op O
  write_app_type : Bool → Patch → ℕ → String → Value O → Op O
  forget : Op O

-- No write of which the answer is lost
abbrev pub Told : {O : Type 0} → Op O → Type 0
Told (read call call' q) = Unit
Told (read_system call k) = Unit
Told (read_app_type call a k) = Unit
Told (write_system answers p k v) = p ≢ lost
Told (write_app_type answers p a k v) = p ≢ lost
Told forget = Unit

-- The first value that is not `None`; a conversion that raises on the way ends the search.
unfoldable pub first_value : {O : Type 0} → List (Option (Value O)) → Value O → Option (Value O)
first_value [] d = some d
first_value (none ∷ vs) d = none
first_value (some nothing ∷ vs) d = first_value vs d
first_value (some (boolean b) ∷ vs) d = some (boolean b)
first_value (some (text s) ∷ vs) d = some (text s)
first_value (some (object o) ∷ vs) d = some (object o)

module _ {O : Type 0} (py : Python O) where
  unfoldable pub app_type_value : Tables → Option ℕ → String → Option (Value O)
  app_type_value t none k = some nothing
  app_type_value t (some a) k = tier_value py (t.app_type_settings a) k

  -- The documented order of the tiers, on the tables themselves
  unfoldable pub cascade : Tables → Query O → Option (Value O)
  unfolding app_type_value first_value
  cascade t q =
      first_value
        (some (instance_value py q)
          ∷ app_type_value t q.app_type_id q.key
          ∷ tier_value py t.system_settings q.key
          ∷ [])
        q.default

  unfoldable pub perform : ℕ → Op O → Tables × SettingsResolver O → Tables × SettingsResolver O
  perform ttl (read call call' q) (t, c) = (t, (get_setting py ttl call call' t q c).0)
  perform ttl (read_system call k) (t, c) = (t, (get_system py ttl call t k c).0)
  perform ttl (read_app_type call a k) (t, c) = (t, (get_app_type py ttl call t a k c).0)
  perform ttl (write_system answers p k v) s = (set_system py answers p k v s).0
  perform ttl (write_app_type answers p a k v) s = (set_app_type py answers p a k v s).0
  perform ttl forget (t, c) = (t, invalidate_all py c)

  unfoldable pub perform_all :
      ℕ → List (Op O) → Tables × SettingsResolver O → Tables × SettingsResolver O
  unfolding perform
  perform_all ttl [] s = s
  perform_all ttl (o ∷ os) s = perform_all ttl os (perform ttl o s)

  pub record Coherent (P : ℕ → Type 0) (s : Tables × SettingsResolver O) : Type 0 where
    pub sys : Kept py P s.0.system_settings s.1.sys_cache
    pub at : (a : ℕ) → Kept py P (s.0.app_type_settings a) (s.1.at_cache a)

  module _ (P : ℕ → Type 0) (ttl : ℕ) where
    get_system-Coherent :
        (call : Call) (k : String) (t : Tables) (c : SettingsResolver O)
        → Coherent P (t, c)
        → Coherent P (t, (get_system py ttl call t k c).0)
    unfolding get_system
    get_system-Coherent call k t c coherent = record {
      sys = read_through-Kept py P ttl call t.system_settings k c.sys_cache coherent.sys;
      at = coherent.at;
    }

    set_at-Kept :
        (rows : ℕ → Dict Row) (caches : ℕ → Dict (Entry O)) (a : ℕ) (rows' : Dict Row)
        (cache : Dict (Entry O))
        → Kept py P rows' cache
        → ((b : ℕ) → Kept py P (rows b) (caches b))
        → (b : ℕ) → Kept py P (set_at rows a rows' b) (set_at caches a cache b)
    unfolding set_at
    set_at-Kept rows caches a rows' cache kept all_kept b = elim (Bool-cases (a == b)) [
      | inl same ↦ rw same kept
      | inr other ↦ rw other (all_kept b)
    ]

    set_at-Kept_cache :
        (rows : ℕ → Dict Row) (caches : ℕ → Dict (Entry O)) (a : ℕ) (cache : Dict (Entry O))
        → Kept py P (rows a) cache
        → ((b : ℕ) → Kept py P (rows b) (caches b))
        → (b : ℕ) → Kept py P (rows b) (set_at caches a cache b)
    unfolding set_at
    set_at-Kept_cache rows caches a cache kept all_kept b = elim (Bool-cases (a == b)) [
      | inl same ↦ rw same (subst (λ x. Kept py P (rows x) cache) (ground (arith, same)) kept)
      | inr other ↦ rw other (all_kept b)
    ]

    get_app_type-Coherent :
        (call : Call) (a : ℕ) (k : String) (t : Tables) (c : SettingsResolver O)
        → Coherent P (t, c)
        → Coherent P (t, (get_app_type py ttl call t a k c).0)
    unfolding get_app_type
    get_app_type-Coherent call a k t c coherent = record {
      sys = coherent.sys;
      at =
          set_at-Kept_cache t.app_type_settings c.at_cache a _
            (read_through-Kept py P ttl call (t.app_type_settings a) k (c.at_cache a)
              (coherent.at a))
            coherent.at;
    }

    pub app_type_tier-Coherent :
        (o : Option ℕ) (call : Call) (k : String) (t : Tables) (c : SettingsResolver O)
        → Coherent P (t, c)
        → Coherent P (t, (app_type_tier py o ttl call t k c).0)
    unfolding app_type_tier
    app_type_tier-Coherent none call k t c coherent = coherent
    app_type_tier-Coherent (some a) call k t c coherent =
        get_app_type-Coherent call a k t c coherent

    or_next-Coherent :
        (v : Option (Value O)) (t : Tables) (c : SettingsResolver O)
        (next : SettingsResolver O × Option (Value O))
        → Coherent P (t, c)
        → Coherent P (t, next.0)
        → Coherent P (t, (or_next py v c next).0)
    unfolding or_next
    or_next-Coherent none t c next coherent next-Coherent = coherent
    or_next-Coherent (some nothing) t c next coherent next-Coherent = next-Coherent
    or_next-Coherent (some (boolean b)) t c next coherent next-Coherent = coherent
    or_next-Coherent (some (text s)) t c next coherent next-Coherent = coherent
    or_next-Coherent (some (object o)) t c next coherent next-Coherent = coherent

    get_setting-Coherent :
        (call call' : Call) (q : Query O) (t : Tables) (c : SettingsResolver O)
        → Coherent P (t, c)
        → Coherent P (t, (get_setting py ttl call call' t q c).0)
    unfolding get_setting
    get_setting-Coherent call call' q t c coherent =
        let c₁ = (app_type_tier py q.app_type_id ttl call t q.key c).0 in
        let first = app_type_tier-Coherent q.app_type_id call q.key t c coherent in
        let second = get_system-Coherent call' q.key t c₁ first in
        or_next-Coherent (some (instance_value py q)) t c _ coherent
          (or_next-Coherent _ t c₁ _ first (or_next-Coherent _ t _ _ second second))

    set_system-Coherent :
        (answers : Bool) (p : Patch) (k : String) (v : Value O) (s : Tables × SettingsResolver O)
        → p ≢ lost
        → Coherent P s
        → Coherent P (set_system py answers p k v s).0
    unfolding set_system
    set_system-Coherent answers p k v (t, c) told coherent = record {
      sys = write_through-Kept py P answers p t.system_settings k v c.sys_cache told coherent.sys;
      at = coherent.at;
    }

    set_app_type-Coherent :
        (answers : Bool) (p : Patch) (a : ℕ) (k : String) (v : Value O)
        (s : Tables × SettingsResolver O)
        → p ≢ lost
        → Coherent P s
        → Coherent P (set_app_type py answers p a k v s).0
    unfolding set_app_type
    set_app_type-Coherent answers p a k v (t, c) told coherent = record {
      sys = coherent.sys;
      at =
          set_at-Kept t.app_type_settings c.at_cache a _ _
            (write_through-Kept py P answers p (t.app_type_settings a) k v (c.at_cache a) told
              (coherent.at a))
            coherent.at;
    }

    pub new-Coherent : (t : Tables) (c : SettingsResolver O) → Coherent P (t, invalidate_all py c)
    unfolding invalidate_all get
    new-Coherent t c = record {
      sys = record { entry = λ k e found. absurd (ground (arith, found)) };
      at = λ a. record { entry = λ k e found. absurd (ground (arith, found)) };
    }

    perform-Coherent :
        (o : Op O) (s : Tables × SettingsResolver O)
        → Told o
        → Coherent P s
        → Coherent P (perform ttl o s)
    unfolding perform
    perform-Coherent (read call call' q) (t, c) told coherent =
        get_setting-Coherent call call' q t c coherent
    perform-Coherent (read_system call k) (t, c) told coherent =
        get_system-Coherent call k t c coherent
    perform-Coherent (read_app_type call a k) (t, c) told coherent =
        get_app_type-Coherent call a k t c coherent
    perform-Coherent (write_system answers p k v) s told coherent =
        set_system-Coherent answers p k v s told coherent
    perform-Coherent (write_app_type answers p a k v) s told coherent =
        set_app_type-Coherent answers p a k v s told coherent
    perform-Coherent forget (t, c) told coherent = new-Coherent t c

    pub perform_all-Coherent :
        (os : List (Op O)) (s : Tables × SettingsResolver O)
        → All Told os
        → Coherent P s
        → Coherent P (perform_all ttl os s)
    unfolding perform_all
    perform_all-Coherent [] s told coherent = coherent
    perform_all-Coherent (o ∷ os) s (told, all_told) coherent =
        perform_all-Coherent os (perform ttl o s) all_told (perform-Coherent o s told coherent)
