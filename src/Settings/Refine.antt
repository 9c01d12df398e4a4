-- ===== src/Settings/Refine.antt =====
-- services/settings_resolver.py: what the getter answers.
use mobius_smart_home.Prelude.{
  ℕ, ◌+◌, ◌≤◌, ◌≡◌, inr, refl, ◌∙◌, String, true, Option, none, some, get, List, [], ◌∷◌, All,
  arith,
}
use mobius_smart_home.Settings.{
  Value, nothing, boolean, text, object, Python, Entry, SettingsResolver, Tables, Call, Query,
  get_system, get_app_type, instance_value, or_next, get_setting, invalidate_all, app_type_tier,
}
use mobius_smart_home.Settings.Coherence.{tier_value, read_through-right}
use mobius_smart_home.Settings.Cascade.{
  Op, Told, first_value, app_type_value, cascade, perform_all, Coherent, app_type_tier-Coherent,
  new-Coherent, perform_all-Coherent,
}

module _ {O : Type 0} (py : Python O) where
  or_next-first :
      (v : Option (Value O)) (vs : List (Option (Value O))) (d : Value O) (c : SettingsResolver O)
      (next : SettingsResolver O × Option (Value O))
      → next.1 ≡ first_value vs d
      → (or_next py v c next).1 ≡ first_value (v ∷ vs) d
  unfolding or_next first_value
  or_next-first none vs d c next right = refl
  or_next-first (some nothing) vs d c next right = right
  or_next-first (some (boolean b)) vs d c next right = refl
  or_next-first (some (text s)) vs d c next right = refl
  or_next-first (some (object o)) vs d c next right = refl

  module _ (P : ℕ → Type 0) (ttl : ℕ) where
    app_type_tier-value :
        (o : Option ℕ) (call : Call) (k : String) (t : Tables) (c : SettingsResolver O)
        → ((f : ℕ) → P f → f + ttl ≤ call.now)
        → call.answers ≡ true
        → Coherent py P (t, c)
        → (app_type_tier py o ttl call t k c).1 ≡ app_type_value py t o k
    unfolding app_type_tier app_type_value get_app_type
    app_type_tier-value none call k t c old answers coherent = refl
    app_type_tier-value (some a) call k t c old answers coherent =
        read_through-right py P ttl call (t.app_type_settings a) k (c.at_cache a) old answers
          (coherent.at a)

    get_system-value :
        (call : Call) (k : String) (t : Tables) (c : SettingsResolver O)
        → ((f : ℕ) → P f → f + ttl ≤ call.now)
        → call.answers ≡ true
        → Coherent py P (t, c)
        → (get_system py ttl call t k c).1 ≡ tier_value py t.system_settings k
    unfolding get_system
    get_system-value call k t c old answers coherent =
        read_through-right py P ttl call t.system_settings k c.sys_cache old answers coherent.sys

    get_setting-cascade :
        (call call' : Call) (q : Query O) (t : Tables) (c : SettingsResolver O)
        → ((f : ℕ) → P f → f + ttl ≤ call.now)
        → ((f : ℕ) → P f → f + ttl ≤ call'.now)
        → call.answers ≡ true
        → call'.answers ≡ true
        → Coherent py P (t, c)
        → (get_setting py ttl call call' t q c).1 ≡ cascade py t q
    unfolding get_setting cascade
    get_setting-cascade call call' q t c old old' answers answers' coherent =
        let (c₁, v₁) = app_type_tier py q.app_type_id ttl call t q.key c in
        let (c₂, v₂) = get_system py ttl call' t q.key c₁ in
        let first = app_type_tier-value q.app_type_id call q.key t c old answers coherent in
        let second =
          get_system-value call' q.key t c₁ old' answers'
            (app_type_tier-Coherent py P ttl q.app_type_id call q.key t c coherent) in
        or_next-first (some (instance_value py q)) _ q.default c _ (
          or_next-first v₁ (v₂ ∷ []) q.default c₁ _ (or_next-first _ [] q.default _ _ refl)
          ∙ cc (first, second))

  -- After any calls of the resolver since its cache was dropped, among them writes that are refused and
  -- reads that the database does not answer, but no write of which the answer is lost, and no write past
  -- the resolver: a read that the database answers gives the value that the cascade finds in the tables,
  -- however old the entries of the cache are.
  pub get_setting-refines :
      (ttl : ℕ) (os : List (Op O)) (t₀ : Tables) (c₀ : SettingsResolver O) (call call' : Call)
      (q : Query O)
      → All Told os
      → call.answers ≡ true
      → call'.answers ≡ true
      → let (t, c) = perform_all py ttl os (t₀, invalidate_all py c₀) in
        (get_setting py ttl call call' t q c).1 ≡ cascade py t q
  get_setting-refines ttl os t₀ c₀ call call' q told answers answers' =
      let (t, c) = perform_all py ttl os (t₀, invalidate_all py c₀) in
      get_setting-cascade (λ _. ⊥) ttl call call' q t c (λ f. absurd) (λ f. absurd) answers answers'
        (perform_all-Coherent py (λ _. ⊥) ttl os _ told (new-Coherent py (λ _. ⊥) ttl t₀ c₀))

  -- Whatever the tables and the cache hold at a time, for instance after writes past the resolver: when
  -- all stamps of the cache are from that time or before, and from then on writes go through the
  -- resolver and none loses its answer, a read that starts `ttl` after that time or later, and that the
  -- database answers, gives the value that the cascade finds in the tables.
  pub stale_for_ttl_at_most :
      (ttl since : ℕ) (os : List (Op O)) (t₀ : Tables) (c₀ : SettingsResolver O) (call call' : Call)
      (q : Query O)
      → ((k : String) (e : Entry O) → get c₀.sys_cache k ≡ some e → e.fetched_at ≤ since)
      → ((a : ℕ) (k : String) (e : Entry O) → get (c₀.at_cache a) k ≡ some e → e.fetched_at ≤ since)
      → All Told os
      → since + ttl ≤ call.now
      → since + ttl ≤ call'.now
      → call.answers ≡ true
      → call'.answers ≡ true
      → let (t, c) = perform_all py ttl os (t₀, c₀) in
        (get_setting py ttl call call' t q c).1 ≡ cascade py t q
  stale_for_ttl_at_most ttl since os t₀ c₀ call call' q sys_old at_old told late late' answers
        answers' =
      let (t, c) = perform_all py ttl os (t₀, c₀) in
      let stamped = λ (f : ℕ). f ≤ since in
      get_setting-cascade stamped ttl call call' q t c (λ f old. omega (arith, old, late))
        (λ f old. omega (arith, old, late')) answers answers'
        (perform_all-Coherent py stamped ttl os _ told (record {
          sys = record { entry = λ k e found. inr (sys_old k e found) };
          at = λ a. record { entry = λ k e found. inr (at_old a k e found) };
        }))
