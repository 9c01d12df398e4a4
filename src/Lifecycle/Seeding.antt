-- ===== src/Lifecycle/Seeding.antt =====
-- apps/advanced_motion_lighting/memoization.py: what a reset leaves in the memo.
use mobius_smart_home.Prelude.{
  ◌≡◌, String, Bool, true, false, none, some, Option, List, [], ◌∷◌, Dict, get, get-put, any,
  str_eq, eq_iff, arith, inl, inr, Option-cases, if◌then◌else◌,
}
use mobius_smart_home.Lifecycle.{app, Mark, Instance, aml, seed, seed_from, reset_memoization}

abbrev pub by_app : Bool → Mark
by_app state = record { is_on = state; source = app }

or_seed : Option Mark → Bool → Bool → Option Mark
or_seed (some mark) listed state = some mark
or_seed none listed state = if listed then some (by_app state) else none

get-seed_from :
    (state : Bool) (d : Dict Mark) (device k : String)
    → get (seed_from (get d device) state d device) k ≡ or_seed (get d k) (str_eq device k) state
unfolding seed_from or_seed
get-seed_from state d device k = elim (Option-cases (get d device)) [
  | inl missing ↦
      rw (missing, seed_from)
        (ground (arith, get-put d device k (by_app state), eq_iff device k, missing))
  | inr (mark, there) ↦ rw (there, seed_from) (ground (arith, eq_iff device k, there))
]

get-seed :
    (state : Bool) (devices : List String) (d : Dict Mark) (k : String)
    → get (seed state devices d) k
      ≡ or_seed (get d k) (any (λ device. str_eq device k) devices) state
unfolding seed or_seed
get-seed state [] d k = ground arith
get-seed state (device ∷ rest) d k = ground (
  arith,
  get-seed state rest (seed_from (get d device) state d device) k,
  get-seed_from state d device k,
)

-- A reset of the memo, as pausing, resuming and a mode change make, leaves exactly the marks of the
-- keep devices, all of the app's own making, whatever a user had overridden before: off for those
-- of the keep-off list, and on for those of the keep-on list that are not in the keep-off list.
pub get-reset_memoization :
    (keep_off keep_on : List String) (i : Instance) (device : String)
    → get (reset_memoization (aml keep_off keep_on) i).keep device ≡ (
        if any (λ d. str_eq d device) keep_off
        then some (by_app false)
        else if any (λ d. str_eq d device) keep_on
        then some (by_app true)
        else none)
unfolding reset_memoization get or_seed
get-reset_memoization keep_off keep_on i device = ground (
  arith,
  get-seed true keep_on (seed false keep_off []) device,
  get-seed false keep_off [] device,
)
