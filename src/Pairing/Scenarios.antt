-- ===== src/Pairing/Scenarios.antt =====
-- services/matter_pairing_lock.py: the theorems at concrete rows, and tests.
use mobius_smart_home.Prelude.{
  ◌≡◌, ◌≢◌, refl, String, true, none, some, List, [], ◌∷◌, arith, eq_iff,
}
use mobius_smart_home.Pairing.{
  LockRow, expired, Statement, acquire_by, release_by, acquired, busy, try_acquire, execute_all,
}
use mobius_smart_home.Pairing.Exclusion.{HeldBy, Available, exclusive_until_expiry}

-- The holder is gone, and its time is over.
abbrev crashed : LockRow
crashed = record {
  is_held = true;
  holder = some "hub_port_copy";
  holder_detail = none;
  acquired_at = some 1;
  expires_at = some 9;
  released_at = none;
  taken_over_from = none;
}

crashed-Available : Available 10 crashed
unfolding expired
crashed-Available = refl

abbrev others : List Statement
others = acquire_by "hub_port_copy" "2 hubs" 600 20 ∷ release_by "hub_port_copy" 30 ∷ []

copy_ne_all : ◌≢◌ {A = String} "hub_port_copy" "commission_all"
copy_ne_all = ground (arith, eq_iff "hub_port_copy" "commission_all")

exclusive_until_expiry_example :
    let (taken, attempt) = try_acquire "commission_all" "17 devices" 1800 10 crashed in
    let later = execute_all taken others in
    (attempt ≡ acquired (some "commission_all") (some 1810) (some "hub_port_copy"))
    × (try_acquire "manual" "one device" 60 1809 later
        ≡ (later, busy (some "commission_all") later.holder_detail (some 1810)))
exclusive_until_expiry_example =
    exclusive_until_expiry "commission_all" "manual" "17 devices" "one device" 1800 60 10 1809
      crashed others crashed-Available (omega arith, (copy_ne_all, tt)) (omega arith)

abbrev dead : LockRow
dead = record {
  is_held = true;
  holder = some "commission_all";
  holder_detail = some "17 devices";
  acquired_at = some 10;
  expires_at = some 1810;
  released_at = none;
  taken_over_from = none;
}

dead-HeldBy : HeldBy "commission_all" 1810 dead
dead-HeldBy = record { held = refl; by = refl; until = refl }
