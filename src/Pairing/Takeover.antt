-- ===== src/Pairing/Takeover.antt =====
-- services/matter_pairing_lock.py: an expired lock is taken over, and what its first holder then does.
use mobius_smart_home.Prelude.{
  ℕ, ◌+◌, ◌≤◌, ◌≡◌, ◌≢◌, refl, String, true, false, some, none, arith, eq_iff,
}
use mobius_smart_home.Pairing.{LockRow, expired, is_holder, acquired, try_acquire, release, status}
use mobius_smart_home.Pairing.Exclusion.{HeldBy, try_acquire_free}

take_over :
    (first second detail : String) (expires ttl now : ℕ) (row : LockRow)
    → HeldBy first expires row
    → expires ≤ now
    → let (taken, attempt) = try_acquire second detail ttl now row in
      HeldBy second (now + ttl) taken
      × (attempt ≡ acquired (some second) (some (now + ttl)) (some first))
unfolding try_acquire expired
take_over first second detail expires ttl now row h late = ground (arith, h)

release_other :
    (holder other : String) (expires now : ℕ) (row : LockRow)
    → HeldBy holder expires row
    → holder ≢ other
    → release other now row ≡ (row, false)
unfolding release is_holder
release_other holder other expires now row h ne = ground (arith, h, eq_iff holder other)

-- A holder that dies does not wedge the lock: from its expiry on the status shows it stale, and the
-- first attempt gets it, with the dead holder's name on record; and if that holder has another name
-- and was only late, its release changes nothing and reports that it no longer held the lock.
expired_lock_taken_over :
    (first second detail : String) (expires ttl now end : ℕ) (row : LockRow)
    → HeldBy first expires row
    → expires ≤ now
    → second ≢ first
    → let (taken, attempt) = try_acquire second detail ttl now row in
      ((status now row).is_stale ≡ true)
      × (attempt ≡ acquired (some second) (some (now + ttl)) (some first))
      × (release first end taken ≡ (taken, false))
      × (taken.is_held ≡ true)
unfolding status expired
expired_lock_taken_over first second detail expires ttl now end row h late ne =
    let (held, got) = take_over first second detail expires ttl now row h late in
    (ground (arith, h), got, release_other second first (now + ttl) end _ held ne, held.held)

release_same_name :
    (holder : String) (expires now : ℕ) (row : LockRow)
    → HeldBy holder expires row
    → (release holder now row).0.is_held ≡ false
unfolding release is_holder
release_same_name holder expires now row h = ground (arith, h, (eq_iff holder holder).1 refl)

-- A release is told apart by the holder's name alone. If the run that takes an expired lock over has the
-- name of the late run, as two runs of the same feature have, the late run's release frees the
-- lock under the new run, and a third party then gets it at once, before the new run's expiry.
stale_release_stomps :
    (name other detail detail' : String) (expires ttl ttl' now end third : ℕ) (row : LockRow)
    → HeldBy name expires row
    → expires ≤ now
    → let taken = (try_acquire name detail ttl now row).0 in
      let stomped = (release name end taken).0 in
      (taken.expires_at ≡ some (now + ttl))
      × ((try_acquire other detail' ttl' third stomped).1
          ≡ acquired (some other) (some (third + ttl')) none)
stale_release_stomps name other detail detail' expires ttl ttl' now end third row h late =
    let (held, got) = take_over name name detail expires ttl now row h late in
    let free = release_same_name name (now + ttl) end _ held in
    (held.until, (try_acquire_free other detail' ttl' third _ free).1)
