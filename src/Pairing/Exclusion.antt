-- ===== src/Pairing/Exclusion.antt =====
-- services/matter_pairing_lock.py: who can hold the lock while another does.
use mobius_smart_home.Prelude.{
  ℕ, ◌+◌, ◌<◌, ◌≡◌, ◌≢◌, refl, String, true, false, ◌||◌, not, Option, if◌then◌else◌, none, some,
  List, [], ◌∷◌, All, arith, eq_iff, ap,
}
use mobius_smart_home.Pairing.{
  LockRow, expired, is_holder, acquired, busy, try_acquire, release, Statement, acquire_by,
  release_by, execute, execute_all, matter_pairing_lock, ran,
}

pub record HeldBy (holder : String) (expires : ℕ) (row : LockRow) : Type 0 where
  pub held : row.is_held ≡ true
  pub by : row.holder ≡ some holder
  pub until : row.expires_at ≡ some expires

-- A statement of somebody else, run before the lock expires.
abbrev pub OthersBefore : String → ℕ → Statement → Type 0
OthersBefore holder expires (acquire_by other detail ttl now) = now < expires
OthersBefore holder expires (release_by other now) = other ≢ holder

execute-HeldBy :
    (holder : String) (expires : ℕ) (row : LockRow) (s : Statement)
    → HeldBy holder expires row
    → OthersBefore holder expires s
    → HeldBy holder expires (execute row s)
unfolding execute try_acquire release expired is_holder
execute-HeldBy holder expires row (acquire_by other detail ttl now) h o = ground arith
execute-HeldBy holder expires row (release_by other now) h o = ground (arith, eq_iff holder other)

execute_all-HeldBy :
    (holder : String) (expires : ℕ) (row : LockRow) (ss : List Statement)
    → HeldBy holder expires row
    → All (OthersBefore holder expires) ss
    → HeldBy holder expires (execute_all row ss)
unfolding execute_all
execute_all-HeldBy holder expires row [] h o = h
execute_all-HeldBy holder expires row (s ∷ rest) h o =
    execute_all-HeldBy holder expires (execute row s) rest
      (execute-HeldBy holder expires row s h o.0) o.1

try_acquire_refused :
    (holder other detail : String) (expires ttl now : ℕ) (row : LockRow)
    → HeldBy holder expires row
    → now < expires
    → try_acquire other detail ttl now row
      ≡ (row, busy (some holder) row.holder_detail (some expires))
unfolding try_acquire expired
try_acquire_refused holder other detail expires ttl now row h early = ground (arith, h)

-- The row is free, or its holder's time is over.
abbrev pub Available : ℕ → LockRow → Type 0
Available now row = (not row.is_held || expired row.expires_at now) ≡ true

-- Whom a taker takes the lock from
abbrev pub former : LockRow → Option String
former row = if row.is_held then row.holder else none

try_acquire-Available :
    (holder detail : String) (ttl now : ℕ) (row : LockRow)
    → Available now row
    → let (taken, attempt) = try_acquire holder detail ttl now row in
      HeldBy holder (now + ttl) taken
      × (attempt ≡ acquired (some holder) (some (now + ttl)) (former row))
unfolding try_acquire
try_acquire-Available holder detail ttl now row available = ground (arith, available)

pub try_acquire_free :
    (holder detail : String) (ttl now : ℕ) (row : LockRow)
    → row.is_held ≡ false
    → let (taken, attempt) = try_acquire holder detail ttl now row in
      HeldBy holder (now + ttl) taken × (attempt ≡ acquired (some holder) (some (now + ttl)) none)
unfolding try_acquire
try_acquire_free holder detail ttl now row free = ground arith

-- An attempt on a lock that is free, or whose holder's time is over, takes it, and says whom it was taken
-- from. From then on until the new expiry, nobody else gets it: after any statements of others before
-- that, an attempt before that is refused, names the new holder and the new expiry, and changes nothing.
pub exclusive_until_expiry :
    (holder other detail detail' : String) (ttl ttl' start now : ℕ) (row : LockRow)
    (others : List Statement)
    → Available start row
    → All (OthersBefore holder (start + ttl)) others
    → now < start + ttl
    → let (taken, attempt) = try_acquire holder detail ttl start row in
      let later = execute_all taken others in
      (attempt ≡ acquired (some holder) (some (start + ttl)) (former row))
      × (try_acquire other detail' ttl' now later
          ≡ (later, busy (some holder) later.holder_detail (some (start + ttl))))
exclusive_until_expiry holder other detail detail' ttl ttl' start now row others available o early =
    let (held, got) = try_acquire-Available holder detail ttl start row available in
    let h =
      execute_all-HeldBy holder (start + ttl) (try_acquire holder detail ttl start row).0 others
        held o in
    (got, try_acquire_refused holder other detail' (start + ttl) ttl' now _ h early)

release_held :
    (holder : String) (expires end : ℕ) (row : LockRow)
    → HeldBy holder expires row
    → ((release holder end row).1 ≡ true) × ((release holder end row).0.is_held ≡ false)
unfolding release is_holder
release_held holder expires end row h = ground (arith, h, (eq_iff holder holder).1 refl)

-- A session that finds the lock free runs its block, and if only statements of others come between,
-- before its expiry, it releases the lock at its end, however late and in whatever way the block ends.
matter_pairing_lock_frees :
    (holder detail : String) (ttl start end : ℕ) (others : List Statement) (row : LockRow)
    → row.is_held ≡ false
    → All (OthersBefore holder (start + ttl)) others
    → let (row', outcome) = matter_pairing_lock holder detail ttl start end others row in
      (outcome ≡ ran true) × (row'.is_held ≡ false)
unfolding matter_pairing_lock
matter_pairing_lock_frees holder detail ttl start end others row free o =
    let (held, got) = try_acquire_free holder detail ttl start row free in
    let h =
      execute_all-HeldBy holder (start + ttl) (try_acquire holder detail ttl start row).0 others
        held o in
    let (released, gone) = release_held holder (start + ttl) end _ h in
    rw got (ap ran released, gone)
