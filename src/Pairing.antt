-- ===== src/Pairing.antt =====
-- services/matter_pairing_lock.py: the global pairing mutex, a single row of a table. A statement of the
-- database is one step; `now` is its NOW(), and a comparison with NULL does not hold.
pub mod Exclusion
pub mod Takeover
mod Scenarios
use mobius_smart_home.Prelude.{
  ℕ, ◌+◌, String, Bool, true, false, ◌&&◌, ◌||◌, not, Option, none, some, List, [], ◌∷◌, leb,
  str_eq, if◌then◌else◌,
}

pub record LockRow : Type 0 where
  pub is_held : Bool
  pub holder : Option String
  pub holder_detail : Option String
  pub acquired_at : Option ℕ
  pub expires_at : Option ℕ
  pub released_at : Option ℕ
  pub taken_over_from : Option String

-- The row that the migration seeds.
unfoldable pub seeded : LockRow
seeded = record {
  is_held = false;
  holder = none;
  holder_detail = none;
  acquired_at = none;
  expires_at = none;
  released_at = none;
  taken_over_from = none;
}

-- `expires_at <= NOW()`
unfoldable pub expired : Option ℕ → ℕ → Bool
expired none now = false
expired (some t) now = leb t now

-- The dictionary that `_try_acquire_sync` returns.
pub data Attempt : Type 0 where
  acquired : Option String → Option ℕ → Option String → Attempt
  busy : Option String → Option String → Option ℕ → Attempt

-- `_try_acquire_sync` on a table whose row is there
unfoldable pub try_acquire : String → String → ℕ → ℕ → LockRow → LockRow × Attempt
try_acquire holder detail ttl now row =
    let stale = expired row.expires_at now in
    let from = if row.is_held && stale then row.holder else none in
    let taken : LockRow = record {
      is_held = true;
      holder = some holder;
      holder_detail = some detail;
      acquired_at = some now;
      expires_at = some (now + ttl);
      released_at = none;
      taken_over_from = from;
    } in
    if not row.is_held || stale
    then (taken, acquired (some holder) (some (now + ttl)) from)
    else (row, busy row.holder row.holder_detail row.expires_at)

-- `holder = %s`
unfoldable pub is_holder : Option String → String → Bool
is_holder none holder = false
is_holder (some h) holder = str_eq h holder

-- `_release_sync`
unfoldable pub release : String → ℕ → LockRow → LockRow × Bool
release holder now row =
    if row.is_held && is_holder row.holder holder
    then (record row { is_held = false; released_at = some now }, true)
    else (row, false)

pub record Status : Type 0 where
  pub is_held : Bool
  pub holder : Option String
  pub is_stale : Bool

-- `_status_sync`
unfoldable pub status : ℕ → LockRow → Status
status now row = record {
  is_held = row.is_held;
  holder = row.holder;
  is_stale = row.is_held && expired row.expires_at now;
}

-- The statements that the features and the operator send, in the order in which the database runs
-- them.
pub data Statement : Type 0 where
  acquire_by : String → String → ℕ → ℕ → Statement
  release_by : String → ℕ → Statement

unfoldable pub execute : LockRow → Statement → LockRow
execute row (acquire_by holder detail ttl now) = (try_acquire holder detail ttl now row).0
execute row (release_by holder now) = (release holder now row).0

unfoldable pub execute_all : LockRow → List Statement → LockRow
execute_all row [] = row
execute_all row (s ∷ rest) = execute_all (execute row s) rest

-- What `matter_pairing_lock` gives its caller: the block runs, or `PairingLockBusy` is raised. The
-- block ends at `end`, by whatever way; meanwhile the database runs other statements.
pub data Session : Type 0 where
  ran : Bool → Session
  pairing_lock_busy : Option String → Session

session : Attempt → String → ℕ → List Statement → LockRow → LockRow × Session
session (busy who detail expires) holder end others row = (row, pairing_lock_busy who)
session (acquired h expires from) holder end others row =
    let (row', released) = release holder end (execute_all row others) in (row', ran released)

-- `matter_pairing_lock`
unfoldable pub matter_pairing_lock :
    String → String → ℕ → ℕ → ℕ → List Statement → LockRow → LockRow × Session
unfolding session
matter_pairing_lock holder detail ttl start end others row =
    let (row', attempt) = try_acquire holder detail ttl start row in
    session attempt holder end others row'
