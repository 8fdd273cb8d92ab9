-- ===== src/Session/SpawnLocks.antt =====
-- src-tauri/src/agent/spawn_locks.rs: the locks by which starts and stops of one run follow each other.
-- A call makes two steps: it takes the run's lock out of the map, and later it gets the lock.
pub mod Exclusive
pub mod Tests
use open_covibe_web.Common.{
  ℕ, ◌+◌, String, Bool, Option, none, some, List, [], ◌∷◌, ◌++◌, if◌then◌else◌, lookup,
}
use open_covibe_web.Storage.Writer.{is_held, retain, nth, without}

pub record SpawnLocks : Type 0 where
  -- The map: runs and places of their locks.
  pub inner : List (String × ℕ)
  pub next_place : ℕ
  -- The calls that wait for a lock, and those that have it: run and place.
  pub waiting : List (String × ℕ)
  pub holding : List (String × ℕ)

abbrev pub no_locks : SpawnLocks
no_locks = record { inner = []; next_place = 0; waiting = []; holding = [] }

abbrev pub clone_lock : SpawnLocks → String → Option ℕ → SpawnLocks
clone_lock s run (some place) = record s { waiting = (run, place) ∷ s.waiting }
clone_lock s run none = record s {
  inner = (run, s.next_place) ∷ s.inner;
  next_place = s.next_place + 1;
  waiting = (run, s.next_place) ∷ s.waiting;
}

-- The locks that nobody has go, and the run's lock is found or made.
unfoldable pub acquire : SpawnLocks → String → SpawnLocks
acquire s run =
    let c = record s { inner = retain (s.waiting ++ s.holding) s.inner } in
    clone_lock c run (lookup run c.inner)

abbrev pub lock_if_free : SpawnLocks → ℕ → Option (String × ℕ) → SpawnLocks
lock_if_free s n none = s
lock_if_free s n (some h) =
    if is_held s.holding (h.1)
    then s
    else record s { waiting = without n s.waiting; holding = h ∷ s.holding }

-- `lock.lock_owned()` of a waiting call: it goes on waiting while another has the lock.
unfoldable pub lock_owned : SpawnLocks → ℕ → SpawnLocks
lock_owned s n = lock_if_free s n (nth n s.waiting)

-- The guard is dropped.
abbrev pub release : SpawnLocks → ℕ → SpawnLocks
release s n = record s { holding = without n s.holding }

pub data LockAction : Type 0 where
  asks : (run : String) → LockAction
  locks : (call : ℕ) → LockAction
  drops : (call : ℕ) → LockAction
  -- The future of a waiting call is dropped.
  gives_up : (call : ℕ) → LockAction

abbrev pub lock_step : SpawnLocks → LockAction → SpawnLocks
lock_step s (asks run) = acquire s run
lock_step s (locks n) = lock_owned s n
lock_step s (drops n) = release s n
lock_step s (gives_up n) = record s { waiting = without n s.waiting }

abbrev pub lock_steps : SpawnLocks → List LockAction → SpawnLocks
lock_steps s [] = s
lock_steps s (a ∷ rest) = lock_steps (lock_step s a) rest
