-- ===== src/Session/SpawnLocks/Tests.antt =====
-- Two calls for one run and one for another.
use open_covibe_web.Common.{List, [], ◌∷◌}
use open_covibe_web.Session.SpawnLocks.{
  LockAction, asks, locks, drops, gives_up, no_locks, lock_steps,
}
use open_covibe_web.Session.SpawnLocks.Exclusive.{OnePerRun, lock_steps-OnePerRun}

abbrev some_calls : List LockAction
some_calls =
    asks "a"
    ∷ asks "a"
    ∷ locks 1
    ∷ locks 0
    ∷ asks "b"
    ∷ locks 0
    ∷ drops 1
    ∷ locks 0
    ∷ gives_up 0
    ∷ []

lock_steps-OnePerRun_example : OnePerRun (lock_steps no_locks some_calls).holding
lock_steps-OnePerRun_example = lock_steps-OnePerRun some_calls
