-- ===== src/Session/Loop/Registry.antt =====
-- src-tauri/src/agent/session_actor.rs: the map of the running sessions.
use open_covibe_web.Common.{
  ℕ, String, Option, none, some, List, ◌≡◌, arith, lookup, lookup-remove, str_eq, if◌then◌else◌,
  ◌==◌, ◌&&◌, Bool, false,
}
use open_covibe_web.Session.Loop.{deregister}

-- Whether the entry under a run is an actor's own.
abbrev pub own : ℕ → Option ℕ → Bool
own tag none = false
own tag (some other) = other == tag

-- The clean-up of an actor takes its own entry out of the map and leaves all others: those of other
-- runs, and that of an actor that has replaced it under the same run.
pub deregister-lookup :
    (run_id key : String) (tag : ℕ) (sessions : List (String × ℕ))
    → lookup key (deregister run_id tag sessions) ≡ (
        if str_eq run_id key && own tag (lookup run_id sessions) then none else lookup key sessions)
unfolding deregister
deregister-lookup run_id key tag sessions = ground (arith, lookup-remove run_id key sessions)
