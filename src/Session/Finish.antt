-- ===== src/Session/Finish.antt =====
-- src-tauri/src/agent/session_actor.rs: how a turn ends, for the queue and for a Ralph loop.
pub mod Keeps
pub mod Loops
use open_covibe_web.Common.{ℕ, ◌+◌, Bool, none, some, Option}
use open_covibe_web.Models.{ralph_iteration}
use open_covibe_web.Session.Turn.{normal, slash, TurnOrigin, user, internal, ralph}
use open_covibe_web.Session.Ralph.{
  RalphLoopState, RalphAction, complete, emit_iteration, set_waiting_retry, resume_from, noop,
  waiting_retry, turn_end,
}
use open_covibe_web.Session.Actor.{SessionActor, Wire, persist_and_emit, set_pending_slash_command}
use open_covibe_web.Session.Dispatch.{emit_ralph_complete, try_dispatch}

unfoldable pub end_turn_and_dispatch : Wire → SessionActor → ℕ → SessionActor
end_turn_and_dispatch w a now =
    try_dispatch w
      (set_pending_slash_command (record a { active_turn = none; active_extractor = none }) none)
      now

-- Auto-context is disabled in the source: only its bookkeeping is left.
unfoldable pub on_user_turn_finished : SessionActor → TurnOrigin → SessionActor
on_user_turn_finished a (user (normal id)) = record a { last_auto_context_for = some id }
on_user_turn_finished a (user (slash command)) = a
on_user_turn_finished a (internal k) = a
on_user_turn_finished a ralph = a

-- Step 2 of `ralph_on_turn_end`, on the counted loop.
unfoldable pub run_action : SessionActor → ℕ → RalphLoopState × RalphAction → SessionActor
run_action a now (r, complete reason) =
    emit_ralph_complete (record a { ralph_loop = some r }) reason
run_action a now (r, emit_iteration i max) =
    persist_and_emit (record a { ralph_loop = some r }) (ralph_iteration i max)
run_action a now (r, set_waiting_retry backoff) = record a {
  ralph_loop = some (record r { phase = waiting_retry; retry_after = some (now + backoff) });
}
run_action a now (r, resume_from phase) = record a {
  ralph_loop = some (record r { phase = phase });
}
run_action a now (r, noop) = record a { ralph_loop = some r }

unfoldable pub loop_turn_end :
    SessionActor → ℕ → TurnOrigin → Bool → Option RalphLoopState → SessionActor
loop_turn_end a now origin turn_failed none = a
loop_turn_end a now origin turn_failed (some r) = run_action a now (turn_end r origin turn_failed)

unfoldable pub ralph_on_turn_end : SessionActor → ℕ → TurnOrigin → Bool → SessionActor
ralph_on_turn_end a now origin turn_failed = loop_turn_end a now origin turn_failed a.ralph_loop
