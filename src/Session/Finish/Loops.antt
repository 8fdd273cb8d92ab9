-- ===== src/Session/Finish/Loops.antt =====
-- src-tauri/src/agent/session_actor.rs: a Ralph loop that a user message pauses.
use open_covibe_web.Common.{ℕ, Bool, true, false, some, ◌≡◌, arith}
use open_covibe_web.Session.Turn.{user, UserTurnKind}
use open_covibe_web.Session.Ralph.{RalphLoopState, turn_end, paused_by_user, RalphPhase}
use open_covibe_web.Session.Actor.{SessionActor}
use open_covibe_web.Session.Invariant.{LoopOk}
use open_covibe_web.Session.Dispatch.{pause}
use open_covibe_web.Session.Finish.{run_action, loop_turn_end}

abbrev pub is_paused : RalphPhase → Bool
is_paused (paused_by_user was) = true
is_paused _ = false

-- A loop that a user message pauses is, after that user turn, where it was before.
pub pause-turn_end :
    (a : SessionActor) (r : RalphLoopState) (now : ℕ) (kind : UserTurnKind) (failed : Bool)
    → LoopOk r
    → is_paused r.phase ≡ false
    → (loop_turn_end a now (user kind) failed (some (pause r))).ralph_loop ≡ some r
unfolding loop_turn_end turn_end run_action
pause-turn_end a r now kind failed v e = ground arith
