-- ===== src/Session/Stdout/Results/Retries.antt =====
-- src-tauri/src/agent/session_actor.rs: an error result in a turn of a Ralph loop.
use open_covibe_web.Common.{
  ◌+◌, ◌*◌, ℕ, true, false, Option, none, some, [], ◌≡◌, refl, arith, if◌then◌else◌, leb,
  Bool-cases, inl, inr,
}
use text.Mathlib.Text.{starts_with}
use open_covibe_web.Models.Json.{Json, get_str, text_or}
use open_covibe_web.Session.Turn.{ralph, ActiveTurn, apply_activity_reset, user_hard_timeout}
use open_covibe_web.Session.Ralph.{RalphLoopState, turn_end, is_cancel_pending, waiting_retry}
use open_covibe_web.Session.Actor.{SessionActor, Wire}
use open_covibe_web.Session.Dispatch.{
  emit_ralph_complete, try_dispatch, dispatch_next, dispatch_user, dispatch_ralph, dispatch_loop,
  dispatch_internal, is_blocked,
}
use open_covibe_web.Session.Finish.{ralph_on_turn_end, loop_turn_end, run_action}
use open_covibe_web.Session.Stdout.{user_run_state, handle_parsed, report}
use open_covibe_web.Session.Stdout.Results.Turns.{try_dispatch-Empty, either}
use open_covibe_web.Session.Stdout.Results.Relayed.{error_of}
use open_covibe_web.Session.Stdout.Results.Loops.{
  at_result, after_ralph, finish_turn-ralph, handle_parsed-user, report-Frame,
}

-- A Ralph turn of a loop that is not cancelled, and nothing waits.
pub record InLoop (a : SessionActor) (r : RalphLoopState) (turn : ActiveTurn) : Type 0 where
  pub active : a.active_turn ≡ some turn
  pub origin : turn.origin ≡ ralph
  pub loop : a.ralph_loop ≡ some r
  pub live : is_cancel_pending r.phase ≡ false
  pub queue : a.queued_user ≡ []
  pub jobs : a.queued_internal ≡ []
  pub barrier : a.must_run_internal_for_turn ≡ none

-- The loop after one more failure: it is over at the limit, and else it waits.
abbrev pub failed_once : RalphLoopState → ℕ → Option RalphLoopState
failed_once r now =
    let n = r.consecutive_failures + 1 in
    if leb r.max_consecutive_failures n
    then none
    else some (record r {
      consecutive_failures = n;
      phase = waiting_retry;
      retry_after = some (now + 2000 * n);
    })

-- A loop that has to wait longer is not dispatched.
try_dispatch-waits :
    (w : Wire) (a : SessionActor) (r : RalphLoopState) (now later : ℕ)
    → a.queued_user ≡ []
    → a.queued_internal ≡ []
    → a.must_run_internal_for_turn ≡ none
    → a.ralph_loop ≡ some r
    → r.phase ≡ waiting_retry
    → r.retry_after ≡ some later
    → leb later now ≡ false
    → try_dispatch w a now ≡ a
unfolding try_dispatch dispatch_next dispatch_user dispatch_ralph dispatch_loop dispatch_internal
try_dispatch-waits w a r now later q j b l p t h =
    rw (b, q, l, p, t, h, j) (either (is_blocked a) _)

after_ralph-failed :
    (a : SessionActor) (r : RalphLoopState) (turn : ActiveTurn) (now : ℕ)
    → InLoop a r turn
    → let b = after_ralph a now true in
      (b.active_turn ≡ none)
      × (b.ralph_loop ≡ failed_once r now)
      × (b.queued_user ≡ [])
      × (b.queued_internal ≡ [])
      × (b.must_run_internal_for_turn ≡ none)
unfolding ralph_on_turn_end loop_turn_end turn_end run_action emit_ralph_complete
after_ralph-failed a r turn now i = ground (arith, i)

idle-failed :
    (w : Wire) (a : SessionActor) (r : RalphLoopState) (now : ℕ)
    → a.ralph_loop ≡ failed_once r now
    → a.queued_user ≡ []
    → a.queued_internal ≡ []
    → a.must_run_internal_for_turn ≡ none
    → try_dispatch w a now ≡ a
idle-failed w a r now l q j b =
    let n = r.consecutive_failures + 1 in
    let later = now + 2000 * n in
    let s = record r {
      consecutive_failures = n;
      phase = waiting_retry;
      retry_after = some later;
    } in
    elim (Bool-cases (leb r.max_consecutive_failures n)) [
      | inl h ↦
          try_dispatch-Empty w a now
            (record { queue = q; jobs = j; barrier = b; alone = ground (arith, l, h) })
      | inr h ↦
          try_dispatch-waits w a s now later q j b (ground (arith, l, h)) refl refl (ground arith)
    ]

-- An error result in a Ralph turn, if the session is neither in quarantine nor interrupted, the loop
-- is not cancelled and nothing else waits, ends the turn and counts as a failure: at the limit of
-- failures in a row the loop is over, and else it waits two seconds for each of them.
pub handle_parsed-failed :
    (w : Wire) (a : SessionActor) (r : RalphLoopState) (turn : ActiveTurn) (now : ℕ) (line : Json)
    → a.quarantine_until_result ≡ false
    → a.pending_interrupt ≡ false
    → InLoop a r turn
    → get_str "type" line ≡ some "result"
    → starts_with (text_or "" "subtype" line) "error" ≡ true
    → let b = handle_parsed w a now line in
      (b.active_turn ≡ none) × (b.ralph_loop ≡ failed_once r now)
unfolding user_run_state error_of apply_activity_reset
handle_parsed-failed w a r turn now line q u i t e =
    let kept : ActiveTurn = record turn { hard_deadline = now + user_hard_timeout } in
    let b = at_result w a now line in
    let c = report b now "idle" none (error_of line) in
    let f = report-Frame b now "idle" none (error_of line) in
    let k : InLoop c r kept = ground (arith, i, f) in
    let d = after_ralph c now true in
    let l = after_ralph-failed c r kept now k in
    ground (
      arith,
      handle_parsed-user w a now line q (ground (arith, i)) t,
      finish_turn-ralph w c now kept true i.origin,
      idle-failed w d r now l.1 l.2 l.3 l.4,
      l,
      k,
    )
