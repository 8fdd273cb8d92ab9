-- ===== src/Session/Timeout.antt =====
-- src-tauri/src/agent/session_actor.rs: the clock that ends turns which hang. A turn past its hard
-- deadline goes to quarantine; the next tick interrupts the CLI; if that does not end the turn in
-- ten seconds, the process is killed.
pub mod Keeps
pub mod Quarantine
use Prim.Native.String
use open_covibe_web.Common.{
  ℕ, ◌+◌, ◌-◌, ◌/◌, String, Bool, true, false, ◌&&◌, none, some, List, [], ◌∷◌, leb, if◌then◌else◌,
  Option,
}
use open_covibe_web.Models.Json.{num}
use open_covibe_web.Session.Turn.{
  ActiveTurn, draining, UserTurnTicket, is_internal, is_active, quarantine_wait,
}
use open_covibe_web.Session.Ralph.{RalphPhase, waiting_retry, RalphLoopState}
use open_covibe_web.Session.Actor.{
  err, Effect, replied, killed, SessionActor, Wire, note, set_pending_slash_command, emit_state,
  send_interrupt_to_cli,
}
use open_covibe_web.Session.Dispatch.{due}

-- Every queued ticket is answered with the reason, the oldest first.
abbrev pub fail_tickets : String → List UserTurnTicket → List Effect → List Effect
fail_tickets reason [] log = log
fail_tickets reason (t ∷ ts) log = fail_tickets reason ts (replied t.reply (err reason) ∷ log)

unfoldable pub fail_all_pending_replies : SessionActor → String → SessionActor
fail_all_pending_replies a reason = record a {
  queued_user = [];
  queued_internal = [];
  must_run_internal_for_turn = none;
  log = fail_tickets reason a.queued_user a.log;
}

abbrev cat : String → String → String
cat s t = String.◌++◌ s t

unfoldable pub timeout_message : Wire → SessionActor → ℕ → String
timeout_message w a now =
    if a.quarantine_from_internal
    then "Auto-context hard timeout — process killed"
    else elim a.pending_interactive_request [
      | none ↦ "Session timeout — no output from CLI for 30 minutes. Process killed."
      | some req ↦ cat "Session timeout — waited " (
          cat (w.to_string (num ((now - req.received_at) / 1000))) (
            cat "s for "
              (cat req.subtype (cat " response (" (cat req.detail "). Process killed.")))))
    ]

abbrev pub kill_child : SessionActor → SessionActor
kill_child a = elim a.child [ none ↦ a | some c ↦ note a killed ]

unfoldable pub quarantine_kill : Wire → SessionActor → ℕ → SessionActor
quarantine_kill w a now =
    let failed =
      emit_state (kill_child (set_pending_slash_command a none)) now "failed" none
        (some (timeout_message w a now)) true in
    record (fail_all_pending_replies failed "Session hard timeout") { terminated = true }

unfoldable pub quarantine_tick : Wire → SessionActor → ℕ → String → SessionActor
quarantine_tick w a now id =
    if due a.quarantine_deadline now
    then quarantine_kill w a now
    else if a.interrupt_sent_for_quarantine
    then a
    else record (send_interrupt_to_cli a id) {
      interrupt_sent_for_quarantine = true;
      quarantine_deadline = some (now + quarantine_wait);
    }

unfoldable pub enter_quarantine : SessionActor → Bool → SessionActor
enter_quarantine a from_internal =
    set_pending_slash_command
      (record a {
        active_turn = none;
        quarantine_until_result = true;
        interrupt_sent_for_quarantine = false;
        quarantine_deadline = none;
        quarantine_from_internal = from_internal;
      })
      none

-- Without a turn, a waiting Ralph loop whose backoff is over asks for dispatch.
unfoldable pub idle_tick : SessionActor → ℕ → Option RalphLoopState → SessionActor
idle_tick a now none = a
idle_tick a now (some r) = elim r.phase [
  | waiting_retry ↦ if due r.retry_after now then record a { ralph_needs_dispatch = true } else a
  | RalphPhase.running ↦ a
  | RalphPhase.cancel_pending ↦ a
  | RalphPhase.paused_by_user was ↦ a
]

-- A tick while a turn is active; an extractor only logs when it is finalized.
unfoldable pub turn_tick : SessionActor → ℕ → ActiveTurn → SessionActor
turn_tick a now turn =
    if is_internal turn.origin
    then (if leb turn.hard_deadline now
        then enter_quarantine (record a { active_extractor = none }) true
        else if leb turn.soft_deadline now && is_active turn.phase
        then record a { active_turn = some (record turn { phase = draining }) }
        else a)
    else if leb turn.hard_deadline now
    then enter_quarantine a false
    else a

-- `id` is the fresh id of the interrupt request, if one is sent.
unfoldable pub on_tick_timeout : Wire → SessionActor → ℕ → String → SessionActor
on_tick_timeout w a now id =
    if a.quarantine_until_result then quarantine_tick w a now id else elim a.active_turn [
      | none ↦ idle_tick a now a.ralph_loop
      | some turn ↦ turn_tick a now turn
    ]
