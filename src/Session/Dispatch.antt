-- ===== src/Session/Dispatch.antt =====
-- src-tauri/src/agent/session_actor.rs: which turn starts next. `try_dispatch` starts a user, Ralph
-- or internal turn if none is active; `handle_send_message` queues a user message first. The clock
-- is read once for an event, as `now`.
pub mod Order
pub mod Alone
pub mod Sends
use text.Mathlib.Text.{starts_with}
pub mod Keeps
pub mod Conserve
use open_covibe_web.Common.{
  ℕ, ◌+◌, ◌*◌, String, Bool, false, not, ◌&&◌, ◌||◌, Option, none, some, List, [], ◌∷◌, ◌++◌, leb,
  ◌==◌, if◌then◌else◌, is_some, trim,
}
use open_covibe_web.Models.{
  user_message, ralph_complete, RalphCompleteReason, fail_stopped, RunStatus,
}
use open_covibe_web.Codex.Protocol.{CodexSkillRef}
use open_covibe_web.Session.Turn.{
  UserTurnKind, normal, slash, TurnOrigin, user, internal, active, ActiveTurn, AttachmentData,
  UserTurnTicket, InternalJob, user_soft_timeout, user_hard_timeout, internal_soft_timeout,
  internal_hard_timeout,
}
use open_covibe_web.Session.Ralph.{
  RalphLoopState, RalphPhase, waiting_retry, paused_by_user, cancel_pending,
}
use open_covibe_web.Session.Actor.{
  ok, err, SessionActor, Wire, persist_and_emit, send_reply, set_pending_slash_command, emit_state,
  persist_idle_running, write_user_to_stdin,
}

-- The turn that a start sets up.
abbrev pub begin : TurnOrigin → ℕ → ℕ → ℕ → ℕ → ℕ → ActiveTurn
begin origin seq index now soft hard = record {
  turn_seq = seq;
  origin = origin;
  phase = active;
  started_at = now;
  soft_deadline = now + soft;
  hard_deadline = now + hard;
  turn_index = index;
}

-- A user message reached the CLI: its event, and the run is running.
unfoldable pub announce : SessionActor → ℕ → String → SessionActor
announce a now text =
    persist_idle_running
      (emit_state (persist_and_emit a (user_message text)) now "running" none none false) now
      RunStatus.running

abbrev pub pending_slash : UserTurnKind → Option String
pending_slash (slash command) = some command
pending_slash (normal id) = none

unfoldable pub start_user_turn : Wire → SessionActor → ℕ → UserTurnTicket → SessionActor
start_user_turn w a now t =
    let written =
      write_user_to_stdin w (set_pending_slash_command a (pending_slash t.kind)) t.text
        t.attachments t.skills in
    elim (written.1) [
      | err e ↦ send_reply (written.0) t.reply (err e)
      | ok ↦ record (send_reply (announce (written.0) now t.text) t.reply ok) {
        active_turn =
            some (
              begin (user t.kind) t.ticket_seq t.turn_index now user_soft_timeout
                user_hard_timeout);
      }
    ]

unfoldable pub start_internal_turn : Wire → SessionActor → ℕ → InternalJob → SessionActor
start_internal_turn w a now job =
    let written =
      write_user_to_stdin w (set_pending_slash_command a (some "/context")) "/context" [] [] in
    elim (written.1) [
      | err e ↦
          set_pending_slash_command (record (written.0) { must_run_internal_for_turn = none }) none
      | ok ↦ record (written.0) {
        active_turn = some (
            begin (internal job.kind) job.job_seq job.for_turn_index now internal_soft_timeout
              internal_hard_timeout);
        active_extractor = some (record { for_turn_index = job.for_turn_index; captured = false });
        last_auto_context_for = some job.for_auto_ctx_id;
        must_run_internal_for_turn = none;
      }
    ]

abbrev pub iteration_of : Option RalphLoopState → ℕ
iteration_of none = 0
iteration_of (some r) = r.iteration

unfoldable pub emit_ralph_complete : SessionActor → RalphCompleteReason → SessionActor
emit_ralph_complete a reason =
    persist_and_emit (record a { ralph_loop = none })
      (ralph_complete reason (iteration_of a.ralph_loop))

-- A prompt that could not be written counts as a failure of the loop.
abbrev pub fail_once : RalphLoopState → ℕ → RalphLoopState
fail_once r now = record r {
  consecutive_failures = r.consecutive_failures + 1;
  retry_after = some (now + 2000 * (r.consecutive_failures + 1));
  phase = waiting_retry;
}

unfoldable pub ralph_write_failed : SessionActor → ℕ → Option RalphLoopState → SessionActor
ralph_write_failed a now none = a
ralph_write_failed a now (some r) =
    if leb r.max_consecutive_failures (r.consecutive_failures + 1)
    then emit_ralph_complete
        (record a {
          ralph_loop = some (record r { consecutive_failures = r.consecutive_failures + 1 });
        })
        fail_stopped
    else record a { ralph_loop = some (fail_once r now) }

abbrev pub cleared : Option RalphLoopState → Option RalphLoopState
cleared none = none
cleared (some r) = some (record r { turn_toplevel_texts = [] })

unfoldable pub start_ralph_turn : Wire → SessionActor → ℕ → String → SessionActor
start_ralph_turn w a now prompt =
    let numbered = record a {
      next_turn_index = a.next_turn_index + 1;
      next_turn_seq = a.next_turn_seq + 1;
      ralph_loop = cleared a.ralph_loop;
    } in
    let written = write_user_to_stdin w numbered prompt [] [] in
    elim (written.1) [
      | err e ↦ ralph_write_failed (written.0) now (written.0).ralph_loop
      | ok ↦ record (announce (written.0) now prompt) {
        active_turn = some (
            begin TurnOrigin.ralph a.next_turn_seq a.next_turn_index now user_soft_timeout
              user_hard_timeout);
      }
    ]

-- A user message takes precedence: a loop that is running or waiting pauses.
abbrev pub pause : RalphLoopState → RalphLoopState
pause r = elim r.phase [
  | RalphPhase.running ↦ record r { phase = paused_by_user RalphPhase.running }
  | waiting_retry ↦ record r { phase = paused_by_user waiting_retry }
  | cancel_pending ↦ r
  | paused_by_user was ↦ r
]

abbrev pub pause_loop : Option RalphLoopState → Option RalphLoopState
pause_loop none = none
pause_loop (some r) = some (pause r)

-- The queued job for the turn that the barrier names, and the other jobs.
abbrev pub take_job : ℕ → List InternalJob → Option (InternalJob × List InternalJob)
take_job turn [] = none
take_job turn (j ∷ js) =
    let later = take_job turn js in
    if j.for_turn_index == turn
    then some (j, js)
    else elim later [ none ↦ none | some (k, ks) ↦ some (k, j ∷ ks) ]

unfoldable pub dispatch_internal : Wire → SessionActor → ℕ → List InternalJob → SessionActor
dispatch_internal w a now [] = a
dispatch_internal w a now (job ∷ jobs) =
    start_internal_turn w (record a { queued_internal = jobs }) now job

-- Whether a waiting loop may retry.
abbrev pub due : Option ℕ → ℕ → Bool
due none now = false
due (some deadline) now = leb deadline now

-- A running loop, or a waiting one that is due, sends its prompt; else the internal queue is next.
unfoldable pub dispatch_loop : Wire → SessionActor → ℕ → RalphLoopState → RalphPhase → SessionActor
dispatch_loop w a now r RalphPhase.running = start_ralph_turn w a now r.prompt
dispatch_loop w a now r waiting_retry =
    if due r.retry_after now
    then start_ralph_turn w
        (record a {
          ralph_loop = some (record r { phase = RalphPhase.running; retry_after = none });
        })
        now r.prompt
    else dispatch_internal w a now a.queued_internal
dispatch_loop w a now r cancel_pending = dispatch_internal w a now a.queued_internal
dispatch_loop w a now r (paused_by_user was) = dispatch_internal w a now a.queued_internal

unfoldable pub dispatch_ralph : Wire → SessionActor → ℕ → Option RalphLoopState → SessionActor
dispatch_ralph w a now none = dispatch_internal w a now a.queued_internal
dispatch_ralph w a now (some r) = dispatch_loop w a now r r.phase

unfoldable pub dispatch_user : Wire → SessionActor → ℕ → List UserTurnTicket → SessionActor
dispatch_user w a now [] = dispatch_ralph w a now a.ralph_loop
dispatch_user w a now (ticket ∷ tickets) =
    start_user_turn w (record a { queued_user = tickets; ralph_loop = pause_loop a.ralph_loop }) now
      ticket

-- No dispatch while a turn runs, in quarantine, after the end, or before the Codex thread is open.
abbrev pub is_blocked : SessionActor → Bool
is_blocked a =
    is_some a.active_turn
    || a.quarantine_until_result
    || a.terminated
    || (is_some a.codex && not a.codex_ready)

-- The barrier, if it is set, lets only its own internal job through, or else a loop.
unfoldable pub dispatch_barrier :
    Wire → SessionActor → ℕ → Option (InternalJob × List InternalJob) → SessionActor
dispatch_barrier w a now none = dispatch_ralph w a now a.ralph_loop
dispatch_barrier w a now (some (job, jobs)) =
    start_internal_turn w (record a { queued_internal = jobs }) now job

unfoldable pub dispatch_next : Wire → SessionActor → ℕ → Option ℕ → SessionActor
dispatch_next w a now none = dispatch_user w a now a.queued_user
dispatch_next w a now (some turn) = dispatch_barrier w a now (take_job turn a.queued_internal)

unfoldable pub try_dispatch : Wire → SessionActor → ℕ → SessionActor
try_dispatch w a now =
    if is_blocked a then a else dispatch_next w a now a.must_run_internal_for_turn

-- The ticket of a message: every message takes a turn index, a normal one an auto-context id too.
abbrev pub ticket_of :
    SessionActor → String → List AttachmentData → List CodexSkillRef → ℕ → UserTurnTicket
ticket_of a text attachments skills reply = record {
  ticket_seq = a.next_turn_seq;
  text = text;
  attachments = attachments;
  skills = skills;
  kind = if starts_with (trim text) "/" then slash (trim text) else normal a.next_auto_ctx_id;
  turn_index = a.next_turn_index;
  reply = reply;
}

unfoldable pub enqueue :
    SessionActor → String → List AttachmentData → List CodexSkillRef → ℕ → SessionActor
enqueue a text attachments skills reply = record a {
  queued_user = a.queued_user ++ ticket_of a text attachments skills reply ∷ [];
  next_turn_index = a.next_turn_index + 1;
  next_auto_ctx_id =
      if starts_with (trim text) "/" then a.next_auto_ctx_id else a.next_auto_ctx_id + 1;
  next_turn_seq = a.next_turn_seq + 1;
}

unfoldable pub handle_send_message :
    Wire → SessionActor → ℕ → String → List AttachmentData → List CodexSkillRef → ℕ → SessionActor
handle_send_message w a now text attachments skills reply =
    if a.terminated
    then send_reply a reply (err "Session terminated")
    else try_dispatch w (enqueue a text attachments skills reply) now
