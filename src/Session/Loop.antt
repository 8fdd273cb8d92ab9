-- ===== src/Session/Loop.antt =====
-- src-tauri/src/agent/session_actor.rs: the commands of the mailbox, the end of the child, and the
-- select loop, as a run over the inputs in the order in which the loop takes them.
pub mod Stale
pub mod Keeps
pub mod Controls
pub mod Commands
pub mod Runs
pub mod Whole
pub mod Answers
pub mod Registry
use open_covibe_web.Common.{
  ℕ, String, str_eq, Bool, true, false, Option, none, some, List, [], ◌∷◌, if◌then◌else◌, is_some,
  unwrap_or, lookup, remove, ◌==◌,
}
use open_covibe_web.Models.{ℤ, pos, ralph_started, RalphCompleteReason, RunStatus, is_success}
use open_covibe_web.Models.Json.{text_or, Json, str, object, get_str}
use open_covibe_web.Storage.Runs.{RunMeta, with_meta}
use open_covibe_web.Codex.Protocol.{CodexSkillRef, PendingKind, permission, elicitation, user_input}
use open_covibe_web.Codex.Server.{CodexAppServer}
use open_covibe_web.Codex.Response.{frame_response}
use open_covibe_web.Session.Turn.{AttachmentData, is_ralph}
use open_covibe_web.Session.Ralph.{cancel_pending, start}
use open_covibe_web.Session.Actor.{
  Reply, ok, err, cancel_replied, Child, SessionActor, Wire, note, send_reply, persist_and_emit,
  emit_state, write_json_line, write_frames,
}
use open_covibe_web.Session.Dispatch.{emit_ralph_complete, try_dispatch, handle_send_message}
use open_covibe_web.Session.Timeout.{fail_all_pending_replies, on_tick_timeout, kill_child}
use open_covibe_web.Session.Control.{write_control_response}
use open_covibe_web.Session.CodexControl.{handle_codex_control}
use open_covibe_web.Session.Stdout.{handle_stdout_line, had_result_error}
use open_covibe_web.Session.Stderr.{handle_stderr_line}

pub data Command : Type 0 where
  send_message : String → List AttachmentData → List CodexSkillRef → ℕ → Command
  stop : ℕ → Command
  respond_permission respond_hook_callback respond_elicitation respond_user_input :
      (request_id : String) → (response : Json) → ℕ → Command
  cancel_control_request : (request_id : String) → ℕ → Command
  start_ralph_loop :
      (prompt : String) → (max_iterations : ℕ) → (completion_promise : Option String) → ℕ → Command
  cancel_ralph_loop : ℕ → Command
  -- With the fresh id that the actor takes for it.
  send_control : (request_id : String) → Json → ℕ → Command

unfoldable pub clear_pending_interactive_request : SessionActor → String → SessionActor
clear_pending_interactive_request a id = elim a.pending_interactive_request [
  | none ↦ a
  | some req ↦
      if str_eq req.request_id id then record a { pending_interactive_request = none } else a
]

unfoldable pub write_interactive_via :
    SessionActor → PendingKind → String → Json → Option CodexAppServer → SessionActor × Reply
write_interactive_via a kind id response none = write_control_response a id response
write_interactive_via a kind id response (some server) =
    let framed = frame_response server kind id response in
    write_frames (record a { codex = some (framed.0) }) "codex interactive response" (framed.1)

-- The driver, if there is one, frames the response.
unfoldable pub write_interactive_response :
    SessionActor → PendingKind → String → Json → SessionActor × Reply
write_interactive_response a kind id response = write_interactive_via a kind id response a.codex

-- `let r = …; let _ = reply.send(r);`
abbrev pub answer : ℕ → SessionActor × Reply → SessionActor
answer channel (a, r) = send_reply a channel r

abbrev pub respond : SessionActor → PendingKind → String → Json → ℕ → SessionActor
respond a kind id response reply =
    answer reply
      (write_interactive_response (clear_pending_interactive_request a id) kind id response)

abbrev pub cancel_request : String → Json
cancel_request id = object (("type", str "control_cancel_request") ∷ ("request_id", str id) ∷ [])

-- The control request of a Claude session; `id` is fresh, and its waiter is registered first.
unfoldable pub handle_send_control_via :
    SessionActor → String → Json → Option CodexAppServer → SessionActor × Reply
handle_send_control_via a id request (some server) =
    handle_codex_control a server id (text_or "" "subtype" request) request
handle_send_control_via a id request none =
    let interrupt = str_eq (text_or "" "subtype" request) "interrupt" in
    write_json_line
      (record a {
        pending_interrupt = if interrupt then true else a.pending_interrupt;
        control_waiters = id ∷ a.control_waiters;
      })
      "control request"
      (object
        (("type", str "control_request") ∷ ("request_id", str id) ∷ ("request", request) ∷ []))

-- A Codex session has a protocol of its own.
unfoldable pub handle_send_control : SessionActor → String → Json → SessionActor × Reply
handle_send_control a id request = handle_send_control_via a id request a.codex

unfoldable pub handle_start_ralph :
    Wire → SessionActor → ℕ → String → ℕ → Option String → ℕ → SessionActor
handle_start_ralph w a now prompt max promise reply =
    if is_some a.ralph_loop
    then send_reply a reply (err "Ralph loop already active")
    else try_dispatch w
        (send_reply
          (persist_and_emit (record a { ralph_loop = some (start prompt max promise now) })
            (ralph_started prompt max promise now))
          reply ok)
        now

abbrev pub has_active_ralph_turn : SessionActor → Bool
has_active_ralph_turn a = elim a.active_turn [ none ↦ false | some t ↦ is_ralph t.origin ]

-- A running Ralph turn is waited for; otherwise the loop ends at once.
unfoldable pub handle_cancel_ralph : SessionActor → ℕ → SessionActor
handle_cancel_ralph a reply = elim a.ralph_loop [
  | none ↦ send_reply a reply (err "No active ralph loop")
  | some r ↦
      if has_active_ralph_turn a
      then note (record a { ralph_loop = some (record r { phase = cancel_pending }) })
          (cancel_replied reply r.iteration false)
      else emit_ralph_complete (note a (cancel_replied reply r.iteration true))
          RalphCompleteReason.cancelled
]

-- Dropping stdin, and killing the child.
unfoldable pub handle_stop : SessionActor → SessionActor
handle_stop a = kill_child (record a { stdin = none })

-- A command's effect, and whether the loop goes on.
unfoldable pub handle_command : Wire → SessionActor → ℕ → Command → SessionActor × Bool
handle_command w a now (send_message text attachments skills reply) =
    (handle_send_message w a now text attachments skills reply, true)
handle_command w a now (stop reply) = (send_reply (handle_stop a) reply ok, false)
handle_command w a now (respond_permission id response reply) =
    (respond a permission id response reply, true)
handle_command w a now (respond_elicitation id response reply) =
    (respond a elicitation id response reply, true)
handle_command w a now (respond_user_input id response reply) =
    (respond a user_input id response reply, true)
handle_command w a now (respond_hook_callback id response reply) = (
  answer reply (write_control_response (clear_pending_interactive_request a id) id response),
  true,
)
handle_command w a now (cancel_control_request id reply) = (
  answer reply (
      write_json_line (clear_pending_interactive_request a id) "cancel control request"
        (cancel_request id)),
  true,
)
handle_command w a now (start_ralph_loop prompt max promise reply) =
    (handle_start_ralph w a now prompt max promise reply, true)
handle_command w a now (cancel_ralph_loop reply) = (handle_cancel_ralph a reply, true)
handle_command w a now (send_control id request reply) =
    (answer reply (handle_send_control a id request), true)

-- `child.wait()`, where an error counts as exit code 1.
abbrev pub exit_code_of : Option Child → Option ℤ
exit_code_of none = none
exit_code_of (some c) = unwrap_or (some (pos 1)) c.wait

abbrev pub terminal_status : Option String → Option ℤ → RunStatus
terminal_status subtype code =
    if had_result_error subtype
    then RunStatus.failed
    else if is_success code
    then RunStatus.completed
    else RunStatus.failed

abbrev pub final_meta : Option ℤ → ℕ → RunMeta → RunMeta
final_meta code now m = record m {
  status = terminal_status m.result_subtype code;
  exit_code = code;
  ended_at = some (unwrap_or now m.ended_at);
}

unfoldable pub finalize_meta : SessionActor → ℕ → Option ℤ → SessionActor
finalize_meta a now code = record a { file = (with_meta (final_meta code now) a.file).0 }

abbrev pub eof_state : Bool → Option ℤ → String
eof_state cancelled code =
    if cancelled then "stopped" else if is_success code then "completed" else "failed"

-- `message` shows an exit code as the program prints it.
unfoldable pub handle_eof : (Option ℤ → String) → SessionActor → ℕ → SessionActor
handle_eof message a now =
    let code = exit_code_of a.child in
    let ended = record (fail_all_pending_replies a "Session ended") {
      active_turn = none;
      active_extractor = none;
      quarantine_until_result = false;
    } in
    if a.protocol.got_result_event
    then finalize_meta ended now code
    else let s = eof_state a.is_cancelled code in
      emit_state ended now s code (if str_eq s "failed" then some (message code) else none) true

unfoldable pub cleanup : SessionActor → SessionActor
cleanup a = record (fail_all_pending_replies (record a { stdin = none }) "Session cleanup") {
  control_waiters = [];
}

-- The entry of the run in the session map goes only if it is this actor's own.
unfoldable pub deregister : String → ℕ → List (String × ℕ) → List (String × ℕ)
deregister run_id tag sessions = elim (lookup run_id sessions) [
  | none ↦ sessions
  | some other ↦ if other == tag then remove run_id sessions else sessions
]

pub data Input : Type 0 where
  command : Command → Input
  stdout_line stderr_line : String → Input
  -- The end of stdout, or an error of reading it.
  stdout_eof : Input
  -- A tick, with a fresh id for the interrupt request.
  tick : String → Input
  -- The application cancels; the loop notices it.
  cancel_requested cancelled : Input
  mailbox_closed : Input

abbrev pub after_tick : Wire → SessionActor → ℕ → SessionActor
after_tick w a now =
    if a.ralph_needs_dispatch
    then try_dispatch w (record a { ralph_needs_dispatch = false }) now
    else a

-- One round of the select loop, and whether the loop goes on.
unfoldable pub round : (Option ℤ → String) → Wire → SessionActor → ℕ → Input → SessionActor × Bool
round message w a now (command c) = handle_command w a now c
round message w a now (stdout_line text) = (handle_stdout_line w a now text, true)
round message w a now (stderr_line text) = (handle_stderr_line a text, true)
round message w a now stdout_eof = (handle_eof message a now, false)
round message w a now (tick id) = (after_tick w (on_tick_timeout w a now id) now, true)
round message w a now cancel_requested = (record a { is_cancelled = true }, true)
round message w a now cancelled = (handle_stop a, false)
round message w a now mailbox_closed = (a, false)

-- The handshake of Codex, before the loop.
abbrev pub handshake : SessionActor → List Json → SessionActor
handshake a [] = a
handshake a (m ∷ ms) = handshake ((write_json_line a "codex handshake" m).0) ms

unfoldable pub begin_run : SessionActor → SessionActor
begin_run a = handshake (record a { codex_startup = [] }) a.codex_startup

-- The actor after these inputs: waiting for more, or cleaned up.
unfoldable pub run_loop :
    (Option ℤ → String) → Wire → SessionActor → List (ℕ × Input) → SessionActor
run_loop message w a [] = if a.terminated then cleanup a else a
run_loop message w a ((now, i) ∷ is) =
    let next = round message w a now i in
    let rest = run_loop message w (next.0) is in
    if a.terminated then cleanup a else if next.1 then rest else cleanup (next.0)
