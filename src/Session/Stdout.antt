-- ===== src/Session/Stdout.antt =====
-- src-tauri/src/agent/session_actor.rs: a line of the child's stdout. In quarantine a line only
-- ends the quarantine; a control message goes to `Control`; the events of any other line are routed
-- by the turn that is active.
pub mod Opening
pub mod Results
pub mod Frozen
pub mod Hidden
pub mod Deadline
pub mod Keeps
pub mod Lines
use text.Mathlib.Text.{starts_with}
use open_covibe_web.Common.{
  ℕ, ◌+◌, String, str_eq, Bool, true, false, not, ◌&&◌, ◌||◌, Option, none, some, List, [], ◌∷◌,
  ◌++◌, if◌then◌else◌, is_some, trim, unwrap_or, ◌%◌, ◌^◌,
}
use open_covibe_web.Models.{
  ℤ, pos, BusEvent, run_state, command_output, message_complete, session_init, usage_update, raw,
  tool, RunStatus,
}
use open_covibe_web.Models.Json.{Json, str, get_str}
use open_covibe_web.Storage.Runs.{RunMeta, with_meta, persist_result_error}
use open_covibe_web.Claude.{map_event}
use open_covibe_web.Codex.Protocol.{
  ParsedLine, PendingInteractive, PendingKind, permission, elicitation, user_input, LifecycleSignal,
  turn_started, turn_completed, turn_failed,
}
use open_covibe_web.Codex.Parse.{parse_line}
use open_covibe_web.Codex.Server.{CodexAppServer, is_ready}
use open_covibe_web.Session.Turn.{
  ActiveTurn, ContextExtractor, apply_activity_reset, is_internal, is_ralph, on_event,
}
use open_covibe_web.Session.Ralph.{RalphLoopState}
use open_covibe_web.Session.Actor.{
  resolved, context_snapshot, SessionActor, Wire, note, relay, persist_and_emit,
  set_pending_slash_command, emit_state, persist_idle_running,
}
use open_covibe_web.Session.Dispatch.{try_dispatch}
use open_covibe_web.Session.Finish.{end_turn_and_dispatch, on_user_turn_finished, ralph_on_turn_end}
use open_covibe_web.Session.Control.{
  handle_control_event, handle_control_event_internal, waits, remove_waiter,
}

-- `validate_bus_event(…).is_none()`: only a tool event without an id is dropped.
unfoldable pub is_valid_event : BusEvent → Bool
is_valid_event (tool tag id _) = not (str_eq id "")
is_valid_event _ = true

abbrev pub is_boundary : String → Bool
is_boundary state = str_eq state "idle" || str_eq state "failed"

abbrev pub is_internal_turn : SessionActor → Bool
is_internal_turn a = elim a.active_turn [ none ↦ false | some t ↦ is_internal t.origin ]

abbrev pub count_invalid : SessionActor → SessionActor
count_invalid a = record a {
  protocol = record a.protocol {
    stats = record a.protocol.stats {
      invalid_tool_count = (a.protocol.stats.invalid_tool_count + 1) % 2 ^ 32;
    };
  };
}

-- The reset of the hard deadline on output of the CLI.
abbrev pub touch : SessionActor → ℕ → SessionActor
touch a now = record a {
  active_turn = (apply_activity_reset a.quarantine_until_result a.active_turn now).0;
}

unfoldable pub lift_quarantine : SessionActor → SessionActor
lift_quarantine a =
    set_pending_slash_command
      (record a {
        quarantine_until_result = false;
        quarantine_deadline = none;
        interrupt_sent_for_quarantine = false;
        quarantine_from_internal = false;
      })
      none

-- The loop over the events of a line in quarantine.
unfoldable pub quarantine_events : Wire → SessionActor → ℕ → List BusEvent → SessionActor
quarantine_events w a now [] = a
quarantine_events w a now (run_state s _ _ ∷ evs) =
    let rest = quarantine_events w a now evs in
    if is_boundary s then try_dispatch w (lift_quarantine a) now else rest
quarantine_events w a now (ev ∷ evs) =
    quarantine_events w (if is_valid_event ev then a else count_invalid a) now evs

abbrev pub feed : SessionActor → ContextExtractor → BusEvent → SessionActor
feed a e ev =
    let fed = on_event e ev in
    let b = record a { active_extractor = some (fed.0) } in
    elim (fed.1) [ none ↦ b | some content ↦ note b (context_snapshot content e.for_turn_index) ]

unfoldable pub extract : SessionActor → BusEvent → SessionActor
extract a ev = elim a.active_extractor [ none ↦ a | some e ↦ feed a e ev ]

abbrev is_ralph_turn : SessionActor → Bool
is_ralph_turn a = elim a.active_turn [ none ↦ false | some t ↦ is_ralph t.origin ]

abbrev push_text : String → RalphLoopState → RalphLoopState
push_text text r = record r { turn_toplevel_texts = r.turn_toplevel_texts ++ text ∷ [] }

-- Top-level text counts for the loop, during a Ralph turn.
abbrev pub accumulate : SessionActor → String → Option String → SessionActor
accumulate a text parent =
    if not (is_some parent) && is_ralph_turn a
    then elim a.ralph_loop [ none ↦ a | some r ↦ record a { ralph_loop = some (push_text text r) } ]
    else a

unfoldable pub internal_event : Wire → SessionActor → ℕ → BusEvent → SessionActor
internal_event w a now (command_output content p) = extract a (command_output content p)
internal_event w a now (message_complete text parent p) =
    accumulate (extract a (message_complete text parent p)) text parent
internal_event w a now (run_state s code error) = end_turn_and_dispatch w a now
internal_event w a now _ = a

-- Whether the last result of the CLI was an error.
abbrev pub had_result_error : Option String → Bool
had_result_error none = false
had_result_error (some s) = starts_with s "error"

abbrev pub save_error : SessionActor → Option String → SessionActor
save_error a error = record a {
  file = (persist_result_error error a.protocol.result_subtype a.file).0;
}

-- The run state goes out, and the result to `meta.json`.
unfoldable pub report : SessionActor → ℕ → String → Option ℤ → Option String → SessionActor
report a now s code error =
    let shown = emit_state a now s code error false in
    if str_eq s "idle"
    then (let idled = persist_idle_running shown now RunStatus.idle in
        if had_result_error idled.protocol.result_subtype then save_error idled error else idled)
    else if str_eq s "failed"
    then save_error shown error
    else shown

-- The end of a user or Ralph turn.
unfoldable pub finish_turn : Wire → SessionActor → ℕ → ActiveTurn → Bool → SessionActor
finish_turn w a now turn went_wrong =
    let over = on_user_turn_finished (record a { active_turn = none }) turn.origin in
    try_dispatch w
      (ralph_on_turn_end (set_pending_slash_command (record over { active_extractor = none }) none)
        now turn.origin went_wrong)
      now

abbrev pub close : Wire → SessionActor → ℕ → String → Option String → SessionActor
close w a now s error =
    if is_boundary s
    then elim a.active_turn [
      | none ↦ a
      | some turn ↦ finish_turn w a now turn (str_eq s "failed" || is_some error)
    ]
    else a

abbrev pub acknowledge : SessionActor → SessionActor
acknowledge a = record a {
  pending_interrupt = false;
  protocol = record a.protocol { got_result_event = false; result_subtype = none };
}

-- The result of an interrupted turn only says that it was cancelled.
unfoldable pub user_run_state :
    Wire → SessionActor → ℕ → String → Option ℤ → Option String → SessionActor
user_run_state w a now s code error =
    if a.pending_interrupt && is_boundary s
    then close w (report (acknowledge a) now "idle" code none) now "idle" none
    else close w (report a now s code error) now s error

abbrev pub set_session : String → RunMeta → RunMeta
set_session sid m = record m { session_id = some sid; conversation_ref = some sid }

abbrev pub with_index : SessionActor → Option ℕ → Option ℕ
with_index a given = elim a.active_turn [ none ↦ given | some t ↦ some t.turn_index ]

unfoldable pub user_event : Wire → SessionActor → ℕ → BusEvent → SessionActor
user_event w a now (run_state s code error) = user_run_state w a now s code error
user_event w a now (session_init (some sid) p) =
    relay (record a { file = (with_meta (set_session sid) a.file).0 }) (session_init (some sid) p)
user_event w a now (usage_update index p) = relay a (usage_update (with_index a index) p)
user_event w a now ev = relay a ev

unfoldable pub handle_event : Wire → SessionActor → ℕ → BusEvent → SessionActor
handle_event w a now ev =
    if is_valid_event ev
    then (if is_internal_turn a then internal_event w a now ev else user_event w a now ev)
    else count_invalid a

unfoldable pub handle_events : Wire → SessionActor → ℕ → List BusEvent → SessionActor
handle_events w a now [] = a
handle_events w a now (ev ∷ evs) = handle_events w (handle_event w a now ev) now evs

abbrev pub is_control : String → Bool
is_control t =
    str_eq t "control_response" || str_eq t "control_cancel_request" || str_eq t "control_request"

abbrev pub mapped : Wire → SessionActor → Json → SessionActor × List BusEvent
mapped w a parsed =
    let out = map_event w.outside a.protocol parsed in (record a { protocol = out.0 }, out.1)

-- A parsed line, after the reset of the deadline.
unfoldable pub route : Wire → SessionActor → ℕ → Json → String → SessionActor
route w a now parsed t =
    if a.quarantine_until_result
    then (if is_control t
        then handle_control_event_internal a parsed t
        else let out = mapped w a parsed in quarantine_events w (out.0) now (out.1))
    else if is_control t
    then (if is_internal_turn a
        then handle_control_event_internal a parsed t
        else handle_control_event a now parsed t)
    else let out = mapped w a parsed in handle_events w (out.0) now (out.1)

-- A line that is no JSON is shown as it is, unless the actor is hiding the CLI's output.
unfoldable pub unparsed : SessionActor → String → SessionActor
unparsed a text =
    let b = record a { json_parse_fail_count = a.json_parse_fail_count + 1 } in
    if a.quarantine_until_result || is_internal_turn a
    then b
    else persist_and_emit b (raw "claude_stdout_text" (str text))

abbrev subtype_name : PendingKind → String
subtype_name permission = "can_use_tool"
subtype_name elicitation = "elicitation"
subtype_name user_input = "request_user_input"

-- The parts of `handle_codex_line`, in their order.
abbrev pub answer_waiter : SessionActor → Option (String × Json) → SessionActor
answer_waiter a none = a
answer_waiter a (some (id, value)) =
    if waits id a.control_waiters
    then note (record a { control_waiters = remove_waiter id a.control_waiters })
        (resolved id value)
    else a

abbrev set_thread : String → RunMeta → RunMeta
set_thread tid m = record m { conversation_ref = some tid }

abbrev pub keep_thread : SessionActor → Option String → SessionActor
keep_thread a none = a
keep_thread a (some tid) = record a { file = (with_meta (set_thread tid) a.file).0 }

abbrev pub codex_opened : SessionActor → Bool
codex_opened a = elim a.codex [ none ↦ false | some s ↦ is_ready s ]

unfoldable pub open_gate : Wire → SessionActor → ℕ → SessionActor
open_gate w a now =
    if not a.codex_ready && codex_opened a
    then try_dispatch w (record a { codex_ready = true }) now
    else a

abbrev pub emit_valid : SessionActor → List BusEvent → SessionActor
emit_valid a [] = a
emit_valid a (ev ∷ evs) = emit_valid (if is_valid_event ev then relay a ev else a) evs

abbrev pub track : SessionActor → ℕ → Option PendingInteractive → SessionActor
track a now none = a
track a now (some p) = record a {
  pending_interactive_request = some (record {
    request_id = p.request_id;
    subtype = subtype_name p.kind;
    detail = "";
    received_at = now;
  });
}

abbrev pub idle_now : SessionActor → ℕ → Option ℤ → Option String → SessionActor
idle_now a now code error =
    persist_idle_running (emit_state a now "idle" code error true) now RunStatus.idle

unfoldable pub follow : Wire → SessionActor → ℕ → Option LifecycleSignal → SessionActor
follow w a now none = a
follow w a now (some turn_started) = emit_state a now "running" none none false
follow w a now (some turn_completed) =
    end_turn_and_dispatch w (idle_now a now (some (pos 0)) none) now
follow w a now (some (turn_failed error)) = end_turn_and_dispatch w (idle_now a now none error) now

abbrev pub codex_step : Wire → SessionActor → ℕ → CodexAppServer × ParsedLine → SessionActor
codex_step w a now (server, p) =
    let told =
      keep_thread (answer_waiter (record a { codex = some server }) p.control_response)
        p.thread_id in
    follow w (track (emit_valid (open_gate w told now) p.events) now p.interactive) now p.lifecycle

unfoldable pub handle_codex_line : Wire → SessionActor → ℕ → CodexAppServer → String → SessionActor
handle_codex_line w a now server text =
    codex_step w (touch a now) now (parse_line w.to_string server (w.from_str text))

abbrev pub handle_parsed : Wire → SessionActor → ℕ → Json → SessionActor
handle_parsed w a now parsed =
    route w (touch a now) now parsed (unwrap_or "" (get_str "type" parsed))

unfoldable pub handle_stdout_line : Wire → SessionActor → ℕ → String → SessionActor
handle_stdout_line w a now line =
    let text = trim line in
    if str_eq text "" then a else elim a.codex [
      | some server ↦ handle_codex_line w a now server text
      | none ↦ elim (w.from_str text) [
        | none ↦ unparsed a text
        | some parsed ↦ handle_parsed w a now parsed
      ]
    ]
