-- ===== src/Session/Actor/State.antt =====
-- `SessionActor`, its run state and the status of its run on disk.
use open_covibe_web.Common.{
  ℕ, String, str_eq, Bool, true, false, ◌||◌, Option, none, some, List, [], ◌∷◌, if◌then◌else◌,
}
use open_covibe_web.Models.{ℤ, BusEvent, run_state, RunStatus}
use open_covibe_web.Models.Json.{Json}
use open_covibe_web.Storage.Runs.{
  RunMeta, MetaFile, get_run, with_meta, update_status, persist_result_error, set_result_error,
}
use open_covibe_web.Claude.State.{ProtocolState, new}
use open_covibe_web.Claude.{Outside}
use open_covibe_web.Codex.Protocol.{CodexTurnOverrides}
use open_covibe_web.Codex.Server.{CodexAppServer, no_overrides}
use open_covibe_web.Session.Turn.{
  ActiveTurn, AttachmentData, UserTurnTicket, InternalJob, ContextExtractor,
}
use open_covibe_web.Session.Ralph.{RalphLoopState}

pub data Reply : Type 0 where
  ok : Reply
  err : String → Reply

-- What goes over stdin: a user message of the stream-json protocol, or a JSON value.
pub data Line : Type 0 where
  user_payload : (text : String) → List AttachmentData → Line
  json : Json → Line

pub data Effect : Type 0 where
  -- `persist_and_emit`.
  emitted : BusEvent → Effect
  -- The same, of an event that the CLI's output stands for.
  relayed : BusEvent → Effect
  -- What is sent but not persisted: `ocv:status-changed`, a bus event, `context-snapshot`.
  status_changed : RunStatus → Effect
  realtime : BusEvent → Effect
  context_snapshot : (content : String) → (turn_index : ℕ) → Effect
  wrote : Line → Effect
  replied : (reply : ℕ) → Reply → Effect
  -- The answer to `CancelRalphLoop`.
  cancel_replied : (reply : ℕ) → (iteration : ℕ) → (immediate : Bool) → Effect
  -- A control waiter got its response.
  resolved : (request_id : String) → Json → Effect
  killed : Effect

-- A pipe to the child. What becomes of its n-th write is up to the system: an error or none.
pub record Pipe : Type 0 where
  pub writes : ℕ
  pub write_error : ℕ → Option String
  pub flush_error : ℕ → Option String

-- The child; `wait` is what waiting for it returns, with `none` for an error.
pub record Child : Type 0 where
  pub wait : Option (Option ℤ)

pub record PendingInteractiveRequest : Type 0 where
  pub request_id : String
  pub subtype : String
  pub detail : String
  pub received_at : ℕ

pub record SessionActor : Type 0 where
  pub protocol : ProtocolState
  pub codex : Option CodexAppServer
  pub codex_startup : List Json
  pub codex_ready : Bool
  pub codex_overrides : CodexTurnOverrides
  pub state : String
  pub stdin : Option Pipe
  pub child : Option Child
  pub is_cancelled : Bool
  pub pending_interrupt : Bool
  pub control_waiters : List String
  pub active_turn : Option ActiveTurn
  pub active_extractor : Option ContextExtractor
  pub queued_user : List UserTurnTicket
  pub queued_internal : List InternalJob
  pub next_turn_index : ℕ
  pub next_auto_ctx_id : ℕ
  pub next_turn_seq : ℕ
  pub last_auto_context_for : Option ℕ
  pub must_run_internal_for_turn : Option ℕ
  pub quarantine_until_result : Bool
  pub quarantine_deadline : Option ℕ
  pub interrupt_sent_for_quarantine : Bool
  pub quarantine_from_internal : Bool
  pub terminated : Bool
  pub json_parse_fail_count : ℕ
  pub ralph_loop : Option RalphLoopState
  pub ralph_needs_dispatch : Bool
  pub pending_interactive_request : Option PendingInteractiveRequest
  -- `meta.json` of the run, which the storage keeps, and the effects so far.
  pub file : MetaFile
  pub log : List Effect

-- The actor that `spawn_actor` builds.
unfoldable pub spawn :
    (is_resume : Bool)
    → Option CodexAppServer
    → List Json
    → Pipe
    → Child
    → ℕ
    → ℕ
    → MetaFile
    → SessionActor
spawn is_resume codex startup pipe child turn_index auto_ctx_id file = record {
  protocol = new is_resume;
  codex = codex;
  codex_startup = startup;
  codex_ready = false;
  codex_overrides = no_overrides;
  state = "";
  stdin = some pipe;
  child = some child;
  is_cancelled = false;
  pending_interrupt = false;
  control_waiters = [];
  active_turn = none;
  active_extractor = none;
  queued_user = [];
  queued_internal = [];
  next_turn_index = turn_index;
  next_auto_ctx_id = auto_ctx_id;
  next_turn_seq = 0;
  last_auto_context_for = none;
  must_run_internal_for_turn = none;
  quarantine_until_result = false;
  quarantine_deadline = none;
  interrupt_sent_for_quarantine = false;
  quarantine_from_internal = false;
  terminated = false;
  json_parse_fail_count = 0;
  ralph_loop = none;
  ralph_needs_dispatch = false;
  pending_interactive_request = none;
  file = file;
  log = [];
}

-- A file that was saved for an attachment.
pub record SavedFile : Type 0 where
  pub path : String
  pub size : ℕ

pub record Wire : Type 0 where
  -- What `ProtocolState::map_event` calls.
  pub outside : Outside
  -- `serde_json::from_str`.
  pub from_str : String → Option Json
  -- `save_attachment_to_disk`, and the size of the file.
  pub save_attachment : AttachmentData → Option SavedFile
  -- How serde_json prints a value; a number is in decimal.
  pub to_string : Json → String

abbrev pub note : SessionActor → Effect → SessionActor
note a e = record a { log = e ∷ a.log }

abbrev pub persist_and_emit : SessionActor → BusEvent → SessionActor
persist_and_emit a ev = note a (emitted ev)

abbrev pub relay : SessionActor → BusEvent → SessionActor
relay a ev = note a (relayed ev)

abbrev pub send_reply : SessionActor → ℕ → Reply → SessionActor
send_reply a channel r = note a (replied channel r)

abbrev pub set_pending_slash_command : SessionActor → Option String → SessionActor
set_pending_slash_command a cmd = record a {
  protocol = record a.protocol { pending_slash_command = cmd };
}

unfoldable pub map_state_to_run_status : String → Option RunStatus
map_state_to_run_status s =
    if str_eq s "spawning" || str_eq s "running"
    then some RunStatus.running
    else if str_eq s "completed"
    then some RunStatus.completed
    else if str_eq s "failed"
    then some RunStatus.failed
    else if str_eq s "stopped"
    then some RunStatus.stopped
    else if str_eq s "idle"
    then some RunStatus.idle
    else none

-- The three conditional steps of `emit_state` on the run's file and the protocol.
abbrev status_step : ℕ → String → Option ℤ → Option String → MetaFile → MetaFile
status_step now s code error f = elim (map_state_to_run_status s) [
  | none ↦ f
  | some status ↦ (update_status status code (if str_eq s "failed" then error else none) now f).0
]

abbrev clear_errors : RunMeta → RunMeta
clear_errors m = set_result_error none none m

abbrev meta_step : ℕ → String → Option ℤ → Option String → Option String → MetaFile → MetaFile
meta_step now s code error subtype f =
    let f1 = status_step now s code error f in
    let f2 = if str_eq s "running" then (with_meta clear_errors f1).0 else f1 in
    if str_eq s "failed"
    then (persist_result_error error (if str_eq s "running" then none else subtype) f2).0
    else f2

unfoldable pub emit_state :
    SessionActor → ℕ → String → Option ℤ → Option String → Bool → SessionActor
unfolding map_state_to_run_status update_status persist_result_error with_meta
emit_state a now s code error update_meta =
    if str_eq a.state s
    then a
    else let b = persist_and_emit (record a { state = s }) (run_state s code error) in
      if update_meta
      then record b {
        file = meta_step now s code error a.protocol.result_subtype a.file;
        protocol =
            if str_eq s "running" then record a.protocol { result_subtype = none } else a.protocol;
      }
      else b

-- Only between `running` and `idle`.
abbrev transition_allowed : RunStatus → RunStatus → Bool
transition_allowed RunStatus.running RunStatus.idle = true
transition_allowed RunStatus.idle RunStatus.running = true
transition_allowed _ _ = false

-- After `update_status`: the change is announced only if it was saved.
abbrev pub stored : SessionActor → RunStatus → MetaFile × Bool → SessionActor
stored a target (f, saved) =
    if saved then note (record a { file = f }) (status_changed target) else record a { file = f }

unfoldable pub persist_idle_running : SessionActor → ℕ → RunStatus → SessionActor
unfolding get_run update_status
persist_idle_running a now target = elim (get_run a.file) [
  | none ↦ a
  | some m ↦
      if transition_allowed m.status target
      then stored a target (update_status target none none now a.file)
      else a
]
