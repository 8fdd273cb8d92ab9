-- ===== src/Session/Turn.antt =====
-- src-tauri/src/agent/turn_engine.rs: turns, tickets, the context extractor and the gates.
-- Instants and durations are milliseconds.
use open_covibe_web.Common.{
  ℕ, ◌+◌, String, str_eq, Bool, true, false, not, ◌&&◌, Option, none, some, List, ◌==◌,
  if◌then◌else◌,
}
use open_covibe_web.Models.{BusEvent, command_output, message_complete}
use open_covibe_web.Codex.Protocol.{CodexSkillRef}

pub data UserTurnKind : Type 0 where
  normal : (auto_ctx_id : ℕ) → UserTurnKind
  slash : (command : String) → UserTurnKind

pub data InternalJobKind : Type 0 where
  auto_context : InternalJobKind

pub data TurnOrigin : Type 0 where
  user : UserTurnKind → TurnOrigin
  internal : InternalJobKind → TurnOrigin
  -- A turn of the Ralph loop.
  ralph : TurnOrigin

pub data TurnPhase : Type 0 where
  active draining : TurnPhase

pub record ActiveTurn : Type 0 where
  pub turn_seq : ℕ
  pub origin : TurnOrigin
  pub phase : TurnPhase
  pub started_at : ℕ
  pub soft_deadline : ℕ
  pub hard_deadline : ℕ
  pub turn_index : ℕ

-- `AttachmentData` of session_actor.rs.
pub record AttachmentData : Type 0 where
  pub content_base64 : String
  pub media_type : String
  pub filename : String

-- `reply` names the caller's one-shot channel.
pub record UserTurnTicket : Type 0 where
  pub ticket_seq : ℕ
  pub text : String
  pub attachments : List AttachmentData
  pub skills : List CodexSkillRef
  pub kind : UserTurnKind
  pub turn_index : ℕ
  pub reply : ℕ

pub record InternalJob : Type 0 where
  pub job_seq : ℕ
  pub kind : InternalJobKind
  pub for_auto_ctx_id : ℕ
  pub for_turn_index : ℕ

abbrev pub is_internal : TurnOrigin → Bool
is_internal (internal k) = true
is_internal (user k) = false
is_internal ralph = false

abbrev pub is_ralph : TurnOrigin → Bool
is_ralph ralph = true
is_ralph (user k) = false
is_ralph (internal k) = false

abbrev pub is_active : TurnPhase → Bool
is_active active = true
is_active draining = false

pub record ContextExtractor : Type 0 where
  pub for_turn_index : ℕ
  pub captured : Bool

-- `on_event`: the extractor afterwards, and the snapshot that it emits.
unfoldable pub on_event : ContextExtractor → BusEvent → ContextExtractor × Option String
on_event e (command_output content _) = (record e { captured = true }, some content)
on_event e (message_complete text _ _) =
    if not (str_eq text "") && not e.captured
    then (record e { captured = true }, some text)
    else (e, none)
on_event e _ = (e, none)

unfoldable pub should_trigger_auto_context : ℕ → Option ℕ → Bool
should_trigger_auto_context auto_ctx_id none = true
should_trigger_auto_context auto_ctx_id (some last) = not (last == auto_ctx_id)

abbrev pub user_soft_timeout : ℕ
user_soft_timeout = 300000

abbrev pub user_hard_timeout : ℕ
user_hard_timeout = 1800000

abbrev pub internal_soft_timeout : ℕ
internal_soft_timeout = 15000

abbrev pub internal_hard_timeout : ℕ
internal_hard_timeout = 60000

abbrev pub quarantine_wait : ℕ
quarantine_wait = 10000

-- The turn afterwards, and whether its hard deadline was extended.
unfoldable pub apply_activity_reset : Bool → Option ActiveTurn → ℕ → Option ActiveTurn × Bool
apply_activity_reset quarantine none now = (none, false)
apply_activity_reset quarantine (some turn) now =
    if quarantine
    then (some turn, false)
    else if is_internal turn.origin
    then (some turn, false)
    else (some (record turn { hard_deadline = now + user_hard_timeout }), true)
