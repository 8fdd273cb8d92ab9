-- ===== src/Models.antt =====
-- src-tauri/src/models.rs: the values that the components exchange. Of a bus event the model keeps
-- the fields that some component reads; the others, and the events that no component looks into,
-- are carried whole in a payload.
pub mod Json
use open_covibe_web.Common.{ℕ, zero, String, Option, none, some, Bool, true, false}

-- An `i32`; `negsuc n` is -(n + 1).
pub data ℤ : Type 0 where
  pos : ℕ → ℤ
  negsuc : ℕ → ℤ

abbrev pub is_zero : ℤ → Bool
is_zero (pos zero) = true
is_zero _ = false

-- `matches!(exit_code, Some(0))`.
abbrev pub is_success : Option ℤ → Bool
is_success none = false
is_success (some c) = is_zero c

pub data RunStatus : Type 0 where
  pending running idle completed failed stopped : RunStatus

pub data RalphCompleteReason : Type 0 where
  max_iterations completion_promise cancelled fail_stopped : RalphCompleteReason

pub data BusEvent : Type 0 where
  session_init : (session_id : Option String) → Json.Json → BusEvent
  message_complete : (text : String) → (parent_tool_use_id : Option String) → Json.Json → BusEvent
  user_message : (text : String) → BusEvent
  run_state : (state : String) → (exit_code : Option ℤ) → (error : Option String) → BusEvent
  usage_update : (turn_index : Option ℕ) → Json.Json → BusEvent
  command_output : (content : String) → Json.Json → BusEvent
  ralph_started :
      (prompt : String) → (max_iterations : ℕ) → (completion_promise : Option String) → ℕ → BusEvent
  ralph_iteration : (iteration : ℕ) → (max_iterations : ℕ) → BusEvent
  ralph_complete : RalphCompleteReason → (iteration : ℕ) → BusEvent
  raw : (source : String) → Json.Json → BusEvent
  -- A tool event: its type tag and `tool_use_id`.
  tool : (tag : String) → (tool_use_id : String) → Json.Json → BusEvent
  other : (tag : String) → Json.Json → BusEvent
