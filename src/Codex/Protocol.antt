-- ===== src/Codex/Protocol.antt =====
-- src-tauri/src/agent/session_protocol.rs: what the actor and a transport exchange.
use open_covibe_web.Common.{String, Option, List}
use open_covibe_web.Models.{BusEvent}
use open_covibe_web.Models.Json.{Json}

pub record StartupCtx : Type 0 where
  pub cwd : String
  pub resume_thread_id : Option String
  pub model : Option String
  pub model_provider : Option String
  pub approval_policy : Option String
  pub sandbox : Option String
  pub effort : Option String
  pub add_dirs : List String

pub record CodexTurnOverrides : Type 0 where
  pub approval_policy : Option String
  pub sandbox : Option String
  pub model : Option String
  pub effort : Option String

pub record CodexSkillRef : Type 0 where
  pub name : String
  pub path : String

pub data PendingKind : Type 0 where
  permission elicitation user_input : PendingKind

pub record PendingInteractive : Type 0 where
  pub request_id : String
  pub kind : PendingKind

pub data LifecycleSignal : Type 0 where
  turn_started turn_completed : LifecycleSignal
  turn_failed : Option String → LifecycleSignal

pub record ParsedLine : Type 0 where
  pub events : List BusEvent
  pub interactive : Option PendingInteractive
  pub lifecycle : Option LifecycleSignal
  pub thread_id : Option String
  pub control_response : Option (String × Json)
