-- ===== src/Codex/Server.antt =====
-- src-tauri/src/agent/codex_appserver.rs: the state of the JSON-RPC driver and the frames that it
-- writes. Request ids are `i64` counted up from 3; the model does not bound them.
pub mod Frames
use open_covibe_web.Common.{
  ℕ, ◌+◌, String, str_eq, Bool, true, false, ◌||◌, Option, none, some, List, [], ◌∷◌, ◌++◌, map,
  if◌then◌else◌, or_else,
}
use open_covibe_web.Models.Json.{Json, bool, num, str, array, object}
use open_covibe_web.Codex.Protocol.{StartupCtx, CodexTurnOverrides, CodexSkillRef}

pub data Phase : Type 0 where
  opening ready : Phase

pub record PendingServerReq : Type 0 where
  pub raw_id : Json
  pub method : String

pub record CodexAppServer : Type 0 where
  pub phase : Phase
  pub thread_id : Option String
  pub active_turn_id : Option String
  pub next_client_id : ℕ
  pub pending : List (String × PendingServerReq)
  pub client_waiters : List (ℕ × String)
  pub add_dirs : List String
  pub startup_overrides : CodexTurnOverrides
  pub pending_startup_replay : Bool

abbrev pub no_overrides : CodexTurnOverrides
no_overrides = record { approval_policy = none; sandbox = none; model = none; effort = none }

-- `CodexAppServer::default`.
abbrev pub new : CodexAppServer
new = record {
  phase = opening;
  thread_id = none;
  active_turn_id = none;
  next_client_id = 3;
  pending = [];
  client_waiters = [];
  add_dirs = [];
  startup_overrides = no_overrides;
  pending_startup_replay = true;
}

abbrev pub is_ready : CodexAppServer → Bool
is_ready s = elim s.phase [ opening ↦ false | ready ↦ true ]

-- `next_id` after its use: the id is the counter's old value.
abbrev pub bump_id : CodexAppServer → CodexAppServer
bump_id s = record s { next_client_id = s.next_client_id + 1 }

abbrev pub request : ℕ → String → Json → Json
request id method params =
    object
      (("jsonrpc", str "2.0") ∷ ("id", num id) ∷ ("method", str method) ∷ ("params", params) ∷ [])

-- A request whose reply goes to the waiter of `request_id`.
unfoldable pub frame_tracked :
    CodexAppServer → String → String → List (String × Json) → CodexAppServer × List Json
frame_tracked s request_id method extra = elim s.thread_id [
  | none ↦ (s, [])
  | some tid ↦ (
    record (bump_id s) { client_waiters = (s.next_client_id, request_id) ∷ s.client_waiters },
    request s.next_client_id method (object (("threadId", str tid) ∷ extra)) ∷ [],
  )
]

unfoldable pub sandbox_policy_value : String → List String → Json
sandbox_policy_value mode roots =
    if str_eq mode "read-only"
    then object (("type", str "readOnly") ∷ ("networkAccess", bool false) ∷ [])
    else if str_eq mode "danger-full-access"
    then object (("type", str "dangerFullAccess") ∷ [])
    else object (
        ("type", str "workspaceWrite")
        ∷ ("writableRoots", array (map str roots))
        ∷ ("networkAccess", bool false)
        ∷ ("excludeTmpdirEnvVar", bool false)
        ∷ ("excludeSlashTmp", bool false)
        ∷ [])

-- `if let Some(v) = o { params.insert(key, json!(v)) }`.
abbrev pub opt_param : String → Option String → List (String × Json)
opt_param key none = []
opt_param key (some v) = (key, str v) ∷ []

abbrev initialize : String → Json
initialize version = request 1 "initialize" (
    object (
      (
        "clientInfo",
        object (
            ("name", str "opencovibe")
            ∷ ("version", str version)
            ∷ ("title", str "OpenCovibe")
            ∷ []),
      )
      ∷ []))

abbrev start_params : StartupCtx → Json
start_params ctx = object (
    ("cwd", str ctx.cwd)
    ∷ (opt_param "approvalPolicy" ctx.approval_policy
        ++ (opt_param "sandbox" ctx.sandbox
            ++ (opt_param "model" ctx.model ++ opt_param "modelProvider" ctx.model_provider))))

-- `version` is the package's version.
unfoldable pub startup_messages : String → CodexAppServer → StartupCtx → CodexAppServer × List Json
startup_messages version s ctx = elim ctx.resume_thread_id [
  | none ↦ (kept, initialize version ∷ request 2 "thread/start" (start_params ctx) ∷ [])
  | some tid ↦ (
    record kept { thread_id = some tid },
    initialize version ∷ request 2 "thread/resume" (object (("threadId", str tid) ∷ [])) ∷ [],
  )
]
  where
    kept : CodexAppServer
    kept = record s {
      add_dirs = ctx.add_dirs;
      startup_overrides = record {
        approval_policy = ctx.approval_policy;
        sandbox = ctx.sandbox;
        model = ctx.model;
        effort = ctx.effort;
      };
      pending_startup_replay = true;
    }

abbrev pub pick : Bool → Option String → Option String → Option String
pick first actor startup = or_else actor (if first then startup else none)

abbrev skill_item : CodexSkillRef → Json
skill_item s = object (("type", str "skill") ∷ ("name", str s.name) ∷ ("path", str s.path) ∷ [])

abbrev text_item : String → Json
text_item text =
    object (("type", str "text") ∷ ("text", str text) ∷ ("text_elements", array []) ∷ [])

abbrev image_item : String → Json
image_item path = object (("type", str "localImage") ∷ ("path", str path) ∷ [])

abbrev is_empty : List String → Bool
is_empty [] = true
is_empty (x ∷ xs) = false

abbrev pub sandbox_param : Bool → List String → Option String → List (String × Json)
sandbox_param first dirs (some mode) = ("sandboxPolicy", sandbox_policy_value mode dirs) ∷ []
sandbox_param first [] none = []
sandbox_param first (d ∷ dirs) none =
    if first then ("sandboxPolicy", sandbox_policy_value "workspace-write" (d ∷ dirs)) ∷ [] else []

abbrev turn_params :
    CodexAppServer → String → String → List String → List CodexSkillRef → CodexTurnOverrides → Json
turn_params s tid text images skills o =
    let first = s.pending_startup_replay in
    let boot = s.startup_overrides in
    object (
      ("threadId", str tid)
      ∷ ("input", array (map skill_item skills ++ (text_item text ∷ map image_item images)))
      ∷ (opt_param "approvalPolicy" (pick first o.approval_policy boot.approval_policy)
          ++ (sandbox_param first s.add_dirs (pick first o.sandbox boot.sandbox)
              ++ (opt_param "model" (pick first o.model boot.model)
                  ++ opt_param "effort" (pick first o.effort boot.effort)))))

unfoldable pub frame_user_turn :
    CodexAppServer
    → String
    → List String
    → List CodexSkillRef
    → CodexTurnOverrides
    → CodexAppServer × List Json
frame_user_turn s text images skills overrides = elim s.thread_id [
  | none ↦ (s, [])
  | some tid ↦ (
    record (bump_id s) { pending_startup_replay = false },
    request s.next_client_id "turn/start" (turn_params s tid text images skills overrides) ∷ [],
  )
]

unfoldable pub frame_interrupt : CodexAppServer → CodexAppServer × List Json
frame_interrupt s = elim s.thread_id [
  | none ↦ (s, [])
  | some tid ↦ (
    bump_id s,
    request s.next_client_id "turn/interrupt" (object (("threadId", str tid) ∷ [])) ∷ [],
  )
]

unfoldable pub is_interactive_method : String → Bool
is_interactive_method m =
    str_eq m "item/commandExecution/requestApproval"
    || str_eq m "execCommandApproval"
    || str_eq m "item/fileChange/requestApproval"
    || str_eq m "applyPatchApproval"
    || str_eq m "item/permissions/requestApproval"
    || str_eq m "item/tool/requestUserInput"
    || str_eq m "mcpServer/elicitation/request"
