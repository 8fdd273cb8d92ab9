-- ===== src/Claude/System.antt =====
-- src-tauri/src/agent/claude_protocol.rs: the lines of the type `system`.
use open_covibe_web.Common.{
  ℕ, ◌-◌, String, str_eq, true, not, ◌&&◌, Option, none, some, List, [], ◌∷◌, ◌++◌, map, length,
  if◌then◌else◌, or_else, unwrap_or, concat,
}
use open_covibe_web.Models.{BusEvent, session_init, run_state, command_output, raw, other}
use open_covibe_web.Models.Json.{
  Json, null, str, bool, arr, nil, array, object, get, get_str, get_u64, get_array, as_str, text_or,
  opt_str, opt_num, strings, is_true,
}
use open_covibe_web.Claude.State.{ProtocolState, count_unknown, count_warnings}

-- A tool is an object with a name or a text.
abbrev tool_name_of : Json → Option String
tool_name_of v = or_else (get_str "name" v) (as_str v)

abbrev tool_names : List Json → List String
tool_names [] = []
tool_names (v ∷ vs) = elim (tool_name_of v) [ none ↦ tool_names vs | some s ↦ s ∷ tool_names vs ]

abbrev server_info : Json → String → Json
server_info s name = object (
    ("name", str name)
    ∷ ("status", str (text_or "pending" "status" s))
    ∷ ("server_type", opt_str (get_str "type" s))
    ∷ ("error", opt_str (get_str "error" s))
    ∷ [])

-- A server without a name is dropped.
abbrev pub server_infos : List Json → List Json
server_infos [] = []
server_infos (s ∷ ss) = elim (get_str "name" s) [
  | none ↦ server_infos ss
  | some name ↦ server_info s name ∷ server_infos ss
]

abbrev copied : String → Json → String × Json
copied key line = (key, array (get_array key line))

abbrev texts_at : String → Json → String × Json
texts_at key line = (key, array (map str (strings (get_array key line))))

abbrev init_payload : Json → Json
init_payload line = object (
    ("model", opt_str (get_str "model" line))
    ∷ ("tools", array (map str (tool_names (get_array "tools" line))))
    ∷ ("cwd", str (text_or "" "cwd" line))
    ∷ copied "slash_commands" line
    ∷ ("mcp_servers", array (server_infos (get_array "mcp_servers" line)))
    ∷ ("permission_mode", opt_str (get_str "permissionMode" line))
    ∷ ("api_key_source", opt_str (get_str "apiKeySource" line))
    ∷ ("claude_code_version", opt_str (get_str "claude_code_version" line))
    ∷ ("output_style", opt_str (get_str "output_style" line))
    ∷ texts_at "agents" line
    ∷ texts_at "skills" line
    ∷ copied "plugins" line
    ∷ copied "plugin_errors" line
    ∷ ("fast_mode_state", opt_str (get_str "fast_mode_state" line))
    ∷ [])

-- The run state goes out with the first `init` of a new session only.
unfoldable pub map_init : ProtocolState → Json → ProtocolState × List BusEvent
map_init p line =
    let servers = get_array "mcp_servers" line in
    let dropped = length servers - length (server_infos servers) in
    (
      record (count_warnings dropped p) { seen_first_init = true },
      session_init (get_str "session_id" line) (init_payload line)
          ∷ (if not p.seen_first_init && not p.is_resume
              then run_state "running" none none ∷ []
              else []),
    )

abbrev boundary : String → Option ℕ → List BusEvent
boundary trigger pre_tokens =
    other "compact_boundary"
      (object (("trigger", str trigger) ∷ ("pre_tokens", opt_num pre_tokens) ∷ []))
    ∷ []

abbrev compact_boundary : Json → List BusEvent
compact_boundary line = elim (get "compact_metadata" line) [
  | none ↦ boundary "auto" none
  | some m ↦ boundary (text_or "auto" "trigger" m) (get_u64 "pre_tokens" m)
]

abbrev with_data : String → Json → List (String × Json) → List BusEvent
with_data tag line fs = other tag (object (fs ++ ("data", line) ∷ [])) ∷ []

abbrev text_field : String → Json → String × Json
text_field key line = (key, str (text_or "" key line))

abbrev opt_text_field : String → Json → String × Json
opt_text_field key line = (key, opt_str (get_str key line))

-- An exit code is not negative here.
abbrev hook_response : Json → List BusEvent
hook_response line = with_data "hook_response" line (
    text_field "hook_id" line
    ∷ text_field "hook_event" line
    ∷ text_field "outcome" line
    ∷ opt_text_field "hook_name" line
    ∷ opt_text_field "stdout" line
    ∷ opt_text_field "stderr" line
    ∷ ("exit_code", opt_num (get_u64 "exit_code" line))
    ∷ [])

-- The subtypes that only make events.
unfoldable pub system_events : String → Json → Option (List BusEvent)
system_events t line =
    if str_eq t "compact_boundary"
    then some (compact_boundary line)
    else if str_eq t "microcompact_boundary"
    then some (boundary "micro_auto" none)
    else if str_eq t "status"
    then some (with_data "system_status" line (opt_text_field "status" line ∷ []))
    else if str_eq t "hook_started"
    then some (
        with_data "hook_started" line (
          text_field "hook_event" line
          ∷ text_field "hook_id" line
          ∷ opt_text_field "hook_name" line
          ∷ []))
    else if str_eq t "hook_progress"
    then some (with_data "hook_progress" line (text_field "hook_id" line ∷ []))
    else if str_eq t "hook_response"
    then some (hook_response line)
    else if str_eq t "task_notification"
    then some (
        with_data "task_notification" line
          (text_field "task_id" line ∷ text_field "status" line ∷ []))
    else if str_eq t "files_persisted"
    then some
        (with_data "files_persisted" line (("files", unwrap_or (arr nil) (get "files" line)) ∷ []))
    else if str_eq t "auth_status"
    then some (
        with_data "auth_status" line (
          ("is_authenticating", bool (is_true (get "isAuthenticating" line)))
          ∷ texts_at "output" line
          ∷ []))
    else none

-- The output of a slash command; the CLI has answered it, even with nothing.
abbrev pub local_output : ProtocolState → Json → ProtocolState × List BusEvent
local_output p line =
    let content = text_or "" "content" line in
    (
      record p { pending_slash_command = none },
      if str_eq content "" then [] else command_output content null ∷ [],
    )

abbrev unknown_subtype : ProtocolState → String → Json → ProtocolState × List BusEvent
unknown_subtype p t line =
    if str_eq t ""
    then (p, [])
    else (count_unknown p, raw (concat ("claude_system_" ∷ t ∷ [])) line ∷ [])

abbrev pub system_via :
    ProtocolState → String → Json → Option (List BusEvent) → ProtocolState × List BusEvent
system_via p t line (some events) = (p, events)
system_via p t line none =
    if str_eq t "local_command_output" then local_output p line else unknown_subtype p t line

unfoldable pub map_system : ProtocolState → Json → ProtocolState × List BusEvent
map_system p line =
    let t = text_or "" "subtype" line in
    if str_eq t "init" then map_init p line else system_via p t line (system_events t line)
