-- ===== src/Codex/Items.antt =====
-- src-tauri/src/agent/codex_appserver.rs: the items of a Codex thread as events, with the names of
-- src-tauri/src/agent/codex_parser.rs for their tools.
use open_covibe_web.Common.{
  String, str_eq, Bool, true, false, ◌||◌, Option, none, some, List, [], ◌∷◌, map, if◌then◌else◌,
  or_else, unwrap_or, concat,
}
use open_covibe_web.Models.{BusEvent, tool, message_complete, command_output}
use open_covibe_web.Models.Json.{
  Json, null, bool, str, arr, nil, array, object, get, get_str, text_or, get_entries, opt_str,
  opt_field,
}

pub data CodexToolKind : Type 0 where
  command file_change web_search mcp_tool_call collab_tool_call : CodexToolKind

unfoldable pub from_item_type : String → Option CodexToolKind
from_item_type t =
    if str_eq t "command_execution" || str_eq t "commandExecution"
    then some command
    else if str_eq t "file_change" || str_eq t "fileChange"
    then some file_change
    else if str_eq t "web_search" || str_eq t "webSearch"
    then some web_search
    else if str_eq t "mcp_tool_call" || str_eq t "mcpToolCall"
    then some mcp_tool_call
    else if str_eq t "collab_tool_call" || str_eq t "collabToolCall"
    then some collab_tool_call
    else none

abbrev pub fixed_tool_name : CodexToolKind → Option String
fixed_tool_name command = some "Bash"
fixed_tool_name file_change = some "Edit"
fixed_tool_name web_search = some "WebSearch"
fixed_tool_name collab_tool_call = some "Agent"
fixed_tool_name mcp_tool_call = none

abbrev pub codex_normalize_status : String → String
codex_normalize_status raw_status =
    if str_eq raw_status "failed" || str_eq raw_status "declined" then "error" else "success"

-- Collab calls are not shown by this transport.
abbrev name_of_kind : Json → CodexToolKind → Option String
name_of_kind item mcp_tool_call =
    some (concat (text_or "mcp" "server" item ∷ ":" ∷ text_or "tool" "tool" item ∷ []))
name_of_kind item collab_tool_call = none
name_of_kind item command = fixed_tool_name command
name_of_kind item file_change = fixed_tool_name file_change
name_of_kind item web_search = fixed_tool_name web_search

unfoldable pub item_tool_name : Json → Option String
unfolding from_item_type
item_tool_name item = elim (get_str "type" item) [
  | none ↦ none
  | some t ↦ elim (from_item_type t) [ none ↦ none | some kind ↦ name_of_kind item kind ]
]

abbrev agent_state : String × Json → Json
agent_state (tid, st) = object (
    ("thread_id", str tid)
    ∷ ("status", opt_str (get_str "status" st))
    ∷ ("message", opt_str (get_str "message" st))
    ∷ [])

unfoldable pub collab_input : Json → Json
collab_input item = object (
    ("codexCollab", bool true)
    ∷ ("operation", str (text_or "collab" "tool" item))
    ∷ ("prompt", str (text_or "" "prompt" item))
    ∷ ("model", opt_str (get_str "model" item))
    ∷ ("reasoningEffort", opt_str (get_str "reasoningEffort" item))
    ∷ ("status", opt_str (get_str "status" item))
    ∷ ("receiverThreadIds", unwrap_or (arr nil) (get "receiverThreadIds" item))
    ∷ ("agents", array (map agent_state (get_entries "agentsStates" item)))
    ∷ [])

-- `ToolStart`, and `ToolEnd` with its status and result, as far as they are set here.
abbrev pub tool_start : String → String → Json → BusEvent
tool_start id name input =
    tool "tool_start" id (object (("tool_name", str name) ∷ ("input", input) ∷ []))

abbrev pub tool_end : String → String → Json → String → Option Json → BusEvent
tool_end id name output status result = tool "tool_end" id (
    object (
      ("tool_name", str name)
      ∷ ("output", output)
      ∷ ("status", str status)
      ∷ opt_field "tool_use_result" result))

abbrev command_of : Json → List (String × Json)
command_of item = elim (get_str "command" item) [ none ↦ [] | some cmd ↦ ("command", str cmd) ∷ [] ]

abbrev is_collab_agent : Json → Bool
is_collab_agent item = elim (get_str "type" item) [
  | none ↦ false
  | some t ↦ str_eq t "collabAgentToolCall"
]

unfoldable pub item_started_event : Json → Option BusEvent
unfolding item_tool_name collab_input
item_started_event item =
    let id = text_or "" "id" item in
    if is_collab_agent item
    then some (tool_start id "Agent" (collab_input item))
    else elim (item_tool_name item) [
      | none ↦ none
      | some name ↦ some (tool_start id name (object (command_of item)))
    ]

abbrev output_of : Json → Json
output_of item = unwrap_or null (
    or_else (get "aggregatedOutput" item)
      (or_else (get "aggregated_output" item) (or_else (get "output" item) (get "changes" item))))

abbrev collab_status : Option String → String
collab_status none = "success"
collab_status (some s) = if str_eq s "failed" then "error" else "success"

abbrev content_of : Json → Json
content_of v = object (("content", v) ∷ [])

-- A finished tool call.
abbrev tool_completed : Json → String → List BusEvent
tool_completed item id = elim (item_tool_name item) [
  | none ↦ []
  | some name ↦
      tool_end id name (content_of (output_of item))
        (codex_normalize_status (text_or "" "status" item)) none
      ∷ []
]

unfoldable pub item_completed_events : Json → List BusEvent
unfolding item_tool_name collab_input
item_completed_events item =
    let t = text_or "" "type" item in
    let id = text_or "" "id" item in
    if str_eq t "agentMessage"
    then message_complete (text_or "" "text" item) none (object (("message_id", str id) ∷ [])) ∷ []
    else if str_eq t "userMessage" || str_eq t "reasoning"
    then []
    else if str_eq t "contextCompaction"
    then command_output "[notice] context compacted" null ∷ []
    else if str_eq t "collabAgentToolCall"
    then tool_end id "Agent" (content_of (collab_input item))
        (collab_status (get_str "status" item)) (some (collab_input item))
      ∷ []
    else tool_completed item id
