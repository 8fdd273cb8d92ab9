-- ===== src/Codex/Pipe.antt =====
-- src-tauri/src/agent/pipe_parser.rs: the lines of a `codex exec` process as events. `display` is how a
-- number is printed, and `from_str` serde_json's; the id of the run, which all events carry, is left
-- out. Counters are `u32`; the model does not bound them.
pub mod Cards
pub mod Tests
use open_covibe_web.Common.{
  ℕ, ◌+◌, ◌-◌, ◌^◌, zero, suc, min, String, str_eq, Bool, true, false, ◌||◌, Option, none, some,
  List, [], ◌∷◌, ◌++◌, map, if◌then◌else◌, ltb, or_else, unwrap_or, concat,
}
use open_covibe_web.Models.{
  BusEvent, message_complete, command_output, usage_update, run_state, raw, other,
}
use open_covibe_web.Models.Json.{
  Json, null, bool, num, str, arr, nil, cons, obj, end, field, array, object, get, get_str, get_u64,
  get_array, get_str_in, text_or, opt_str, opt_num,
}
use open_covibe_web.Codex.Items.{
  CodexToolKind, command, file_change, web_search, mcp_tool_call, collab_tool_call, from_item_type,
  codex_normalize_status, tool_start, tool_end,
}

pub record CodexStdoutParser : Type 0 where
  pub process_seq : ℕ
  pub turn_counter : ℕ

-- `CodexStdoutParser::new`.
abbrev pub new : ℕ → CodexStdoutParser
new process_seq = record { process_seq = process_seq; turn_counter = 0 }

abbrev pub scoped_id : (ℕ → String) → CodexStdoutParser → String → String
scoped_id display s item_id =
    concat ("codex-" ∷ display s.process_seq ∷ "-" ∷ display s.turn_counter ∷ "-" ∷ item_id ∷ [])

abbrev pub mcp_tool_name : Json → String
mcp_tool_name item = concat (text_or "mcp" "server" item ∷ ":" ∷ text_or "unknown" "tool" item ∷ [])

-- The path and the kind of the first change; the fields of an object are in the order of its keys.
abbrev first_change : Json → Option String × Option String
first_change (arr (cons c cs)) = (get_str "path" c, get_str "kind" c)
first_change (obj (field k v fs)) = (some k, none)
first_change _ = (none, none)

abbrev change_input : Json → Option String × Option String → Json
change_input changes (some path, kind) =
    object (("file_path", str path) ∷ ("kind", opt_str kind) ∷ ("changes", changes) ∷ [])
change_input changes (none, kind) = object (("changes", changes) ∷ [])

abbrev pub file_change_input : Json → Json
file_change_input item =
    let changes = unwrap_or (array []) (get "changes" item) in
    change_input changes (first_change changes)

abbrev empty : Json
empty = object []

abbrev search_input : Json → Json
search_input item = object (
    ("query", str (text_or "" "query" item))
    ∷ elim (get "action" item) [ none ↦ [] | some action ↦ ("action", action) ∷ [] ])

abbrev pub started_of : CodexToolKind → String → Json → BusEvent
started_of command id item =
    tool_start id "Bash" (object (("command", str (text_or "" "command" item)) ∷ []))
started_of file_change id item = tool_start id "Edit" (file_change_input item)
started_of mcp_tool_call id item =
    tool_start id (mcp_tool_name item) (unwrap_or empty (get "arguments" item))
started_of web_search id item = tool_start id "WebSearch" (search_input item)
started_of collab_tool_call id item = tool_start id "Agent" (
    object (
      ("codexCollab", bool true)
      ∷ ("operation", str (text_or "unknown" "tool" item))
      ∷ ("prompt", str (text_or "" "prompt" item))
      ∷ []))

abbrev pub item_started : Option CodexToolKind → String → Json → List BusEvent
item_started none id item = []
item_started (some kind) id item = started_of kind id item ∷ []

unfoldable pub map_item_started : (ℕ → String) → CodexStdoutParser → Json → List BusEvent
map_item_started display s item =
    item_started (from_item_type (text_or "" "type" item))
      (scoped_id display s (text_or "unknown" "id" item)) item

abbrev says_completed : Json → Bool
says_completed item = elim (get "completed" item) [ some (bool b) ↦ b | _ ↦ false ]

abbrev todo_status : Option String → Json → String
todo_status o item =
    let other_status = if says_completed item then "completed" else "pending" in
    elim o [
      | none ↦ other_status
      | some s ↦
          if str_eq s "in_progress" || str_eq s "in-progress"
          then "in_progress"
          else if str_eq s "completed" || (str_eq s "complete" || str_eq s "done")
          then "completed"
          else if str_eq s "pending"
          then "pending"
          else other_status
    ]

abbrev pub todo_item_to_new_todo : Json → Json
todo_item_to_new_todo item =
    let content =
      unwrap_or ""
        (or_else (get_str "text" item) (or_else (get_str "content" item) (get_str "title" item))) in
    object (
      ("content", str content)
      ∷ ("status", str (todo_status (get_str "status" item) item))
      ∷ ("activeForm", str content)
      ∷ [])

unfoldable pub map_todo_list : (ℕ → String) → CodexStdoutParser → Json → List BusEvent
map_todo_list display s item =
    let id = scoped_id display s (text_or "todo" "id" item) in
    let todos = array (map todo_item_to_new_todo (get_array "items" item)) in
    tool_start id "TodoWrite" (object (("todos", todos) ∷ []))
    ∷ tool_end id "TodoWrite" empty "success" (some (object (("newTodos", todos) ∷ [])))
    ∷ []

abbrev collab_payload : Json → Json
collab_payload item = object (
    ("codexCollab", bool true)
    ∷ ("operation", str (text_or "collab" "tool" item))
    ∷ ("status", opt_str (get_str "status" item))
    ∷ ("agents_states", unwrap_or empty (get "agents_states" item))
    ∷ [])

abbrev content_of : Json → Json
content_of v = object (("content", v) ∷ [])

abbrev thought : String → List BusEvent
thought text =
    if str_eq text "" then [] else other "thinking_delta" (object (("text", str text) ∷ [])) ∷ []

abbrev pub completed_of :
    (ℕ → String) → CodexStdoutParser → Json → String → String → String → List BusEvent
completed_of display s item t id status =
    if str_eq t "agent_message"
    then message_complete (text_or "" "text" item) none (object (("message_id", str id) ∷ [])) ∷ []
    else if str_eq t "command_execution"
    then tool_end id "Bash" (content_of (str (text_or "" "aggregated_output" item))) status none
      ∷ []
    else if str_eq t "file_change"
    then tool_end id "Edit" (unwrap_or empty (get "changes" item)) status none ∷ []
    else if str_eq t "mcp_tool_call"
    then tool_end id (mcp_tool_name item) (unwrap_or empty (get "result" item)) status none ∷ []
    else if str_eq t "web_search"
    then tool_end id "WebSearch" (unwrap_or empty (get "action" item)) status none ∷ []
    else if str_eq t "collab_tool_call"
    then tool_end id "Agent" (content_of (collab_payload item)) status (some (collab_payload item))
      ∷ []
    else if str_eq t "todo_list"
    then map_todo_list display s item
    else if str_eq t "error"
    then command_output (concat ("[error] " ∷ text_or "unknown error" "message" item ∷ [])) null
      ∷ []
    else if str_eq t "reasoning"
    then thought (text_or "" "text" item)
    else []

unfoldable pub map_item_completed : (ℕ → String) → CodexStdoutParser → Json → List BusEvent
map_item_completed display s item =
    completed_of display s item (text_or "" "type" item)
      (scoped_id display s (text_or "unknown" "id" item))
      (codex_normalize_status (text_or "completed" "status" item))

abbrev count : String → Json → ℕ
count key usage = unwrap_or 0 (get_u64 key usage)

-- `u64::saturating_add`.
abbrev pub saturating_add : ℕ → ℕ → ℕ
saturating_add a b = min (a + b) (2 ^ 64 - 1)

abbrev read_tokens : ℕ → Json
read_tokens cached = if ltb 0 cached then num cached else null

-- The cost, which is always zero, is left out.
unfoldable pub map_turn_completed : CodexStdoutParser → Json → List BusEvent
map_turn_completed s usage =
    usage_update (some s.turn_counter) (
      object (
        ("input_tokens", num (count "input_tokens" usage))
        ∷ (
          "output_tokens",
          num (
              saturating_add (count "output_tokens" usage) (count "reasoning_output_tokens" usage)),
        )
        ∷ ("cache_read_tokens", read_tokens (count "cached_input_tokens" usage))
        ∷ []))
    ∷ []

-- The message inside a message, if it is another one.
abbrev inner_message : Json → Option String
inner_message v = or_else (get_str_in "error" "message" v) (get_str "message" v)

abbrev next_message : String → Option Json → Option String
next_message current none = none
next_message current (some v) = elim (inner_message v) [
  | none ↦ none
  | some s ↦ if str_eq s current then none else some s
]

-- The loop of `human_error_message`, with the rounds that are left.
abbrev pub unwrapped : (String → Option Json) → ℕ → String → String
unwrapped from_str zero current = current
unwrapped from_str (suc n) current = elim (next_message current (from_str current)) [
  | none ↦ current
  | some s ↦ unwrapped from_str n s
]

unfoldable pub human_error_message : (String → Option Json) → String → String
human_error_message from_str raw_message = unwrapped from_str 3 raw_message

unfoldable pub map_turn_failed : (String → Option Json) → Json → List BusEvent
map_turn_failed from_str line =
    let message = unwrap_or "turn failed" (get_str_in "error" "message" line) in
    run_state "failed" none (some (human_error_message from_str message)) ∷ []

unfoldable pub map_error : (String → Option Json) → Json → List BusEvent
map_error from_str line =
    let message =
      unwrap_or "unknown error" (or_else (get_str "message" line) (get_str "error" line)) in
    command_output (concat ("[codex error] " ∷ human_error_message from_str message ∷ [])) null ∷ []

abbrev item_updated : (ℕ → String) → CodexStdoutParser → Json → List BusEvent
item_updated display s item =
    if str_eq (text_or "" "type" item) "todo_list"
    then map_todo_list display s item
    else raw "codex_item_updated_unknown" item ∷ []

abbrev pub on_some : Option Json → (Json → List BusEvent) → List BusEvent
on_some none f = []
on_some (some v) f = f v

-- The events of a line of the type `t`.
abbrev pub line_events :
    (ℕ → String) → (String → Option Json) → CodexStdoutParser → String → Json → List BusEvent
line_events display from_str s t line =
    if str_eq t "item.started"
    then on_some (get "item" line) (map_item_started display s)
    else if str_eq t "item.completed"
    then on_some (get "item" line) (map_item_completed display s)
    else if str_eq t "item.updated"
    then on_some (get "item" line) (item_updated display s)
    else if str_eq t "turn.completed"
    then on_some (get "usage" line) (map_turn_completed s)
    else if str_eq t "turn.failed"
    then map_turn_failed from_str line
    else if str_eq t "error"
    then map_error from_str line
    else []

abbrev pub parse_typed :
    (ℕ → String)
    → (String → Option Json)
    → CodexStdoutParser
    → String
    → Json
    → CodexStdoutParser × List BusEvent
parse_typed display from_str s t line =
    if str_eq t "turn.started"
    then (record s { turn_counter = s.turn_counter + 1 }, [])
    else (s, line_events display from_str s t line)

unfoldable pub parse_stdout :
    (ℕ → String)
    → (String → Option Json)
    → CodexStdoutParser
    → Json
    → CodexStdoutParser × List BusEvent
parse_stdout display from_str s line = parse_typed display from_str s (text_or "" "type" line) line
