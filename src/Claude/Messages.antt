-- ===== src/Claude/Messages.antt =====
-- src-tauri/src/agent/claude_protocol.rs: the complete messages, of the assistant and of the user.
-- `fresh_id` is the id of a message that has none.
use text.Mathlib.Text.{starts_with}
use open_covibe_web.Common.{
  String, str_eq, ◌&&◌, Option, none, some, List, [], ◌∷◌, ◌++◌, if◌then◌else◌, is_some, unwrap_or,
  lookup, concat, contains, between, without_prefix, without_suffix, trim,
}
use open_covibe_web.Models.{BusEvent, tool, message_complete, command_output, other}
use open_covibe_web.Models.Json.{
  Json, null, str, object, get, get_str, get_array, text_or, opt_str, opt_value, opt_field, is_true,
}
use open_covibe_web.Claude.State.{ProtocolState}
use open_covibe_web.Claude.Stream.{parent_field, tool_started}

abbrev pub message_of : Json → Json
message_of line = unwrap_or line (get "message" line)

-- The name of a call is kept from where it was seen first.
abbrev pub remember : String → String → List (String × String) → List (String × String)
remember id name known = if is_some (lookup id known) then known else (id, name) ∷ known

abbrev pub mention :
    ProtocolState → Option String → String → String → Json → ProtocolState × List BusEvent
mention p parent id name block = (
  record p { emitted_tool_ids = remember id name p.emitted_tool_ids },
  if is_some (lookup id p.emitted_tool_ids)
      then []
      else tool_started id name (unwrap_or null (get "input" block)) parent ∷ [],
)

-- The blocks of an assistant's message that call tools, in their order.
abbrev pub calls_of : ProtocolState → Option String → List Json → ProtocolState × List BusEvent
calls_of p parent [] = (p, [])
calls_of p parent (block ∷ blocks) =
    let here =
      if str_eq (text_or "" "type" block) "tool_use"
      then mention p parent (text_or "" "id" block) (text_or "" "name" block) block
      else (p, []) in
    let later = calls_of (here.0) parent blocks in (later.0, here.1 ++ later.1)

abbrev text_list : Option String → List String
text_list none = []
text_list (some s) = s ∷ []

abbrev text_parts : List Json → List String
text_parts [] = []
text_parts (block ∷ blocks) =
    let later = text_parts blocks in
    if str_eq (text_or "" "type" block) "text"
    then text_list (get_str "text" block) ++ later
    else later

abbrev completed : String → Option String → Json → List String → List BusEvent
completed id parent message [] = []
completed id parent message (s ∷ ss) =
    message_complete (concat (s ∷ ss)) parent (
      object (
        ("message_id", str id)
        ∷ ("model", opt_str (get_str "model" message))
        ∷ ("stop_reason", opt_str (get_str "stop_reason" message))
        ∷ ("message_usage", opt_value (get "usage" message))
        ∷ []))
    ∷ []

abbrev message_id : (Json → String) → Json → String
message_id fresh_id line =
    let id = unwrap_or (text_or "" "id" line) (get_str "id" (message_of line)) in
    if str_eq id "" then fresh_id line else id

unfoldable pub map_assistant :
    (Json → String) → ProtocolState → Option String → Json → ProtocolState × List BusEvent
map_assistant fresh_id p parent line =
    let blocks = get_array "content" (message_of line) in
    let called = calls_of p parent blocks in
    (
      called.0,
      called.1 ++ completed (message_id fresh_id line) parent (message_of line) (text_parts blocks),
    )

-- `extract_xml_tag`: an empty text is none.
unfoldable pub extract_xml_tag : String → String → Option String
extract_xml_tag text tag =
    elim (between (concat ("<" ∷ tag ∷ ">" ∷ [])) (concat ("</" ∷ tag ∷ ">" ∷ [])) text) [
      | none ↦ none
      | some s ↦ let value = trim s in if str_eq value "" then none else some value
    ]

abbrev tag_field : String → String → String → String × Json
tag_field key text tag = (key, opt_str (extract_xml_tag text tag))

abbrev notification : String → Option String → Option String → List BusEvent
notification text (some id) (some status) =
    other "task_notification" (
      object (
        ("task_id", str id)
        ∷ ("status", str status)
        ∷ (
          "data",
          object (
              ("task_id", str id)
              ∷ tag_field "tool_use_id" text "tool-use-id"
              ∷ ("status", str status)
              ∷ tag_field "summary" text "summary"
              ∷ tag_field "result" text "result"
              ∷ tag_field "output_file" text "output-file"
              ∷ []),
        )
        ∷ []))
    ∷ []
notification text none status = []
notification text (some id) none = []

-- The end of a call, under the name that it was started with.
abbrev pub call_ended : ProtocolState → Option String → Option Json → String → Json → BusEvent
call_ended p parent result id block = tool "tool_end" id (
    object (
      ("tool_name", str (unwrap_or "" (lookup id p.emitted_tool_ids)))
      ∷ ("output", unwrap_or null (get "content" block))
      ∷ ("status", str (if is_true (get "is_error" block) then "error" else "success"))
      ∷ parent_field parent
      ∷ opt_field "tool_use_result" result))

abbrev pub results_of : ProtocolState → Option String → Option Json → List Json → List BusEvent
results_of p parent result [] = []
results_of p parent result (block ∷ blocks) =
    let later = results_of p parent result blocks in
    if str_eq (text_or "" "type" block) "tool_result"
    then call_ended p parent result (text_or "" "tool_use_id" block) block ∷ later
    else later

abbrev stdout_open : String
stdout_open = "<local-command-stdout>"

-- A message of the user, by its content as a text, if it is one.
abbrev pub user_content :
    ProtocolState → Option String → Json → Option String → ProtocolState × List BusEvent
user_content p parent line none =
    (p, results_of p parent (get "tool_use_result" line) (get_array "content" (message_of line)))
user_content p parent line (some text) =
    if starts_with text stdout_open
    then (
      record p { pending_slash_command = none },
      command_output
            (trim (without_suffix "</local-command-stdout>" (without_prefix stdout_open text))) null
          ∷ [],
    )
    else if contains text "<task-notification>" && contains text "</task-notification>"
    then (p, notification text (extract_xml_tag text "task-id") (extract_xml_tag text "status"))
    else (p, [])

unfoldable pub map_user : ProtocolState → Option String → Json → ProtocolState × List BusEvent
map_user p parent line = user_content p parent line (get_str "content" (message_of line))
