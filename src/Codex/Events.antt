-- ===== src/Codex/Events.antt =====
-- src-tauri/src/agent/codex_appserver.rs: prompts for the user, and the notices of the server that
-- become one event or a few. A utilization, a hundredth of a percentage, is kept as the percentage.
use open_covibe_web.Common.{
  ℕ, String, str_eq, false, ◌||◌, Option, none, some, List, [], ◌∷◌, ◌++◌, map, leb, if◌then◌else◌,
  or_else, unwrap_or, concat,
}
use open_covibe_web.Models.{BusEvent, usage_update, other}
use open_covibe_web.Models.Json.{
  Json, null, bool, num, str, array, obj, end, object, get, get_str, as_str, text_or, get_array,
  get_u64, get_in, get_str_in, opt_str, opt_num, opt_value, opt_field,
}
use open_covibe_web.Codex.Items.{tool_start, tool_end}

abbrev opt_text : Option String → Option Json
opt_text none = none
opt_text (some s) = some (str s)

unfoldable pub approval_prompt : String → String → Json → BusEvent
approval_prompt request_id tool_name params = other "permission_prompt" (
    object (
      ("request_id", str request_id)
      ∷ ("tool_name", str tool_name)
      ∷ ("tool_use_id", str (text_or request_id "itemId" params))
      ∷ (
        "tool_input",
        object (
            opt_field "command" (opt_text (get_str "command" params))
            ++ (opt_field "cwd" (get "cwd" params) ++ opt_field "changes" (get "changes" params))),
      )
      ∷ ("decision_reason", str (text_or "" "reason" params))
      ∷ []))

abbrev question_option : Json → Json
question_option o =
    object (
      ("label", str (text_or "" "label" o))
      ∷ ("description", str (text_or "" "description" o))
      ∷ [])

abbrev question_of : Json → Json
question_of q = object (
    ("id", str (text_or "" "id" q))
    ∷ ("header", str (text_or "" "header" q))
    ∷ ("question", str (text_or "" "question" q))
    ∷ ("options", array (map question_option (get_array "options" q)))
    ∷ ("multiSelect", bool false)
    ∷ [])

-- The status `error` is what makes the frontend wait for an answer.
unfoldable pub ask_user_question_events : String → Json → List BusEvent
ask_user_question_events request_id params =
    let input =
      object (("questions", array (map question_of (get_array "questions" params))) ∷ []) in
    tool_start request_id "AskUserQuestion" input
    ∷ tool_end request_id "AskUserQuestion" input "error" none
    ∷ []

unfoldable pub elicitation_prompt : String → Json → BusEvent
elicitation_prompt request_id params = other "elicitation_prompt" (
    object (
      ("request_id", str request_id)
      ∷ ("mcp_server_name", str (text_or "" "serverName" params))
      ∷ ("message", str (text_or "" "message" params))
      ∷ ("elicitation_id", opt_str (get_str "elicitationId" params))
      ∷ ("mode", opt_str (get_str "mode" params))
      ∷ ("url", opt_str (get_str "url" params))
      ∷ ("requested_schema", opt_value (get "requestedSchema" params))
      ∷ []))

unfoldable pub token_usage_event : Json → Option BusEvent
token_usage_event params = elim (get_in "tokenUsage" "total" params) [
  | none ↦ none
  | some total ↦ some (
      usage_update none (
        object (
          ("input_tokens", num (unwrap_or 0 (get_u64 "inputTokens" total)))
          ∷ ("output_tokens", num (unwrap_or 0 (get_u64 "outputTokens" total)))
          ∷ ("cache_read_tokens", opt_num (get_u64 "cachedInputTokens" total))
          ∷ [])))
]

abbrev hook_status : String → Json → String
hook_status method run =
    if str_eq method "hook/started" then "running" else text_or "completed" "status" run

abbrev hook_of : String → Json → String → BusEvent
hook_of method run id = other "codex_hook_run" (
    object (
      ("hook_id", str id)
      ∷ ("event_name", str (text_or "" "eventName" run))
      ∷ ("status", str (hook_status method run))
      ∷ ("status_message", opt_str (get_str "statusMessage" run))
      ∷ ("duration_ms", opt_num (get_u64 "durationMs" run))
      ∷ []))

unfoldable pub hook_run_event : String → Json → Option BusEvent
hook_run_event method params = elim (get "run" params) [
  | none ↦ none
  | some run ↦ elim (get_str "id" run) [ none ↦ none | some id ↦ some (hook_of method run id) ]
]

-- What was reviewed, by the type of the action.
abbrev reviewed : Json → String → String
reviewed action t =
    if str_eq t "command" || str_eq t "execve"
    then concat (
        "command `"
        ∷ unwrap_or "command" (elim (or_else (get "command" action) (get "program" action)) [
          | none ↦ none
          | some v ↦ as_str v
        ])
        ∷ "`"
        ∷ [])
    else if str_eq t "applyPatch"
    then "file edit"
    else if str_eq t "mcpToolCall"
    then concat ("MCP tool `" ∷ text_or "tool" "toolName" action ∷ "`" ∷ [])
    else if str_eq t "networkAccess"
    then concat ("network access to " ∷ text_or "network" "host" action ∷ [])
    else t

abbrev what_of : Option Json → String
what_of none = "action"
what_of (some action) = elim (get_str "type" action) [
  | none ↦ "action"
  | some t ↦ reviewed action t
]

abbrev with_rationale : String → Option String → String
with_rationale head none = head
with_rationale head (some r) = if str_eq r "" then head else concat (head ∷ " — " ∷ r ∷ [])

-- The source returns an `Option` that is never `None`.
unfoldable pub guardian_notice : Json → String
guardian_notice params =
    let what = what_of (get "action" params) in
    with_rationale
      (elim (get_str_in "review" "status" params) [
        | some s ↦ concat ("[guardian] auto-review " ∷ s ∷ ": " ∷ what ∷ [])
        | none ↦ concat ("[guardian] auto-review: " ∷ what ∷ [])
      ])
      (get_str_in "review" "rationale" params)

abbrev step_status : Option String → String
step_status none = "pending"
step_status (some s) =
    if str_eq s "inProgress"
    then "in_progress"
    else if str_eq s "completed"
    then "completed"
    else "pending"

abbrev todo_of : Json → Json
todo_of step = object (
    ("content", str (text_or "" "step" step))
    ∷ ("status", str (step_status (get_str "status" step)))
    ∷ ("activeForm", str (text_or "" "step" step))
    ∷ [])

unfoldable pub plan_updated_events : Json → List BusEvent
plan_updated_events params =
    let id = concat ("codex-plan-" ∷ text_or "turn" "turnId" params ∷ []) in
    let todos = array (map todo_of (get_array "plan" params)) in
    tool_start id "TodoWrite" (object (("todos", todos) ∷ []))
    ∷ tool_end id "TodoWrite" (obj end) "success" (some (object (("newTodos", todos) ∷ [])))
    ∷ []

abbrev not_null : Option Json → Option Json
not_null none = none
not_null (some null) = none
not_null (some v) = some v

-- Below 80 percent, below 100, and the rest.
abbrev pub limit_status : Option ℕ → String
limit_status none = "allowed"
limit_status (some percent) =
    if leb 100 percent then "rejected" else if leb 80 percent then "allowed_warning" else "allowed"

abbrev window_label : (ℕ → String) → Option ℕ → Json
window_label display none = null
window_label display (some m) = str (concat (display m ∷ "_min" ∷ []))

unfoldable pub rate_limit_event : (ℕ → String) → Json → Option BusEvent
rate_limit_event display params = elim (get "rateLimits" params) [
  | none ↦ none
  | some limits ↦
      elim (or_else (not_null (get "primary" limits)) (not_null (get "secondary" limits))) [
        | none ↦ none
        | some window ↦ some (
            other "rate_limit_event" (
              object (
                ("status", str (limit_status (get_u64 "usedPercent" window)))
                ∷ ("resets_at", opt_num (get_u64 "resetsAt" window))
                ∷ ("rate_limit_type", window_label display (get_u64 "windowDurationMins" window))
                ∷ ("utilization_percent", opt_num (get_u64 "usedPercent" window))
                ∷ ("data", limits)
                ∷ [])))
      ]
]
