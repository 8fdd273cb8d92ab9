-- ===== src/Codex/Parse.antt =====
-- src-tauri/src/agent/codex_appserver.rs: a line of the server. `to_string` is how serde_json prints a
-- value; the id of the run, which all events carry, is left out.
pub mod Turns
pub mod Prompts
pub mod Driver
pub mod Replies
use open_covibe_web.Common.{
  ℕ, String, str_eq, Bool, false, ◌||◌, Option, none, some, List, [], ◌∷◌, ◌++◌, ◌==◌,
  if◌then◌else◌, or_else, unwrap_or, is_some, concat, remove,
}
use open_covibe_web.Models.{BusEvent, tool, command_output, other}
use open_covibe_web.Models.Json.{
  Json, null, bool, num, str, object, get, get_str, as_str, text_or, get_array, get_u64, get_in,
  get_str_in, opt_str,
}
use open_covibe_web.Codex.Protocol.{
  PendingKind, permission, elicitation, user_input, turn_started, turn_completed, turn_failed,
  ParsedLine,
}
use open_covibe_web.Codex.Server.{CodexAppServer, ready, PendingServerReq, is_interactive_method}
use open_covibe_web.Codex.Items.{item_started_event, item_completed_events}
use open_covibe_web.Codex.Events.{
  approval_prompt, ask_user_question_events, elicitation_prompt, token_usage_event, hook_run_event,
  guardian_notice, plan_updated_events, rate_limit_event,
}

-- `ParsedLine::default()`.
abbrev pub quiet : ParsedLine
quiet = record {
  events = [];
  interactive = none;
  lifecycle = none;
  thread_id = none;
  control_response = none;
}

abbrev pub req_id_str : (Json → String) → Json → String
req_id_str to_string (str s) = s
req_id_str to_string v = to_string v

-- What a request of the server asks for; nothing for a method that is not handled.
abbrev pub prompts : String → String → Json → Option (PendingKind × List BusEvent)
prompts id method params =
    if str_eq method "item/commandExecution/requestApproval" || str_eq method "execCommandApproval"
    then some (permission, approval_prompt id "Bash" params ∷ [])
    else if str_eq method "item/fileChange/requestApproval" || str_eq method "applyPatchApproval"
    then some (permission, approval_prompt id "Edit" params ∷ [])
    else if str_eq method "item/permissions/requestApproval"
    then some (permission, approval_prompt id "Bash" params ∷ [])
    else if str_eq method "item/tool/requestUserInput"
    then some (user_input, ask_user_question_events id params)
    else if str_eq method "mcpServer/elicitation/request"
    then some (elicitation, elicitation_prompt id params ∷ [])
    else none

abbrev pub insert_pending : String → PendingServerReq → CodexAppServer → CodexAppServer
insert_pending id p s = record s { pending = (id, p) ∷ remove id s.pending }

unfoldable pub handle_server_request :
    (Json → String) → CodexAppServer → String → Json → CodexAppServer × ParsedLine
handle_server_request to_string s method msg =
    let raw_id = unwrap_or null (get "id" msg) in
    let id = req_id_str to_string raw_id in
    elim (prompts id method (unwrap_or null (get "params" msg))) [
      | none ↦ (s, quiet)
      | some (kind, events) ↦ (
        insert_pending id (record { raw_id = raw_id; method = method }) s,
        record quiet {
          events = events;
          interactive = some (record { request_id = id; kind = kind });
        },
      )
    ]

abbrev pub notice : List String → List BusEvent
notice parts = command_output (concat parts) null ∷ []

abbrev some_event : Option BusEvent → List BusEvent
some_event none = []
some_event (some ev) = ev ∷ []

abbrev delta_event : String → Json → List BusEvent
delta_event tag params = elim (get_str "delta" params) [
  | none ↦ []
  | some d ↦ other tag (object (("text", str d) ∷ [])) ∷ []
]

-- A chunk for an open tool card.
abbrev output_delta : Option String → Option String → String → List BusEvent
output_delta (some id) (some chunk) tail =
    if str_eq id "" || str_eq chunk ""
    then []
    else tool "tool_output_delta" id (object (("delta", str (concat (chunk ∷ tail ∷ []))) ∷ []))
      ∷ []
output_delta (some id) none tail = []
output_delta none chunk tail = []

abbrev rerouted : Json → List BusEvent
rerouted params =
    let reason = text_or "" "reason" params in
    let head =
      "[notice] model rerouted: "
      ∷ text_or "?" "fromModel" params
      ∷ " → "
      ∷ text_or "?" "toModel" params
      ∷ [] in
    notice (if str_eq reason "" then head else head ++ " (" ∷ reason ∷ ")" ∷ [])

abbrev message_notice : String → Option String → List BusEvent
message_notice tag none = []
message_notice tag (some m) = notice (tag ∷ m ∷ [])

abbrev texts : List Json → List String
texts [] = []
texts (v ∷ vs) = elim (as_str v) [ none ↦ texts vs | some s ↦ s ∷ texts vs ]

abbrev joined : String → List String → List String
joined s [] = s ∷ []
joined s (t ∷ ts) = s ∷ ", " ∷ joined t ts

abbrev verification : List String → List BusEvent
verification [] = []
verification (s ∷ ts) = notice ("[notice] model verification: " ∷ joined s ts)

abbrev details_of : Option String → List String
details_of none = []
details_of (some d) = if str_eq d "" then [] else ": " ∷ d ∷ []

abbrev summary_notice : Json → List BusEvent
summary_notice params = elim (get_str "summary" params) [
  | none ↦ []
  | some summary ↦ notice ("[notice] " ∷ summary ∷ details_of (get_str "details" params))
]

abbrev turn_diff : Json → List BusEvent
turn_diff params = elim (get_str "diff" params) [
  | none ↦ []
  | some diff ↦
      other "codex_turn_diff"
        (object (("turn_id", str (text_or "" "turnId" params)) ∷ ("diff", str diff) ∷ []))
      ∷ []
]

abbrev mcp_status : Json → List BusEvent
mcp_status params = elim (get_str "name" params) [
  | none ↦ []
  | some name ↦
      other "codex_mcp_status" (
        object (
          ("name", str name)
          ∷ ("status", str (text_or "starting" "status" params))
          ∷ ("error", opt_str (get_str "error" params))
          ∷ []))
      ∷ []
]

abbrev goal_update : Json → List BusEvent
goal_update goal = other "goal_update" (object (("goal", goal) ∷ [])) ∷ []

-- The notifications that only make events, in the order of the source's match.
unfoldable pub notification_events : (Json → String) → String → Json → List BusEvent
notification_events to_string m params =
    if str_eq m "item/agentMessage/delta"
    then delta_event "message_delta" params
    else if str_eq m "item/reasoning/textDelta" || str_eq m "item/reasoning/summaryTextDelta"
    then delta_event "thinking_delta" params
    else if str_eq m "item/started"
    then elim (get "item" params) [ none ↦ [] | some item ↦ some_event (item_started_event item) ]
    else if str_eq m "item/completed"
    then elim (get "item" params) [ none ↦ [] | some item ↦ item_completed_events item ]
    else if str_eq m "thread/tokenUsage/updated"
    then some_event (token_usage_event params)
    else if str_eq m "thread/goal/updated"
    then elim (get "goal" params) [ none ↦ [] | some goal ↦ goal_update goal ]
    else if str_eq m "thread/goal/cleared"
    then goal_update null
    else if str_eq m "turn/plan/updated"
    then plan_updated_events params
    else if str_eq m "item/commandExecution/outputDelta"
    then output_delta (get_str "itemId" params) (get_str "delta" params) ""
    else if str_eq m "account/rateLimits/updated"
    then some_event (rate_limit_event (λ n. to_string (num n)) params)
    else if str_eq m "model/rerouted"
    then rerouted params
    else if str_eq m "warning"
    then message_notice "[notice] " (get_str "message" params)
    else if str_eq m "guardianWarning"
    then message_notice "[guardian] " (get_str "message" params)
    else if str_eq m "model/verification"
    then verification (texts (get_array "verifications" params))
    else if str_eq m "deprecationNotice" || str_eq m "configWarning"
    then summary_notice params
    else if str_eq m "turn/diff/updated"
    then turn_diff params
    else if str_eq m "hook/started" || str_eq m "hook/completed"
    then some_event (hook_run_event m params)
    else if str_eq m "item/mcpToolCall/progress"
    then output_delta (get_str "itemId" params) (get_str "message" params) "\n"
    else if str_eq m "item/autoApprovalReview/completed"
    then notice (guardian_notice params ∷ [])
    else if str_eq m "mcpServer/startupStatus/updated"
    then mcp_status params
    else if str_eq m "skills/changed"
    then notice ("[notice] skills changed" ∷ [])
    else []

abbrev take_thread : Option String → CodexAppServer → CodexAppServer × ParsedLine
take_thread none s = (record s { phase = ready }, quiet)
take_thread (some id) s =
    (record s { thread_id = some id; phase = ready }, record quiet { thread_id = some id })

abbrev error_message : Json → String
error_message params =
    unwrap_or "unknown error"
      (or_else (get_str_in "error" "message" params) (get_str "message" params))

abbrev will_retry : Json → Bool
will_retry params = elim (get "willRetry" params) [ some (bool b) ↦ b | _ ↦ false ]

abbrev pub end_turn : CodexAppServer → CodexAppServer
end_turn s = record s { active_turn_id = none }

-- The notifications that change the driver come first.
unfoldable pub handle_notification :
    (Json → String) → CodexAppServer → String → Json → CodexAppServer × ParsedLine
handle_notification to_string s method params =
    if str_eq method "thread/started"
    then take_thread (get_str_in "thread" "id" params) s
    else if str_eq method "turn/started"
    then (
      record s { active_turn_id = or_else (get_str_in "turn" "id" params) s.active_turn_id },
      record quiet { lifecycle = some turn_started },
    )
    else if str_eq method "turn/completed"
    then (end_turn s, record quiet { lifecycle = some turn_completed })
    else if str_eq method "turn/failed"
    then (
      end_turn s,
      record quiet { lifecycle = some (turn_failed (get_str_in "error" "message" params)) },
    )
    else if str_eq method "error"
    then (if will_retry params then (s, quiet) else (
      end_turn s,
      record quiet { events = notice ("[error] " ∷ error_message params ∷ []) },
    ))
    else (s, record quiet { events = notification_events to_string method params })

abbrev pub find_waiter : ℕ → List (ℕ × String) → Option String
find_waiter id [] = none
find_waiter id ((j, request_id) ∷ ws) =
    let later = find_waiter id ws in if j == id then some request_id else later

abbrev pub drop_waiter : ℕ → List (ℕ × String) → List (ℕ × String)
drop_waiter id [] = []
drop_waiter id ((j, request_id) ∷ ws) =
    let later = drop_waiter id ws in if j == id then later else (j, request_id) ∷ later

-- The acknowledgement of `thread/start` or `thread/resume`, which has the id 2.
abbrev pub acknowledge : CodexAppServer → Json → CodexAppServer × ParsedLine
acknowledge s msg = elim (s.thread_id) [
  | some tid ↦ (record s { phase = ready }, quiet)
  | none ↦
      take_thread (elim (get_in "result" "thread" msg) [ none ↦ none | some t ↦ get_str "id" t ]) s
]

abbrev pub reply_value : Json → Json
reply_value msg = unwrap_or null (or_else (get "result" msg) (get "error" msg))

-- A reply to a request of ours.
unfoldable pub handle_reply : CodexAppServer → Json → Option ℕ → CodexAppServer × ParsedLine
handle_reply s msg none = (s, quiet)
handle_reply s msg (some id) = elim (find_waiter id s.client_waiters) [
  | some request_id ↦ (
    record s { client_waiters = drop_waiter id s.client_waiters },
    record quiet { control_response = some (request_id, reply_value msg) },
  )
  | none ↦
      if id == 2
      then (if is_some (get "error" msg) then (s, quiet) else acknowledge s msg)
      else (s, quiet)
]

-- A parsed line, by whether it has a method and an id.
unfoldable pub handle_message :
    (Json → String) → CodexAppServer → Json → Option String → CodexAppServer × ParsedLine
handle_message to_string s msg none = handle_reply s msg (get_u64 "id" msg)
handle_message to_string s msg (some method) =
    if is_some (get "id" msg)
    then (if is_interactive_method method
        then handle_server_request to_string s method msg
        else (s, quiet))
    else handle_notification to_string s method (unwrap_or null (get "params" msg))

-- The line is trimmed and not empty; a line that is no JSON is `none`.
unfoldable pub parse_line :
    (Json → String) → CodexAppServer → Option Json → CodexAppServer × ParsedLine
parse_line to_string s none = (s, quiet)
parse_line to_string s (some msg) = handle_message to_string s msg (get_str "method" msg)
