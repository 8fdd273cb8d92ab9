-- ===== src/Session/Control.antt =====
-- src-tauri/src/agent/session_actor.rs: control messages of the CLI. During a user turn they become
-- prompts for the user; during an internal turn or in quarantine the actor answers them itself.
pub mod Waiters
pub mod Keeps
use Prim.Native.String
use open_covibe_web.Common.{
  ℕ, String, str_eq, Bool, true, false, Option, none, some, List, [], ◌∷◌, if◌then◌else◌, or_else,
  unwrap_or,
}
use open_covibe_web.Models.{other, raw}
use open_covibe_web.Models.Json.{Json, null, str, arr, obj, end, nil, object, get, get_str}
use open_covibe_web.Session.Actor.{
  Reply, realtime, resolved, SessionActor, note, persist_and_emit, write_json_line, write_line,
}

-- The payload of a response: the request id stands inside it, beside the body or the error.
unfoldable pub build_control_response : String → String × Json → Json
build_control_response request_id (subtype, body) = object (
    ("type", str "control_response")
    ∷ (
      "response",
      object (
          ("subtype", str subtype)
          ∷ ("request_id", str request_id)
          ∷ ((if str_eq subtype "success" then "response" else "error"), body)
          ∷ []),
    )
    ∷ [])

abbrev pub write_control_response : SessionActor → String → Json → SessionActor × Reply
write_control_response a request_id response =
    write_json_line a "control response" (build_control_response request_id ("success", response))

abbrev pub write_control_response_error : SessionActor → String → String → SessionActor × Reply
write_control_response_error a request_id error =
    write_json_line a "control response (error)"
      (build_control_response request_id ("error", str error))

abbrev pub text_of : String → Json → String
text_of key v = unwrap_or "" (get_str key v)

abbrev pub value_of : String → Json → Json
value_of key v = unwrap_or null (get key v)

-- The id of a response, nested or at the top.
abbrev pub response_id : Json → Option String
response_id parsed =
    or_else (get_str "request_id" (value_of "response" parsed)) (get_str "request_id" parsed)

abbrev pub remove_waiter : String → List String → List String
remove_waiter id [] = []
remove_waiter id (w ∷ ws) = if str_eq w id then ws else w ∷ remove_waiter id ws

abbrev pub waits : String → List String → Bool
waits id [] = false
waits id (w ∷ ws) = if str_eq w id then true else waits id ws

-- The waiter of the id, if there is one, gets the response.
unfoldable pub resolve_waiter : SessionActor → Json → SessionActor
resolve_waiter a parsed = elim (response_id parsed) [
  | none ↦ a
  | some id ↦
      if waits id a.control_waiters
      then note (record a { control_waiters = remove_waiter id a.control_waiters })
          (resolved id (value_of "response" parsed))
      else a
]

abbrev pub drop_waiter : SessionActor → String → SessionActor
drop_waiter a id = record a { control_waiters = remove_waiter id a.control_waiters }

abbrev pub await_user : SessionActor → ℕ → String → String → String → SessionActor
await_user a now id subtype detail = record a {
  pending_interactive_request =
      some (record { request_id = id; subtype = subtype; detail = detail; received_at = now });
}

abbrev opt_json : Option Json → Json
opt_json o = unwrap_or null o

abbrev opt_text : String → Json → Json
opt_text key v = elim (get_str key v) [ none ↦ null | some s ↦ str s ]

unfoldable pub hook_callback : SessionActor → ℕ → String → Json → SessionActor
hook_callback a now id request =
    let seen = persist_and_emit a (
      other "hook_callback" (
        object (
          ("request_id", str id)
          ∷ ("hook_event", str (text_of "hook_event" request))
          ∷ ("hook_id", str (text_of "hook_id" request))
          ∷ ("hook_name", opt_text "tool_name" request)
          ∷ ("data", request)
          ∷ []))) in
    if str_eq (text_of "hook_event" request) "PreToolUse"
    then await_user seen now id "hook_callback"
        (String.◌++◌ "PreToolUse:" (unwrap_or "hook" (get_str "tool_name" request)))
    else (write_control_response seen id (object (("decision", str "allow") ∷ []))).0

unfoldable pub elicitation_request : SessionActor → ℕ → String → Json → SessionActor
elicitation_request a now id request =
    await_user
      (persist_and_emit a (
        other "elicitation_prompt" (
          object (
            ("request_id", str id)
            ∷ ("mcp_server_name", str (text_of "mcp_server_name" request))
            ∷ ("message", str (text_of "message" request))
            ∷ ("elicitation_id", opt_text "elicitation_id" request)
            ∷ ("mode", opt_text "mode" request)
            ∷ ("url", opt_text "url" request)
            ∷ ("requested_schema", opt_json (get "requested_schema" request))
            ∷ []))))
      now id "elicitation" (text_of "mcp_server_name" request)

-- `.filter(|s| !s.is_empty())`.
abbrev non_empty : Option String → Json
non_empty none = null
non_empty (some s) = if str_eq s "" then null else str s

-- `as_array`, with the empty array for anything else.
abbrev array_or_empty : Json → Json
array_or_empty (arr vs) = arr vs
array_or_empty _ = arr nil

unfoldable pub permission_request : SessionActor → ℕ → String → Json → Json → SessionActor
permission_request a now id parsed request =
    let tool = unwrap_or "unknown" (get_str "tool_name" request) in
    await_user
      (persist_and_emit a (
        other "permission_prompt" (
          object (
            ("request_id", str id)
            ∷ ("tool_name", str tool)
            ∷ ("tool_use_id", str (text_of "tool_use_id" request))
            ∷ ("tool_input", unwrap_or (obj end) (get "input" request))
            ∷ ("decision_reason", str (text_of "decision_reason" request))
            ∷ ("parent_tool_use_id", non_empty (get_str "parent_tool_use_id" parsed))
            ∷ ("suggestions", array_or_empty (value_of "suggestions" request))
            ∷ []))))
      now id "can_use_tool" tool

-- An unknown request is refused at once, so that the CLI does not wait.
unfoldable pub refuse : SessionActor → String → String → SessionActor
refuse a id message = if str_eq id "" then a else (write_control_response_error a id message).0

abbrev pub subtype_of : Json → String
subtype_of parsed = text_of "subtype" (value_of "request" parsed)

abbrev handle_request : SessionActor → ℕ → Json → String → String → SessionActor
handle_request a now parsed subtype id =
    let request = value_of "request" parsed in
    if str_eq subtype "hook_callback"
    then hook_callback a now id request
    else if str_eq subtype "mcp_message"
    then note a (realtime (raw "mcp_message" parsed))
    else if str_eq subtype "elicitation"
    then elicitation_request a now id request
    else if str_eq subtype "can_use_tool"
    then permission_request a now id parsed request
    else refuse a id (String.◌++◌ "unsupported control_request subtype: " subtype)

unfoldable pub handle_control_event : SessionActor → ℕ → Json → String → SessionActor
handle_control_event a now parsed event_type =
    if str_eq event_type "control_response"
    then resolve_waiter a parsed
    else if str_eq event_type "control_cancel_request"
    then persist_and_emit (drop_waiter a (text_of "request_id" parsed)) (
        other "control_cancelled" (object (("request_id", str (text_of "request_id" parsed)) ∷ [])))
    else handle_request a now parsed (subtype_of parsed) (text_of "request_id" parsed)

-- What the actor answers in the user's place.
unfoldable pub auto_response : String → String × Json
auto_response subtype =
    if str_eq subtype "can_use_tool"
    then (
      "success",
      object (
          ("behavior", str "deny")
          ∷ ("message", str "Tool use not allowed during internal turn")
          ∷ []),
    )
    else if str_eq subtype "hook_callback"
    then ("success", object (("decision", str "allow") ∷ []))
    else (
      "error",
      str (String.◌++◌ "unsupported control_request subtype during internal turn: " subtype),
    )

abbrev pub auto_context : String × Json → String
auto_context (subtype, body) =
    if str_eq subtype "success" then "control response" else "control response (error)"

unfoldable pub handle_control_event_internal : SessionActor → Json → String → SessionActor
handle_control_event_internal a parsed event_type =
    if str_eq event_type "control_response"
    then resolve_waiter a parsed
    else if str_eq event_type "control_cancel_request"
    then drop_waiter a (text_of "request_id" parsed)
    else if str_eq (text_of "request_id" parsed) ""
    then a
    else let answer = auto_response (subtype_of parsed) in
      (write_json_line a (auto_context answer)
        (build_control_response (text_of "request_id" parsed) answer)).0
