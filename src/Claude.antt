-- ===== src/Claude.antt =====
-- src-tauri/src/agent/claude_protocol.rs: the lines of the Claude CLI as events. The id of the run,
-- which all events carry, is left out, and so is the strict mode of the tests.
pub mod State
pub mod System
pub mod Stream
pub mod Messages
pub mod Result
pub mod Lines
pub mod Tests
use open_covibe_web.Common.{
  ℕ, String, str_eq, Bool, ◌||◌, Option, none, some, List, [], ◌∷◌, if◌then◌else◌, or_else,
  unwrap_or, concat, map, true,
}
use open_covibe_web.Models.{BusEvent, tool, raw, other}
use open_covibe_web.Models.Json.{
  Json, null, num, str, array, object, get, get_str, get_u64, get_array, get_in, text_or, opt_str,
  opt_num, strings, as_str,
}
use open_covibe_web.Claude.State.{ProtocolState, count_unknown, count_dropped}
use open_covibe_web.Claude.System.{map_system}
use open_covibe_web.Claude.Stream.{parent_field, map_block_start, map_block_delta}
use open_covibe_web.Claude.Messages.{map_assistant, map_user}
use open_covibe_web.Claude.Result.{map_result}

-- What the parser calls: a new id for a message, and a number of dollars from 10^-9 dollars.
pub record Outside : Type 0 where
  pub fresh_id : Json → String
  pub dollars : ℕ → Json

-- A text that is not empty.
abbrev filled : Option String → Option String
filled none = none
filled (some s) = if str_eq s "" then none else some s

-- The event inside a `stream_event`, if it has a type.
abbrev pub inner_event : Json → Option Json
inner_event line =
    if str_eq (text_or "" "type" line) "stream_event"
    then elim (get "event" line) [
      | none ↦ none
      | some inner ↦ if str_eq (text_or "" "type" inner) "" then none else some inner
    ]
    else none

-- The call that an event belongs to, named by the event or else by its envelope.
abbrev parent_as_text : Option Json → Option String
parent_as_text none = none
parent_as_text (some v) = filled (as_str v)

abbrev pub parent_of : Json → Option Json → Option String
parent_of line none = filled (get_str "parent_tool_use_id" line)
parent_of line (some inner) =
    parent_as_text (or_else (get "parent_tool_use_id" inner) (get "parent_tool_use_id" line))

abbrev pub seen_envelope : ProtocolState → Option Json → ProtocolState
seen_envelope p none = p
seen_envelope p (some inner) = record p { seen_stream_event_envelope = true }

abbrev tool_progress : Option String → Json → List BusEvent
tool_progress parent line =
    tool "tool_progress" (text_or "" "tool_use_id" line) (
      object (
        ("elapsed_time_seconds", opt_num (get_u64 "elapsed_time_seconds" line))
        ∷ ("data", line)
        ∷ parent_field parent
        ∷ []))
    ∷ []

abbrev tool_use_summary : Option String → Json → List BusEvent
tool_use_summary parent line =
    tool "tool_use_summary" (text_or "" "tool_use_id" line) (
      object (
        ("summary", str (text_or "" "summary" line))
        ∷ (
          "preceding_tool_use_ids",
          array (map str (strings (get_array "preceding_tool_use_ids" line))),
        )
        ∷ ("data", line)
        ∷ parent_field parent
        ∷ []))
    ∷ []

abbrev info_of : Json → Json
info_of line = unwrap_or null (get "rate_limit_info" line)

abbrev rate_limit_event : Json → List BusEvent
rate_limit_event line =
    let info = info_of line in
    other "rate_limit_event" (
      object (
        ("status", str (text_or "allowed" "status" info))
        ∷ ("resets_at", opt_num (get_u64 "resetsAt" info))
        ∷ ("rate_limit_type", opt_str (get_str "rateLimitType" info))
        ∷ ("utilization", opt_num (get_u64 "utilization" info))
        ∷ ("data", line)
        ∷ []))
    ∷ []

-- A line of an unknown type is passed on as it is, and one without a type is dropped.
abbrev pub fallback : ProtocolState → String → Json → ProtocolState × List BusEvent
fallback p t line =
    if str_eq t ""
    then (count_dropped p, [])
    else (count_unknown p, raw (concat ("claude_" ∷ t ∷ [])) line ∷ [])

-- A line by its type.
abbrev pub map_typed :
    Outside → ProtocolState → Option String → String → Json → ProtocolState × List BusEvent
map_typed o p parent t line =
    if str_eq t "system"
    then map_system p line
    else if str_eq t "content_block_start"
    then map_block_start p parent line
    else if str_eq t "content_block_delta"
    then map_block_delta p parent line
    else if str_eq t "content_block_stop" || str_eq t "message_stop"
    then (p, [])
    else if str_eq t "assistant"
    then map_assistant o.fresh_id p parent line
    else if str_eq t "user"
    then map_user p parent line
    else if str_eq t "result"
    then map_result o.dollars p line
    else if str_eq t "tool_progress"
    then (p, tool_progress parent line)
    else if str_eq t "tool_use_summary"
    then (p, tool_use_summary parent line)
    else if str_eq t "rate_limit_event"
    then (p, rate_limit_event line)
    else fallback p t line

abbrev pub map_unwrapped :
    Outside → ProtocolState → Json → Option Json → ProtocolState × List BusEvent
map_unwrapped o p line inner =
    let event = unwrap_or line inner in
    map_typed o (seen_envelope p inner) (parent_of line inner) (text_or "" "type" event) event

unfoldable pub map_event : Outside → ProtocolState → Json → ProtocolState × List BusEvent
map_event o p line = map_unwrapped o p line (inner_event line)
