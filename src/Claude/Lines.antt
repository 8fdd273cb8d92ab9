-- ===== src/Claude/Lines.antt =====
-- src-tauri/src/agent/claude_protocol.rs: many lines, one after the other, and what is counted of
-- their events.
pub mod Quiet
pub mod Types
pub mod Ledger
pub mod Starts
use open_covibe_web.Common.{
  not, ℕ, ◌+◌, String, str_eq, Bool, true, false, ◌&&◌, List, [], ◌∷◌, ◌++◌, if◌then◌else◌, is_some,
  lookup,
}
use open_covibe_web.Models.{BusEvent, run_state, raw, tool}
use open_covibe_web.Models.Json.{Json, text_or}
use open_covibe_web.Claude.{Outside, map_event, inner_event, unwrap_or}
use open_covibe_web.Claude.State.{ProtocolState}

abbrev pub map_events : Outside → ProtocolState → List Json → ProtocolState × List BusEvent
map_events o p [] = (p, [])
map_events o p (line ∷ lines) =
    let here = map_event o p line in
    let later = map_events o (here.0) lines in (later.0, here.1 ++ later.1)

abbrev pub flag : Bool → ℕ
flag true = 1
flag false = 0

-- How many events pass a test.
abbrev pub tally : (BusEvent → Bool) → List BusEvent → ℕ
tally f [] = 0
tally f (ev ∷ evs) = flag (f ev) + tally f evs

abbrev pub says : String → BusEvent → Bool
says s (run_state t c e) = str_eq t s
says s _ = false

abbrev pub is_raw : BusEvent → Bool
is_raw (raw source p) = true
is_raw _ = false

abbrev pub starts : String → BusEvent → Bool
starts id (tool tag i p) = str_eq tag "tool_start" && str_eq i id
starts id _ = false

-- A run state, an event as it is, or the start of a call.
abbrev pub is_loud : BusEvent → Bool
is_loud (run_state t c e) = true
is_loud (raw source p) = true
is_loud (tool tag i p) = str_eq tag "tool_start"
is_loud _ = false

abbrev pub is_end : BusEvent → Bool
is_end (tool tag i p) = str_eq tag "tool_end"
is_end _ = false

-- The end of the call `id` under a name that is not `name`.
abbrev pub misnames : String → String → BusEvent → Bool
misnames id name (tool tag i p) =
    str_eq tag "tool_end" && (str_eq i id && not (str_eq (text_or "" "tool_name" p) name))
misnames id name _ = false

-- The type of a line, or of the event inside it.
abbrev pub type_of : Json → String
type_of line = text_or "" "type" (unwrap_or line (inner_event line))

abbrev pub is_type : String → Json → Bool
is_type t line = str_eq (type_of line) t

abbrev pub knows : String → ProtocolState → Bool
knows id p = is_some (lookup id p.emitted_tool_ids)
