-- ===== src/Claude/Stream.antt =====
-- src-tauri/src/agent/claude_protocol.rs: the lines that come while a message is being written.
-- `parent` is the call of the tool that the line belongs to.
use open_covibe_web.Common.{
  String, str_eq, ◌||◌, Option, none, some, List, [], ◌∷◌, if◌then◌else◌, lookup, remove, concat,
}
use open_covibe_web.Models.{BusEvent, tool, other}
use open_covibe_web.Models.Json.{Json, null, str, object, get, get_str, text_or, opt_str}
use open_covibe_web.Claude.State.{ProtocolState}

abbrev pub insert : String → String → List (String × String) → List (String × String)
insert key v es = (key, v) ∷ remove key es

abbrev pub parent_field : Option String → String × Json
parent_field parent = ("parent_tool_use_id", opt_str parent)

-- An event with a text, if there is one.
abbrev pub text_event : String → String → Option String → List BusEvent
text_event tag text parent =
    if str_eq text ""
    then []
    else other tag (object (("text", str text) ∷ parent_field parent ∷ [])) ∷ []

abbrev pub tool_started : String → String → Json → Option String → BusEvent
tool_started id name input parent =
    tool "tool_start" id
      (object (("tool_name", str name) ∷ ("input", input) ∷ parent_field parent ∷ []))

abbrev pub open_tool :
    ProtocolState → String → String → Option String → ProtocolState × List BusEvent
open_tool p id name parent = if str_eq id "" then (p, []) else (
  record p {
    emitted_tool_ids = insert id name p.emitted_tool_ids;
    input_json_accum = insert id "" p.input_json_accum;
    last_tool_use_id = some id;
  },
  tool_started id name null parent ∷ [],
)

abbrev pub block_started :
    ProtocolState → Option String → Option Json → ProtocolState × List BusEvent
block_started p parent none = (p, [])
block_started p parent (some block) =
    let t = text_or "" "type" block in
    if str_eq t "tool_use"
    then open_tool p (text_or "" "id" block) (text_or "" "name" block) parent
    else if str_eq t "thinking"
    then (p, text_event "thinking_delta" (text_or "" "thinking" block) parent)
    else (p, [])

unfoldable pub map_block_start :
    ProtocolState → Option String → Json → ProtocolState × List BusEvent
map_block_start p parent line = block_started p parent (get "content_block" line)

-- `accum.push_str(partial)`, where the tool has an accumulator.
abbrev pub pushed :
    String → String → List (String × String) → Option String → List (String × String)
pushed id partial accum none = accum
pushed id partial accum (some sofar) = insert id (concat (sofar ∷ partial ∷ [])) accum

-- A part of the input of the tool that was started last.
abbrev pub input_delta :
    ProtocolState → Option String → Option String → Option String → ProtocolState × List BusEvent
input_delta p parent (some partial) (some id) = (
  record p {
    input_json_accum = pushed id partial p.input_json_accum (lookup id p.input_json_accum);
  },
  if str_eq partial ""
      then []
      else tool "tool_input_delta" id
          (object (("partial_json", str partial) ∷ parent_field parent ∷ []))
        ∷ [],
)
input_delta p parent none id = (p, [])
input_delta p parent (some partial) none = (p, [])

abbrev pub delta_of : ProtocolState → Option String → Option Json → ProtocolState × List BusEvent
delta_of p parent none = (p, [])
delta_of p parent (some delta) =
    let t = text_or "" "type" delta in
    if str_eq t "text_delta"
    then (p, text_event "message_delta" (text_or "" "text" delta) parent)
    else if str_eq t "thinking_delta" || str_eq t "thinking"
    then (p, text_event "thinking_delta" (text_or "" "thinking" delta) parent)
    else if str_eq t "input_json_delta"
    then input_delta p parent (get_str "partial_json" delta) p.last_tool_use_id
    else (p, [])

unfoldable pub map_block_delta :
    ProtocolState → Option String → Json → ProtocolState × List BusEvent
map_block_delta p parent line = delta_of p parent (get "delta" line)
