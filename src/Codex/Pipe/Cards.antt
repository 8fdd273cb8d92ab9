-- ===== src/Codex/Pipe/Cards.antt =====
-- What belongs to a tool card.
use open_covibe_web.Common.{
  ap, ◌∙◌, sym, ℕ, String, true, Option, none, some, List, [], ◌∷◌, ◌≡◌, refl, is_some,
}
use open_covibe_web.Models.{BusEvent, tool}
use open_covibe_web.Models.Json.{text_or, Json, get, get_str}
use open_covibe_web.Codex.Items.{
  CodexToolKind, command, file_change, web_search, mcp_tool_call, collab_tool_call,
  codex_normalize_status, from_item_type,
}
use open_covibe_web.Codex.Pipe.{
  parse_typed, on_some, item_started, completed_of, mcp_tool_name, scoped_id, CodexStdoutParser,
  parse_stdout, map_item_started, map_item_completed,
}

-- The id and the tool's name of a single tool event.
abbrev pub card : List BusEvent → Option (String × Option String)
card (tool tag id payload ∷ []) = some (id, get_str "tool_name" payload)
card _ = none

-- The types of items as `codex exec` writes them.
abbrev pub exec_type : CodexToolKind → String
exec_type command = "command_execution"
exec_type file_change = "file_change"
exec_type web_search = "web_search"
exec_type mcp_tool_call = "mcp_tool_call"
exec_type collab_tool_call = "collab_tool_call"

text_or-some : (key t : String) (v : Json) → get_str key v ≡ some t → text_or "" key v ≡ t
text_or-some key t v e = rw (e, text_or) refl

started-line :
    (display : ℕ → String) (from_str : String → Option Json) (s : CodexStdoutParser)
    (line item : Json)
    → get_str "type" line ≡ some "item.started"
    → get "item" line ≡ some item
    → parse_stdout display from_str s line ≡ (s, map_item_started display s item)
unfolding parse_stdout
started-line display from_str s line item a b =
    ap (λ t. parse_typed display from_str s t line) (text_or-some "type" "item.started" line a)
    ∙ ap (λ o. (s, on_some o (map_item_started display s))) b

completed-line :
    (display : ℕ → String) (from_str : String → Option Json) (s : CodexStdoutParser)
    (line item : Json)
    → get_str "type" line ≡ some "item.completed"
    → get "item" line ≡ some item
    → parse_stdout display from_str s line ≡ (s, map_item_completed display s item)
unfolding parse_stdout
completed-line display from_str s line item a b =
    ap (λ t. parse_typed display from_str s t line) (text_or-some "type" "item.completed" line a)
    ∙ ap (λ o. (s, on_some o (map_item_completed display s))) b

text_or-same :
    (default key : String) (v w : Json)
    → get_str key v ≡ get_str key w
    → text_or default key v ≡ text_or default key w
text_or-same default key v w e = rw (e, text_or) refl

mcp_tool_name-same :
    (v w : Json)
    → get_str "server" v ≡ get_str "server" w
    → get_str "tool" v ≡ get_str "tool" w
    → mcp_tool_name v ≡ mcp_tool_name w
mcp_tool_name-same v w e f =
    rw (text_or-same "mcp" "server" v w e, text_or-same "unknown" "tool" v w f) refl

-- The first is a card, and the second is the same one.
abbrev pub SameCard : List BusEvent → List BusEvent → Type 0
SameCard started completed = (is_some (card started) ≡ true) × (card completed ≡ card started)

card-kinds :
    (display : ℕ → String) (s : CodexStdoutParser) (before after : Json) (kind : CodexToolKind)
    (id status : String)
    → mcp_tool_name before ≡ mcp_tool_name after
    → SameCard
        (item_started (from_item_type (exec_type kind)) id before)
        (completed_of display s after (exec_type kind) id status)
unfolding from_item_type
card-kinds display s before after command id status e = (refl, refl)
card-kinds display s before after file_change id status e = (refl, refl)
card-kinds display s before after web_search id status e = (refl, refl)
card-kinds display s before after mcp_tool_call id status e =
    (refl, ap (λ name. some (id, some name)) (sym e))
card-kinds display s before after collab_tool_call id status e = (refl, refl)

-- A tool call has one card: the line that says that it has started and the line that says that it is
-- completed, in the same turn, with the same id, server and tool, make one tool event each, for the
-- same id and the same name of a tool.
pub parse_stdout-card :
    (display : ℕ → String) (from_str : String → Option Json) (s : CodexStdoutParser)
    (first last before after : Json) (kind : CodexToolKind)
    → get_str "type" first ≡ some "item.started"
    → get "item" first ≡ some before
    → get_str "type" last ≡ some "item.completed"
    → get "item" last ≡ some after
    → get_str "type" before ≡ some (exec_type kind)
    → get_str "type" after ≡ some (exec_type kind)
    → get_str "id" before ≡ get_str "id" after
    → get_str "server" before ≡ get_str "server" after
    → get_str "tool" before ≡ get_str "tool" after
    → let started = parse_stdout display from_str s first in
      let completed = parse_stdout display from_str (started.0) last in
      SameCard (started.1) (completed.1)
unfolding map_item_started map_item_completed
parse_stdout-card display from_str s first last before after kind a b c d e f i j k =
    let id = scoped_id display s (text_or "unknown" "id" before) in
    let kinds =
      card-kinds display s before after kind id
        (codex_normalize_status (text_or "completed" "status" after))
        (mcp_tool_name-same before after j k) in
    rw
      (
        started-line display from_str s first before a b,
        completed-line display from_str s last after c d,
        text_or-some "type" (exec_type kind) before e,
        text_or-some "type" (exec_type kind) after f,
        sym (text_or-same "unknown" "id" before after i),
      )
      kinds
