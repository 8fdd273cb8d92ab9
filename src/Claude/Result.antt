-- ===== src/Claude/Result.antt =====
-- src-tauri/src/agent/claude_protocol.rs: the lines of the type `result`, which end a turn. `dollars`
-- makes a JSON number of dollars from 10^-9 dollars. The numbers that the CLI reports are passed on.
use text.Mathlib.Text.{starts_with}
use open_covibe_web.Common.{
  ℕ, ◌+◌, String, str_eq, Bool, true, Option, none, some, List, [], ◌∷◌, ◌++◌, map, any,
  if◌then◌else◌, or_else, unwrap_or, concat,
}
use open_covibe_web.Models.{BusEvent, usage_update, run_state, command_output, other}
use open_covibe_web.Models.Json.{
  Json, null, num, str, obj, object, get, get_str, get_u64, get_array, entries, text_or, opt_str,
  opt_num, strings, arr, list_of,
}
use open_covibe_web.Pricing.{Tokens, is_third_party, estimate_cost}
use open_covibe_web.Claude.State.{ProtocolState}

abbrev count : String → Json → ℕ
count key v = unwrap_or 0 (get_u64 key v)

abbrev count_in : String → String → Json → Json
count_in key inner v = elim (get key v) [ none ↦ null | some w ↦ opt_num (get_u64 inner w) ]

abbrev tokens_of : Json → Tokens
tokens_of entry = record {
  input = count "inputTokens" entry;
  output = count "outputTokens" entry;
  cache_read = count "cacheReadInputTokens" entry;
  cache_write = count "cacheCreationInputTokens" entry;
}

abbrev model_entry : Json → Json → Json
model_entry entry cost =
    let t = tokens_of entry in
    object (
      ("input_tokens", num t.input)
      ∷ ("output_tokens", num t.output)
      ∷ ("cache_read_tokens", num t.cache_read)
      ∷ ("cache_write_tokens", num t.cache_write)
      ∷ ("web_search_requests", num (count "webSearchRequests" entry))
      ∷ ("cost_usd", cost)
      ∷ ("context_window", opt_num (get_u64 "contextWindow" entry))
      ∷ ("max_output_tokens", opt_num (get_u64 "maxOutputTokens" entry))
      ∷ [])

-- The models of a turn, at the costs that the CLI reports, and at those that are estimated.
abbrev reported : String × Json → String × Json
reported (model, entry) = (model, model_entry entry (num (count "costUSD" entry)))

abbrev estimated : (ℕ → Json) → String × Json → String × Json
estimated dollars (model, entry) =
    (model, model_entry entry (dollars (estimate_cost model (tokens_of entry))))

abbrev pub sum_costs : List (String × Json) → ℕ
sum_costs [] = 0
sum_costs ((model, entry) ∷ ms) = estimate_cost model (tokens_of entry) + sum_costs ms

abbrev usage_models : Json → Option (List (String × Json))
usage_models line = elim (get "modelUsage" line) [ some (obj fs) ↦ some (entries fs) | _ ↦ none ]

abbrev pub third_party_used : List (String × Json) → Bool
third_party_used ms = any (λ m. is_third_party (m.0)) ms

-- The cost of the turn and of its models: estimated if a third party's model was used.
abbrev pub costs : (ℕ → Json) → Json → Option (List (String × Json)) → Json × Json
costs dollars cost none = (cost, null)
costs dollars cost (some ms) =
    if third_party_used ms
    then (dollars (sum_costs ms), object (map (estimated dollars) ms))
    else (cost, object (map reported ms))

abbrev reported_cost : Json → Json
reported_cost line =
    num (unwrap_or 0 (or_else (get_u64 "cost_usd" line) (get_u64 "total_cost_usd" line)))

abbrev usage_of : (ℕ → Json) → Json → Json → BusEvent
usage_of dollars line usage =
    let paid = costs dollars (reported_cost line) (usage_models line) in
    usage_update none (
      object (
        ("input_tokens", num (count "input_tokens" usage))
        ∷ ("output_tokens", num (count "output_tokens" usage))
        ∷ ("cache_read_tokens", opt_num (get_u64 "cache_read_input_tokens" usage))
        ∷ ("cache_write_tokens", opt_num (get_u64 "cache_creation_input_tokens" usage))
        ∷ ("total_cost_usd", paid.0)
        ∷ ("model_usage", paid.1)
        ∷ ("duration_api_ms", opt_num (get_u64 "duration_api_ms" line))
        ∷ ("duration_ms", opt_num (get_u64 "duration_ms" line))
        ∷ ("num_turns", opt_num (get_u64 "num_turns" line))
        ∷ ("stop_reason", opt_str (get_str "stop_reason" line))
        ∷ ("service_tier", opt_str (get_str "service_tier" usage))
        ∷ ("speed", opt_str (get_str "speed" usage))
        ∷ ("web_fetch_requests", count_in "server_tool_use" "web_fetch_requests" usage)
        ∷ ("cache_creation_5m", count_in "cache_creation" "ephemeral_5m_input_tokens" usage)
        ∷ ("cache_creation_1h", count_in "cache_creation" "ephemeral_1h_input_tokens" usage)
        ∷ []))

-- For a slash command that the CLI has not answered.
abbrev pub hint_for : String → String
hint_for cmd =
    if str_eq cmd "/cost"
    then "The /cost output is not available in the current CLI version. Cumulative cost is shown in the status bar."
    else if str_eq cmd "/context"
    then "The /context output is not available in the current CLI version. Run /context in a terminal session instead."
    else ""

abbrev hint : Option String → List BusEvent
hint none = []
hint (some cmd) = if str_eq (hint_for cmd) "" then [] else command_output (hint_for cmd) null ∷ []

abbrev pub usage_part :
    (ℕ → Json) → ProtocolState → Json → Option Json → ProtocolState × List BusEvent
usage_part dollars p line none = (p, [])
usage_part dollars p line (some usage) = (
  record p { pending_slash_command = none },
  usage_of dollars line usage ∷ hint p.pending_slash_command,
)

abbrev pub denials : List Json → List BusEvent
denials [] = []
denials (d ∷ ds) =
    let later = denials ds in
    let name = text_or "" "tool_name" d in
    if str_eq name ""
    then later
    else other "permission_denied" (
        object (
          ("tool_name", str name)
          ∷ ("tool_use_id", str (text_or "" "tool_use_id" d))
          ∷ ("tool_input", unwrap_or null (get "tool_input" d))
          ∷ []))
      ∷ later

abbrev joined : List String → String
joined [] = ""
joined (s ∷ []) = s
joined (s ∷ t ∷ ss) = concat (s ∷ "; " ∷ joined (t ∷ ss) ∷ [])

-- The texts of `errors`, if that is an array.
abbrev listed_errors : Option Json → Option String
listed_errors (some (arr vs)) = some (joined (strings (list_of vs)))
listed_errors _ = none

abbrev pub error_message : Json → String
error_message line =
    unwrap_or "Unknown error" (or_else (get_str "error" line) (listed_errors (get "errors" line)))

-- The turn is over: the run is idle, with an error or without one.
abbrev pub outcome : ProtocolState → Json → String → ProtocolState × List BusEvent
outcome p line t =
    if starts_with t "error"
    then (
      record p { got_result_event = true; result_subtype = some t },
      run_state "idle" none (some (error_message line)) ∷ [],
    )
    else (p, run_state "idle" none none ∷ [])

unfoldable pub map_result : (ℕ → Json) → ProtocolState → Json → ProtocolState × List BusEvent
map_result dollars p line =
    let used = usage_part dollars p line (get "usage" line) in
    let over = outcome (used.0) line (text_or "" "subtype" line) in
    (over.0, used.1 ++ (denials (get_array "permission_denials" line) ++ over.1))
