-- ===== src/Claude/State.antt =====
-- src-tauri/src/agent/claude_protocol.rs: what is remembered of the lines of a session.
use open_covibe_web.Common.{ℕ, String, Bool, false, Option, none, List, [], ◌+◌, ◌%◌, ◌^◌}

pub record ParserStats : Type 0 where
  pub unknown_event_count : ℕ
  pub parse_warn_count : ℕ
  pub invalid_tool_count : ℕ
  pub dropped_count : ℕ

pub record ProtocolState : Type 0 where
  -- Tool calls and the names of their tools, and the input that has come for each.
  pub emitted_tool_ids : List (String × String)
  pub input_json_accum : List (String × String)
  pub last_tool_use_id : Option String
  pub got_result_event : Bool
  pub result_subtype : Option String
  pub is_resume : Bool
  pub seen_first_init : Bool
  pub pending_slash_command : Option String
  pub stats : ParserStats
  pub seen_stream_event_envelope : Bool

-- `ProtocolState::new`.
abbrev pub new : Bool → ProtocolState
new is_resume = record {
  emitted_tool_ids = [];
  input_json_accum = [];
  last_tool_use_id = none;
  got_result_event = false;
  result_subtype = none;
  is_resume = is_resume;
  seen_first_init = false;
  pending_slash_command = none;
  stats = record {
    unknown_event_count = 0;
    parse_warn_count = 0;
    invalid_tool_count = 0;
    dropped_count = 0;
  };
  seen_stream_event_envelope = false;
}

-- The counters are `u32`s.
abbrev pub count_unknown : ProtocolState → ProtocolState
count_unknown p = record p {
  stats = record p.stats { unknown_event_count = (p.stats.unknown_event_count + 1) % 2 ^ 32 };
}

abbrev pub count_dropped : ProtocolState → ProtocolState
count_dropped p = record p {
  stats = record p.stats { dropped_count = (p.stats.dropped_count + 1) % 2 ^ 32 };
}

abbrev pub count_warnings : ℕ → ProtocolState → ProtocolState
count_warnings n p = record p {
  stats = record p.stats { parse_warn_count = (p.stats.parse_warn_count + n) % 2 ^ 32 };
}
