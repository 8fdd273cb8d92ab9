-- ===== src/Storage/Index.antt =====
-- src-tauri/src/storage/run_index.rs: the summary of a run, from its meta.json and events.jsonl. The
-- costs in the events are whole numbers of some fraction of a dollar.
pub mod Update
pub mod Rebuild
pub mod History
pub mod Tests
use Prim.Native.Char.{code}
use Prim.Native.String
use Prim.Native.String.{compare}
use Prim.Native.Nat.{lt, eq, gt}
use open_covibe_web.Common.{
  bytes_of, byte_len, ℕ, ◌+◌, ◌-◌, ◌*◌, ◌%◌, ◌^◌, String, str_eq, Bool, true, false, not, any, ◌&&◌,
  Option, none, some, List, [], ◌∷◌, if◌then◌else◌, leb, ltb, unwrap_or, concat, contains, trim,
}
use open_covibe_web.Models.{RunStatus}
use open_covibe_web.Models.Json.{Json, bool, get, get_str, get_str_in, get_u64, get_array, text_or}

-- `from_str` of serde_json, and the milliseconds between two times, if both can be read and are in
-- order (chrono).
pub record Reader : Type 0 where
  pub from_str : String → Option Json
  pub elapsed : (started ended : String) → Option ℕ

pub record RunIndexEntry : Type 0 where
  pub run_id : String
  pub cwd : String
  pub agent : String
  pub model : Option String
  pub status : RunStatus
  pub started_at : String
  pub ended_at : Option String
  pub name : Option String
  pub prompt_preview : String
  pub tools_used : List String
  pub tool_call_count : ℕ
  pub files_touched : List String
  pub total_cost : ℕ
  pub input_tokens : ℕ
  pub output_tokens : ℕ
  pub duration_ms : ℕ
  pub num_turns : ℕ
  pub error_summary : Option String
  pub has_errors : Bool
  pub permission_denied_count : ℕ

-- `&s[..s.floor_char_boundary(room)]`.
abbrev cut : ℕ → String → String
cut room String.[] = String.[]
cut room (String.◌∷◌ c s) =
    let n = bytes_of (code c) in
    let rest = cut (room - n) s in if leb n room then String.◌∷◌ c rest else String.[]

abbrev shortened : ℕ → String → String
shortened room s = if ltb room (byte_len s) then concat (cut room s ∷ "..." ∷ []) else s

-- A set of names, which is sorted from the start.
abbrev add_name : String → List String → List String
add_name s [] = s ∷ []
add_name s (t ∷ ts) =
    let later = add_name s ts in
    elim (compare s t) [ lt ↦ s ∷ t ∷ ts | eq ↦ t ∷ ts | gt ↦ t ∷ later ]

abbrev add_some : Option String → List String → List String
add_some none names = names
add_some (some s) names = add_name s names

-- What is counted while the events are read.
pub record Counts : Type 0 where
  pub tools : List String
  pub files : List String
  pub tool_call_count : ℕ
  pub num_turns : ℕ
  pub has_errors : Bool
  pub error_summary : Option String
  pub permission_denied_count : ℕ
  pub total_cost : ℕ
  pub prev_cost : ℕ
  pub peak_cost : ℕ
  pub last_input : ℕ
  pub last_output : ℕ
  pub total_duration_ms : ℕ
  pub last_num_turns : ℕ

abbrev pub no_counts : Counts
no_counts = record {
  tools = [];
  files = [];
  tool_call_count = 0;
  num_turns = 0;
  has_errors = false;
  error_summary = none;
  permission_denied_count = 0;
  total_cost = 0;
  prev_cost = 0;
  peak_cost = 0;
  last_input = 0;
  last_output = 0;
  total_duration_ms = 0;
  last_num_turns = 0;
}

abbrev add_files : List Json → List String → List String
add_files [] names = names
add_files (f ∷ fs) names = add_files fs (add_some (get_str "filename" f) names)

-- A cost for each turn is added up. A cumulative one that falls by more than a tenth starts a segment;
-- each segment costs its peak.
abbrev pub add_cost : Bool → ℕ → Counts → Counts
add_cost true cost c = record c { total_cost = c.total_cost + cost }
add_cost false cost c =
    let b =
      if ltb (10 * cost) (9 * c.prev_cost) && ltb 0 c.prev_cost
      then record c { total_cost = c.total_cost + c.peak_cost; peak_cost = 0 }
      else c in
    record b { peak_cost = if ltb b.peak_cost cost then cost else b.peak_cost; prev_cost = cost }

abbrev add_tokens : Bool → Json → Counts → Counts
add_tokens true event c = record c {
  last_input = (c.last_input + unwrap_or 0 (get_u64 "input_tokens" event)) % 2 ^ 64;
  last_output = (c.last_output + unwrap_or 0 (get_u64 "output_tokens" event)) % 2 ^ 64;
}
add_tokens false event c = record c {
  last_input = unwrap_or c.last_input (get_u64 "input_tokens" event);
  last_output = unwrap_or c.last_output (get_u64 "output_tokens" event);
}

abbrev add_usage : Bool → Json → Counts → Counts
add_usage per_turn event c =
    let b =
      add_tokens per_turn event
        (add_cost per_turn (unwrap_or 0 (get_u64 "total_cost_usd" event)) c) in
    record b {
      total_duration_ms =
          (b.total_duration_ms + unwrap_or 0 (get_u64 "duration_ms" event)) % 2 ^ 64;
      last_num_turns = unwrap_or b.last_num_turns (get_u64 "num_turns" event);
    }

abbrev add_error : Option String → Counts → Counts
add_error none c = c
add_error (some e) c = record c { has_errors = true; error_summary = some (shortened 200 e) }

unfoldable pub add_event : Bool → Counts → Json → Counts
add_event per_turn c event =
    let t = text_or "" "type" event in
    if str_eq t "tool_start"
    then record c {
      tools = add_some (get_str "tool_name" event) c.tools;
      tool_call_count = (c.tool_call_count + 1) % 2 ^ 32;
      files = add_some (get_str_in "input" "file_path" event) c.files;
    }
    else if str_eq t "tool_end"
    then record c { files = add_some (get_str_in "tool_use_result" "filePath" event) c.files }
    else if str_eq t "files_persisted"
    then record c { files = add_files (get_array "files" event) c.files }
    else if str_eq t "usage_update"
    then add_usage per_turn event c
    else if str_eq t "run_state"
    then add_error (get_str "error" event) c
    else if str_eq t "permission_denied"
    then record c { permission_denied_count = (c.permission_denied_count + 1) % 2 ^ 32 }
    else if str_eq t "user_message"
    then record c { num_turns = (c.num_turns + 1) % 2 ^ 64 }
    else c

abbrev relevant : List String
relevant =
    "\"tool_start\"" ∷ "\"tool_end\"" ∷ "\"files_persisted\"" ∷ "\"usage_update\"" ∷ "\"run_state\""
    ∷ "\"permission_denied\"" ∷ "\"user_message\"" ∷ []

-- The event of a line: that in a bus envelope, or the line itself.
abbrev event_in : Json → Option Json
event_in v = elim (get "_bus" v) [ some (bool true) ↦ get "event" v | _ ↦ some v ]

abbrev event_of : Option Json → Option Json
event_of none = none
event_of (some v) = event_in v

abbrev add_some_event : Bool → Counts → Option Json → Counts
add_some_event per_turn c none = c
add_some_event per_turn c (some event) = add_event per_turn c event

unfoldable pub add_line : Reader → Bool → Counts → String → Counts
add_line r per_turn c line =
    let text = trim line in
    if any (contains text) relevant
    then add_some_event per_turn c (event_of (r.from_str text))
    else c

abbrev pub add_lines : Reader → Bool → Counts → List String → Counts
add_lines r per_turn c [] = c
add_lines r per_turn c (line ∷ lines) = add_lines r per_turn (add_line r per_turn c line) lines

abbrev status_in : Option String → RunStatus
status_in none = RunStatus.completed
status_in (some s) =
    if str_eq s "pending"
    then RunStatus.pending
    else if str_eq s "running"
    then RunStatus.running
    else if str_eq s "idle"
    then RunStatus.idle
    else if str_eq s "failed"
    then RunStatus.failed
    else if str_eq s "stopped"
    then RunStatus.stopped
    else RunStatus.completed

abbrev calc_duration_ms : Reader → String → Option String → Option ℕ
calc_duration_ms r started none = none
calc_duration_ms r started (some ended) =
    if str_eq started "" then none else if str_eq ended "" then none else r.elapsed started ended

abbrev is_source : Option String → Bool
is_source none = false
is_source (some s) = str_eq s "cli_import"

abbrev is_per_turn : Json → Bool
is_per_turn meta = is_source (get_str "source" meta)

unfoldable pub scan_run : Reader → String → List String → Json → RunIndexEntry
scan_run r run_id lines meta =
    let per_turn = is_per_turn meta in
    let c = add_lines r per_turn no_counts lines in
    let started = text_or "" "started_at" meta in
    let ended = get_str "ended_at" meta in
    record {
      run_id = run_id;
      cwd = text_or "" "cwd" meta;
      agent = text_or "claude" "agent" meta;
      model = get_str "model" meta;
      status = status_in (get_str "status" meta);
      started_at = started;
      ended_at = ended;
      name = get_str "name" meta;
      prompt_preview = shortened 100 (text_or "" "prompt" meta);
      tools_used = c.tools;
      tool_call_count = c.tool_call_count;
      files_touched = c.files;
      total_cost = if per_turn then c.total_cost else c.total_cost + c.peak_cost;
      input_tokens = c.last_input;
      output_tokens = c.last_output;
      duration_ms =
          if ltb 0 c.total_duration_ms
          then c.total_duration_ms
          else unwrap_or 0 (calc_duration_ms r started ended);
      num_turns = if ltb 0 c.last_num_turns then c.last_num_turns else c.num_turns;
      error_summary = c.error_summary;
      has_errors = c.has_errors;
      permission_denied_count = c.permission_denied_count;
    }
