-- ===== src/Storage/Events.antt =====
-- src-tauri/src/storage/events.rs: events.jsonl of a run, as bytes. A run without the file has an
-- empty one: both read the same.
pub mod Lines
pub mod Tail
use open_covibe_web.Common.{
  ℕ, zero, suc, ◌++◌, or_else, ◌+◌, ◌-◌, String, str_eq, Bool, true, false, ◌&&◌, ◌||◌, Option,
  none, some, List, [], ◌∷◌, ◌==◌, if◌then◌else◌, ltb, leb, length, any, max, unwrap_or,
}
use open_covibe_web.Models.Json.{Json, bool, num, obj, Fields, end, field, get, get_str, get_u64}

-- What the code relies on: `from_str` is serde_json's on the text of the bytes, with a sign for what
-- is no UTF-8, `to_string` its printing, and a file is readable as a whole if it is UTF-8 and its disk
-- works.
pub record Serde : Type 0 where
  pub from_str : List ℕ → Option Json
  pub to_string : Json → List ℕ
  pub readable : List ℕ → Bool

-- Unicode white space of two and of three bytes in UTF-8.
abbrev space2 : ℕ → ℕ → Bool
space2 b c = (b == 0xc2) && ((c == 0x85) || (c == 0xa0))

abbrev space3 : ℕ → ℕ → ℕ → Bool
space3 b c d =
    ((b == 0xe1) && ((c == 0x9a) && (d == 0x80)))
    || ((b == 0xe2)
        && (((c == 0x80) && (leb d 0x8a || ((d == 0xa8) || ((d == 0xa9) || (d == 0xaf)))))
            || ((c == 0x81) && (d == 0x9f))))
    || ((b == 0xe3) && ((c == 0x80) && (d == 0x80)))

abbrev space1 : ℕ → Bool
space1 b = (leb 9 b && leb b 13) || (b == 32)

-- `l.trim().is_empty()`.
unfoldable pub is_blank : List ℕ → Bool
is_blank [] = true
is_blank (b ∷ []) = space1 b
is_blank (b ∷ c ∷ []) = (space1 b && space1 c) || space2 b c
is_blank (b ∷ c ∷ d ∷ bs) =
    let after1 = is_blank (c ∷ d ∷ bs) in
    let after2 = is_blank (d ∷ bs) in
    let after3 = is_blank bs in
    if space1 b then after1 else if space2 b c then after2 else space3 b c d && after3

abbrev pub is_newline : List ℕ → Bool
is_newline [] = false
is_newline (b ∷ bs) = b == 10

abbrev pub longer : ℕ → List (List ℕ) → List (List ℕ)
longer b [] = (b ∷ []) ∷ []
longer b (l ∷ ls) = (b ∷ l) ∷ ls

-- `str::lines`: a line ends at LF or CR LF.
unfoldable pub lines : List ℕ → List (List ℕ)
lines [] = []
lines (b ∷ bs) =
    let rest = lines bs in
    if b == 10 then [] ∷ rest else if (b == 13) && is_newline bs then rest else longer b rest

-- The value of a line that is not blank.
abbrev pub line_value : Serde → List ℕ → Option Json
line_value t l = if is_blank l then none else t.from_str l

abbrev pub or_nothing : Option Json → List Json
or_nothing none = []
or_nothing (some v) = v ∷ []

-- The values of the lines that parse.
abbrev pub values : Serde → List (List ℕ) → List Json
values t [] = []
values t (l ∷ ls) = or_nothing (line_value t l) ++ values t ls

abbrev pub seq_of : Option ℕ → List ℕ
seq_of none = []
seq_of (some n) = n ∷ []

abbrev pub seqs : List Json → List ℕ
seqs [] = []
seqs (v ∷ vs) = seq_of (get_u64 "seq" v) ++ seqs vs

abbrev pub larger : ℕ → Option ℕ → ℕ
larger n none = n
larger n (some m) = max n m

abbrev pub maximum : List ℕ → Option ℕ
maximum [] = none
maximum (n ∷ ns) = some (larger n (maximum ns))

-- The sequence numbers in a text.
abbrev pub seqs_in : Serde → List ℕ → List ℕ
seqs_in t content = seqs (values t (lines content))

abbrev pub scan_max_seq : Serde → List ℕ → Option ℕ
scan_max_seq t content = maximum (seqs_in t content)

abbrev pub skip : ℕ → List ℕ → List ℕ
skip zero bs = bs
skip (suc n) [] = []
skip (suc n) (b ∷ bs) = skip n bs

-- What follows the first newline; nothing without one.
abbrev pub after_newline : List ℕ → List ℕ
after_newline [] = []
after_newline (b ∷ bs) = let rest = after_newline bs in if b == 10 then bs else rest

abbrev pub tail_size : ℕ
tail_size = 4096

-- The lines of the last 4 KiB, less the first one, which may be a part of a line.
unfoldable pub max_seq_in_tail : Serde → List ℕ → Option ℕ
max_seq_in_tail t file =
    if ltb tail_size (length file)
    then scan_max_seq t (after_newline (skip (length file - tail_size) file))
    else scan_max_seq t file

abbrev pub after : Option ℕ → ℕ
after none = 1
after (some m) = m + 1

abbrev pub scan_all : Serde → List ℕ → Option ℕ
scan_all t file = if t.readable file then scan_max_seq t file else none

unfoldable pub next_seq : Serde → List ℕ → ℕ
next_seq t file =
    if length file == 0 then 1 else after (or_else (max_seq_in_tail t file) (scan_all t file))

abbrev pub replay_types : List String
replay_types =
    "session_init" ∷ "message_delta" ∷ "thinking_delta" ∷ "tool_input_delta" ∷ "message_complete"
    ∷ "user_message" ∷ "tool_start" ∷ "tool_end" ∷ "run_state" ∷ "usage_update"
    ∷ "permission_denied" ∷ "permission_prompt" ∷ "compact_boundary" ∷ "system_status"
    ∷ "auth_status" ∷ "hook_started" ∷ "hook_response" ∷ "control_cancelled" ∷ "task_notification"
    ∷ "tool_progress" ∷ "tool_use_summary" ∷ "command_output" ∷ "files_persisted" ∷ "hook_progress"
    ∷ "hook_callback" ∷ "elicitation_prompt" ∷ "rate_limit_event" ∷ "codex_hook_run" ∷ []

abbrev pub is_replayable_type : Option String → Bool
is_replayable_type none = false
is_replayable_type (some tag) = any (str_eq tag) replay_types

-- `is_replayable`, of an event as JSON.
unfoldable pub is_replayable : Json → Bool
is_replayable event = is_replayable_type (get_str "type" event)

-- `Map::insert`: in its place, or at the end.
abbrev pub put_field : String → Json → Fields → Fields
put_field k v end = field k v end
put_field k v (field j w fs) =
    let rest = put_field k v fs in if str_eq j k then field k v fs else field j w rest

abbrev pub put : String → Json → Json → Json
put k v (obj fs) = obj (put_field k v fs)
put k v w = w

abbrev pub put_opt : String → Option Json → Json → Json
put_opt k none event = event
put_opt k (some v) event = put k v event

-- The event as the frontend gets it, with the time and the number of its envelope.
abbrev pub replayed : Json → ℕ → Json → Json
replayed v seq event = put "_seq" (num seq) (put_opt "ts" (get "ts" v) event)

abbrev pub is_bus : Option Json → Bool
is_bus (some (bool b)) = b
is_bus _ = false

abbrev pub replay_event : ℕ → Json → Option ℕ → Option Json → List Json
replay_event min_seq v (some seq) (some event) =
    if ltb min_seq seq && is_replayable event then replayed v seq event ∷ [] else []
replay_event min_seq v (some seq) none = []
replay_event min_seq v none event = []

unfoldable pub replay_value : ℕ → Json → List Json
replay_value min_seq v =
    if is_bus (get "_bus" v) then replay_event min_seq v (get_u64 "seq" v) (get "event" v) else []

abbrev pub replay : ℕ → List Json → List Json
replay min_seq [] = []
replay min_seq (v ∷ vs) = replay_value min_seq v ++ replay min_seq vs

unfoldable pub list_bus_events : Serde → List ℕ → Option ℕ → List Json
list_bus_events t file since_seq =
    if t.readable file then replay (unwrap_or 0 since_seq) (values t (lines file)) else []
