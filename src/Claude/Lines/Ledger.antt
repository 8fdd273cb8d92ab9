-- ===== src/Claude/Lines/Ledger.antt =====
-- src-tauri/src/agent/claude_protocol.rs: the run states and the unknown lines of a session.
use open_covibe_web.Common.{
  any, ◌&&◌, true, false, ℕ, ◌+◌, ◌%◌, ◌^◌, String, str_eq, Bool, ◌||◌, Option, none, some, List,
  [], ◌∷◌, ◌++◌, ◌≡◌, refl, arith, ◌∙◌, if◌then◌else◌, unwrap_or,
}
use open_covibe_web.Models.{BusEvent}
use open_covibe_web.Models.Json.{Json, get, get_array, text_or}
use open_covibe_web.Claude.{
  Outside, map_event, map_typed, seen_envelope, inner_event, fallback, parent_of,
}
use open_covibe_web.Claude.State.{ProtocolState, new}
use open_covibe_web.Claude.System.{map_system, map_init, system_events, system_via}
use open_covibe_web.Claude.Stream.{map_block_start}
use open_covibe_web.Claude.Messages.{map_assistant, calls_of, mention, message_of}
use open_covibe_web.Claude.Result.{map_result, usage_part, denials, outcome}
use open_covibe_web.Claude.Lines.{tally, flag, says, is_raw, is_type, type_of, map_events}
use open_covibe_web.Claude.Lines.Types.{map_typed-cases}
use open_covibe_web.Claude.Lines.Quiet.{
  system_events-Quiet, denials-Quiet, Quiet, tally-append, local_output-Quiet, usage_part-Quiet,
}

-- The session has been announced as running, or was so before.
abbrev pub announced : ProtocolState → ℕ
announced p = flag (p.seen_first_init || p.is_resume)

-- What a line adds, which says `idle` so often and is an `init` or not.
record Adds (idles : ℕ) (init : Bool) (p : ProtocolState) (out : ProtocolState × List BusEvent)
    : Type 0 where
  pub seen : (out.0).seen_first_init ≡ (p.seen_first_init || init)
  pub running : tally (says "running") (out.1) + announced p ≡ announced (out.0)
  pub idle : tally (says "idle") (out.1) ≡ idles
  pub raws :
      (p.stats.unknown_event_count + tally is_raw (out.1)) % 2 ^ 32
      ≡ (out.0).stats.unknown_event_count % 2 ^ 32
  pub resume : (out.0).is_resume ≡ p.is_resume

Adds-Quiet :
    (p : ProtocolState) (out : ProtocolState × List BusEvent) → Quiet p out → Adds 0 false p out
Adds-Quiet p out q = record {
  seen = ground (arith, q.seen);
  running = ground (arith, q.soft.says "running", q.seen, q.resume);
  idle = q.soft.says "idle";
  raws = ground (arith, q.soft.raws, q.unknown);
  resume = q.resume;
}

-- One output after another.
Adds-then :
    (m n : ℕ) (i j : Bool) (p : ProtocolState) (a b : ProtocolState × List BusEvent)
    → Adds m i p a
    → Adds n j (a.0) b
    → Adds (m + n) (i || j) p (b.0, a.1 ++ b.1)
Adds-then m n i j p a b k l = record {
  seen = ground (arith, k.seen, l.seen);
  running = omega (arith, tally-append (says "running") (a.1) (b.1), k.running, l.running);
  idle = omega (arith, tally-append (says "idle") (a.1) (b.1), k.idle, l.idle);
  raws = omega (arith, tally-append is_raw (a.1) (b.1), k.raws, l.raws);
  resume = l.resume ∙ k.resume;
}

calls_of-Adds :
    (p : ProtocolState) (parent : Option String) (blocks : List Json)
    → Adds 0 false p (calls_of p parent blocks)
calls_of-Adds p parent [] = ground arith
calls_of-Adds p parent (b ∷ bs) =
    let here =
      if str_eq (text_or "" "type" b) "tool_use"
      then mention p parent (text_or "" "id" b) (text_or "" "name" b) b
      else (p, []) in
    Adds-then 0 0 false false p here (calls_of (here.0) parent bs) (ground arith)
      (calls_of-Adds (here.0) parent bs)

map_assistant-Adds :
    (fresh_id : Json → String) (p : ProtocolState) (parent : Option String) (line : Json)
    → Adds 0 false p (map_assistant fresh_id p parent line)
unfolding map_assistant
map_assistant-Adds fresh_id p parent line =
    let called = calls_of p parent (get_array "content" (message_of line)) in
    Adds-then 0 0 false false p called (called.0, _)
      (calls_of-Adds p parent (get_array "content" (message_of line))) (ground arith)

map_block_start-Adds :
    (p : ProtocolState) (parent : Option String) (line : Json)
    → Adds 0 false p (map_block_start p parent line)
unfolding map_block_start
map_block_start-Adds p parent line = ground arith

map_init-Adds : (p : ProtocolState) (line : Json) → Adds 0 true p (map_init p line)
unfolding map_init
map_init-Adds p line = ground arith

system_via-Adds :
    (p : ProtocolState) (t : String) (line : Json) (o : Option (List BusEvent))
    → system_events t line ≡ o
    → Adds 0 false p (system_via p t line o)
system_via-Adds p t line (some evs) e = Adds-Quiet p _ (system_events-Quiet p t line evs e)
system_via-Adds p t line none e = ground (arith, Adds-Quiet p _ (local_output-Quiet p line))

map_system-Adds :
    (p : ProtocolState) (line : Json)
    → Adds 0 (str_eq (text_or "" "subtype" line) "init") p (map_system p line)
unfolding map_system
map_system-Adds p line =
    let t = text_or "" "subtype" line in
    ground (arith, map_init-Adds p line, system_via-Adds p t line (system_events t line) refl)

outcome-Adds : (p : ProtocolState) (line : Json) (t : String) → Adds 1 false p (outcome p line t)
outcome-Adds p line t = ground arith

map_result-Adds :
    (dollars : ℕ → Json) (p : ProtocolState) (line : Json)
    → Adds 1 false p (map_result dollars p line)
unfolding map_result
map_result-Adds dollars p line =
    let used = usage_part dollars p line (get "usage" line) in
    let denied = denials (get_array "permission_denials" line) in
    let over = outcome (used.0) line (text_or "" "subtype" line) in
    Adds-then 0 1 false false p used (over.0, denied ++ over.1)
      (Adds-Quiet p used (usage_part-Quiet dollars p line (get "usage" line)))
      (Adds-then 0 1 false false (used.0) (used.0, denied) over
        (Adds-Quiet (used.0) _ (denials-Quiet (used.0) (get_array "permission_denials" line)))
        (outcome-Adds (used.0) line _))

fallback-Adds : (p : ProtocolState) (t : String) (line : Json) → Adds 0 false p (fallback p t line)
fallback-Adds p t line = ground arith

-- A line of this type is the `init` of a session.
abbrev starts_session : String → Json → Bool
starts_session t line = str_eq t "system" && str_eq (text_or "" "subtype" line) "init"

map_typed-Adds :
    (o : Outside) (p : ProtocolState) (parent : Option String) (t : String) (line : Json)
    → Adds (flag (str_eq t "result")) (starts_session t line) p (map_typed o p parent t line)
map_typed-Adds o p parent t line =
    map_typed-cases (Adds (flag (str_eq t "result")) (starts_session t line) p) o p parent t line
      (λ e. rw e (map_system-Adds p line)) (λ e. rw e (map_block_start-Adds p parent line))
      (λ e. rw e (map_assistant-Adds o.fresh_id p parent line))
      (λ e. rw e (map_result-Adds o.dollars p line)) (λ s n out q. rw (s, n) (Adds-Quiet p out q))
      (λ s n. rw (s, n) (fallback-Adds p t line))

seen_envelope-Adds :
    (n : ℕ) (i : Bool) (p : ProtocolState) (inner : Option Json)
    (out : ProtocolState × List BusEvent)
    → Adds n i (seen_envelope p inner) out
    → Adds n i p out
seen_envelope-Adds n i p none out a = a
seen_envelope-Adds n i p (some v) out a = ground (arith, a)

-- The line, or the one in its envelope, is the `init` of a session.
abbrev pub is_init : Json → Bool
is_init line = starts_session (type_of line) (unwrap_or line (inner_event line))

map_event-Adds :
    (o : Outside) (p : ProtocolState) (line : Json)
    → Adds (flag (is_type "result" line)) (is_init line) p (map_event o p line)
unfolding map_event
map_event-Adds o p line =
    let inner = inner_event line in
    seen_envelope-Adds (flag (is_type "result" line)) (is_init line) p inner _ (
      map_typed-Adds o (seen_envelope p inner) (parent_of line inner) (type_of line)
        (unwrap_or line inner))

-- The lines of a type.
abbrev pub lines_of : String → List Json → ℕ
lines_of t [] = 0
lines_of t (line ∷ lines) = flag (is_type t line) + lines_of t lines

map_events-Adds :
    (o : Outside) (p : ProtocolState) (lines : List Json)
    → Adds (lines_of "result" lines) (any is_init lines) p (map_events o p lines)
map_events-Adds o p [] = ground arith
map_events-Adds o p (line ∷ lines) =
    let here = map_event o p line in
    Adds-then (flag (is_type "result" line)) (lines_of "result" lines) (is_init line)
      (any is_init lines) p here (map_events o (here.0) lines) (map_event-Adds o p line)
      (map_events-Adds o (here.0) lines)

-- Over any lines from the start of a session, the events say `running` once if the session is new
-- and one of the lines is an `init`, and else never, and they say `idle` once for each result line.
pub map_events-states :
    (o : Outside) (is_resume : Bool) (lines : List Json)
    → let out = map_events o (new is_resume) lines in
      (tally (says "running") (out.1) ≡ (if is_resume then 0 else flag (any is_init lines)))
      × (tally (says "idle") (out.1) ≡ lines_of "result" lines)
map_events-states o is_resume lines =
    let a = map_events-Adds o (new is_resume) lines in
    (ground (arith, a.running, a.seen, a.resume), a.idle)

-- The lines that the parser counts as unknown are those that it passes on as they are; the count is a
-- `u32`.
pub map_events-unknown :
    (o : Outside) (is_resume : Bool) (lines : List Json)
    → let out = map_events o (new is_resume) lines in
      (out.0).stats.unknown_event_count % 2 ^ 32 ≡ tally is_raw (out.1) % 2 ^ 32
map_events-unknown o is_resume lines = omega (arith, (map_events-Adds o (new is_resume) lines).raws)
