-- ===== src/Claude/Lines/Starts.antt =====
-- src-tauri/src/agent/claude_protocol.rs: each call of a tool starts once, and ends under the name that
-- it started with.
use open_covibe_web.Common.{
  ℕ, ◌+◌, String, str_eq, Bool, false, Option, none, some, List, [], ◌∷◌, ◌++◌, ◌≡◌, refl, arith,
  ap, ◌∙◌, if◌then◌else◌, unwrap_or, All, lookup, eq_iff, eq_refl, lookup-remove, subst, ◌&&◌,
}
use open_covibe_web.Models.{BusEvent}
use open_covibe_web.Models.Json.{Json, get, get_array, text_or}
use open_covibe_web.Claude.{
  Outside, map_event, map_typed, inner_event, fallback, parent_of, seen_envelope,
}
use open_covibe_web.Claude.State.{ProtocolState}
use open_covibe_web.Claude.System.{map_system, map_init, system_events, system_via}
use open_covibe_web.Claude.Stream.{map_block_start, block_started}
use open_covibe_web.Claude.Messages.{map_assistant, calls_of, mention, message_of}
use open_covibe_web.Claude.Result.{map_result, usage_part, denials, outcome}
use open_covibe_web.Claude.Lines.{
  tally, flag, starts, misnames, knows, is_type, type_of, map_events,
}
use open_covibe_web.Claude.Lines.Quiet.{
  Quiet, tally-append, system_events-Quiet, local_output-Quiet, usage_part-Quiet, denials-Quiet,
}
use open_covibe_web.Claude.Lines.Types.{map_typed-cases}

-- A block, if there is one, with this id.
abbrev pub names : String → Option Json → Bool
names id none = false
names id (some block) = str_eq (text_or "" "id" block) id

-- A line that opens a block with this id.
abbrev pub opens : String → Json → Bool
opens id line =
    is_type "content_block_start" line
    && names id (get "content_block" (unwrap_or line (inner_event line)))

-- What a line does for the call `id`, which may be known under `name`.
record Calls (id name : String) (p : ProtocolState) (out : ProtocolState × List BusEvent)
    : Type 0 where
  pub once : tally (starts id) (out.1) + flag (knows id p) ≡ flag (knows id (out.0))
  pub kept :
      lookup id p.emitted_tool_ids ≡ some name → lookup id (out.0).emitted_tool_ids ≡ some name
  pub named : lookup id p.emitted_tool_ids ≡ some name → tally (misnames id name) (out.1) ≡ 0

module _ (id name : String) where
  Calls-Quiet :
      (p : ProtocolState) (out : ProtocolState × List BusEvent) → Quiet p out → Calls id name p out
  Calls-Quiet p out q = record {
    once = ground (arith, q.soft.starts id, q.calls);
    kept = λ e. ap (lookup id) q.calls ∙ e;
    named = q.named id name;
  }

  -- One output after another.
  Calls-then :
      (p : ProtocolState) (a b : ProtocolState × List BusEvent)
      → Calls id name p a
      → Calls id name (a.0) b
      → Calls id name p (b.0, a.1 ++ b.1)
  Calls-then p a b k l = record {
    once = omega (arith, tally-append (starts id) (a.1) (b.1), k.once, l.once);
    kept = λ e. l.kept (k.kept e);
    named = λ e.
        omega (arith, tally-append (misnames id name) (a.1) (b.1), k.named e, l.named (k.kept e));
  }

  mention-Calls :
      (p : ProtocolState) (parent : Option String) (i n : String) (block : Json)
      → Calls id name p (mention p parent i n block)
  unfolding lookup
  mention-Calls p parent i n block = ground (arith, eq_iff i id, eq_refl id)

  calls_of-Calls :
      (p : ProtocolState) (parent : Option String) (blocks : List Json)
      → Calls id name p (calls_of p parent blocks)
  calls_of-Calls p parent [] = ground arith
  calls_of-Calls p parent (b ∷ bs) =
      let here =
        if str_eq (text_or "" "type" b) "tool_use"
        then mention p parent (text_or "" "id" b) (text_or "" "name" b) b
        else (p, []) in
      Calls-then p here (calls_of (here.0) parent bs)
        (ground (arith, mention-Calls p parent (text_or "" "id" b) (text_or "" "name" b) b))
        (calls_of-Calls (here.0) parent bs)

  map_assistant-Calls :
      (fresh_id : Json → String) (p : ProtocolState) (parent : Option String) (line : Json)
      → Calls id name p (map_assistant fresh_id p parent line)
  unfolding map_assistant
  map_assistant-Calls fresh_id p parent line =
      let blocks = get_array "content" (message_of line) in
      let called = calls_of p parent blocks in
      Calls-then p called (called.0, _) (calls_of-Calls p parent blocks) (ground arith)

  system_via-Calls :
      (p : ProtocolState) (t : String) (line : Json) (o : Option (List BusEvent))
      → system_events t line ≡ o
      → Calls id name p (system_via p t line o)
  system_via-Calls p t line (some evs) e = Calls-Quiet p _ (system_events-Quiet p t line evs e)
  system_via-Calls p t line none e = ground (arith, Calls-Quiet p _ (local_output-Quiet p line))

  map_system-Calls : (p : ProtocolState) (line : Json) → Calls id name p (map_system p line)
  unfolding map_system map_init
  map_system-Calls p line =
      let t = text_or "" "subtype" line in
      ground (arith, system_via-Calls p t line (system_events t line) refl)

  outcome-Calls :
      (p : ProtocolState) (line : Json) (t : String) → Calls id name p (outcome p line t)
  outcome-Calls p line t = ground arith

  map_result-Calls :
      (dollars : ℕ → Json) (p : ProtocolState) (line : Json)
      → Calls id name p (map_result dollars p line)
  unfolding map_result
  map_result-Calls dollars p line =
      let used = usage_part dollars p line (get "usage" line) in
      let denied = denials (get_array "permission_denials" line) in
      let over = outcome (used.0) line (text_or "" "subtype" line) in
      Calls-then p used (over.0, denied ++ over.1)
        (Calls-Quiet p used (usage_part-Quiet dollars p line (get "usage" line)))
        (Calls-then (used.0) (used.0, denied) over
          (Calls-Quiet (used.0) _ (denials-Quiet (used.0) (get_array "permission_denials" line)))
          (outcome-Calls (used.0) line (text_or "" "subtype" line)))

  fallback-Calls :
      (p : ProtocolState) (t : String) (line : Json) → Calls id name p (fallback p t line)
  fallback-Calls p t line = ground arith

  block_started-Calls :
      (p : ProtocolState) (parent : Option String) (o : Option Json)
      → names id o ≡ false
      → Calls id name p (block_started p parent o)
  unfolding lookup
  block_started-Calls p parent none h = ground arith
  block_started-Calls p parent (some block) h =
      let opened = text_or "" "id" block in
      ground (arith, lookup-remove opened id p.emitted_tool_ids, eq_iff opened id, eq_refl id)

  map_block_start-Calls :
      (p : ProtocolState) (parent : Option String) (line : Json)
      → names id (get "content_block" line) ≡ false
      → Calls id name p (map_block_start p parent line)
  unfolding map_block_start
  map_block_start-Calls p parent line h = block_started-Calls p parent (get "content_block" line) h

  map_typed-Calls :
      (o : Outside) (p : ProtocolState) (parent : Option String) (t : String) (line : Json)
      → str_eq t "content_block_start" && names id (get "content_block" line) ≡ false
      → Calls id name p (map_typed o p parent t line)
  map_typed-Calls o p parent t line h =
      map_typed-cases (Calls id name p) o p parent t line (λ e. map_system-Calls p line)
        (λ e. map_block_start-Calls p parent line (
          subst (λ s. str_eq s "content_block_start" && names id (get "content_block" line) ≡ false)
            e h))
        (λ e. map_assistant-Calls o.fresh_id p parent line) (λ e. map_result-Calls o.dollars p line)
        (λ s n out q. Calls-Quiet p out q) (λ s n. fallback-Calls p t line)

  seen_envelope-Calls :
      (p : ProtocolState) (inner : Option Json) (out : ProtocolState × List BusEvent)
      → Calls id name (seen_envelope p inner) out
      → Calls id name p out
  seen_envelope-Calls p none out c = c
  seen_envelope-Calls p (some v) out c = ground (arith, c)

  map_event-Calls :
      (o : Outside) (p : ProtocolState) (line : Json)
      → opens id line ≡ false
      → Calls id name p (map_event o p line)
  unfolding map_event
  map_event-Calls o p line h =
      let inner = inner_event line in
      seen_envelope-Calls p inner _ (
        map_typed-Calls o (seen_envelope p inner) (parent_of line inner) (type_of line)
          (unwrap_or line inner) h)

  map_events-Calls :
      (o : Outside) (p : ProtocolState) (lines : List Json)
      → All (λ line. opens id line ≡ false) lines
      → Calls id name p (map_events o p lines)
  map_events-Calls o p [] h = ground arith
  map_events-Calls o p (line ∷ lines) h =
      let here = map_event o p line in
      Calls-then p here (map_events o (here.0) lines) (map_event-Calls o p line h.0)
        (map_events-Calls o (here.0) lines h.1)

-- Over any lines, none of which opens a block with the id of a call, the call is shown as started
-- once if the lines make it known, and never if it was known before or stays unknown.
pub map_events-once :
    (o : Outside) (p : ProtocolState) (id : String) (lines : List Json)
    → All (λ line. opens id line ≡ false) lines
    → let out = map_events o p lines in
      tally (starts id) (out.1) + flag (knows id p) ≡ flag (knows id (out.0))
map_events-once o p id lines h = (map_events-Calls id "" o p lines h).once

-- If the parser knows a call by a name, then over any lines, none of which opens a block with its
-- id, it keeps that name, and no event shows the end of the call under another.
pub map_events-named :
    (o : Outside) (p : ProtocolState) (id name : String) (lines : List Json)
    → lookup id p.emitted_tool_ids ≡ some name
    → All (λ line. opens id line ≡ false) lines
    → let out = map_events o p lines in
      (lookup id (out.0).emitted_tool_ids ≡ some name) × (tally (misnames id name) (out.1) ≡ 0)
map_events-named o p id name lines e h =
    let c = map_events-Calls id name o p lines h in (c.kept e, c.named e)
