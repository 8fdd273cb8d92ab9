-- ===== src/Session/Stdout/Results/Relayed.antt =====
-- src-tauri/src/agent/session_actor.rs and claude_protocol.rs: the events of a line that ends a turn,
-- and those that only go on to the user.
use open_covibe_web.Common.{
  ℕ, String, Bool, true, false, Option, none, some, List, [], ◌∷◌, ◌++◌, ◌≡◌, refl, arith, ap, ◌∙◌,
  sym, subst, if◌then◌else◌, All, All-append,
}
use text.Mathlib.Text.{starts_with}
use open_covibe_web.Models.{
  BusEvent, usage_update, command_output, other, run_state, session_init, message_complete,
  user_message, ralph_started, ralph_iteration, ralph_complete, raw, tool,
}
use open_covibe_web.Models.Json.{Json, get, get_array, get_str, text_or}
use open_covibe_web.Claude.{Outside, map_event, map_typed, map_unwrapped, inner_event, parent_of}
use open_covibe_web.Claude.State.{ProtocolState}
use open_covibe_web.Claude.Result.{map_result, usage_part, denials, outcome, error_message}
use open_covibe_web.Storage.Events.Lines.{append_assoc}
use open_covibe_web.Session.Actor.{SessionActor, Wire}
use open_covibe_web.Session.Stdout.{
  handle_events, handle_event, user_event, is_valid_event, is_internal_turn,
}

-- An event that only goes on to the user.
abbrev pub passes : BusEvent → Bool
passes (usage_update i p) = true
passes (command_output c p) = true
passes (other tag p) = true
passes _ = false

denials-passes : (ds : List Json) → All (λ e. passes e ≡ true) (denials ds)
denials-passes [] = tt
denials-passes (d ∷ ds) = ground (arith, denials-passes ds)

usage_part-passes :
    (dollars : ℕ → Json) (p : ProtocolState) (line : Json) (usage : Option Json)
    → All (λ e. passes e ≡ true) (usage_part dollars p line usage).1
usage_part-passes dollars p line usage = ground arith

pub handle_events-append :
    (w : Wire) (a : SessionActor) (now : ℕ) (es fs : List BusEvent)
    → handle_events w a now (es ++ fs) ≡ handle_events w (handle_events w a now es) now fs
unfolding handle_events
handle_events-append w a now [] fs = refl
handle_events-append w a now (e ∷ es) fs = handle_events-append w (handle_event w a now e) now es fs

handle_event-passes :
    (w : Wire) (a : SessionActor) (now : ℕ) (e : BusEvent)
    → is_internal_turn a ≡ false
    → passes e ≡ true
    → handle_event w a now e ≡ record a { log = (handle_event w a now e).log }
unfolding handle_event user_event is_valid_event
handle_event-passes w a now (usage_update n p) i h = rw i refl
handle_event-passes w a now (command_output c p) i h = rw i refl
handle_event-passes w a now (other tag p) i h = rw i refl
handle_event-passes w a now (session_init s p) i h = ground (arith, h)
handle_event-passes w a now (message_complete t q p) i h = ground (arith, h)
handle_event-passes w a now (user_message t) i h = ground (arith, h)
handle_event-passes w a now (run_state s c e) i h = ground (arith, h)
handle_event-passes w a now (ralph_started s m c n) i h = ground (arith, h)
handle_event-passes w a now (ralph_iteration m n) i h = ground (arith, h)
handle_event-passes w a now (ralph_complete r n) i h = ground (arith, h)
handle_event-passes w a now (raw s p) i h = ground (arith, h)
handle_event-passes w a now (tool t n p) i h = ground (arith, h)

pub handle_events-passes :
    (w : Wire) (a : SessionActor) (now : ℕ) (es : List BusEvent)
    → is_internal_turn a ≡ false
    → All (λ e. passes e ≡ true) es
    → handle_events w a now es ≡ record a { log = (handle_events w a now es).log }
unfolding handle_events
handle_events-passes w a now [] i h = refl
handle_events-passes w a now (e ∷ es) i h =
    let b = record a { log = (handle_event w a now e).log } in
    subst (λ c. handle_events w c now es ≡ record a { log = (handle_events w c now es).log })
      (sym (handle_event-passes w a now e i h.0)) (handle_events-passes w b now es i h.1)

type_is : (line : Json) → get_str "type" line ≡ some "result" → text_or "" "type" line ≡ "result"
type_is line e = rw (e, text_or) refl

no_inner : (line : Json) → text_or "" "type" line ≡ "result" → inner_event line ≡ none
no_inner line h = rw (h, inner_event) refl

pub map_event-result :
    (o : Outside) (p : ProtocolState) (line : Json)
    → get_str "type" line ≡ some "result"
    → map_event o p line ≡ map_result o.dollars p line
unfolding map_event
map_event-result o p line e =
    let h = type_is line e in
    ap (map_unwrapped o p line) (no_inner line h)
    ∙ ap (λ t. map_typed o p (parent_of line none) t line) h

-- The subtype that the line leaves in the protocol.
abbrev pub subtype_after : Json → Option String → Option String
subtype_after line before =
    let t = text_or "" "subtype" line in if starts_with t "error" then some t else before

outcome-subtype :
    (p : ProtocolState) (line : Json)
    → (outcome p line (text_or "" "subtype" line)).0.result_subtype
      ≡ subtype_after line p.result_subtype
outcome-subtype p line = ground arith

unfoldable pub error_of : Json → Option String
error_of line =
    if starts_with (text_or "" "subtype" line) "error" then some (error_message line) else none

outcome-idle :
    (p : ProtocolState) (line : Json)
    → (outcome p line (text_or "" "subtype" line)).1 ≡ run_state "idle" none (error_of line) ∷ []
unfolding error_of
outcome-idle p line = ground arith

-- The events of a result line: some that go on to the user, and the run state.
pub before_idle : (ℕ → Json) → ProtocolState → Json → List BusEvent
before_idle dollars p line =
    (usage_part dollars p line (get "usage" line)).1
    ++ denials (get_array "permission_denials" line)

pub before_idle-passes :
    (dollars : ℕ → Json) (p : ProtocolState) (line : Json)
    → All (λ e. passes e ≡ true) (before_idle dollars p line)
unfolding before_idle
before_idle-passes dollars p line =
    All-append (λ e. passes e ≡ true) (usage_part dollars p line (get "usage" line)).1 _
      (usage_part-passes dollars p line (get "usage" line))
      (denials-passes (get_array "permission_denials" line))

pub map_result-events :
    (dollars : ℕ → Json) (p : ProtocolState) (line : Json)
    → (map_result dollars p line).1
      ≡ before_idle dollars p line ++ run_state "idle" none (error_of line) ∷ []
unfolding map_result before_idle
map_result-events dollars p line =
    let used = usage_part dollars p line (get "usage" line) in
    let denied = denials (get_array "permission_denials" line) in
    sym (append_assoc (used.1) denied ((outcome (used.0) line (text_or "" "subtype" line)).1))
    ∙ ap (λ es. (used.1 ++ denied) ++ es) (outcome-idle (used.0) line)

pub map_result-subtype :
    (dollars : ℕ → Json) (p : ProtocolState) (line : Json)
    → (map_result dollars p line).0.result_subtype ≡ subtype_after line p.result_subtype
unfolding map_result
map_result-subtype dollars p line =
    let used = usage_part dollars p line (get "usage" line) in
    outcome-subtype (used.0) line ∙ ap (subtype_after line) (ground arith)
