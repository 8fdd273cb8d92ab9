-- ===== src/Session/Stdout/Hidden.antt =====
-- src-tauri/src/agent/session_actor.rs: in quarantine nothing of the CLI's output is shown, until it
-- says that the run is idle or has failed.
use open_covibe_web.Claude.{map_event}
use open_covibe_web.Common.{
  if◌then◌else◌, ℕ, String, Bool, true, false, none, some, List, [], ◌∷◌, ◌≡◌, arith, trim,
  unwrap_or, Option,
}
use open_covibe_web.Models.{BusEvent, run_state}
use open_covibe_web.Models.Json.{Json, get_str}
use open_covibe_web.Session.Turn.{apply_activity_reset}
use open_covibe_web.Session.Actor.{
  relayed, Effect, emitted, realtime, SessionActor, Wire, json, Line, write_line,
}
use open_covibe_web.Session.Control.{
  resolve_waiter, handle_control_event_internal, auto_response, auto_context,
  build_control_response, subtype_of, text_of,
}
use open_covibe_web.Session.Stdout.{
  touch, quarantine_events, count_invalid, is_boundary, is_valid_event, mapped, route,
  handle_stdout_line, unparsed, handle_parsed,
}

-- The events of the log that reach the user, stored or not.
abbrev pub shown : List Effect → List BusEvent
shown [] = []
shown (emitted ev ∷ log) = ev ∷ shown log
shown (relayed ev ∷ log) = ev ∷ shown log
shown (realtime ev ∷ log) = ev ∷ shown log
shown (e ∷ log) = shown log

-- No event says that the run is idle or has failed.
abbrev pub NoBoundary : List BusEvent → Type 0
NoBoundary [] = Unit
NoBoundary (run_state s c e ∷ evs) = (is_boundary s ≡ false) × NoBoundary evs
NoBoundary (ev ∷ evs) = NoBoundary evs

-- What a hidden line leaves alone.
pub record Hidden (a b : SessionActor) : Type 0 where
  pub shown : shown b.log ≡ shown a.log
  pub prompt : b.pending_interactive_request ≡ a.pending_interactive_request
  pub quarantine : b.quarantine_until_result ≡ a.quarantine_until_result

Hidden-refl : (a : SessionActor) → Hidden a a
Hidden-refl a = ground arith

Hidden-trans : (a b c : SessionActor) → Hidden a b → Hidden b c → Hidden a c
Hidden-trans a b c h k = ground arith

quarantine_events-Hidden :
    (w : Wire) (a : SessionActor) (now : ℕ) (evs : List BusEvent)
    → NoBoundary evs
    → Hidden a (quarantine_events w a now evs)
unfolding quarantine_events
quarantine_events-Hidden w a now [] h = Hidden-refl a
quarantine_events-Hidden w a now (run_state s c e ∷ evs) h =
    ground (arith, quarantine_events-Hidden w a now evs h.1)
quarantine_events-Hidden w a now (ev ∷ evs) h =
    let b = if is_valid_event ev then a else count_invalid a in
    Hidden-trans a b _ (ground arith) (quarantine_events-Hidden w b now evs h)

write_line-Hidden :
    (a : SessionActor) (label : String) (strict : Bool) (line : Line)
    → Hidden a (write_line a label strict line).0
unfolding write_line
write_line-Hidden a label strict line = ground arith

resolve_waiter-Hidden : (a : SessionActor) (parsed : Json) → Hidden a (resolve_waiter a parsed)
unfolding resolve_waiter
resolve_waiter-Hidden a parsed = ground arith

-- A control message of an internal turn or in quarantine shows the user nothing and asks for no
-- decision, and the quarantine stays as it is.
pub handle_control_event_internal-Hidden :
    (a : SessionActor) (parsed : Json) (t : String)
    → Hidden a (handle_control_event_internal a parsed t)
unfolding handle_control_event_internal
handle_control_event_internal-Hidden a parsed t =
    let answer = auto_response (subtype_of parsed) in
    let payload = build_control_response (text_of "request_id" parsed) answer in
    ground (
      arith,
      resolve_waiter-Hidden a parsed,
      write_line-Hidden a (auto_context answer) false (json payload),
    )

route-Hidden :
    (w : Wire) (a : SessionActor) (now : ℕ) (parsed : Json) (t : String)
    → a.quarantine_until_result ≡ true
    → NoBoundary (map_event w.outside a.protocol parsed).1
    → Hidden a (route w a now parsed t)
unfolding route
route-Hidden w a now parsed t q h =
    let b = (mapped w a parsed).0 in
    ground (
      arith,
      handle_control_event_internal-Hidden a parsed t,
      quarantine_events-Hidden w b now (mapped w a parsed).1 h,
    )

-- What a line is read as stands for no idle or failed run state; so does a line that is no JSON.
abbrev pub NoEnd : Wire → SessionActor → Option Json → Type 0
NoEnd w a none = Unit
NoEnd w a (some parsed) = NoBoundary (map_event w.outside a.protocol parsed).1

read-Hidden :
    (w : Wire) (a : SessionActor) (now : ℕ) (text : String) (o : Option Json)
    → a.quarantine_until_result ≡ true
    → NoEnd w a o
    → Hidden a (elim o [ none ↦ unparsed a text | some parsed ↦ handle_parsed w a now parsed ])
unfolding unparsed apply_activity_reset
read-Hidden w a now text none q h = ground arith
read-Hidden w a now text (some parsed) q h =
    ground (arith, route-Hidden w (touch a now) now parsed (unwrap_or "" (get_str "type" parsed)))

-- In quarantine a line of a Claude session shows the user nothing, asks for no decision, and leaves
-- the session in quarantine, unless it is JSON that stands for an idle or failed run state.
pub handle_stdout_line-Hidden :
    (w : Wire) (a : SessionActor) (now : ℕ) (line : String)
    → a.codex ≡ none
    → a.quarantine_until_result ≡ true
    → NoEnd w a (w.from_str (trim line))
    → Hidden a (handle_stdout_line w a now line)
unfolding handle_stdout_line
handle_stdout_line-Hidden w a now line c q h =
    ground (arith, read-Hidden w a now (trim line) (w.from_str (trim line)) q h)
