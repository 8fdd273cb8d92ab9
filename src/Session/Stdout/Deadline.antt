-- ===== src/Session/Stdout/Deadline.antt =====
-- src-tauri/src/agent/session_actor.rs: output of the CLI puts off the deadline of a turn.
use Prim.Native.String
use open_covibe_web.Common.{
  ◌+◌, ◌<◌, ℕ, String, str_eq, Bool, true, false, Option, none, some, List, [], ◌∷◌, ◌≡◌, refl,
  arith, if◌then◌else◌, unwrap_or, trim,
}
use open_covibe_web.Models.{ℤ, BusEvent, run_state}
use open_covibe_web.Models.Json.{Json, get_str}
use open_covibe_web.Claude.{map_event}
use open_covibe_web.Session.Turn.{ActiveTurn, is_internal, apply_activity_reset, user_hard_timeout}
use open_covibe_web.Session.Actor.{SessionActor, Wire, json, write_line}
use open_covibe_web.Session.Frame.{Frame, write_line-Frame}
use open_covibe_web.Session.Control.{
  resolve_waiter, handle_control_event, hook_callback, elicitation_request, permission_request,
  refuse, subtype_of, text_of, value_of, build_control_response,
}
use open_covibe_web.Session.Timeout.{on_tick_timeout, turn_tick}
use open_covibe_web.Session.Stdout.{
  touch, is_boundary, is_valid_event, is_internal_turn, user_run_state, user_event, handle_event,
  handle_events, mapped, route, handle_stdout_line,
}
use open_covibe_web.Session.Stdout.Hidden.{NoBoundary}
use open_covibe_web.Session.Stdout.Results.Loops.{report-Frame}

-- The same turn runs, in quarantine or not as before.
record SameTurn (a b : SessionActor) : Type 0 where
  pub turn : b.active_turn ≡ a.active_turn
  pub quarantine : b.quarantine_until_result ≡ a.quarantine_until_result

SameTurn-refl : (a : SessionActor) → SameTurn a a
SameTurn-refl a = ground arith

Frame-SameTurn : (a b : SessionActor) → Frame a b → SameTurn a b
Frame-SameTurn a b f = ground (arith, f)

if-SameTurn :
    (c : Bool) (a x y : SessionActor)
    → SameTurn a x
    → SameTurn a y
    → SameTurn a (if c then x else y)
if-SameTurn true a x y s t = s
if-SameTurn false a x y s t = t

write_line-SameTurn :
    (a : SessionActor) (label : String) (payload : Json)
    → SameTurn a (write_line a label false (json payload)).0
write_line-SameTurn a label payload =
    Frame-SameTurn a _ (write_line-Frame a label false (json payload))

resolve_waiter-SameTurn : (a : SessionActor) (parsed : Json) → SameTurn a (resolve_waiter a parsed)
unfolding resolve_waiter
resolve_waiter-SameTurn a parsed = ground arith

hook_callback-SameTurn :
    (a : SessionActor) (now : ℕ) (id : String) (request : Json)
    → SameTurn a (hook_callback a now id request)
unfolding hook_callback write_line
hook_callback-SameTurn a now id request =
    if-SameTurn (str_eq (text_of "hook_event" request) "PreToolUse") a _ _ (ground arith)
      (ground arith)

prompt-SameTurn :
    (a : SessionActor) (now : ℕ) (id : String) (parsed request : Json)
    → SameTurn a (permission_request a now id parsed request)
unfolding permission_request
prompt-SameTurn a now id parsed request = record { turn = refl; quarantine = refl }

elicitation-SameTurn :
    (a : SessionActor) (now : ℕ) (id : String) (request : Json)
    → SameTurn a (elicitation_request a now id request)
unfolding elicitation_request
elicitation-SameTurn a now id request = record { turn = refl; quarantine = refl }

refuse-SameTurn : (a : SessionActor) (id message : String) → SameTurn a (refuse a id message)
unfolding refuse
refuse-SameTurn a id message =
    if-SameTurn (str_eq id "") a _ _ (SameTurn-refl a)
      (write_line-SameTurn a "control response (error)" (build_control_response id ("error", _)))

handle_control_event-SameTurn :
    (a : SessionActor) (now : ℕ) (parsed : Json) (t : String)
    → SameTurn a (handle_control_event a now parsed t)
unfolding handle_control_event
handle_control_event-SameTurn a now parsed t =
    let request = value_of "request" parsed in
    let id = text_of "request_id" parsed in
    let message = String.◌++◌ "unsupported control_request subtype: " (subtype_of parsed) in
    ground (
      arith,
      resolve_waiter-SameTurn a parsed,
      hook_callback-SameTurn a now id request,
      elicitation-SameTurn a now id request,
      prompt-SameTurn a now id parsed request,
      refuse-SameTurn a id message,
    )

-- A user or Ralph turn runs, outside quarantine.
pub record Runs (a : SessionActor) (t : ActiveTurn) : Type 0 where
  pub active : a.active_turn ≡ some t
  pub visible : is_internal t.origin ≡ false
  pub free : a.quarantine_until_result ≡ false

SameTurn-Runs : (a b : SessionActor) (t : ActiveTurn) → SameTurn a b → Runs a t → Runs b t
SameTurn-Runs a b t s r = ground (arith, s, r)

run_state-SameTurn :
    (w : Wire) (a : SessionActor) (now : ℕ) (s : String) (code : Option ℤ) (error : Option String)
    → is_boundary s ≡ false
    → SameTurn a (user_run_state w a now s code error)
unfolding user_run_state
run_state-SameTurn w a now s code error h =
    ground (arith, Frame-SameTurn a _ (report-Frame a now s code error))

-- An event that is no idle or failed run state, in a turn that is not internal.
state-SameTurn :
    (w : Wire) (a : SessionActor) (now : ℕ) (s : String) (code : Option ℤ) (error : Option String)
    → is_internal_turn a ≡ false
    → is_boundary s ≡ false
    → SameTurn a (handle_event w a now (run_state s code error))
unfolding handle_event user_event is_valid_event
state-SameTurn w a now s code error i h = rw i (run_state-SameTurn w a now s code error h)

-- The event is no run state.
abbrev no_state : BusEvent → Bool
no_state (run_state s c e) = false
no_state _ = true

relayed-SameTurn :
    (w : Wire) (a : SessionActor) (now : ℕ) (ev : BusEvent)
    → is_internal_turn a ≡ false
    → no_state ev ≡ true
    → SameTurn a (handle_event w a now ev)
unfolding handle_event user_event
relayed-SameTurn w a now ev i h = ground arith

handle_events-Runs :
    (w : Wire) (a : SessionActor) (t : ActiveTurn) (now : ℕ) (evs : List BusEvent)
    → NoBoundary evs
    → Runs a t
    → Runs (handle_events w a now evs) t
unfolding handle_events
handle_events-Runs w a t now [] h r = r
handle_events-Runs w a t now (run_state s c e ∷ evs) h r =
    handle_events-Runs w (handle_event w a now (run_state s c e)) t now evs (h.1)
      (SameTurn-Runs a _ t (state-SameTurn w a now s c e (ground (arith, r)) (h.0)) r)
handle_events-Runs w a t now (ev ∷ evs) h r =
    handle_events-Runs w (handle_event w a now ev) t now evs h
      (SameTurn-Runs a _ t (relayed-SameTurn w a now ev (ground (arith, r)) refl) r)

route-Runs :
    (w : Wire) (a : SessionActor) (t : ActiveTurn) (now : ℕ) (parsed : Json) (tag : String)
    → NoBoundary (map_event w.outside a.protocol parsed).1
    → Runs a t
    → Runs (route w a now parsed tag) t
unfolding route
route-Runs w a t now parsed tag h r =
    let b = (mapped w a parsed).0 in
    let k : Runs b t = record { active = r.active; visible = r.visible; free = r.free } in
    ground (
      arith,
      r,
      SameTurn-Runs a _ t (handle_control_event-SameTurn a now parsed tag) r,
      handle_events-Runs w b t now (mapped w a parsed).1 h k,
    )

abbrev extended : ActiveTurn → ℕ → ActiveTurn
extended t now = record t { hard_deadline = now + user_hard_timeout }

touch-Runs :
    (a : SessionActor) (t : ActiveTurn) (now : ℕ) → Runs a t → Runs (touch a now) (extended t now)
unfolding apply_activity_reset
touch-Runs a t now r = ground (arith, r)

tick-Runs :
    (w : Wire) (a : SessionActor) (t : ActiveTurn) (now : ℕ) (id : String)
    → Runs a t
    → now < t.hard_deadline
    → on_tick_timeout w a now id ≡ a
unfolding on_tick_timeout turn_tick
tick-Runs w a t now id r h = ground (arith, r)

-- A JSON line of a Claude session in a user or Ralph turn outside quarantine, if it stands for no
-- idle or failed run state, leaves the turn active and out of quarantine, with its hard deadline
-- thirty minutes after the line: a tick before then changes nothing.
pub handle_stdout_line-on_tick_timeout :
    (w : Wire) (a : SessionActor) (t : ActiveTurn) (seen now : ℕ) (line id : String) (parsed : Json)
    → a.codex ≡ none
    → Runs a t
    → str_eq (trim line) "" ≡ false
    → w.from_str (trim line) ≡ some parsed
    → NoBoundary (map_event w.outside a.protocol parsed).1
    → now < seen + 1800000
    → let b = handle_stdout_line w a seen line in
      Runs b (record t { hard_deadline = seen + 1800000 }) × (on_tick_timeout w b now id ≡ b)
unfolding handle_stdout_line
handle_stdout_line-on_tick_timeout w a t seen now line id parsed c r n p h k =
    let b = touch a seen in
    let tag = unwrap_or "" (get_str "type" parsed) in
    let over = route w b seen parsed tag in
    let kept = route-Runs w b (extended t seen) seen parsed tag h (touch-Runs a t seen r) in
    rw (n, c, p) (kept, tick-Runs w over (extended t seen) now id kept k)
