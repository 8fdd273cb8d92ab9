-- ===== src/Session/Stdout/Results.antt =====
-- src-tauri/src/agent/session_actor.rs and claude_protocol.rs: the line that ends a turn, from its
-- JSON to the state of the session.
pub mod Relayed
pub mod Turns
pub mod Loops
pub mod Retries
use open_covibe_web.Common.{
  ◌+◌, unwrap_or, ℕ, String, str_eq, Bool, true, false, Option, none, some, List, [], ◌∷◌, ◌++◌,
  ◌≡◌, refl, arith, ap, ◌∙◌, sym, subst, if◌then◌else◌, All, All-append, map, is_some, eq_iff,
}
use text.Mathlib.Text.{starts_with}
use open_covibe_web.Models.{
  BusEvent, usage_update, command_output, other, run_state, session_init, message_complete,
  user_message, ralph_started, ralph_iteration, ralph_complete, raw, tool,
}
use open_covibe_web.Models.Json.{Json, get, get_array, get_str, text_or}
use open_covibe_web.Claude.{Outside, map_event, map_typed, map_unwrapped, inner_event, parent_of}
use open_covibe_web.Claude.State.{ProtocolState}
use open_covibe_web.Claude.Result.{map_result, usage_part, denials, outcome, error_message}
use open_covibe_web.Storage.Events.Lines.{append_assoc}
use open_covibe_web.Session.Turn.{
  ralph, ActiveTurn, UserTurnKind, TurnOrigin, apply_activity_reset, user_hard_timeout, user,
  UserTurnKind, normal, slash, internal,
}
use open_covibe_web.Session.Actor.{
  Effect, SessionActor, Wire, emit_state, persist_idle_running, set_pending_slash_command,
}
use open_covibe_web.Session.Dispatch.{
  try_dispatch, dispatch_next, dispatch_user, dispatch_ralph, dispatch_internal, is_blocked,
}
use open_covibe_web.Session.Finish.{on_user_turn_finished, ralph_on_turn_end, loop_turn_end}
use open_covibe_web.Session.Stdout.{
  touch, handle_events, handle_event, user_event, user_run_state, report, finish_turn, route,
  handle_parsed, is_valid_event, is_internal_turn, mapped, touch,
}
use open_covibe_web.Session.Stdout.Results.Relayed.{
  subtype_after, map_event-result, error_of, before_idle, before_idle-passes, map_result-events,
  map_result-subtype,
}
use open_covibe_web.Session.Stdout.Results.Turns.{
  InTurn, TurnOver, InTurn-with, events-end, touch-InTurn,
}

route-result :
    (w : Wire) (a : SessionActor) (now : ℕ) (line : Json)
    → a.quarantine_until_result ≡ false
    → route w a now line "result" ≡ (
        let out = map_event w.outside a.protocol line in
        handle_events w (record a { protocol = out.0 }) now (out.1))
unfolding route
route-result w a now line q = rw q refl

-- The events of a result line, outside quarantine.
pub handle_parsed-events :
    (w : Wire) (a : SessionActor) (now : ℕ) (line : Json)
    → a.quarantine_until_result ≡ false
    → get_str "type" line ≡ some "result"
    → let b = touch a now in
      let dollars = w.outside.dollars in
      handle_parsed w a now line
      ≡ handle_events w
          (record b { protocol = (map_result dollars b.protocol line).0 })
          now
          (before_idle dollars b.protocol line ++ run_state "idle" none (error_of line) ∷ [])
handle_parsed-events w a now line q e =
    let b = touch a now in
    let dollars = w.outside.dollars in
    let c = record b { protocol = (map_result dollars b.protocol line).0 } in
    ap (λ t. route w b now line (unwrap_or "" t)) e
    ∙ (route-result w b now line q
        ∙ (ap (λ o. handle_events w (record b { protocol = o.0 }) now (o.1))
              (map_event-result w.outside b.protocol line e)
            ∙ ap (handle_events w c now) (map_result-events dollars b.protocol line)))

-- A result line ends a user's turn: if the session is not in quarantine, no interrupt is pending,
-- and neither a message, a job, a barrier nor a Ralph loop waits, then the session is idle without
-- a turn, and its protocol has the subtype of the line if that is an error, or else the one from
-- before.
pub handle_parsed-result :
    (w : Wire) (a : SessionActor) (turn : ActiveTurn) (kind : UserTurnKind) (now : ℕ) (line : Json)
    → InTurn a turn kind
    → get_str "type" line ≡ some "result"
    → TurnOver (subtype_after line a.protocol.result_subtype) (handle_parsed w a now line)
handle_parsed-result w a turn kind now line i e =
    let b = touch a now in
    let k = touch-InTurn a turn kind now i in
    let dollars = w.outside.dollars in
    let out = map_result dollars b.protocol line in
    let c = record b { protocol = out.0 } in
    subst (TurnOver (subtype_after line a.protocol.result_subtype))
      (sym (handle_parsed-events w a now line i.free e))
      (subst
        (λ s. TurnOver s (
          handle_events w c now
            (before_idle dollars b.protocol line ++ run_state "idle" none (error_of line) ∷ [])))
        (map_result-subtype dollars b.protocol line)
        (events-end w c (record turn { hard_deadline = now + user_hard_timeout }) kind now
          (before_idle dollars b.protocol line) (error_of line)
          (InTurn-with b (record turn { hard_deadline = now + user_hard_timeout }) kind (out.0)
            b.log k)
          (before_idle-passes dollars b.protocol line)))
