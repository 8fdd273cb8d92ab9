-- ===== src/Session/Tests/Lines.antt =====
-- Messages, lines and files of a session.
use open_covibe_web.Common.{some, [], ◌∷◌, ◌≡◌, refl, true, arith, none}
use open_covibe_web.Models.Json.{Json, str, object}
use open_covibe_web.Codex.Server.{new}
use open_covibe_web.Session.Turn.{
  normal, TurnOrigin, user_soft_timeout, user_hard_timeout, TurnOrigin,
}
use open_covibe_web.Session.Actor.{ok, replied, SessionActor}
use open_covibe_web.Session.Dispatch.{begin, ticket_of, handle_send_message}
use open_covibe_web.Session.Dispatch.Sends.{newest, Idle, handle_send_message-starts}
use open_covibe_web.Session.Stdout.{handle_parsed, handle_stdout_line, handle_codex_line}
use open_covibe_web.Session.Control.{handle_control_event_internal}
use open_covibe_web.Session.Stdout.Hidden.{
  Hidden, handle_control_event_internal-Hidden, handle_stdout_line-Hidden,
}
use open_covibe_web.Session.Stdout.Results.{handle_parsed-result}
use open_covibe_web.Session.Stdout.Results.Turns.{InTurn, TurnOver}
use open_covibe_web.Session.Stdout.Results.Relayed.{subtype_after}
use open_covibe_web.Session.Stdout.Frozen.{Frozen, handle_codex_line-Frozen}
use open_covibe_web.Session.Tests.{Wire, an_actor, a_turn, a_wire, a_pipe, a_meta, a_file, RunMeta}

abbrev frozen : SessionActor
frozen = record an_actor { quarantine_until_result = true }

handle_control_event_internal-Hidden_example : Hidden frozen (
    handle_control_event_internal frozen
      (object (
        ("request_id", str "r1") ∷ ("request", object (("subtype", str "can_use_tool") ∷ [])) ∷ []))
      "control_request")
handle_control_event_internal-Hidden_example =
    handle_control_event_internal-Hidden frozen
      (object (
        ("request_id", str "r1") ∷ ("request", object (("subtype", str "can_use_tool") ∷ [])) ∷ []))
      "control_request"

-- A wire that reads no line as JSON.
abbrev a_deaf_wire : Wire
a_deaf_wire = record a_wire { from_str = λ s. none }

handle_stdout_line-Hidden_example : Hidden frozen (handle_stdout_line a_deaf_wire frozen 10 "noise")
unfolding an_actor
handle_stdout_line-Hidden_example =
    handle_stdout_line-Hidden a_deaf_wire frozen 10 "noise" refl refl tt

handle_codex_line-Frozen_example : Frozen frozen (handle_codex_line a_wire frozen 10 new "done")
unfolding an_actor
handle_codex_line-Frozen_example = handle_codex_line-Frozen a_wire frozen 10 new "done" refl

idle : Idle an_actor a_pipe
unfolding an_actor
idle = ground arith

handle_send_message-starts_example :
    let b = handle_send_message a_wire an_actor 10 "hello" [] [] 7 in
    let t = ticket_of an_actor "hello" [] [] 7 in
    (b.active_turn
      ≡ some (
          begin
            (TurnOrigin.user t.kind)
            t.ticket_seq
            t.turn_index
            10
            user_soft_timeout
            user_hard_timeout))
    × (b.queued_user ≡ [])
    × (newest b.log ≡ some (replied 7 ok))
handle_send_message-starts_example =
    handle_send_message-starts a_wire an_actor a_pipe 10 "hello" [] [] 7 idle refl refl

abbrev crowded : SessionActor
crowded = record an_actor {
  queued_user = ticket_of an_actor "one" [] [] 1 ∷ ticket_of an_actor "two" [] [] 2 ∷ [];
}

abbrev erred_meta : RunMeta
erred_meta = record a_meta { result_subtype = some "error_during_execution" }

abbrev erred : SessionActor
erred = record an_actor {
  file = record a_file { meta = some erred_meta };
  protocol = record an_actor.protocol { got_result_event = true };
}

abbrev at_work : SessionActor
at_work = record an_actor { active_turn = some a_turn }

at_work-InTurn : InTurn at_work a_turn (normal 0)
unfolding an_actor
at_work-InTurn = ground arith

abbrev a_failure : Json
a_failure =
    object (
      ("type", str "result")
      ∷ ("subtype", str "error_during_execution")
      ∷ ("usage", object [])
      ∷ [])

handle_parsed-result_example :
    TurnOver
      (subtype_after a_failure at_work.protocol.result_subtype)
      (handle_parsed a_wire at_work 10 a_failure)
handle_parsed-result_example =
    handle_parsed-result a_wire at_work a_turn (normal 0) 10 a_failure at_work-InTurn refl
