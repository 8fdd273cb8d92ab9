-- ===== src/Session/Loop/Commands.antt =====
-- The commands of the mailbox: each owes one reply, to its own caller.
use open_covibe_web.Common.{
  ℕ, String, true, false, Option, none, some, ◌≡◌, refl, arith, if◌then◌else◌, is_some,
}
use open_covibe_web.Models.{ralph_started, RalphCompleteReason}
use open_covibe_web.Models.Json.{Json}
use open_covibe_web.Codex.Protocol.{PendingKind, permission, elicitation, user_input}
use open_covibe_web.Codex.Server.{CodexAppServer}
use open_covibe_web.Codex.Response.{frame_response}
use open_covibe_web.Session.Ralph.{RalphLoopState, start, cancel_pending}
use open_covibe_web.Session.Actor.{
  ok, err, json, note, persist_and_emit, cancel_replied, SessionActor, Wire, send_reply, write_line,
}
use open_covibe_web.Session.Frame.{write_frames-Frame}
use open_covibe_web.Session.Ledger.{hit}
use open_covibe_web.Session.Safe.{Safe, Safe-trans, Frame-Safe, try_dispatch-Safe}
use open_covibe_web.Session.Dispatch.{try_dispatch, emit_ralph_complete}
use open_covibe_web.Session.Control.{build_control_response}
use open_covibe_web.Session.Control.Keeps.{write_line-Safe}
use open_covibe_web.Session.Loop.{
  write_interactive_via, answer, cancel_request, has_active_ralph_turn, handle_stop,
  clear_pending_interactive_request, write_interactive_response, handle_start_ralph,
  handle_cancel_ralph, respond, Command, handle_command, send_message, stop, respond_permission,
  respond_elicitation, respond_user_input, respond_hook_callback, cancel_control_request,
  start_ralph_loop, cancel_ralph_loop, send_control, handle_send_control,
}
use open_covibe_web.Session.Loop.Controls.{handle_send_control-Safe}
use open_covibe_web.Session.Loop.Keeps.{
  Serves, Serves-after, Safe-before, replied-Serves, clear-Safe, handle_stop-Safe,
  handle_send_message-Serves,
}

-- The caller of a command.
abbrev pub channel : Command → ℕ
channel (send_message text atts skills reply) = reply
channel (stop reply) = reply
channel (respond_permission id response reply) = reply
channel (respond_hook_callback id response reply) = reply
channel (respond_elicitation id response reply) = reply
channel (respond_user_input id response reply) = reply
channel (cancel_control_request id reply) = reply
channel (start_ralph_loop prompt max promise reply) = reply
channel (cancel_ralph_loop reply) = reply
channel (send_control id request reply) = reply

module _ (r : ℕ) where
  response_via-Safe :
      (a : SessionActor) (kind : PendingKind) (id : String) (response : Json)
      (o : Option CodexAppServer)
      → Safe r a (write_interactive_via a kind id response o).0
  unfolding write_interactive_via
  response_via-Safe a kind id response none =
      write_line-Safe r a "control response" (build_control_response id ("success", response))
  response_via-Safe a kind id response (some server) =
      let framed = frame_response server kind id response in
      let b = record a { codex = some (framed.0) } in
      Safe-trans r a b _ (Frame-Safe r a b (ground arith))
        (Frame-Safe r b _ (write_frames-Frame b "codex interactive response" (framed.1)))

  write_interactive_response-Safe :
      (a : SessionActor) (kind : PendingKind) (id : String) (response : Json)
      → Safe r a (write_interactive_response a kind id response).0
  unfolding write_interactive_response
  write_interactive_response-Safe a kind id response = response_via-Safe a kind id response a.codex

  respond-Serves :
      (a : SessionActor) (kind : PendingKind) (id : String) (response : Json) (reply : ℕ)
      → Serves r (hit r reply) a (respond a kind id response reply)
  respond-Serves a kind id response reply =
      let b = clear_pending_interactive_request a id in
      let c = write_interactive_response b kind id response in
      Safe-before r (hit r reply) a b _ (clear-Safe r a id) (
        Safe-before r (hit r reply) b (c.0) _ (write_interactive_response-Safe b kind id response)
          (replied-Serves r (c.0) reply (c.1)))

  sent-Serves :
      (a : SessionActor) (id label : String) (payload : Json) (reply : ℕ)
      → Serves r (hit r reply) a (
          answer reply
            (write_line (clear_pending_interactive_request a id) label false (json payload)))
  sent-Serves a id label payload reply =
      let b = clear_pending_interactive_request a id in
      let c = write_line b label false (json payload) in
      Safe-before r (hit r reply) a b _ (clear-Safe r a id) (
        Safe-before r (hit r reply) b (c.0) _ (write_line-Safe r b label payload)
          (replied-Serves r (c.0) reply (c.1)))

  started-Serves :
      (w : Wire) (a : SessionActor) (now : ℕ) (prompt : String) (max : ℕ) (promise : Option String)
      (reply : ℕ) (o : Option RalphLoopState)
      → a.ralph_loop ≡ o
      → Serves r (hit r reply) a (
          if is_some o
          then send_reply a reply (err "Ralph loop already active")
          else try_dispatch w
              (send_reply
                (persist_and_emit
                  (record a { ralph_loop = some (start prompt max promise now) })
                  (ralph_started prompt max promise now))
                reply
                ok)
              now)
  unfolding start
  started-Serves w a now prompt max promise reply (some l) e =
      replied-Serves r a reply (err "Ralph loop already active")
  started-Serves w a now prompt max promise reply none e =
      let b =
        send_reply
          (persist_and_emit (record a { ralph_loop = some (start prompt max promise now) })
            (ralph_started prompt max promise now))
          reply ok in
      Serves-after r (hit r reply) a b _
        (record { inv = λ v. ground arith; owed = omega arith; loops = ground arith })
        (try_dispatch-Safe r w b now)

  cancelled-Serves :
      (a : SessionActor) (reply : ℕ) (o : Option RalphLoopState)
      → a.ralph_loop ≡ o
      → Serves r (hit r reply) a (elim o [
        | none ↦ send_reply a reply (err "No active ralph loop")
        | some l ↦
            if has_active_ralph_turn a
            then note
                (record a { ralph_loop = some (record l { phase = cancel_pending }) })
                (cancel_replied reply l.iteration false)
            else emit_ralph_complete
                (note a (cancel_replied reply l.iteration true))
                RalphCompleteReason.cancelled
      ])
  unfolding emit_ralph_complete
  cancelled-Serves a reply none e = replied-Serves r a reply (err "No active ralph loop")
  cancelled-Serves a reply (some l) e = record {
    inv = λ v. ground arith;
    owed = ground arith;
    loops = ground arith;
  }

  handle_start_ralph-Serves :
      (w : Wire) (a : SessionActor) (now : ℕ) (prompt : String) (max : ℕ) (promise : Option String)
      (reply : ℕ)
      → Serves r (hit r reply) a (handle_start_ralph w a now prompt max promise reply)
  unfolding handle_start_ralph
  handle_start_ralph-Serves w a now prompt max promise reply =
      started-Serves w a now prompt max promise reply a.ralph_loop refl

  handle_cancel_ralph-Serves :
      (a : SessionActor) (reply : ℕ) → Serves r (hit r reply) a (handle_cancel_ralph a reply)
  unfolding handle_cancel_ralph
  handle_cancel_ralph-Serves a reply = cancelled-Serves a reply a.ralph_loop refl

  pub handle_command-Serves :
      (w : Wire) (a : SessionActor) (now : ℕ) (c : Command)
      → Serves r (hit r (channel c)) a (handle_command w a now c).0
  unfolding handle_command
  handle_command-Serves w a now (send_message text atts skills reply) =
      handle_send_message-Serves r w a now text atts skills reply
  handle_command-Serves w a now (stop reply) =
      Safe-before r (hit r reply) a (handle_stop a) _ (handle_stop-Safe r a)
        (replied-Serves r (handle_stop a) reply ok)
  handle_command-Serves w a now (respond_permission id response reply) =
      respond-Serves a permission id response reply
  handle_command-Serves w a now (respond_hook_callback id response reply) =
      sent-Serves a id "control response" (build_control_response id ("success", response)) reply
  handle_command-Serves w a now (respond_elicitation id response reply) =
      respond-Serves a elicitation id response reply
  handle_command-Serves w a now (respond_user_input id response reply) =
      respond-Serves a user_input id response reply
  handle_command-Serves w a now (cancel_control_request id reply) =
      sent-Serves a id "cancel control request" (cancel_request id) reply
  handle_command-Serves w a now (start_ralph_loop prompt max promise reply) =
      handle_start_ralph-Serves w a now prompt max promise reply
  handle_command-Serves w a now (cancel_ralph_loop reply) = handle_cancel_ralph-Serves a reply
  handle_command-Serves w a now (send_control id request reply) =
      let sent = handle_send_control a id request in
      Safe-before r (hit r reply) a (sent.0) _ (handle_send_control-Safe r a id request)
        (replied-Serves r (sent.0) reply (sent.1))
