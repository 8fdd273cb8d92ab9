-- ===== src/Session/Control/Keeps.antt =====
-- Control messages keep the invariant and answer no caller of a user message.
use Prim.Native.String
use open_covibe_web.Common.{
  if◌then◌else◌, true, str_eq, unwrap_or, ℕ, String, Bool, [], ◌∷◌, ◌≡◌, refl, arith, false,
}
use open_covibe_web.Models.{BusEvent, other, raw}
use open_covibe_web.Models.Json.{Json, object, str, get_str}
use open_covibe_web.Session.Actor.{
  emitted, note, realtime, persist_and_emit, SessionActor, json, write_line,
}
use open_covibe_web.Session.Frame.{ledger, write_line-Frame}
use open_covibe_web.Session.Safe.{Safe, Safe-trans, if-Safe, Frame-Safe}
use open_covibe_web.Session.Control.{
  drop_waiter, await_user, text_of, value_of, subtype_of, build_control_response, auto_response,
  auto_context, resolve_waiter, hook_callback, elicitation_request, permission_request, refuse,
  handle_control_event, handle_control_event_internal,
}

module _ (r : ℕ) where
  pub resolve_waiter-Safe : (a : SessionActor) (parsed : Json) → Safe r a (resolve_waiter a parsed)
  unfolding resolve_waiter
  resolve_waiter-Safe a parsed = record { inv = λ v. ground arith; conserves = ground arith }

  pub write_line-Safe :
      (a : SessionActor) (label : String) (payload : Json)
      → Safe r a (write_line a label false (json payload)).0
  write_line-Safe a label payload = Frame-Safe r a _ (write_line-Frame a label false (json payload))

  answered_hook-Safe :
      (a : SessionActor) (ev : BusEvent) (now : ℕ) (id detail : String) (ask : Bool)
      (label : String) (payload : Json)
      → ledger (emitted ev ∷ a.log) ≡ ledger a.log
      → Safe r a (
          if ask
          then await_user (persist_and_emit a ev) now id "hook_callback" detail
          else (write_line (persist_and_emit a ev) label false (json payload)).0)
  answered_hook-Safe a ev now id detail true label payload e = Frame-Safe r a _ (ground arith)
  answered_hook-Safe a ev now id detail false label payload e =
      Safe-trans r a _ _ (Frame-Safe r a _ (ground arith)) (write_line-Safe _ label payload)

  hook_callback-Safe :
      (a : SessionActor) (now : ℕ) (id : String) (request : Json)
      → Safe r a (hook_callback a now id request)
  unfolding hook_callback
  hook_callback-Safe a now id request =
      answered_hook-Safe a _ now id _ (str_eq (text_of "hook_event" request) "PreToolUse") _ _ refl

  elicitation_request-Safe :
      (a : SessionActor) (now : ℕ) (id : String) (request : Json)
      → Safe r a (elicitation_request a now id request)
  unfolding elicitation_request
  elicitation_request-Safe a now id request = record {
    inv = λ v. ground arith;
    conserves = omega arith;
  }

  permission_request-Safe :
      (a : SessionActor) (now : ℕ) (id : String) (parsed request : Json)
      → Safe r a (permission_request a now id parsed request)
  unfolding permission_request
  permission_request-Safe a now id parsed request = record {
    inv = λ v. ground arith;
    conserves = omega arith;
  }

  refuse-Safe : (a : SessionActor) (id message : String) → Safe r a (refuse a id message)
  unfolding refuse
  refuse-Safe a id message =
      let sent =
        write_line-Safe a "control response (error)"
          (build_control_response id ("error", str message)) in
      record { inv = λ v. ground (arith, sent.inv v); conserves = ground (arith, sent.conserves) }

  cancelled-Safe :
      (a : SessionActor) (id : String)
      → Safe r a (
          persist_and_emit
            (drop_waiter a id)
            (other "control_cancelled" (object (("request_id", str id) ∷ []))))
  cancelled-Safe a id = record { inv = λ v. ground arith; conserves = omega arith }

  shown-Safe :
      (a : SessionActor) (parsed : Json) → Safe r a (note a (realtime (raw "mcp_message" parsed)))
  shown-Safe a parsed = Frame-Safe r a _ (ground arith)

  pub handle_control_event-Safe :
      (a : SessionActor) (now : ℕ) (parsed : Json) (t : String)
      → Safe r a (handle_control_event a now parsed t)
  unfolding handle_control_event
  handle_control_event-Safe a now parsed t =
      let request = value_of "request" parsed in
      let id = text_of "request_id" parsed in
      if-Safe r _ a _ _ (resolve_waiter-Safe a parsed) (
        if-Safe r _ a _ _ (cancelled-Safe a (text_of "request_id" parsed)) (
          if-Safe r _ a _ _ (hook_callback-Safe a now id request) (
            if-Safe r _ a _ _ (shown-Safe a parsed) (
              if-Safe r _ a _ _ (elicitation_request-Safe a now id request) (
                if-Safe r _ a _ _ (permission_request-Safe a now id parsed request) (
                  refuse-Safe a id
                    (String.◌++◌ "unsupported control_request subtype: " (subtype_of parsed))))))))

  pub handle_control_event_internal-Safe :
      (a : SessionActor) (parsed : Json) (t : String)
      → Safe r a (handle_control_event_internal a parsed t)
  unfolding handle_control_event_internal
  handle_control_event_internal-Safe a parsed t =
      let told = resolve_waiter-Safe a parsed in
      let answer = auto_response (subtype_of parsed) in
      let id = unwrap_or "" (get_str "request_id" parsed) in
      let sent = write_line-Safe a (auto_context answer) (build_control_response id answer) in
      record {
        inv = λ v. ground (arith, told.inv v, sent.inv v);
        conserves = ground (arith, told.conserves, sent.conserves);
      }
