-- ===== src/Session/Loop/Controls.antt =====
-- Control requests keep the invariant and answer no caller of a user message.
use open_covibe_web.Common.{
  if◌then◌else◌, ℕ, String, str_eq, Bool, true, false, Option, none, some, List, [], ◌∷◌, arith,
}
use open_covibe_web.Models.Json.{Json, text_or, get_str, get_u64, str, object}
use open_covibe_web.Codex.Protocol.{CodexTurnOverrides}
use open_covibe_web.Codex.Server.{CodexAppServer, frame_interrupt}
use open_covibe_web.Codex.Requests.{frame_compact, frame_goal_set, frame_goal_clear, frame_steer}
use open_covibe_web.Session.Actor.{Reply, ok, err, SessionActor, write_frames}
use open_covibe_web.Session.Frame.{write_frames-Frame}
use open_covibe_web.Session.Safe.{Safe, Safe-trans, Safe-refl, Frame-Safe}
use open_covibe_web.Session.Control.Keeps.{write_line-Safe}
use open_covibe_web.Session.CodexControl.{
  handle_framed, data_frames, ask_for_data, acked, send_frames, set_override, set_mode, steer,
  handle_local, handle_codex_control,
}
use open_covibe_web.Session.Loop.{handle_send_control_via, handle_send_control}

module _ (r : ℕ) where
  -- The first part of a pair, chosen by a test.
  if-first :
      (c : Bool) (a : SessionActor) (x y : SessionActor × Reply)
      → Safe r a (x.0)
      → Safe r a (y.0)
      → Safe r a (if c then x else y).0
  if-first true a x y s t = s
  if-first false a x y s t = t

  ask_for_data-Safe :
      (a : SessionActor) (id : String) (framed : (CodexAppServer × List Json) × String)
      → Safe r a (ask_for_data a id framed).0
  unfolding ask_for_data
  ask_for_data-Safe a id ((s, []), context) = Frame-Safe r a _ (ground arith)
  ask_for_data-Safe a id ((s, l ∷ ls), context) =
      let b = record a { codex = some s; control_waiters = id ∷ a.control_waiters } in
      Safe-trans r a b _ (record { inv = λ v. ground arith; conserves = omega arith })
        (Frame-Safe r b _ (write_frames-Frame b context (l ∷ ls)))

  acked-Safe :
      (a : SessionActor) (id : String) (out : SessionActor × Reply)
      → Safe r a (out.0)
      → Safe r a (acked id out).0
  acked-Safe a id (b, ok) s = Safe-trans r a b _ s (Frame-Safe r b _ (ground arith))
  acked-Safe a id (b, err e) s = s

  send_frames-Safe :
      (a : SessionActor) (id context : String) (framed : CodexAppServer × List Json)
      → Safe r a (send_frames a id context framed).0
  send_frames-Safe a id context (s, ls) =
      let b = record a { codex = some s } in
      acked-Safe a id (write_frames b context ls) (
        Safe-trans r a b _ (Frame-Safe r a b (ground arith))
          (Frame-Safe r b _ (write_frames-Frame b context ls)))

  set_override-Safe :
      (a : SessionActor) (id : String) (change : String → CodexTurnOverrides) (o : Option String)
      → Safe r a (set_override a id change o).0
  set_override-Safe a id change none = Frame-Safe r a _ (ground arith)
  set_override-Safe a id change (some v) = Frame-Safe r a _ (ground arith)

  steer-Safe :
      (a : SessionActor) (s : CodexAppServer) (id : String) (o : Option String)
      → Safe r a (steer a s id o).0
  steer-Safe a s id none = Frame-Safe r a _ (ground arith)
  steer-Safe a s id (some text) = send_frames-Safe a id "codex turn/steer" (frame_steer s text)

  handle_local-Safe :
      (a : SessionActor) (s : CodexAppServer) (id subtype : String) (request : Json)
      → Safe r a (handle_local a s id subtype request).0
  unfolding handle_local
  handle_local-Safe a s id subtype request =
      let o = a.codex_overrides in
      if-first _ a _ _ (send_frames-Safe a id "codex turn/interrupt" (frame_interrupt s)) (
        if-first _ a _ _ (set_override-Safe a id (set_mode o) (get_str "mode" request)) (
          if-first _ a _ _
            (set_override-Safe a id (λ v. record o { model = some v }) (get_str "model" request))
            (if-first _ a _ _
              (set_override-Safe a id (λ v. record o { effort = some v })
                (get_str "effort" request))
              (if-first _ a _ _ (steer-Safe a s id (get_str "text" request)) (
                if-first _ a _ _
                  (send_frames-Safe a id "codex thread/compact/start" (frame_compact s id))
                  (if-first _ a _ _
                    (send_frames-Safe a id "codex thread/goal/set" (
                      frame_goal_set s id (get_str "objective" request) (get_str "status" request)
                        (get_u64 "token_budget" request)))
                    (if-first _ a _ _
                      (send_frames-Safe a id "codex thread/goal/clear" (frame_goal_clear s id))
                      (acked-Safe a id (a, ok) (Safe-refl r a)))))))))

  codex_control-Safe :
      (a : SessionActor) (s : CodexAppServer) (id subtype : String) (request : Json)
      (o : Option ((CodexAppServer × List Json) × String))
      → Safe r a (handle_framed a s id subtype request o).0
  codex_control-Safe a s id subtype request none = handle_local-Safe a s id subtype request
  codex_control-Safe a s id subtype request (some framed) = ask_for_data-Safe a id framed

  handle_codex_control-Safe :
      (a : SessionActor) (s : CodexAppServer) (id subtype : String) (request : Json)
      → Safe r a (handle_codex_control a s id subtype request).0
  unfolding handle_codex_control
  handle_codex_control-Safe a s id subtype request =
      codex_control-Safe a s id subtype request (data_frames s id subtype request)

  via-Safe :
      (a : SessionActor) (id : String) (request : Json) (o : Option CodexAppServer)
      → Safe r a (handle_send_control_via a id request o).0
  unfolding handle_send_control_via
  via-Safe a id request (some s) =
      handle_codex_control-Safe a s id (text_or "" "subtype" request) request
  via-Safe a id request none =
      let b = record a {
        pending_interrupt =
            if str_eq (text_or "" "subtype" request) "interrupt" then true else a.pending_interrupt;
        control_waiters = id ∷ a.control_waiters;
      } in
      Safe-trans r a b _ (record { inv = λ v. ground arith; conserves = omega arith })
        (write_line-Safe r b "control request" (
          object
            (("type", str "control_request") ∷ ("request_id", str id) ∷ ("request", request) ∷ [])))

  pub handle_send_control-Safe :
      (a : SessionActor) (id : String) (request : Json)
      → Safe r a (handle_send_control a id request).0
  unfolding handle_send_control
  handle_send_control-Safe a id request = via-Safe a id request a.codex
