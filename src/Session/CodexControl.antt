-- ===== src/Session/CodexControl.antt =====
-- src-tauri/src/agent/session_actor.rs: control requests to a Codex session. Some change the settings
-- of later turns, some are a frame to the server; a request for data waits for the server's reply, any
-- other is acknowledged at once.
pub mod Once
use open_covibe_web.Common.{
  String, str_eq, Bool, true, false, ◌||◌, Option, none, some, List, [], ◌∷◌, if◌then◌else◌,
  unwrap_or,
}
use open_covibe_web.Models.Json.{Json, bool, str, object, get_str, get_u64}
use open_covibe_web.Codex.Protocol.{CodexTurnOverrides}
use open_covibe_web.Codex.Server.{CodexAppServer, frame_interrupt}
use open_covibe_web.Codex.Requests.{
  frame_compact, frame_rollback, frame_fork, frame_goal_set, frame_goal_get, frame_goal_clear,
  frame_mcp_status, frame_skills_list, frame_experimental_feature_list, frame_model_list,
  frame_steer,
}
use open_covibe_web.Session.Actor.{Reply, ok, err, resolved, SessionActor, note, write_frames}

-- src-tauri/src/agent/adapter.rs: a mode of the application as the CLI names it.
unfoldable pub map_permission_mode : String → String
map_permission_mode mode =
    if str_eq mode "ask"
    then "default"
    else if str_eq mode "auto_read" || str_eq mode "delegate"
    then "acceptEdits"
    else if str_eq mode "auto_all"
    then "bypassPermissions"
    else if str_eq mode "dont_ask"
    then "dontAsk"
    else mode

-- src-tauri/src/commands/session.rs: full access for the modes that do not ask.
abbrev pub is_relaxed : String → Bool
is_relaxed mode = str_eq mode "bypassPermissions" || str_eq mode "dontAsk"

abbrev pub codex_approval_for : String → String
codex_approval_for mode = if is_relaxed mode then "never" else "on-request"

abbrev pub codex_sandbox_for : String → String
codex_sandbox_for mode =
    if str_eq mode "plan"
    then "read-only"
    else if is_relaxed mode
    then "danger-full-access"
    else "workspace-write"

-- The requests for data: their frames, and what a failure to write them is called.
abbrev pub data_frames :
    CodexAppServer → String → String → Json → Option ((CodexAppServer × List Json) × String)
data_frames s id subtype request =
    if str_eq subtype "rollback"
    then some
        (frame_rollback s id (unwrap_or 1 (get_u64 "num_turns" request)), "codex thread/rollback")
    else if str_eq subtype "fork"
    then some (frame_fork s id, "codex thread/fork")
    else if str_eq subtype "goal_get"
    then some (frame_goal_get s id, "codex thread/goal/get")
    else if str_eq subtype "mcp_status"
    then some (frame_mcp_status s id, "codex mcpServerStatus/list")
    else if str_eq subtype "skills_list"
    then some (frame_skills_list s id, "codex skills/list")
    else if str_eq subtype "experimental_feature_list"
    then some (frame_experimental_feature_list s id, "codex experimentalFeature/list")
    else if str_eq subtype "model_list"
    then some (frame_model_list s id, "codex model/list")
    else none

abbrev pub no_thread : Json
no_thread = object (("ok", bool false) ∷ ("error", str "no thread") ∷ [])

abbrev pub acknowledged : Json
acknowledged = object (("ok", bool true) ∷ [])

-- The waiter is registered before the frame is written; without a frame it is answered at once.
unfoldable pub ask_for_data :
    SessionActor → String → (CodexAppServer × List Json) × String → SessionActor × Reply
ask_for_data a id ((s, []), context) =
    (note (record a { codex = some s }) (resolved id no_thread), ok)
ask_for_data a id ((s, l ∷ ls), context) =
    write_frames (record a { codex = some s; control_waiters = id ∷ a.control_waiters }) context
      (l ∷ ls)

-- The answer to a request that waits for nothing.
abbrev pub acked : String → SessionActor × Reply → SessionActor × Reply
acked id (a, ok) = (note a (resolved id acknowledged), ok)
acked id (a, err e) = (a, err e)

abbrev pub send_frames :
    SessionActor → String → String → CodexAppServer × List Json → SessionActor × Reply
send_frames a id context (s, ls) = acked id (write_frames (record a { codex = some s }) context ls)

abbrev pub set_override :
    SessionActor → String → (String → CodexTurnOverrides) → Option String → SessionActor × Reply
set_override a id change none = acked id (a, ok)
set_override a id change (some v) = acked id (record a { codex_overrides = change v }, ok)

abbrev pub set_mode : CodexTurnOverrides → String → CodexTurnOverrides
set_mode o mode = record o {
  approval_policy = some (codex_approval_for (map_permission_mode mode));
  sandbox = some (codex_sandbox_for (map_permission_mode mode));
}

abbrev pub steer : SessionActor → CodexAppServer → String → Option String → SessionActor × Reply
steer a s id none = acked id (a, ok)
steer a s id (some text) = send_frames a id "codex turn/steer" (frame_steer s text)

-- The second match of `handle_codex_control`.
unfoldable pub handle_local :
    SessionActor → CodexAppServer → String → String → Json → SessionActor × Reply
handle_local a s id subtype request =
    let o = a.codex_overrides in
    if str_eq subtype "interrupt"
    then send_frames a id "codex turn/interrupt" (frame_interrupt s)
    else if str_eq subtype "set_permission_mode"
    then set_override a id (set_mode o) (get_str "mode" request)
    else if str_eq subtype "set_model"
    then set_override a id (λ v. record o { model = some v }) (get_str "model" request)
    else if str_eq subtype "set_effort"
    then set_override a id (λ v. record o { effort = some v }) (get_str "effort" request)
    else if str_eq subtype "steer"
    then steer a s id (get_str "text" request)
    else if str_eq subtype "compact"
    then send_frames a id "codex thread/compact/start" (frame_compact s id)
    else if str_eq subtype "goal_set"
    then send_frames a id "codex thread/goal/set" (
        frame_goal_set s id (get_str "objective" request) (get_str "status" request)
          (get_u64 "token_budget" request))
    else if str_eq subtype "goal_clear"
    then send_frames a id "codex thread/goal/clear" (frame_goal_clear s id)
    else acked id (a, ok)

abbrev pub handle_framed :
    SessionActor
    → CodexAppServer
    → String
    → String
    → Json
    → Option ((CodexAppServer × List Json) × String)
    → SessionActor × Reply
handle_framed a s id subtype request (some framed) = ask_for_data a id framed
handle_framed a s id subtype request none = handle_local a s id subtype request

-- `id` is the fresh id of the request.
unfoldable pub handle_codex_control :
    SessionActor → CodexAppServer → String → String → Json → SessionActor × Reply
handle_codex_control a s id subtype request =
    handle_framed a s id subtype request (data_frames s id subtype request)
