-- ===== src/Codex/Requests.antt =====
-- src-tauri/src/agent/codex_appserver.rs: the other requests to the server.
use open_covibe_web.Common.{ℕ, String, Option, none, some, List, [], ◌∷◌, ◌++◌, max}
use open_covibe_web.Models.Json.{Json, num, str, array, object}
use open_covibe_web.Codex.Server.{CodexAppServer, frame_tracked, bump_id, request, opt_param}

abbrev pub frame_compact : CodexAppServer → String → CodexAppServer × List Json
frame_compact s request_id = frame_tracked s request_id "thread/compact/start" []

-- At least one turn.
abbrev pub frame_rollback : CodexAppServer → String → ℕ → CodexAppServer × List Json
frame_rollback s request_id num_turns =
    frame_tracked s request_id "thread/rollback" (("numTurns", num (max num_turns 1)) ∷ [])

abbrev pub frame_fork : CodexAppServer → String → CodexAppServer × List Json
frame_fork s request_id = frame_tracked s request_id "thread/fork" []

abbrev opt_budget : Option ℕ → List (String × Json)
opt_budget none = []
opt_budget (some b) = ("tokenBudget", num b) ∷ []

abbrev pub frame_goal_set :
    CodexAppServer → String → Option String → Option String → Option ℕ → CodexAppServer × List Json
frame_goal_set s request_id objective status token_budget =
    frame_tracked s request_id "thread/goal/set"
      (opt_param "objective" objective ++ (opt_param "status" status ++ opt_budget token_budget))

abbrev pub frame_goal_get : CodexAppServer → String → CodexAppServer × List Json
frame_goal_get s request_id = frame_tracked s request_id "thread/goal/get" []

abbrev pub frame_goal_clear : CodexAppServer → String → CodexAppServer × List Json
frame_goal_clear s request_id = frame_tracked s request_id "thread/goal/clear" []

abbrev pub frame_mcp_status : CodexAppServer → String → CodexAppServer × List Json
frame_mcp_status s request_id = frame_tracked s request_id "mcpServerStatus/list" []

abbrev pub frame_skills_list : CodexAppServer → String → CodexAppServer × List Json
frame_skills_list s request_id = frame_tracked s request_id "skills/list" []

abbrev pub frame_experimental_feature_list : CodexAppServer → String → CodexAppServer × List Json
frame_experimental_feature_list s request_id =
    frame_tracked s request_id "experimentalFeature/list" []

abbrev pub frame_model_list : CodexAppServer → String → CodexAppServer × List Json
frame_model_list s request_id = frame_tracked s request_id "model/list" []

abbrev steer_params : String → String → String → Json
steer_params tid text expected = object (
    ("threadId", str tid)
    ∷ (
      "input",
      array (
          object (("type", str "text") ∷ ("text", str text) ∷ ("text_elements", array []) ∷ [])
          ∷ []),
    )
    ∷ ("expectedTurnId", str expected)
    ∷ [])

-- Only into a turn that is known to run.
unfoldable pub frame_steer : CodexAppServer → String → CodexAppServer × List Json
frame_steer s text = elim s.thread_id [
  | none ↦ (s, [])
  | some tid ↦ elim s.active_turn_id [
    | none ↦ (s, [])
    | some expected ↦
        (bump_id s, request s.next_client_id "turn/steer" (steer_params tid text expected) ∷ [])
  ]
]
