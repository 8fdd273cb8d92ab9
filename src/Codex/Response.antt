-- ===== src/Codex/Response.antt =====
-- src-tauri/src/agent/codex_appserver.rs: the user's answer to a request of the server, framed under
-- the id that the server gave.
pub mod Once
use open_covibe_web.Common.{
  String, str_eq, Option, none, some, List, [], ◌∷◌, if◌then◌else◌, lookup, remove, unwrap_or,
}
use open_covibe_web.Models.Json.{
  Json, null, bool, num, str, arr, obj, Fields, end, field, array, object, get, get_str,
}
use open_covibe_web.Codex.Protocol.{PendingKind, permission, elicitation, user_input}
use open_covibe_web.Codex.Server.{CodexAppServer}

-- An answer is a list of labels, a wrapped list, or one label.
abbrev labels : Json → Json
labels v = elim (get "answers" v) [ some inner ↦ inner | none ↦ listed v ]
  where
    listed : Json → Json
    listed (arr vs) = arr vs
    listed null = array (null ∷ [])
    listed (bool b) = array (bool b ∷ [])
    listed (num n) = array (num n ∷ [])
    listed (str s) = array (str s ∷ [])
    listed (obj fs) = array (obj fs ∷ [])

abbrev wrapped : Fields → Fields
wrapped end = end
wrapped (field qid v fs) = field qid (object (("answers", labels v) ∷ [])) (wrapped fs)

abbrev answers_of : Option Json → Fields
answers_of (some (obj fs)) = wrapped fs
answers_of _ = end

unfoldable pub build_user_input_result : Json → Json
build_user_input_result response =
    object (("answers", obj (answers_of (get "answers" response))) ∷ [])

abbrev content_field : Option Json → Fields
content_field none = end
content_field (some c) = field "content" c end

unfoldable pub result_of : PendingKind → Json → Json
unfolding build_user_input_result
result_of permission response = object (
    (
      "decision",
      str (
          if str_eq (unwrap_or "deny" (get_str "behavior" response)) "allow"
          then "accept"
          else "decline"),
    )
    ∷ [])
result_of elicitation response = obj (
    field "action" (str (unwrap_or "decline" (get_str "action" response)))
      (content_field (get "content" response)))
result_of user_input response = build_user_input_result response

unfoldable pub frame_response :
    CodexAppServer → PendingKind → String → Json → CodexAppServer × List Json
unfolding result_of
frame_response s kind request_id response = elim (lookup request_id s.pending) [
  | none ↦ (s, [])
  | some p ↦ (
    record s { pending = remove request_id s.pending },
    object (("jsonrpc", str "2.0") ∷ ("id", p.raw_id) ∷ ("result", result_of kind response) ∷ [])
        ∷ [],
  )
]
