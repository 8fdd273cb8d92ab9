-- ===== src/Codex/Parse/Turns.antt =====
-- The running turn, as far as the server tells.
use open_covibe_web.Common.{if◌then◌else◌, String, Bool, true, false, none, some, [], ◌≡◌, arith}
use open_covibe_web.Models.Json.{Json, get_str, get, bool}
use open_covibe_web.Codex.Server.{CodexAppServer}
use open_covibe_web.Codex.Requests.{frame_steer}
use open_covibe_web.Codex.Parse.{parse_line, handle_message, handle_notification}

-- After the notification that the turn is completed or has failed, nothing can be steered into it: no
-- frame is written and no id is used.
pub parse_line-frame_steer :
    (to_string : Json → String) (s : CodexAppServer) (msg : Json) (failed : Bool) (text : String)
    → get_str "method" msg ≡ some (if failed then "turn/failed" else "turn/completed")
    → get "id" msg ≡ none
    → let after = (parse_line to_string s (some msg)).0 in frame_steer after text ≡ (after, [])
unfolding parse_line handle_message handle_notification frame_steer
parse_line-frame_steer to_string s msg true text m e = ground arith
parse_line-frame_steer to_string s msg false text m e = ground arith

-- An error that the server will retry changes nothing; the turn can still be steered.
pub parse_line-will_retry :
    (to_string : Json → String) (s : CodexAppServer) (msg params : Json)
    → get_str "method" msg ≡ some "error"
    → get "id" msg ≡ none
    → get "params" msg ≡ some params
    → get "willRetry" params ≡ some (bool true)
    → (parse_line to_string s (some msg)).0 ≡ s
unfolding parse_line handle_message handle_notification
parse_line-will_retry to_string s msg params m e p w = ground arith
