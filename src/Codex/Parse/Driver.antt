-- ===== src/Codex/Parse/Driver.antt =====
-- What holds of a driver at any time.
use open_covibe_web.Common.{
  ℕ, ◌+◌, ◌≤◌, ◌<◌, String, Option, none, some, List, [], ◌∷◌, ◌≡◌, refl, arith,
}
use open_covibe_web.Models.Json.{Json, get_str, get_u64, get}
use open_covibe_web.Codex.Protocol.{CodexTurnOverrides, CodexSkillRef, PendingKind}
use open_covibe_web.Codex.Server.{CodexAppServer, frame_tracked, frame_user_turn, frame_interrupt}
use open_covibe_web.Codex.Response.{frame_response}
use open_covibe_web.Codex.Requests.{frame_steer}
use open_covibe_web.Codex.Parse.{
  parse_line, handle_message, handle_reply, handle_notification, handle_server_request, find_waiter,
  drop_waiter, unwrap_or, null,
}

-- The ids that wait for a reply, the newest first: each is below the one before, and none is an id of
-- the handshake.
abbrev pub Descending : ℕ → List (ℕ × String) → Type 0
Descending hi [] = Unit
Descending hi ((id, request_id) ∷ ws) = (id < hi) × (3 ≤ id) × Descending id ws

abbrev pub DriverOk : CodexAppServer → Type 0
DriverOk s = (3 ≤ s.next_client_id) × Descending s.next_client_id s.client_waiters

Descending-mono :
    (hi lo : ℕ) (ws : List (ℕ × String)) → lo ≤ hi → Descending lo ws → Descending hi ws
Descending-mono hi lo [] h d = tt
Descending-mono hi lo ((id, r) ∷ ws) h d = (omega arith, d.1, d.2)

Descending-drop :
    (hi key : ℕ) (ws : List (ℕ × String)) → Descending hi ws → Descending hi (drop_waiter key ws)
Descending-drop hi key [] d = tt
Descending-drop hi key ((id, r) ∷ ws) d =
    ground (
      arith,
      Descending-drop id key ws d.2,
      Descending-mono hi id (drop_waiter key ws) (omega arith),
    )

pub not_waiting :
    (hi key : ℕ) (ws : List (ℕ × String)) → Descending hi ws → hi ≤ key → find_waiter key ws ≡ none
not_waiting hi key [] d h = refl
not_waiting hi key ((id, r) ∷ ws) d h = ground (arith, not_waiting id key ws d.2 (omega arith))

keep_waiters :
    (s t : CodexAppServer)
    → s.next_client_id ≤ t.next_client_id
    → t.client_waiters ≡ s.client_waiters
    → DriverOk s
    → DriverOk t
keep_waiters s t h e d =
    ground (arith, Descending-mono t.next_client_id s.next_client_id s.client_waiters h)

reply-DriverOk :
    (s : CodexAppServer) (msg : Json) (o : Option ℕ)
    → DriverOk s
    → DriverOk (handle_reply s msg o).0
unfolding handle_reply
reply-DriverOk s msg none d = d
reply-DriverOk s msg (some id) d =
    ground (arith, Descending-drop s.next_client_id id s.client_waiters d.1)

notification-DriverOk :
    (to_string : Json → String) (s : CodexAppServer) (method : String) (params : Json)
    → DriverOk s
    → DriverOk (handle_notification to_string s method params).0
unfolding handle_notification
notification-DriverOk to_string s method params d = ground arith

request-DriverOk :
    (to_string : Json → String) (s : CodexAppServer) (method : String) (msg : Json)
    → DriverOk s
    → DriverOk (handle_server_request to_string s method msg).0
unfolding handle_server_request
request-DriverOk to_string s method msg d = ground arith

message-DriverOk :
    (to_string : Json → String) (s : CodexAppServer) (msg : Json) (o : Option String)
    → DriverOk s
    → DriverOk (handle_message to_string s msg o).0
unfolding handle_message
message-DriverOk to_string s msg none d = reply-DriverOk s msg (get_u64 "id" msg) d
message-DriverOk to_string s msg (some method) d = ground (
  arith,
  request-DriverOk to_string s method msg d,
  notification-DriverOk to_string s method (unwrap_or null (get "params" msg)) d,
)

pub parse_line-DriverOk :
    (to_string : Json → String) (s : CodexAppServer) (o : Option Json)
    → DriverOk s
    → DriverOk (parse_line to_string s o).0
unfolding parse_line
parse_line-DriverOk to_string s none d = d
parse_line-DriverOk to_string s (some msg) d =
    message-DriverOk to_string s msg (get_str "method" msg) d

pub frame_tracked-DriverOk :
    (s : CodexAppServer) (request_id method : String) (extra : List (String × Json))
    → DriverOk s
    → DriverOk (frame_tracked s request_id method extra).0
unfolding frame_tracked
frame_tracked-DriverOk s request_id method extra d = ground arith

pub frame_user_turn-DriverOk :
    (s : CodexAppServer) (text : String) (images : List String) (skills : List CodexSkillRef)
    (o : CodexTurnOverrides)
    → DriverOk s
    → DriverOk (frame_user_turn s text images skills o).0
unfolding frame_user_turn
frame_user_turn-DriverOk s text images skills o d =
    ground (
      arith,
      Descending-mono (s.next_client_id + 1) s.next_client_id s.client_waiters (omega arith),
    )

pub frame_interrupt-DriverOk : (s : CodexAppServer) → DriverOk s → DriverOk (frame_interrupt s).0
unfolding frame_interrupt
frame_interrupt-DriverOk s d =
    ground (
      arith,
      Descending-mono (s.next_client_id + 1) s.next_client_id s.client_waiters (omega arith),
    )

pub frame_steer-DriverOk :
    (s : CodexAppServer) (text : String) → DriverOk s → DriverOk (frame_steer s text).0
unfolding frame_steer
frame_steer-DriverOk s text d =
    ground (
      arith,
      Descending-mono (s.next_client_id + 1) s.next_client_id s.client_waiters (omega arith),
    )

pub frame_response-DriverOk :
    (s : CodexAppServer) (kind : PendingKind) (id : String) (response : Json)
    → DriverOk s
    → DriverOk (frame_response s kind id response).0
unfolding frame_response
frame_response-DriverOk s kind id response d = ground arith
