-- ===== src/Codex/Parse/Replies.antt =====
-- A reply of the server finds the request that it answers, whatever happens in between.
use open_covibe_web.Common.{
  ℕ, String, Bool, false, Option, none, some, List, [], ◌∷◌, ◌≡◌, arith, if◌then◌else◌, ◌==◌,
}
use open_covibe_web.Models.Json.{Json, get_str, get_u64}
use open_covibe_web.Codex.Protocol.{StartupCtx, CodexTurnOverrides, CodexSkillRef, PendingKind}
use open_covibe_web.Codex.Server.{
  CodexAppServer, new, startup_messages, frame_tracked, frame_user_turn, frame_interrupt,
}
use open_covibe_web.Codex.Response.{frame_response}
use open_covibe_web.Codex.Requests.{frame_steer}
use open_covibe_web.Codex.Parse.{
  parse_line, handle_message, handle_reply, handle_notification, handle_server_request, find_waiter,
  drop_waiter, reply_value,
}
use open_covibe_web.Codex.Parse.Driver.{
  DriverOk, not_waiting, parse_line-DriverOk, frame_tracked-DriverOk, frame_user_turn-DriverOk,
  frame_interrupt-DriverOk, frame_steer-DriverOk, frame_response-DriverOk,
}

-- What may happen to a driver.
pub data Call : Type 0 where
  tracked : (request_id : String) → (method : String) → List (String × Json) → Call
  user_turn : String → List String → List CodexSkillRef → CodexTurnOverrides → Call
  interrupt : Call
  steer : String → Call
  respond : PendingKind → String → Json → Call
  line : Option Json → Call

abbrev pub call : (Json → String) → CodexAppServer → Call → CodexAppServer
call to_string s (tracked request_id method extra) = (frame_tracked s request_id method extra).0
call to_string s (user_turn text images skills o) = (frame_user_turn s text images skills o).0
call to_string s interrupt = (frame_interrupt s).0
call to_string s (steer text) = (frame_steer s text).0
call to_string s (respond kind id response) = (frame_response s kind id response).0
call to_string s (line o) = (parse_line to_string s o).0

abbrev pub calls : (Json → String) → CodexAppServer → List Call → CodexAppServer
calls to_string s [] = s
calls to_string s (c ∷ cs) = calls to_string (call to_string s c) cs

abbrev pub is_id : ℕ → Option ℕ → Bool
is_id id none = false
is_id id (some n) = n == id

abbrev pub is_reply : ℕ → Json → Option String → Bool
is_reply id msg (some method) = false
is_reply id msg none = is_id id (get_u64 "id" msg)

-- Whether a line is a reply to the id.
abbrev pub replies_to : ℕ → Option Json → Bool
replies_to id none = false
replies_to id (some msg) = is_reply id msg (get_str "method" msg)

abbrev pub Unanswered : ℕ → List Call → Type 0
Unanswered id [] = Unit
Unanswered id (line o ∷ cs) = (replies_to id o ≡ false) × Unanswered id cs
Unanswered id (c ∷ cs) = Unanswered id cs

call-DriverOk :
    (to_string : Json → String) (s : CodexAppServer) (c : Call)
    → DriverOk s
    → DriverOk (call to_string s c)
call-DriverOk to_string s (tracked request_id method extra) d =
    frame_tracked-DriverOk s request_id method extra d
call-DriverOk to_string s (user_turn text images skills o) d =
    frame_user_turn-DriverOk s text images skills o d
call-DriverOk to_string s interrupt d = frame_interrupt-DriverOk s d
call-DriverOk to_string s (steer text) d = frame_steer-DriverOk s text d
call-DriverOk to_string s (respond kind id response) d =
    frame_response-DriverOk s kind id response d
call-DriverOk to_string s (line o) d = parse_line-DriverOk to_string s o d

calls-kept :
    (to_string : Json → String) (s : CodexAppServer) (cs : List Call)
    → DriverOk s
    → DriverOk (calls to_string s cs)
calls-kept to_string s [] d = d
calls-kept to_string s (c ∷ cs) d =
    calls-kept to_string (call to_string s c) cs (call-DriverOk to_string s c d)

-- A driver that has been started keeps its ids in order, whatever calls and lines follow: the next id
-- is past those of the handshake and those that wait, and the waiting ids descend, so that no two are
-- the same.
pub calls-DriverOk :
    (to_string : Json → String) (version : String) (ctx : StartupCtx) (cs : List Call)
    → DriverOk (calls to_string (startup_messages version new ctx).0 cs)
unfolding startup_messages
calls-DriverOk to_string version ctx cs =
    calls-kept to_string (startup_messages version new ctx).0 cs (ground arith)

find-drop :
    (key id : ℕ) (ws : List (ℕ × String))
    → find_waiter id (drop_waiter key ws) ≡ (if key == id then none else find_waiter id ws)
find-drop key id [] = ground arith
find-drop key id ((j, r) ∷ ws) = ground (arith, find-drop key id ws)

reply-waits :
    (s : CodexAppServer) (msg : Json) (o : Option ℕ) (id : ℕ) (request_id : String)
    → find_waiter id s.client_waiters ≡ some request_id
    → is_id id o ≡ false
    → find_waiter id ((handle_reply s msg o).0).client_waiters ≡ some request_id
unfolding handle_reply
reply-waits s msg none id request_id e u = e
reply-waits s msg (some n) id request_id e u = ground (arith, find-drop n id s.client_waiters)

message-waits :
    (to_string : Json → String) (s : CodexAppServer) (msg : Json) (m : Option String) (id : ℕ)
    (request_id : String)
    → find_waiter id s.client_waiters ≡ some request_id
    → is_reply id msg m ≡ false
    → find_waiter id ((handle_message to_string s msg m).0).client_waiters ≡ some request_id
unfolding handle_message handle_server_request handle_notification
message-waits to_string s msg none id request_id e u =
    reply-waits s msg (get_u64 "id" msg) id request_id e u
message-waits to_string s msg (some method) id request_id e u = ground arith

line-waits :
    (to_string : Json → String) (s : CodexAppServer) (o : Option Json) (id : ℕ)
    (request_id : String)
    → find_waiter id s.client_waiters ≡ some request_id
    → replies_to id o ≡ false
    → find_waiter id ((parse_line to_string s o).0).client_waiters ≡ some request_id
unfolding parse_line
line-waits to_string s none id request_id e u = e
line-waits to_string s (some msg) id request_id e u =
    message-waits to_string s msg (get_str "method" msg) id request_id e u

-- A framed request takes the next id, at which none waits.
tracked-waits :
    (s : CodexAppServer) (rid method : String) (extra : List (String × Json)) (id : ℕ)
    (request_id : String)
    → DriverOk s
    → find_waiter id s.client_waiters ≡ some request_id
    → find_waiter id ((frame_tracked s rid method extra).0).client_waiters ≡ some request_id
unfolding frame_tracked
tracked-waits s rid method extra id request_id d e =
    ground (arith, not_waiting s.next_client_id id s.client_waiters d.1)

calls-wait :
    (to_string : Json → String) (s : CodexAppServer) (cs : List Call) (id : ℕ) (request_id : String)
    → DriverOk s
    → find_waiter id s.client_waiters ≡ some request_id
    → Unanswered id cs
    → find_waiter id (calls to_string s cs).client_waiters ≡ some request_id
unfolding frame_user_turn frame_interrupt frame_steer frame_response
calls-wait to_string s [] id request_id d e u = e
calls-wait to_string s (tracked rid method extra ∷ cs) id request_id d e u =
    calls-wait to_string (call to_string s (tracked rid method extra)) cs id request_id
      (call-DriverOk to_string s (tracked rid method extra) d)
      (tracked-waits s rid method extra id request_id d e) u
calls-wait to_string s (line o ∷ cs) id request_id d e u =
    calls-wait to_string (call to_string s (line o)) cs id request_id
      (call-DriverOk to_string s (line o) d) (line-waits to_string s o id request_id e u.0) u.1
calls-wait to_string s (c ∷ cs) id request_id d e u =
    calls-wait to_string (call to_string s c) cs id request_id (call-DriverOk to_string s c d)
      (ground arith) u

framed_waits :
    (s : CodexAppServer) (tid request_id method : String) (extra : List (String × Json))
    → s.thread_id ≡ some tid
    → find_waiter s.next_client_id ((frame_tracked s request_id method extra).0).client_waiters
      ≡ some request_id
unfolding frame_tracked
framed_waits s tid request_id method extra t = ground arith

-- A request that is framed while the thread is open gets the reply that names its id, after whatever
-- other calls and lines, none of which is such a reply: the reply goes to the caller who asked, with
-- the result or else the error in it, and a second reply with the id goes to nobody.
pub frame_tracked-reply :
    (to_string : Json → String) (s : CodexAppServer) (tid request_id method : String)
    (extra : List (String × Json)) (cs : List Call) (msg : Json)
    → DriverOk s
    → s.thread_id ≡ some tid
    → Unanswered s.next_client_id cs
    → get_str "method" msg ≡ none
    → get_u64 "id" msg ≡ some s.next_client_id
    → let later = calls to_string (frame_tracked s request_id method extra).0 cs in
      let replied = parse_line to_string later (some msg) in
      ((replied.1).control_response ≡ some (request_id, reply_value msg))
      × (((parse_line to_string (replied.0) (some msg)).1).control_response ≡ none)
unfolding parse_line handle_message handle_reply
frame_tracked-reply to_string s tid request_id method extra cs msg d t u m i =
    let framed = (frame_tracked s request_id method extra).0 in
    let later = calls to_string framed cs in
    ground (
      arith,
      calls-wait to_string framed cs s.next_client_id request_id
          (frame_tracked-DriverOk s request_id method extra d)
          (framed_waits s tid request_id method extra t) u,
      find-drop s.next_client_id s.next_client_id later.client_waiters,
    )
