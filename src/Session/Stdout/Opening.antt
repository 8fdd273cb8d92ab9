-- ===== src/Session/Stdout/Opening.antt =====
-- src-tauri/src/agent/session_actor.rs: a Codex session whose thread cannot be opened.
use open_covibe_web.Common.{ℕ, String, false, none, some, List, [], ◌∷◌, ◌≡◌, refl, arith}
use open_covibe_web.Models.Json.{Json, get_str, get_u64, get}
use open_covibe_web.Codex.Server.{CodexAppServer, opening}
use open_covibe_web.Codex.Parse.{parse_line, handle_message, handle_reply, find_waiter}
use open_covibe_web.Codex.Parse.Driver.{DriverOk, Descending}
use open_covibe_web.Session.Actor.{SessionActor, Wire}
use open_covibe_web.Session.Stdout.{handle_codex_line, open_gate, follow}

no_waiter_two : (hi : ℕ) (ws : List (ℕ × String)) → Descending hi ws → find_waiter 2 ws ≡ none
no_waiter_two hi [] d = refl
no_waiter_two hi ((id, r) ∷ ws) d = ground (arith, no_waiter_two id ws d.2)

-- If the server answers the opening of the thread, the request 2, with an error, nobody learns of it:
-- the messages that were sent stay in the queue, behind a gate that is still shut, and nothing is
-- shown, written or answered.
pub handle_codex_line-refused :
    (w : Wire) (a : SessionActor) (now : ℕ) (server : CodexAppServer) (text : String)
    (msg problem : Json)
    → DriverOk server
    → server.phase ≡ opening
    → a.codex_ready ≡ false
    → w.from_str text ≡ some msg
    → get_str "method" msg ≡ none
    → get_u64 "id" msg ≡ some 2
    → get "error" msg ≡ some problem
    → let b = handle_codex_line w a now server text in
      (b.queued_user ≡ a.queued_user) × (b.codex_ready ≡ false) × (b.log ≡ a.log)
unfolding handle_codex_line open_gate follow parse_line handle_message handle_reply
handle_codex_line-refused w a now server text msg problem d p r t m i e =
    ground (arith, no_waiter_two server.next_client_id server.client_waiters d.1)
