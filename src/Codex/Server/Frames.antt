-- ===== src/Codex/Server/Frames.antt =====
-- src-tauri/src/agent/codex_appserver.rs: the ids of the frames, and the settings of the first turn.
use open_covibe_web.Common.{◌+◌, String, some, List, [], ◌∷◌, ◌++◌, ◌≡◌, arith, map}
use open_covibe_web.Models.Json.{Json, num, get}
use open_covibe_web.Codex.Protocol.{CodexTurnOverrides, CodexSkillRef}
use open_covibe_web.Codex.Server.{CodexAppServer, frame_tracked, frame_user_turn, frame_interrupt}

-- With an open thread, a turn, an interrupt and a tracked request are one frame each, under the
-- next three ids in this order.
pub frame-ids :
    (s : CodexAppServer) (tid text request_id method : String) (images : List String)
    (skills : List CodexSkillRef) (o : CodexTurnOverrides) (extra : List (String × Json))
    → s.thread_id ≡ some tid
    → let turn = frame_user_turn s text images skills o in
      let stopped = frame_interrupt (turn.0) in
      let tracked = frame_tracked (stopped.0) request_id method extra in
      map (get "id") (turn.1 ++ (stopped.1 ++ tracked.1))
      ≡ some (num s.next_client_id)
        ∷ some (num (s.next_client_id + 1))
        ∷ some (num (s.next_client_id + 2))
        ∷ []
unfolding frame_user_turn frame_interrupt frame_tracked
frame-ids s tid text request_id method images skills o extra e = ground arith

-- With an open thread, the settings of the start count for the first turn only: the frames of
-- the second turn are the same whatever settings the start had.
pub frame_user_turn-replay :
    (s : CodexAppServer) (tid text text' : String) (images images' : List String)
    (skills skills' : List CodexSkillRef) (o o' boot : CodexTurnOverrides)
    → s.thread_id ≡ some tid
    → let first = (frame_user_turn s text images skills o).0 in
      (frame_user_turn (record first { startup_overrides = boot }) text' images' skills' o').1
      ≡ (frame_user_turn first text' images' skills' o').1
unfolding frame_user_turn
frame_user_turn-replay s tid text text' images images' skills skills' o o' boot e = ground arith
