-- ===== src/Codex/Response/Once.antt =====
-- src-tauri/src/agent/codex_appserver.rs: a request of the server is answered once.
use open_covibe_web.Common.{
  String, [], ◌∷◌, ◌≡◌, arith, lookup, lookup-remove, eq_refl, some, str_eq, false, map,
}
use open_covibe_web.Models.Json.{Json, get}
use open_covibe_web.Codex.Protocol.{PendingKind}
use open_covibe_web.Codex.Server.{CodexAppServer, PendingServerReq}
use open_covibe_web.Codex.Response.{frame_response}

-- A pending request is answered with one frame that carries the server's own id; a second answer
-- to it writes nothing, and any other pending request still waits.
pub frame_response-once :
    (s : CodexAppServer) (p : PendingServerReq) (kind kind' : PendingKind) (id other : String)
    (response response' : Json)
    → lookup id s.pending ≡ some p
    → str_eq id other ≡ false
    → let first = frame_response s kind id response in
      ((frame_response (first.0) kind' id response').1 ≡ [])
      × (lookup other (first.0).pending ≡ lookup other s.pending)
      × (map (get "id") (first.1) ≡ some p.raw_id ∷ [])
unfolding frame_response
frame_response-once s p kind kind' id other response response' e n =
    ground (arith, lookup-remove id id s.pending, lookup-remove id other s.pending, eq_refl id)
