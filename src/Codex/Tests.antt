-- ===== src/Codex/Tests.antt =====
-- Examples of the frames of the Codex driver.
pub mod Lines
use open_covibe_web.Common.{◌+◌, some, [], ◌∷◌, ◌++◌, ◌≡◌, refl, map, lookup}
use open_covibe_web.Models.Json.{num, get, null}
use open_covibe_web.Codex.Protocol.{permission, elicitation, CodexTurnOverrides}
use open_covibe_web.Codex.Server.{
  CodexAppServer, new, no_overrides, frame_user_turn, frame_interrupt, frame_tracked,
}
use open_covibe_web.Codex.Server.Frames.{frame-ids, frame_user_turn-replay}
use open_covibe_web.Codex.Response.{frame_response}
use open_covibe_web.Codex.Response.Once.{frame_response-once}

abbrev pub a_server : CodexAppServer
a_server = record new {
  thread_id = some "t";
  pending =
      ("0", record { raw_id = num 0; method = "execCommandApproval" })
      ∷ ("1", record { raw_id = num 1; method = "execCommandApproval" })
      ∷ [];
}
