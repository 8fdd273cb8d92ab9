-- ===== src/Codex/Parse/Prompts.antt =====
-- A request of the server is answered under the id that the server gave.
use open_covibe_web.Common.{String, none, Option, some}
use open_covibe_web.Models.Json.{Json}
use open_covibe_web.Codex.Protocol.{PendingInteractive}
use open_covibe_web.Codex.Parse.{Option}

-- The id that the user's answer will name.
abbrev pub prompt_id : Option PendingInteractive → Option String
prompt_id none = none
prompt_id (some p) = some p.request_id
