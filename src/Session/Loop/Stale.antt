-- ===== src/Session/Loop/Stale.antt =====
-- src-tauri/src/agent/session_actor.rs: what becomes of the error of an earlier turn.
use open_covibe_web.Common.{Option, none, some}
use open_covibe_web.Models.{RunStatus}
use open_covibe_web.Storage.Runs.{RunMeta}

abbrev pub status_of : Option RunMeta → Option RunStatus
status_of none = none
status_of (some m) = some m.status
