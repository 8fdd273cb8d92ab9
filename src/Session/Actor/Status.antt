-- ===== src/Session/Actor/Status.antt =====
-- src-tauri/src/agent/session_actor.rs: the run state, and the status of the run on disk.
use open_covibe_web.Common.{ℕ, String, eq_refl, Bool, true, false, Option, none, some, ◌≡◌, arith}
use open_covibe_web.Models.{ℤ, RunStatus}
use open_covibe_web.Storage.Runs.{RunMeta, get_run, update_status, with_meta}
use open_covibe_web.Session.Actor.{SessionActor, emit_state, persist_idle_running}

-- Emitting a run state twice in a row, whatever else the second call says, is emitting it once.
pub emit_state-twice :
    (a : SessionActor) (s : String) (now now' : ℕ) (code code' : Option ℤ)
    (error error' : Option String) (upd upd' : Bool)
    → emit_state (emit_state a now s code error upd) now' s code' error' upd'
      ≡ emit_state a now s code error upd
unfolding emit_state
emit_state-twice a s now now' code code' error error' upd upd' = ground (arith, eq_refl s)

abbrev pub is_moving : RunStatus → Bool
is_moving RunStatus.running = true
is_moving RunStatus.idle = true
is_moving _ = false

-- A run that is not deleted and whose status is neither `running` nor `idle` stays as it is when a
-- turn starts or ends, and nothing is announced.
pub persist_idle_running-settled :
    (a : SessionActor) (m : RunMeta) (now : ℕ) (target : RunStatus)
    → a.file.meta ≡ some m
    → is_moving m.status ≡ false
    → persist_idle_running a now target ≡ a
unfolding persist_idle_running get_run update_status
persist_idle_running-settled a m now target e h = ground arith

-- A run that is not deleted, in a file that can be written, goes from `running` to `idle` and back:
-- after the end of a turn and the start of the next one it is `running`, without an end.
pub persist_idle_running-back :
    (a : SessionActor) (m : RunMeta) (now now' : ℕ)
    → a.file.meta ≡ some m
    → m.deleted_at ≡ none
    → a.file.writable ≡ true
    → m.status ≡ RunStatus.running
    → get_run
        (persist_idle_running
          (persist_idle_running a now RunStatus.idle)
          now'
          RunStatus.running).file
      ≡ some (record m {
        status = RunStatus.running;
        ended_at = none;
        exit_code = none;
        error_message = none;
      })
unfolding persist_idle_running get_run update_status with_meta
persist_idle_running-back a m now now' e d w s = ground arith
