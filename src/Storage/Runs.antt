-- ===== src/Storage/Runs.antt =====
-- src-tauri/src/storage/runs.rs: `meta.json` of a run. The lock that `with_meta` takes makes each
-- read-modify-write one step.
use open_covibe_web.Common.{
  ℕ, String, Bool, true, false, Option, none, some, if◌then◌else◌, is_some,
}
use open_covibe_web.Models.{ℤ, RunStatus, completed, failed, stopped}

pub record RunMeta : Type 0 where
  pub status : RunStatus
  pub session_id : Option String
  pub conversation_ref : Option String
  pub result_subtype : Option String
  pub error_message : Option String
  pub exit_code : Option ℤ
  pub ended_at : Option ℕ
  pub deleted_at : Option ℕ

-- The file: absent or unreadable is `none`; `writable` says whether `save_meta` succeeds.
pub record MetaFile : Type 0 where
  pub meta : Option RunMeta
  pub writable : Bool

unfoldable pub get_run : MetaFile → Option RunMeta
get_run f = elim f.meta [ none ↦ none | some m ↦ if is_some m.deleted_at then none else some m ]

-- The file afterwards, and whether the call returned `Ok`.
unfoldable pub with_meta : (RunMeta → RunMeta) → MetaFile → MetaFile × Bool
unfolding get_run
with_meta f file = elim (get_run file) [
  | none ↦ (file, false)
  | some m ↦ if file.writable then (record file { meta = some (f m) }, true) else (file, false)
]

abbrev pub is_terminal : RunStatus → Bool
is_terminal completed = true
is_terminal failed = true
is_terminal stopped = true
is_terminal _ = false

abbrev pub set_status : RunStatus → Option ℤ → Option String → ℕ → RunMeta → RunMeta
set_status status exit_code error now m = record m {
  status = status;
  ended_at = if is_terminal status then some now else none;
  exit_code = exit_code;
  error_message = error;
}

unfoldable pub update_status : RunStatus → Option ℤ → Option String → ℕ → MetaFile → MetaFile × Bool
unfolding with_meta
update_status status exit_code error now = with_meta (set_status status exit_code error now)

abbrev pub set_result_error : Option String → Option String → RunMeta → RunMeta
set_result_error error subtype m = record m { error_message = error; result_subtype = subtype }

unfoldable pub persist_result_error : Option String → Option String → MetaFile → MetaFile × Bool
unfolding with_meta
persist_result_error error subtype = with_meta (set_result_error error subtype)
