-- ===== src/Session/Tests.antt =====
-- A small session that the examples run on: a CLI that answers nothing, over a pipe that takes all.
pub mod Runs
pub mod Steps
pub mod Lines
pub mod Codex
pub mod Files
use open_covibe_web.Common.{
  ℕ, String, Bool, true, false, Option, none, some, List, [], ◌∷◌, arith, if◌then◌else◌, str_eq,
  refl, ◌≡◌,
}
use open_covibe_web.Models.{ℤ, pos, BusEvent, run_state, RunStatus}
use open_covibe_web.Models.Json.{Json, null, num, str, object, get_str}
use open_covibe_web.Storage.Runs.{MetaFile, RunMeta}
use open_covibe_web.Codex.Protocol.{ParsedLine}
use open_covibe_web.Codex.Server.{CodexAppServer, new}
use open_covibe_web.Session.Turn.{ActiveTurn, user, normal, active}
use open_covibe_web.Session.Ralph.{RalphLoopState, running}
use open_covibe_web.Session.Actor.{SessionActor, Pipe, Child, Wire, spawn}

-- The line "result" ends a turn.
abbrev parsed : String → Json
parsed s = if str_eq s "result" then object (("type", str "result") ∷ []) else str s

abbrev pub a_wire : Wire
a_wire = record {
  outside = record { fresh_id = λ v. "id"; dollars = λ n. num n };
  from_str = λ s. some (parsed s);
  save_attachment = λ f. none;
  to_string = λ v. "v";
}

abbrev pub a_pipe : Pipe
a_pipe = record { writes = 0; write_error = λ n. none; flush_error = λ n. none }

abbrev pub a_child : Child
a_child = record { wait = some (some (pos 0)) }

abbrev pub a_meta : RunMeta
a_meta = record {
  status = RunStatus.running;
  session_id = none;
  conversation_ref = none;
  result_subtype = none;
  error_message = none;
  exit_code = none;
  ended_at = none;
  deleted_at = none;
}

abbrev pub a_file : MetaFile
a_file = record { meta = some a_meta; writable = true }

abbrev pub a_message : Option ℤ → String
a_message code = "exited"

unfoldable pub an_actor : SessionActor
unfolding spawn
an_actor = spawn false none [] a_pipe a_child 0 0 a_file

abbrev pub a_turn : ActiveTurn
a_turn = record {
  turn_seq = 0;
  origin = user (normal 0);
  phase = active;
  started_at = 0;
  soft_deadline = 300000;
  hard_deadline = 1800000;
  turn_index = 0;
}
