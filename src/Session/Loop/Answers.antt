-- ===== src/Session/Loop/Answers.antt =====
-- src-tauri/src/agent/session_actor.rs: what a session promises over a whole run, from
-- `spawn_actor` over the handshake and any inputs to the clean-up.
use open_covibe_web.Common.{Bool, ℕ, ◌+◌, String, true, Option, List, ◌≡◌, arith}
use open_covibe_web.Models.{ℤ}
use open_covibe_web.Models.Json.{Json}
use open_covibe_web.Storage.Runs.{MetaFile}
use open_covibe_web.Codex.Server.{CodexAppServer}
use open_covibe_web.Session.Actor.{SessionActor, Pipe, Child, Wire, spawn}
use open_covibe_web.Session.Invariant.{Inv}
use open_covibe_web.Session.Ledger.{
  answers, starts, completes, alive, answers-ledger, starts-ledger, completes-ledger,
}
use open_covibe_web.Session.Loop.{Input, begin_run, run_loop}
use open_covibe_web.Session.Loop.Runs.{asked, ends}
use open_covibe_web.Session.Loop.Keeps.{Serves, Safe-before}
use open_covibe_web.Session.Loop.Whole.{run_loop-Serves, begin_run-Safe, spawn-Inv, ended_queue}

-- The actor as the loop finds it.
unfoldable pub opened :
    (is_resume : Bool)
    → Option CodexAppServer
    → List Json
    → Pipe
    → Child
    → ℕ
    → ℕ
    → MetaFile
    → SessionActor
unfolding spawn begin_run
opened is_resume codex startup pipe child turn_index auto_ctx_id file =
    begin_run (spawn is_resume codex startup pipe child turn_index auto_ctx_id file)

opened-Serves :
    (r : ℕ) (message : Option ℤ → String) (w : Wire) (is_resume : Bool)
    (codex : Option CodexAppServer) (startup : List Json) (pipe : Pipe) (child : Child)
    (turn_index auto_ctx_id : ℕ) (file : MetaFile) (is : List (ℕ × Input))
    → let a = opened is_resume codex startup pipe child turn_index auto_ctx_id file in
      Serves r
        (asked r message w a is)
        (spawn is_resume codex startup pipe child turn_index auto_ctx_id file)
        (run_loop message w a is)
unfolding opened
opened-Serves r message w is_resume codex startup pipe child turn_index auto_ctx_id file is =
    let a = spawn is_resume codex startup pipe child turn_index auto_ctx_id file in
    Safe-before r _ a (begin_run a) _ (begin_run-Safe r a)
      (run_loop-Serves r message w (begin_run a) is)

-- After any inputs the actor is sound: no internal turn, job or barrier exists, a quarantined actor
-- has no turn, a terminated one no queue, the queued turn indices ascend beyond that of the active
-- turn, and a Ralph loop has collected no text, has failed less than three times in a row, and is
-- below its bound.
pub run_loop-Inv :
    (message : Option ℤ → String) (w : Wire) (is_resume : Bool) (codex : Option CodexAppServer)
    (startup : List Json) (pipe : Pipe) (child : Child) (turn_index auto_ctx_id : ℕ)
    (file : MetaFile) (is : List (ℕ × Input))
    → Inv (
        run_loop message w
          (opened is_resume codex startup pipe child turn_index auto_ctx_id file)
          is)
run_loop-Inv message w is_resume codex startup pipe child turn_index auto_ctx_id file is =
    (opened-Serves 0 message w is_resume codex startup pipe child turn_index auto_ctx_id file
        is).inv
      (spawn-Inv is_resume codex startup pipe child turn_index auto_ctx_id file)

-- If the loop ends within the inputs, then each reply channel was answered exactly as often as the
-- commands that the loop took name it.
pub run_loop-answers :
    (r : ℕ) (message : Option ℤ → String) (w : Wire) (is_resume : Bool)
    (codex : Option CodexAppServer) (startup : List Json) (pipe : Pipe) (child : Child)
    (turn_index auto_ctx_id : ℕ) (file : MetaFile) (is : List (ℕ × Input))
    → ends message w (opened is_resume codex startup pipe child turn_index auto_ctx_id file) is
      ≡ true
    → let a = opened is_resume codex startup pipe child turn_index auto_ctx_id file in
      answers r (run_loop message w a is).log ≡ asked r message w a is
unfolding spawn
run_loop-answers r message w is_resume codex startup pipe child turn_index auto_ctx_id file is e =
    let a = opened is_resume codex startup pipe child turn_index auto_ctx_id file in
    ground (
      arith,
      (opened-Serves r message w is_resume codex startup pipe child turn_index auto_ctx_id file
          is).owed,
      answers-ledger r (run_loop message w a is).log,
      ended_queue message w a is e,
    )

-- After any inputs the loops that the actor has announced itself are those whose completion it has
-- announced, and the one that is alive, if any.
pub run_loop-loops :
    (message : Option ℤ → String) (w : Wire) (is_resume : Bool) (codex : Option CodexAppServer)
    (startup : List Json) (pipe : Pipe) (child : Child) (turn_index auto_ctx_id : ℕ)
    (file : MetaFile) (is : List (ℕ × Input))
    → let b =
        run_loop message w
          (opened is_resume codex startup pipe child turn_index auto_ctx_id file)
          is in
      starts b.log ≡ completes b.log + alive b.ralph_loop
unfolding spawn
run_loop-loops message w is_resume codex startup pipe child turn_index auto_ctx_id file is =
    let b =
      run_loop message w (opened is_resume codex startup pipe child turn_index auto_ctx_id file)
        is in
    ground (
      arith,
      (opened-Serves 0 message w is_resume codex startup pipe child turn_index auto_ctx_id file
          is).loops,
      starts-ledger b.log,
      completes-ledger b.log,
    )
