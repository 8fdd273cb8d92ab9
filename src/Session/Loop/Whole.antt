-- ===== src/Session/Loop/Whole.antt =====
-- A whole run of the loop, from `spawn_actor` to the clean-up.
use open_covibe_web.Common.{
  Bool, ℕ, ◌+◌, String, Bool, true, false, Option, none, List, [], ◌∷◌, ◌≡◌, arith, if◌then◌else◌,
}
use open_covibe_web.Models.{ℤ}
use open_covibe_web.Models.Json.{Json}
use open_covibe_web.Storage.Runs.{MetaFile}
use open_covibe_web.Codex.Server.{CodexAppServer}
use open_covibe_web.Session.Actor.{SessionActor, Pipe, Child, Wire, spawn, write_json_line}
use open_covibe_web.Session.Invariant.{Inv}
use open_covibe_web.Session.Safe.{Safe, Safe-trans, Safe-refl, if-Safe}
use open_covibe_web.Session.Timeout.Keeps.{fail_all_queue}
use open_covibe_web.Session.Control.Keeps.{write_line-Safe}
use open_covibe_web.Session.Loop.{Input, cleanup, round, handshake, begin_run, run_loop}
use open_covibe_web.Session.Loop.Keeps.{Serves, Safe-Serves, Serves-after, Serves-trans}
use open_covibe_web.Session.Loop.Runs.{asks, asked, ends, round-Serves, cleanup-Safe}

module _ (r : ℕ) (message : Option ℤ → String) (w : Wire) where
  stepped-Serves :
      (a : SessionActor) (now : ℕ) (i : Input) (is : List (ℕ × Input)) (over more : Bool)
      → Serves r
          (asked r message w (round message w a now i).0 is)
          (round message w a now i).0
          (run_loop message w (round message w a now i).0 is)
      → Serves r
          (if over
            then 0
            else if more
            then asks r i + asked r message w (round message w a now i).0 is
            else asks r i)
          a
          (if over
            then cleanup a
            else if more
            then run_loop message w (round message w a now i).0 is
            else cleanup (round message w a now i).0)
  stepped-Serves a now i is true more h = Safe-Serves r a _ (cleanup-Safe r a)
  stepped-Serves a now i is false true h =
      Serves-trans r (asks r i) _ a (round message w a now i).0 _ (round-Serves r message w a now i)
        h
  stepped-Serves a now i is false false h =
      Serves-after r (asks r i) a (round message w a now i).0 _ (round-Serves r message w a now i)
        (cleanup-Safe r (round message w a now i).0)

  pub run_loop-Serves :
      (a : SessionActor) (is : List (ℕ × Input))
      → Serves r (asked r message w a is) a (run_loop message w a is)
  unfolding run_loop
  run_loop-Serves a [] =
      Safe-Serves r a _ (if-Safe r a.terminated a _ _ (cleanup-Safe r a) (Safe-refl r a))
  run_loop-Serves a ((now, i) ∷ is) =
      stepped-Serves a now i is a.terminated (round message w a now i).1
        (run_loop-Serves (round message w a now i).0 is)

cleanup_queue : (a : SessionActor) → (cleanup a).queued_user ≡ []
unfolding cleanup
cleanup_queue a = fail_all_queue (record a { stdin = none }) "Session cleanup"

pub ended_queue :
    (message : Option ℤ → String) (w : Wire) (a : SessionActor) (is : List (ℕ × Input))
    → ends message w a is ≡ true
    → (run_loop message w a is).queued_user ≡ []
unfolding run_loop
ended_queue message w a [] e = ground (arith, cleanup_queue a)
ended_queue message w a ((now, i) ∷ is) e = ground (
  arith,
  cleanup_queue a,
  cleanup_queue (round message w a now i).0,
  ended_queue message w (round message w a now i).0 is,
)

module _ (r : ℕ) where
  handshake-Safe : (a : SessionActor) (ms : List Json) → Safe r a (handshake a ms)
  handshake-Safe a [] = Safe-refl r a
  handshake-Safe a (m ∷ ms) =
      Safe-trans r a _ _ (write_line-Safe r a "codex handshake" m)
        (handshake-Safe ((write_json_line a "codex handshake" m).0) ms)

  pub begin_run-Safe : (a : SessionActor) → Safe r a (begin_run a)
  unfolding begin_run
  begin_run-Safe a =
      let b = record a { codex_startup = [] } in
      Safe-trans r a b _ (record { inv = λ v. ground arith; conserves = omega arith })
        (handshake-Safe b a.codex_startup)

pub spawn-Inv :
    (is_resume : Bool) (codex : Option CodexAppServer) (startup : List Json) (pipe : Pipe)
    (child : Child) (turn_index auto_ctx_id : ℕ) (file : MetaFile)
    → Inv (spawn is_resume codex startup pipe child turn_index auto_ctx_id file)
unfolding spawn
spawn-Inv is_resume codex startup pipe child turn_index auto_ctx_id file = ground arith
