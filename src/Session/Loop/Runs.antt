-- ===== src/Session/Loop/Runs.antt =====
-- Every round of the select loop keeps the invariant and serves the command it took; what a run is
-- asked for, and whether it ends.
use open_covibe_web.Common.{
  ℕ, ◌+◌, String, Bool, true, false, Option, none, some, List, [], ◌∷◌, arith, if◌then◌else◌,
  str_eq,
}
use open_covibe_web.Models.{ℤ}
use open_covibe_web.Session.Actor.{SessionActor, Wire}
use open_covibe_web.Session.Frame.{emit_state-Frame}
use open_covibe_web.Session.Ledger.{hit}
use open_covibe_web.Session.Safe.{
  Safe, Safe-trans, Safe-refl, if-Safe, Frame-Safe, fail_all-Safe, drop_turn-Inv, try_dispatch-Safe,
}
use open_covibe_web.Session.Timeout.{on_tick_timeout, fail_all_pending_replies}
use open_covibe_web.Session.Timeout.Keeps.{on_tick_timeout-Safe}
use open_covibe_web.Session.Stdout.Lines.{handle_stdout_line-Safe}
use open_covibe_web.Session.Stderr.{handle_stderr_line}
use open_covibe_web.Session.Loop.{
  Input, command, stdout_line, stderr_line, stdout_eof, tick, cancel_requested, cancelled,
  mailbox_closed, finalize_meta, handle_eof, eof_state, exit_code_of, cleanup, after_tick, round,
}
use open_covibe_web.Session.Loop.Keeps.{Serves, Safe-Serves, handle_stop-Safe}
use open_covibe_web.Session.Loop.Commands.{channel, handle_command-Serves}

-- How many replies an input asks for at `r`.
abbrev pub asks : ℕ → Input → ℕ
asks r (command c) = hit r (channel c)
asks r _ = 0

-- The same for all inputs that the loop takes.
abbrev pub asked : ℕ → (Option ℤ → String) → Wire → SessionActor → List (ℕ × Input) → ℕ
asked r message w a [] = 0
asked r message w a ((now, i) ∷ is) =
    let next = round message w a now i in
    let rest = asked r message w (next.0) is in
    if a.terminated then 0 else if next.1 then asks r i + rest else asks r i

-- Whether the loop ends within these inputs.
abbrev pub ends : (Option ℤ → String) → Wire → SessionActor → List (ℕ × Input) → Bool
ends message w a [] = a.terminated
ends message w a ((now, i) ∷ is) =
    let next = round message w a now i in
    let rest = ends message w (next.0) is in
    if a.terminated then true else if next.1 then rest else true

module _ (r : ℕ) where
  handle_stderr_line-Safe :
      (a : SessionActor) (text : String) → Safe r a (handle_stderr_line a text)
  unfolding handle_stderr_line
  handle_stderr_line-Safe a text = Frame-Safe r a _ (ground arith)

  finalize_meta-Safe :
      (a : SessionActor) (now : ℕ) (code : Option ℤ) → Safe r a (finalize_meta a now code)
  unfolding finalize_meta
  finalize_meta-Safe a now code = Frame-Safe r a _ (ground arith)

  handle_eof-Safe :
      (message : Option ℤ → String) (a : SessionActor) (now : ℕ)
      → Safe r a (handle_eof message a now)
  unfolding handle_eof
  handle_eof-Safe message a now =
      let code = exit_code_of a.child in
      let failed = fail_all_pending_replies a "Session ended" in
      let ended = record failed {
        active_turn = none;
        active_extractor = none;
        quarantine_until_result = false;
      } in
      let s = eof_state a.is_cancelled code in
      let error = if str_eq s "failed" then some (message code) else none in
      Safe-trans r a failed _ (fail_all-Safe r a "Session ended") (
        Safe-trans r failed ended _
          (record { inv = λ v. ground (arith, drop_turn-Inv failed v); conserves = omega arith })
          (if-Safe r a.protocol.got_result_event ended _ _ (finalize_meta-Safe ended now code)
            (Frame-Safe r ended _ (emit_state-Frame ended now s code error true))))

  pub cleanup-Safe : (a : SessionActor) → Safe r a (cleanup a)
  unfolding cleanup
  cleanup-Safe a =
      let b = record a { stdin = none } in
      let c = fail_all_pending_replies b "Session cleanup" in
      Safe-trans r a b _ (Frame-Safe r a b (ground arith)) (
        Safe-trans r b c _ (fail_all-Safe r b "Session cleanup")
          (record { inv = λ v. ground arith; conserves = omega arith }))

  after_tick-Safe : (w : Wire) (a : SessionActor) (now : ℕ) → Safe r a (after_tick w a now)
  after_tick-Safe w a now =
      let b = record a { ralph_needs_dispatch = false } in
      if-Safe r a.ralph_needs_dispatch a _ _
        (Safe-trans r a b _ (record { inv = λ v. ground arith; conserves = omega arith })
          (try_dispatch-Safe r w b now))
        (Safe-refl r a)

  pub round-Serves :
      (message : Option ℤ → String) (w : Wire)
      → (a : SessionActor) (now : ℕ) (i : Input) → Serves r (asks r i) a (round message w a now i).0
  unfolding round
  round-Serves message w a now (command c) = handle_command-Serves r w a now c
  round-Serves message w a now (stdout_line text) =
      Safe-Serves r a _ (handle_stdout_line-Safe r w a now text)
  round-Serves message w a now (stderr_line text) =
      Safe-Serves r a _ (handle_stderr_line-Safe a text)
  round-Serves message w a now stdout_eof = Safe-Serves r a _ (handle_eof-Safe message a now)
  round-Serves message w a now (tick id) = Safe-Serves r a _ (
      Safe-trans r a _ _ (on_tick_timeout-Safe r w a now id)
        (after_tick-Safe w (on_tick_timeout w a now id) now))
  round-Serves message w a now cancel_requested =
      Safe-Serves r a _ (record { inv = λ v. ground arith; conserves = omega arith })
  round-Serves message w a now cancelled = Safe-Serves r a _ (handle_stop-Safe r a)
  round-Serves message w a now mailbox_closed = Safe-Serves r a _ (Safe-refl r a)
