-- ===== src/Session/Tests/Runs.antt =====
-- A session that takes a message and is stopped.
use open_covibe_web.Common.{false, ℕ, none, List, [], ◌∷◌, ◌≡◌, refl, true, ◌+◌}
use open_covibe_web.Session.Actor.{
  write_line, write_user_via, write_user_to_stdin, emit_state, persist_idle_running,
}
use open_covibe_web.Session.Dispatch.{
  try_dispatch, dispatch_next, dispatch_user, start_user_turn, announce, enqueue,
  handle_send_message,
}
use open_covibe_web.Session.Loop.{
  Input, command, send_message, stop, run_loop, round, handle_command,
}
use open_covibe_web.Session.Invariant.{Inv}
use open_covibe_web.Session.Ledger.{answers, starts, completes, alive}
use open_covibe_web.Session.Loop.Runs.{asked, ends}
use open_covibe_web.Session.Loop.Answers.{opened, run_loop-Inv, run_loop-answers, run_loop-loops}
use open_covibe_web.Session.Tests.{a_wire, a_pipe, a_child, a_file, a_message}

abbrev inputs : List (ℕ × Input)
inputs = (10, command (send_message "hello" [] [] 7)) ∷ (20, command (stop 8)) ∷ []

run_loop-Inv_example :
    Inv (run_loop a_message a_wire (opened false none [] a_pipe a_child 0 0 a_file) inputs)
run_loop-Inv_example = run_loop-Inv a_message a_wire false none [] a_pipe a_child 0 0 a_file inputs

inputs_end : ends a_message a_wire (opened false none [] a_pipe a_child 0 0 a_file) inputs ≡ true
unfolding opened round handle_command handle_send_message try_dispatch enqueue dispatch_next
    dispatch_user start_user_turn write_user_to_stdin write_user_via write_line announce
    persist_idle_running emit_state
inputs_end = refl

run_loop-answers_example :
    let a = opened false none [] a_pipe a_child 0 0 a_file in
    answers 7 (run_loop a_message a_wire a inputs).log ≡ asked 7 a_message a_wire a inputs
run_loop-answers_example =
    run_loop-answers 7 a_message a_wire false none [] a_pipe a_child 0 0 a_file inputs inputs_end

run_loop-loops_example :
    let b = run_loop a_message a_wire (opened false none [] a_pipe a_child 0 0 a_file) inputs in
    starts b.log ≡ completes b.log + alive b.ralph_loop
run_loop-loops_example =
    run_loop-loops a_message a_wire false none [] a_pipe a_child 0 0 a_file inputs
