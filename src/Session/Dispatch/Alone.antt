-- ===== src/Session/Dispatch/Alone.antt =====
-- src-tauri/src/agent/session_actor.rs: a dispatch starts no Ralph loop.
use open_covibe_web.Common.{ℕ, Option, none, some, List, [], ◌∷◌, ◌≡◌, arith, ap, inl, inr}
use open_covibe_web.Session.Turn.{UserTurnTicket, InternalJob}
use open_covibe_web.Session.Ralph.{RalphLoopState}
use open_covibe_web.Session.Actor.{
  SessionActor, Wire, set_pending_slash_command, write_user_to_stdin,
}
use open_covibe_web.Session.Frame.{write_user_to_stdin-Frame, Reply-cases}
use open_covibe_web.Session.Dispatch.Keeps.{announce-Frame}
use open_covibe_web.Session.Dispatch.{
  start_user_turn, start_internal_turn, dispatch_internal, dispatch_ralph, dispatch_user,
  dispatch_barrier, dispatch_next, try_dispatch, take_job, pause_loop, pending_slash,
}

user_alone :
    (w : Wire) (a : SessionActor) (now : ℕ) (t : UserTurnTicket)
    → a.ralph_loop ≡ none
    → (start_user_turn w a now t).ralph_loop ≡ none
unfolding start_user_turn
user_alone w a now t h =
    let b = set_pending_slash_command a (pending_slash t.kind) in
    let written = write_user_to_stdin w b t.text t.attachments t.skills in
    let f = write_user_to_stdin-Frame w b t.text t.attachments t.skills in
    elim (Reply-cases (written.1)) [
      | inl e ↦ rw (e, start_user_turn) (ground (arith, f, announce-Frame (written.0) now t.text))
      | inr (m, e) ↦ rw (e, start_user_turn) (ground (arith, f))
    ]

internal_alone :
    (w : Wire) (a : SessionActor) (now : ℕ) (job : InternalJob)
    → a.ralph_loop ≡ none
    → (start_internal_turn w a now job).ralph_loop ≡ none
unfolding start_internal_turn
internal_alone w a now job h =
    let b = set_pending_slash_command a (some "/context") in
    let written = write_user_to_stdin w b "/context" [] [] in
    let f = write_user_to_stdin-Frame w b "/context" [] [] in
    elim (Reply-cases (written.1)) [
      | inl e ↦ rw (e, start_internal_turn) (ground (arith, f))
      | inr (m, e) ↦ rw (e, start_internal_turn) (ground (arith, f))
    ]

jobs_alone :
    (w : Wire) (a : SessionActor) (now : ℕ) (jobs : List InternalJob)
    → a.ralph_loop ≡ none
    → (dispatch_internal w a now jobs).ralph_loop ≡ none
unfolding dispatch_internal
jobs_alone w a now [] h = h
jobs_alone w a now (job ∷ jobs) h = internal_alone w (record a { queued_internal = jobs }) now job h

ralph_alone :
    (w : Wire) (a : SessionActor) (now : ℕ) (l : Option RalphLoopState)
    → l ≡ none
    → a.ralph_loop ≡ none
    → (dispatch_ralph w a now l).ralph_loop ≡ none
unfolding dispatch_ralph
ralph_alone w a now l e h = rw (e, dispatch_ralph) (jobs_alone w a now a.queued_internal h)

queue_alone :
    (w : Wire) (a : SessionActor) (now : ℕ) (ts : List UserTurnTicket)
    → a.ralph_loop ≡ none
    → (dispatch_user w a now ts).ralph_loop ≡ none
unfolding dispatch_user
queue_alone w a now [] h = ralph_alone w a now a.ralph_loop h h
queue_alone w a now (t ∷ ts) h =
    user_alone w (record a { queued_user = ts; ralph_loop = pause_loop a.ralph_loop }) now t
      (ap pause_loop h)

barrier_alone :
    (w : Wire) (a : SessionActor) (now : ℕ) (o : Option (InternalJob × List InternalJob))
    → a.ralph_loop ≡ none
    → (dispatch_barrier w a now o).ralph_loop ≡ none
unfolding dispatch_barrier
barrier_alone w a now none h = ralph_alone w a now a.ralph_loop h h
barrier_alone w a now (some (job, jobs)) h =
    internal_alone w (record a { queued_internal = jobs }) now job h

next_alone :
    (w : Wire) (a : SessionActor) (now : ℕ) (o : Option ℕ)
    → a.ralph_loop ≡ none
    → (dispatch_next w a now o).ralph_loop ≡ none
unfolding dispatch_next
next_alone w a now none h = queue_alone w a now a.queued_user h
next_alone w a now (some turn) h = barrier_alone w a now (take_job turn a.queued_internal) h

-- Without a loop there is none after a dispatch.
pub try_dispatch-alone :
    (w : Wire) (a : SessionActor) (now : ℕ)
    → a.ralph_loop ≡ none
    → (try_dispatch w a now).ralph_loop ≡ none
unfolding try_dispatch
try_dispatch-alone w a now h = ground (arith, next_alone w a now a.must_run_internal_for_turn h)
