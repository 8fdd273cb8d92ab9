-- ===== src/Session/Dispatch/Conserve.antt =====
-- Dispatch answers each ticket that it takes off the queue, and no other.
use open_covibe_web.Common.{
  ℕ, ◌+◌, String, Option, none, some, List, [], ◌∷◌, ◌≡◌, refl, arith, inl, inr, Bool-cases,
}
use open_covibe_web.Session.Turn.{UserTurnTicket, InternalJob}
use open_covibe_web.Session.Ralph.{
  RalphLoopState, RalphPhase, running, waiting_retry, cancel_pending, paused_by_user,
}
use open_covibe_web.Session.Actor.{
  SessionActor, Wire, set_pending_slash_command, write_user_to_stdin,
}
use open_covibe_web.Session.Frame.{write_user_to_stdin-Frame, Reply-cases}
use open_covibe_web.Session.Ledger.{Conserves, Conserves-refl, Conserves-trans, alive}
use open_covibe_web.Session.Dispatch.{
  start_user_turn, start_internal_turn, pending_slash, ralph_write_failed, start_ralph_turn,
  emit_ralph_complete, pause_loop, cleared, dispatch_user, dispatch_loop, dispatch_internal,
  dispatch_ralph, dispatch_barrier, try_dispatch, dispatch_next, due, take_job,
}
use open_covibe_web.Session.Dispatch.Keeps.{announce-Frame}

module _ (r : ℕ) where
  -- A user turn that starts, or whose message cannot be written, answers its ticket.
  start_user_turn-answers :
      (w : Wire) (a : SessionActor) (now : ℕ) (t : UserTurnTicket)
      → Conserves r (record a { queued_user = t ∷ a.queued_user }) (start_user_turn w a now t)
  unfolding start_user_turn
  start_user_turn-answers w a now t =
      let b = set_pending_slash_command a (pending_slash t.kind) in
      let written = write_user_to_stdin w b t.text t.attachments t.skills in
      let f = write_user_to_stdin-Frame w b t.text t.attachments t.skills in
      elim (Reply-cases (written.1)) [
        | inl e ↦ rw (e, start_user_turn) (ground (arith, f, announce-Frame (written.0) now t.text))
        | inr (m, e) ↦ rw (e, start_user_turn) (ground (arith, f))
      ]

  start_internal_turn-Conserves :
      (w : Wire) (a : SessionActor) (now : ℕ) (j : InternalJob)
      → Conserves r a (start_internal_turn w a now j)
  unfolding start_internal_turn
  start_internal_turn-Conserves w a now j =
      let b = set_pending_slash_command a (some "/context") in
      let written = write_user_to_stdin w b "/context" [] [] in
      let f = write_user_to_stdin-Frame w b "/context" [] [] in
      elim (Reply-cases (written.1)) [
        | inl e ↦ rw (e, start_internal_turn) (ground (arith, f))
        | inr (m, e) ↦ rw (e, start_internal_turn) (ground (arith, f))
      ]

  ralph_write_failed-Conserves :
      (a : SessionActor) (now : ℕ) (l : Option RalphLoopState)
      → a.ralph_loop ≡ l
      → Conserves r a (ralph_write_failed a now l)
  unfolding ralph_write_failed emit_ralph_complete
  ralph_write_failed-Conserves a now none e = omega arith
  ralph_write_failed-Conserves a now (some l) e = ground arith

  start_ralph_turn-Conserves :
      (w : Wire) (a : SessionActor) (now : ℕ) (prompt : String)
      → Conserves r a (start_ralph_turn w a now prompt)
  unfolding start_ralph_turn
  start_ralph_turn-Conserves w a now prompt =
      let b = record a {
        next_turn_index = a.next_turn_index + 1;
        next_turn_seq = a.next_turn_seq + 1;
        ralph_loop = cleared a.ralph_loop;
      } in
      let written = write_user_to_stdin w b prompt [] [] in
      let f = write_user_to_stdin-Frame w b prompt [] [] in
      let same : Conserves r a (written.0) = ground (arith, f) in
      elim (Reply-cases (written.1)) [
        | inl e ↦
            rw (e, start_ralph_turn) (ground (arith, same, announce-Frame (written.0) now prompt))
        | inr (m, e) ↦
            rw (e, start_ralph_turn)
              (Conserves-trans r a (written.0) _ same
                (ralph_write_failed-Conserves (written.0) now (written.0).ralph_loop refl))
      ]

  dispatch_internal-Conserves :
      (w : Wire) (a : SessionActor) (now : ℕ) (js : List InternalJob)
      → Conserves r a (dispatch_internal w a now js)
  unfolding dispatch_internal
  dispatch_internal-Conserves w a now [] = Conserves-refl r a
  dispatch_internal-Conserves w a now (j ∷ js) =
      Conserves-trans r a _ _ (omega arith) (start_internal_turn-Conserves w _ now j)

  dispatch_loop-Conserves :
      (w : Wire) (a : SessionActor) (now : ℕ) (l : RalphLoopState) (p : RalphPhase)
      → a.ralph_loop ≡ some l
      → Conserves r a (dispatch_loop w a now l p)
  unfolding dispatch_loop
  dispatch_loop-Conserves w a now l running e = start_ralph_turn-Conserves w a now l.prompt
  dispatch_loop-Conserves w a now l waiting_retry e = elim (Bool-cases (due l.retry_after now)) [
    | inl d ↦
        rw (d, dispatch_loop)
          (Conserves-trans r a _ _ (ground arith) (start_ralph_turn-Conserves w _ now l.prompt))
    | inr d ↦ rw (d, dispatch_loop) (dispatch_internal-Conserves w a now a.queued_internal)
  ]
  dispatch_loop-Conserves w a now l cancel_pending e =
      dispatch_internal-Conserves w a now a.queued_internal
  dispatch_loop-Conserves w a now l (paused_by_user was) e =
      dispatch_internal-Conserves w a now a.queued_internal

  dispatch_ralph-Conserves :
      (w : Wire) (a : SessionActor) (now : ℕ) (l : Option RalphLoopState)
      → a.ralph_loop ≡ l
      → Conserves r a (dispatch_ralph w a now l)
  unfolding dispatch_ralph
  dispatch_ralph-Conserves w a now none e = dispatch_internal-Conserves w a now a.queued_internal
  dispatch_ralph-Conserves w a now (some l) e = dispatch_loop-Conserves w a now l l.phase e

  alive-pause_loop : (l : Option RalphLoopState) → alive (pause_loop l) ≡ alive l
  alive-pause_loop none = refl
  alive-pause_loop (some l) = refl

  dispatch_user-Conserves :
      (w : Wire) (a : SessionActor) (now : ℕ) (ts : List UserTurnTicket)
      → a.queued_user ≡ ts
      → Conserves r a (dispatch_user w a now ts)
  unfolding dispatch_user
  dispatch_user-Conserves w a now [] e = dispatch_ralph-Conserves w a now a.ralph_loop refl
  dispatch_user-Conserves w a now (t ∷ ts) e =
      Conserves-trans r a _ _ (ground (arith, alive-pause_loop a.ralph_loop)) (
        start_user_turn-answers w
          (record a { queued_user = ts; ralph_loop = pause_loop a.ralph_loop }) now t)

  dispatch_barrier-Conserves :
      (w : Wire) (a : SessionActor) (now : ℕ) (job : Option (InternalJob × List InternalJob))
      → Conserves r a (dispatch_barrier w a now job)
  unfolding dispatch_barrier
  dispatch_barrier-Conserves w a now none = dispatch_ralph-Conserves w a now a.ralph_loop refl
  dispatch_barrier-Conserves w a now (some (j, js)) =
      Conserves-trans r a _ _ (omega arith) (start_internal_turn-Conserves w _ now j)

  dispatch_next-Conserves :
      (w : Wire) (a : SessionActor) (now : ℕ) (barrier : Option ℕ)
      → Conserves r a (dispatch_next w a now barrier)
  unfolding dispatch_next
  dispatch_next-Conserves w a now none = dispatch_user-Conserves w a now a.queued_user refl
  dispatch_next-Conserves w a now (some turn) =
      dispatch_barrier-Conserves w a now (take_job turn a.queued_internal)

  pub try_dispatch-Conserves :
      (w : Wire) (a : SessionActor) (now : ℕ) → Conserves r a (try_dispatch w a now)
  unfolding try_dispatch
  try_dispatch-Conserves w a now =
      ground (arith, dispatch_next-Conserves w a now a.must_run_internal_for_turn)
