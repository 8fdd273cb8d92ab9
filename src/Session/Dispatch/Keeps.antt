-- ===== src/Session/Dispatch/Keeps.antt =====
-- Dispatch keeps the invariant.
use open_covibe_web.Common.{
  refl, subst, ◌+◌, ℕ, suc, String, false, none, ◌≡◌, arith, inl, inr, Option, [], some, List,
  Bool-cases, ◌∷◌,
}
use open_covibe_web.Models.{RunStatus, user_message}
use open_covibe_web.Session.Turn.{UserTurnTicket}
use open_covibe_web.Session.Ralph.{
  RalphLoopState, RalphPhase, running, waiting_retry, cancel_pending, paused_by_user,
}
use open_covibe_web.Session.Actor.{
  SessionActor, Wire, persist_and_emit, set_pending_slash_command, write_user_to_stdin,
}
use open_covibe_web.Session.Frame.{
  Frame, Frame-trans, emit_state-Frame, persist_idle_running-Frame, write_user_to_stdin-Frame,
  Reply-cases,
}
use open_covibe_web.Session.Invariant.{Inv, Ascending, LoopsOk, LoopOk, floor, Ascending-mono}
use open_covibe_web.Session.Dispatch.{
  announce, start_user_turn, pending_slash, ralph_write_failed, start_ralph_turn, RalphLoopState,
  emit_ralph_complete, pause_loop, cleared, dispatch_user, dispatch_loop, dispatch_internal,
  dispatch_ralph, try_dispatch, dispatch_next, RalphPhase, due, paused_by_user, InternalJob,
}

pub announce-Frame : (a : SessionActor) (now : ℕ) (text : String) → Frame a (announce a now text)
unfolding announce
announce-Frame a now text =
    let b = persist_and_emit a (user_message text) in
    Frame-trans a _ _ (ground arith) (
      Frame-trans b _ _ (emit_state-Frame b now "running" none none false)
        (persist_idle_running-Frame _ now RunStatus.running))

start_user_turn-Inv :
    (w : Wire) (a : SessionActor) (now : ℕ) (t : UserTurnTicket)
    → Inv a
    → a.active_turn ≡ none
    → a.quarantine_until_result ≡ false
    → Ascending (suc t.turn_index) a.next_turn_index a.queued_user
    → Inv (start_user_turn w a now t)
unfolding start_user_turn
start_user_turn-Inv w a now t v idle free next =
    let b = set_pending_slash_command a (pending_slash t.kind) in
    let written = write_user_to_stdin w b t.text t.attachments t.skills in
    let f = write_user_to_stdin-Frame w b t.text t.attachments t.skills in
    elim (Reply-cases (written.1)) [
      | inl e ↦ rw (e, start_user_turn) (ground (arith, f, announce-Frame (written.0) now t.text))
      | inr (m, e) ↦ rw (e, start_user_turn) (ground (arith, f))
    ]

pause-LoopsOk : (l : Option RalphLoopState) → LoopsOk l → LoopsOk (pause_loop l)
pause-LoopsOk none h = tt
pause-LoopsOk (some r) h = ground arith

cleared-LoopsOk : (l : Option RalphLoopState) → LoopsOk l → LoopsOk (cleared l)
cleared-LoopsOk none h = tt
cleared-LoopsOk (some r) h = ground arith

ralph_write_failed-Inv :
    (a : SessionActor) (now : ℕ) (l : Option RalphLoopState)
    → Inv a
    → LoopsOk l
    → Inv (ralph_write_failed a now l)
unfolding ralph_write_failed emit_ralph_complete
ralph_write_failed-Inv a now none v h = v
ralph_write_failed-Inv a now (some r) v h = ground arith

start_ralph_turn-Inv :
    (w : Wire) (a : SessionActor) (now : ℕ) (prompt : String)
    → Inv a
    → a.active_turn ≡ none
    → a.quarantine_until_result ≡ false
    → a.queued_user ≡ []
    → Inv (start_ralph_turn w a now prompt)
unfolding start_ralph_turn
start_ralph_turn-Inv w a now prompt v idle free empty =
    let b = record a {
      next_turn_index = a.next_turn_index + 1;
      next_turn_seq = a.next_turn_seq + 1;
      ralph_loop = cleared a.ralph_loop;
    } in
    let written = write_user_to_stdin w b prompt [] [] in
    let f = write_user_to_stdin-Frame w b prompt [] [] in
    let ok_b = cleared-LoopsOk a.ralph_loop v.loop in
    let kept : Inv (written.0) = ground (arith, f, ok_b) in
    elim (Reply-cases (written.1)) [
      | inl e ↦
          rw (e, start_ralph_turn) (ground (arith, f, ok_b, announce-Frame (written.0) now prompt))
      | inr (m, e) ↦
          rw (e, start_ralph_turn)
            (ralph_write_failed-Inv (written.0) now (written.0).ralph_loop kept kept.loop)
    ]

dispatch_internal-Inv :
    (w : Wire) (a : SessionActor) (now : ℕ) (js : List InternalJob)
    → js ≡ []
    → Inv a
    → Inv (dispatch_internal w a now js)
unfolding dispatch_internal
dispatch_internal-Inv w a now [] e v = v
dispatch_internal-Inv w a now (j ∷ js) e v = cc

dispatch_loop-Inv :
    (w : Wire) (a : SessionActor) (now : ℕ) (r : RalphLoopState) (p : RalphPhase)
    → Inv a
    → a.active_turn ≡ none
    → a.quarantine_until_result ≡ false
    → a.queued_user ≡ []
    → LoopOk r
    → Inv (dispatch_loop w a now r p)
unfolding dispatch_loop
dispatch_loop-Inv w a now r running v idle free empty ok_r =
    start_ralph_turn-Inv w a now r.prompt v idle free empty
dispatch_loop-Inv w a now r waiting_retry v idle free empty ok_r =
    elim (Bool-cases (due r.retry_after now)) [
      | inl e ↦
          rw (e, dispatch_loop)
            (start_ralph_turn-Inv w _ now r.prompt (ground arith) idle free empty)
      | inr e ↦ rw (e, dispatch_loop) (dispatch_internal-Inv w a now a.queued_internal v.no_jobs v)
    ]
dispatch_loop-Inv w a now r cancel_pending v idle free empty ok_r =
    dispatch_internal-Inv w a now a.queued_internal v.no_jobs v
dispatch_loop-Inv w a now r (paused_by_user was) v idle free empty ok_r =
    dispatch_internal-Inv w a now a.queued_internal v.no_jobs v

dispatch_ralph-Inv :
    (w : Wire) (a : SessionActor) (now : ℕ) (l : Option RalphLoopState)
    → Inv a
    → a.active_turn ≡ none
    → a.quarantine_until_result ≡ false
    → a.queued_user ≡ []
    → LoopsOk l
    → Inv (dispatch_ralph w a now l)
unfolding dispatch_ralph
dispatch_ralph-Inv w a now none v idle free empty h =
    dispatch_internal-Inv w a now a.queued_internal v.no_jobs v
dispatch_ralph-Inv w a now (some r) v idle free empty h =
    dispatch_loop-Inv w a now r r.phase v idle free empty h

dispatch_user-Inv :
    (w : Wire) (a : SessionActor) (now : ℕ) (ts : List UserTurnTicket)
    → Inv a
    → a.active_turn ≡ none
    → a.quarantine_until_result ≡ false
    → a.queued_user ≡ ts
    → Inv (dispatch_user w a now ts)
unfolding dispatch_user
dispatch_user-Inv w a now [] v idle free e =
    dispatch_ralph-Inv w a now a.ralph_loop v idle free e v.loop
dispatch_user-Inv w a now (t ∷ ts) v idle free e =
    let open_order : Ascending 0 a.next_turn_index (t ∷ ts) =
      subst (λ x. Ascending (floor x) a.next_turn_index (t ∷ ts)) idle
        (subst (Ascending (floor a.active_turn) a.next_turn_index) e v.order) in
    let shorter =
      Ascending-mono 0 (suc t.turn_index) a.next_turn_index ts (omega arith) open_order.1 in
    let paused = pause-LoopsOk a.ralph_loop v.loop in
    start_user_turn-Inv w _ now t (ground (arith, shorter, paused)) idle free open_order.1

dispatch_next-Inv :
    (w : Wire) (a : SessionActor) (now : ℕ) (barrier : Option ℕ)
    → barrier ≡ none
    → Inv a
    → a.active_turn ≡ none
    → a.quarantine_until_result ≡ false
    → Inv (dispatch_next w a now barrier)
unfolding dispatch_next
dispatch_next-Inv w a now none e v idle free =
    dispatch_user-Inv w a now a.queued_user v idle free refl
dispatch_next-Inv w a now (some turn) e v idle free = cc

-- Whatever is dispatched, the invariant holds afterwards.
pub try_dispatch-Inv : (w : Wire) (a : SessionActor) (now : ℕ) → Inv a → Inv (try_dispatch w a now)
unfolding try_dispatch
try_dispatch-Inv w a now v =
    ground (arith, dispatch_next-Inv w a now a.must_run_internal_for_turn v.no_barrier v)
