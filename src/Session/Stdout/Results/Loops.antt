-- ===== src/Session/Stdout/Results/Loops.antt =====
-- src-tauri/src/agent/session_actor.rs: the result line that ends a turn of a Ralph loop.
use open_covibe_web.Common.{
  ◌+◌, ℕ, String, Bool, true, false, Option, none, some, [], ◌∷◌, ◌≡◌, refl, arith, ap, sym, subst,
  ◌∙◌, is_some,
}
use open_covibe_web.Models.{ℤ, RunStatus, run_state}
use open_covibe_web.Models.Json.{Json, get_str}
use open_covibe_web.Claude.Result.{map_result}
use open_covibe_web.Session.Turn.{ralph, ActiveTurn, apply_activity_reset, user_hard_timeout}
use open_covibe_web.Session.Ralph.{
  RalphLoopState, turn_end, natural_reason, is_cancel_pending, cancel_pending,
}
use open_covibe_web.Session.Actor.{
  SessionActor, Wire, set_pending_slash_command, emit_state, note, cancel_replied,
}
use open_covibe_web.Session.Frame.{Frame, emit_state-Frame, persist_idle_running-Frame}
use open_covibe_web.Session.Dispatch.{emit_ralph_complete, try_dispatch}
use open_covibe_web.Session.Dispatch.Alone.{try_dispatch-alone}
use open_covibe_web.Session.Finish.{
  on_user_turn_finished, ralph_on_turn_end, loop_turn_end, run_action,
}
use open_covibe_web.Session.Loop.{handle_cancel_ralph}
use open_covibe_web.Session.Stdout.{
  touch, handle_events, handle_event, user_event, user_run_state, handle_parsed, is_valid_event,
  is_internal_turn, report, close, finish_turn, acknowledge,
}
use open_covibe_web.Session.Stdout.Results.{handle_parsed-events}
use open_covibe_web.Session.Stdout.Results.Relayed.{
  before_idle, before_idle-passes, error_of, handle_events-append, handle_events-passes,
}

-- The actor whose turn the result line is about to end.
abbrev pub at_result : Wire → SessionActor → ℕ → Json → SessionActor
at_result w a now line =
    let b = touch a now in
    let dollars = w.outside.dollars in
    let c = record b { protocol = (map_result dollars b.protocol line).0 } in
    record c { log = (handle_events w c now (before_idle dollars b.protocol line)).log }

touch-is_internal_turn :
    (a : SessionActor) (now : ℕ)
    → is_internal_turn a ≡ false
    → is_internal_turn (touch a now) ≡ false
unfolding apply_activity_reset
touch-is_internal_turn a now h = ground arith

run_state-user :
    (w : Wire) (a : SessionActor) (now : ℕ) (error : Option String)
    → is_internal_turn a ≡ false
    → handle_events w a now (run_state "idle" none error ∷ [])
      ≡ user_run_state w a now "idle" none error
unfolding handle_events handle_event user_event is_valid_event
run_state-user w a now error h = ground arith

-- A result line in a turn that is not internal.
pub handle_parsed-user :
    (w : Wire) (a : SessionActor) (now : ℕ) (line : Json)
    → a.quarantine_until_result ≡ false
    → is_internal_turn a ≡ false
    → get_str "type" line ≡ some "result"
    → handle_parsed w a now line
      ≡ user_run_state w (at_result w a now line) now "idle" none (error_of line)
handle_parsed-user w a now line q h e =
    let b = touch a now in
    let dollars = w.outside.dollars in
    let c = record b { protocol = (map_result dollars b.protocol line).0 } in
    let es = before_idle dollars b.protocol line in
    let i = touch-is_internal_turn a now h in
    handle_parsed-events w a now line q e
    ∙ (handle_events-append w c now es (run_state "idle" none (error_of line) ∷ [])
        ∙ (ap (λ d. handle_events w d now (run_state "idle" none (error_of line) ∷ []))
              (handle_events-passes w c now es i (before_idle-passes dollars b.protocol line))
            ∙ run_state-user w (at_result w a now line) now (error_of line) i))

pub report-Frame :
    (a : SessionActor) (now : ℕ) (s : String) (code : Option ℤ) (error : Option String)
    → Frame a (report a now s code error)
unfolding report
report-Frame a now s code error =
    let b = emit_state a now s code error false in
    ground (
      arith,
      emit_state-Frame a now s code error false,
      persist_idle_running-Frame b now RunStatus.idle,
    )

-- The actor between a Ralph turn and the next dispatch.
abbrev pub after_ralph : SessionActor → ℕ → Bool → SessionActor
after_ralph a now bad =
    ralph_on_turn_end
      (set_pending_slash_command (record a { active_turn = none; active_extractor = none }) none)
      now ralph bad

pub finish_turn-ralph :
    (w : Wire) (a : SessionActor) (now : ℕ) (turn : ActiveTurn) (bad : Bool)
    → turn.origin ≡ ralph
    → finish_turn w a now turn bad ≡ try_dispatch w (after_ralph a now bad) now
unfolding finish_turn on_user_turn_finished
finish_turn-ralph w a now turn bad o = rw o refl

cancelled-ends :
    (a : SessionActor) (r : RalphLoopState) (now : ℕ) (bad : Bool)
    → a.ralph_loop ≡ some r
    → is_cancel_pending r.phase ≡ true
    → (after_ralph a now bad).ralph_loop ≡ none
unfolding ralph_on_turn_end loop_turn_end turn_end natural_reason run_action emit_ralph_complete
cancelled-ends a r now bad e h = ground arith

close-cancelled :
    (w : Wire) (a : SessionActor) (r : RalphLoopState) (turn : ActiveTurn) (now : ℕ)
    (error : Option String)
    → a.active_turn ≡ some turn
    → turn.origin ≡ ralph
    → a.ralph_loop ≡ some r
    → is_cancel_pending r.phase ≡ true
    → (close w a now "idle" error).ralph_loop ≡ none
close-cancelled w a r turn now error e o l h =
    rw (e, finish_turn-ralph w a now turn (is_some error) o)
      (try_dispatch-alone w (after_ralph a now (is_some error)) now
        (cancelled-ends a r now (is_some error) l h))

user_run_state-cancelled :
    (w : Wire) (a : SessionActor) (r : RalphLoopState) (turn : ActiveTurn) (now : ℕ)
    (error : Option String)
    → a.active_turn ≡ some turn
    → turn.origin ≡ ralph
    → a.ralph_loop ≡ some r
    → is_cancel_pending r.phase ≡ true
    → (user_run_state w a now "idle" none error).ralph_loop ≡ none
unfolding user_run_state
user_run_state-cancelled w a r turn now error e o l h =
    let b = acknowledge a in
    let f = report-Frame a now "idle" none error in
    let g = report-Frame b now "idle" none none in
    ground (
      arith,
      close-cancelled w (report b now "idle" none none) r turn now none (g.active_turn ∙ e) o
          (g.ralph_loop ∙ l) h,
      close-cancelled w (report a now "idle" none error) r turn now error (f.active_turn ∙ e) o
          (f.ralph_loop ∙ l) h,
    )

-- If a Ralph loop of a Claude session outside quarantine is cancelled during a Ralph turn, then the
-- CLI's next result line ends the loop, whether the turn has failed, has gone well or was
-- interrupted, and whatever waits in the queues.
pub handle_cancel_ralph-handle_parsed :
    (w : Wire) (a : SessionActor) (r : RalphLoopState) (turn : ActiveTurn) (reply now : ℕ)
    (line : Json)
    → a.quarantine_until_result ≡ false
    → a.active_turn ≡ some turn
    → turn.origin ≡ ralph
    → a.ralph_loop ≡ some r
    → get_str "type" line ≡ some "result"
    → (handle_parsed w (handle_cancel_ralph a reply) now line).ralph_loop ≡ none
unfolding handle_cancel_ralph apply_activity_reset
handle_cancel_ralph-handle_parsed w a r turn reply now line q e o l t =
    let c = record r { phase = cancel_pending } in
    let b = note (record a { ralph_loop = some c }) (cancel_replied reply r.iteration false) in
    let kept : ActiveTurn = record turn { hard_deadline = now + user_hard_timeout } in
    subst (λ d. (handle_parsed w d now line).ralph_loop ≡ none) (sym (ground arith))
      (subst (λ d. d.ralph_loop ≡ none) (sym (handle_parsed-user w b now line q (ground arith) t))
        (user_run_state-cancelled w (at_result w b now line) c kept now (error_of line)
          (ground arith) o refl refl))
