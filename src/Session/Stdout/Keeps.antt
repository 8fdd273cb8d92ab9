-- ===== src/Session/Stdout/Keeps.antt =====
-- A line of the child's stdout keeps the invariant and answers no caller of a user message.
use open_covibe_web.Common.{
  ◌||◌, ◌&&◌, ℕ, String, Bool, false, Option, none, List, [], ◌∷◌, arith, if◌then◌else◌, some,
  str_eq, is_some,
}
use open_covibe_web.Session.Actor.{
  SessionActor, Wire, emit_state, persist_idle_running, set_pending_slash_command, relay,
}
use open_covibe_web.Session.Safe.{Safe, Safe-trans, Safe-refl, if-Safe, Frame-Safe}
use open_covibe_web.Session.Stdout.{
  lift_quarantine, quarantine_events, count_invalid, is_boundary, is_valid_event, touch, save_error,
  report, finish_turn, on_user_turn_finished, ralph_on_turn_end, user_run_state, user_event, close,
  acknowledge,
}
use open_covibe_web.Models.{BusEvent, run_state, session_init, usage_update}
use open_covibe_web.Session.Safe.{try_dispatch-Safe}
use open_covibe_web.Session.Frame.{emit_state-Frame, persist_idle_running-Frame}
use open_covibe_web.Session.Turn.{apply_activity_reset, ActiveTurn}
use open_covibe_web.Models.{ℤ, RunStatus}
use open_covibe_web.Session.Finish.Keeps.{on_user_turn_finished-Safe, ralph_on_turn_end-Safe}
use open_covibe_web.Session.Safe.{drop_turn-Inv}

module _ (r : ℕ) where
  lift_quarantine-Safe : (a : SessionActor) → Safe r a (lift_quarantine a)
  unfolding lift_quarantine
  lift_quarantine-Safe a = record { inv = λ v. ground arith; conserves = omega arith }

  pub count_invalid-Safe : (a : SessionActor) → Safe r a (count_invalid a)
  count_invalid-Safe a = Frame-Safe r a _ (ground arith)

  pub touch-Safe : (a : SessionActor) (now : ℕ) → Safe r a (touch a now)
  unfolding apply_activity_reset
  touch-Safe a now = record { inv = λ v. ground arith; conserves = ground arith }

  pub quarantine_events-Safe :
      (w : Wire) (a : SessionActor) (now : ℕ) (evs : List BusEvent)
      → Safe r a (quarantine_events w a now evs)
  unfolding quarantine_events
  quarantine_events-Safe w a now [] = Safe-refl r a
  quarantine_events-Safe w a now (run_state s c e ∷ evs) =
      if-Safe r (is_boundary s) a _ _
        (Safe-trans r a _ _ (lift_quarantine-Safe a)
          (try_dispatch-Safe r w (lift_quarantine a) now))
        (quarantine_events-Safe w a now evs)
  quarantine_events-Safe w a now (ev ∷ evs) =
      Safe-trans r a _ _
        (if-Safe r (is_valid_event ev) a _ _ (Safe-refl r a) (count_invalid-Safe a))
        (quarantine_events-Safe w (if is_valid_event ev then a else count_invalid a) now evs)

  save_error-Safe : (a : SessionActor) (error : Option String) → Safe r a (save_error a error)
  save_error-Safe a error = Frame-Safe r a _ (ground arith)

  finish_turn-Safe :
      (w : Wire) (a : SessionActor) (now : ℕ) (turn : ActiveTurn) (bad : Bool)
      → Safe r a (finish_turn w a now turn bad)
  unfolding finish_turn
  finish_turn-Safe w a now turn bad =
      let freed = record a { active_turn = none } in
      let over = on_user_turn_finished freed turn.origin in
      let ready = set_pending_slash_command (record over { active_extractor = none }) none in
      let ended = ralph_on_turn_end ready now turn.origin bad in
      Safe-trans r a freed _ (record { inv = drop_turn-Inv a; conserves = omega arith })
        (Safe-trans r freed over _ (on_user_turn_finished-Safe r freed turn.origin) (
          Safe-trans r over ready _ (record { inv = λ v. ground arith; conserves = omega arith })
            (Safe-trans r ready ended _ (ralph_on_turn_end-Safe r ready now turn.origin bad)
              (try_dispatch-Safe r w ended now))))

  report-Safe :
      (a : SessionActor) (now : ℕ) (s : String) (code : Option ℤ) (error : Option String)
      → Safe r a (report a now s code error)
  unfolding report
  report-Safe a now s code error =
      let shown = emit_state a now s code error false in
      let idled = persist_idle_running shown now RunStatus.idle in
      let first = Frame-Safe r a shown (emit_state-Frame a now s code error false) in
      let second = Frame-Safe r shown idled (persist_idle_running-Frame shown now RunStatus.idle) in
      Safe-trans r a shown _ first (
        if-Safe r _ shown _ _
          (Safe-trans r shown idled _ second
            (if-Safe r _ idled _ _ (save_error-Safe idled error) (Safe-refl r idled)))
          (if-Safe r _ shown _ _ (save_error-Safe shown error) (Safe-refl r shown)))

  closed-Safe :
      (w : Wire) (a : SessionActor) (now : ℕ) (bad : Bool) (o : Option ActiveTurn)
      → Safe r a (elim o [ none ↦ a | some turn ↦ finish_turn w a now turn bad ])
  closed-Safe w a now bad none = Safe-refl r a
  closed-Safe w a now bad (some turn) = finish_turn-Safe w a now turn bad

  close-Safe :
      (w : Wire) (a : SessionActor) (now : ℕ) (s : String) (error : Option String)
      → Safe r a (close w a now s error)
  close-Safe w a now s error =
      if-Safe r (is_boundary s) a _ _
        (closed-Safe w a now (str_eq s "failed" || is_some error) a.active_turn) (Safe-refl r a)

  user_run_state-Safe :
      (w : Wire) (a : SessionActor) (now : ℕ) (s : String) (code : Option ℤ) (error : Option String)
      → Safe r a (user_run_state w a now s code error)
  unfolding user_run_state
  user_run_state-Safe w a now s code error =
      let b = acknowledge a in
      if-Safe r (a.pending_interrupt && is_boundary s) a _ _
        (Safe-trans r a b _ (Frame-Safe r a b (ground arith)) (
          Safe-trans r b _ _ (report-Safe b now "idle" code none)
            (close-Safe w (report b now "idle" code none) now "idle" none)))
        (Safe-trans r a _ _ (report-Safe a now s code error)
          (close-Safe w (report a now s code error) now s error))

  pub shown-Safe : (a : SessionActor) (ev : BusEvent) → Safe r a (relay a ev)
  shown-Safe a ev = Frame-Safe r a _ (ground arith)

  pub user_event-Safe :
      (w : Wire) (a : SessionActor) (now : ℕ) (ev : BusEvent) → Safe r a (user_event w a now ev)
  unfolding user_event
  user_event-Safe w a now (run_state s code error) = user_run_state-Safe w a now s code error
  user_event-Safe w a now (session_init (some sid) p) = Frame-Safe r a _ (ground arith)
  user_event-Safe w a now (usage_update index p) = Frame-Safe r a _ (ground arith)
  user_event-Safe w a now ev = shown-Safe a ev
