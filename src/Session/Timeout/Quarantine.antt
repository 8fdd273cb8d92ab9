-- ===== src/Session/Timeout/Quarantine.antt =====
-- src-tauri/src/agent/session_actor.rs: the course of a turn that hangs.
use open_covibe_web.Common.{
  ◌∷◌, refl, ℕ, ◌+◌, ◌≤◌, ◌<◌, String, true, false, none, some, ◌≡◌, arith, [],
}
use open_covibe_web.Session.Turn.{ActiveTurn, is_internal}
use open_covibe_web.Session.Actor.{
  json, interrupt_request, wrote, Pipe, write_line, set_pending_slash_command, SessionActor, Wire,
  send_interrupt_to_cli,
}
use open_covibe_web.Session.Frame.{emit_state-Frame, send_interrupt_to_cli-Frame}
use open_covibe_web.Session.Timeout.{
  kill_child, timeout_message, on_tick_timeout, turn_tick, enter_quarantine, quarantine_tick,
  quarantine_kill, fail_all_pending_replies,
}

-- A user or Ralph turn past its hard deadline, of an actor outside quarantine, is dropped by the tick
-- at `t0`, and the tick at `t1` writes an interrupt request to the CLI, if the pipe takes the
-- write; a tick less than ten seconds after that changes nothing.
pub on_tick_timeout-waits :
    (w : Wire) (a : SessionActor) (t : ActiveTurn) (pipe : Pipe) (t0 t1 t2 : ℕ)
    (id id' id'' : String)
    → a.active_turn ≡ some t
    → is_internal t.origin ≡ false
    → a.quarantine_until_result ≡ false
    → a.stdin ≡ some pipe
    → pipe.write_error pipe.writes ≡ none
    → t.hard_deadline ≤ t0
    → t2 < t1 + 10000
    → let b = on_tick_timeout w (on_tick_timeout w a t0 id) t1 id' in
      (b.active_turn ≡ none)
      × (b.quarantine_until_result ≡ true)
      × (b.log ≡ wrote (json (interrupt_request id')) ∷ a.log)
      × (on_tick_timeout w b t2 id'' ≡ b)
unfolding on_tick_timeout turn_tick enter_quarantine quarantine_tick send_interrupt_to_cli
    write_line
on_tick_timeout-waits w a t pipe t0 t1 t2 id id' id'' e o q s x h k =
    let c = enter_quarantine a false in ground (arith, send_interrupt_to_cli-Frame c id')

kill_turn :
    (w : Wire) (a : SessionActor) (now : ℕ) → (quarantine_kill w a now).active_turn ≡ a.active_turn
unfolding quarantine_kill fail_all_pending_replies
kill_turn w a now =
    let b = kill_child (set_pending_slash_command a none) in
    ground (arith, emit_state-Frame b now "failed" none (some (timeout_message w a now)) true)

kill_queue :
    (w : Wire) (a : SessionActor) (now : ℕ)
    → ((quarantine_kill w a now).queued_user ≡ []) × ((quarantine_kill w a now).terminated ≡ true)
unfolding quarantine_kill fail_all_pending_replies
kill_queue w a now = (refl, refl)

-- Of three ticks in a row on an actor outside quarantine with a user or Ralph turn past its hard
-- deadline, the third one at least ten seconds after the second, the last one leaves the actor
-- terminated: no turn is active and no ticket waits.
pub on_tick_timeout-kills :
    (w : Wire) (a : SessionActor) (t : ActiveTurn) (t0 t1 t2 : ℕ) (id id' id'' : String)
    → a.active_turn ≡ some t
    → is_internal t.origin ≡ false
    → a.quarantine_until_result ≡ false
    → t.hard_deadline ≤ t0
    → t1 + 10000 ≤ t2
    → let b = on_tick_timeout w (on_tick_timeout w (on_tick_timeout w a t0 id) t1 id') t2 id'' in
      (b.terminated ≡ true) × (b.queued_user ≡ []) × (b.active_turn ≡ none)
unfolding on_tick_timeout turn_tick enter_quarantine quarantine_tick
on_tick_timeout-kills w a t t0 t1 t2 id id' id'' e o q h k =
    let c = enter_quarantine a false in
    let d = record (send_interrupt_to_cli c id') {
      interrupt_sent_for_quarantine = true;
      quarantine_deadline = some (t1 + 10000);
    } in
    ground (arith, send_interrupt_to_cli-Frame c id', kill_turn w d t2, kill_queue w d t2)
