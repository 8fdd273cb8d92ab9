-- ===== src/Session/Timeout/Keeps.antt =====
-- The clock keeps the invariant and loses no reply.
use open_covibe_web.Common.{ℕ, String, Bool, true, false, Option, none, some, [], ◌≡◌, refl, arith}
use open_covibe_web.Session.Turn.{ActiveTurn}
use open_covibe_web.Session.Ralph.{RalphLoopState}
use open_covibe_web.Session.Actor.{SessionActor, Wire, set_pending_slash_command, emit_state}
use open_covibe_web.Session.Frame.{emit_state-Frame, send_interrupt_to_cli-Frame}
use open_covibe_web.Session.Safe.{
  Safe, Safe-trans, Safe-refl, Frame-Safe, fail_all-Safe, drop_turn-Inv,
}
use open_covibe_web.Session.Timeout.{
  fail_all_pending_replies, timeout_message, kill_child, quarantine_kill, quarantine_tick,
  enter_quarantine, idle_tick, turn_tick, on_tick_timeout,
}

pub fail_all_queue :
    (a : SessionActor) (reason : String) → (fail_all_pending_replies a reason).queued_user ≡ []
unfolding fail_all_pending_replies
fail_all_queue a reason = refl

module _ (r : ℕ) where
  pub kill_child-Safe : (a : SessionActor) → Safe r a (kill_child a)
  kill_child-Safe a = Frame-Safe r a _ (ground arith)

  quarantine_kill-Safe :
      (w : Wire) (a : SessionActor) (now : ℕ) → Safe r a (quarantine_kill w a now)
  unfolding quarantine_kill
  quarantine_kill-Safe w a now =
      let b = set_pending_slash_command a none in
      let failed =
        emit_state (kill_child b) now "failed" none (some (timeout_message w a now)) true in
      let over = fail_all_pending_replies failed "Session hard timeout" in
      Safe-trans r a b _ (record { inv = λ v. ground arith; conserves = omega arith })
        (Safe-trans r b (kill_child b) _ (kill_child-Safe b) (
          Safe-trans r _ failed _ (Frame-Safe r _ _ (emit_state-Frame _ now "failed" none _ true)) (
            Safe-trans r failed over _ (fail_all-Safe r failed "Session hard timeout") (record {
              inv = λ v. ground (arith, fail_all_queue failed "Session hard timeout");
              conserves = omega arith;
            }))))

  quarantine_tick-Safe :
      (w : Wire) (a : SessionActor) (now : ℕ) (id : String) → Safe r a (quarantine_tick w a now id)
  unfolding quarantine_tick
  quarantine_tick-Safe w a now id =
      let sent = Frame-Safe r a _ (send_interrupt_to_cli-Frame a id) in
      let killed = quarantine_kill-Safe w a now in
      record {
        inv = λ v. ground (arith, killed.inv v, sent.inv v);
        conserves = ground (arith, killed.conserves, sent.conserves);
      }

  enter_quarantine-Safe : (a : SessionActor) (b : Bool) → Safe r a (enter_quarantine a b)
  unfolding enter_quarantine
  enter_quarantine-Safe a b = record {
    inv = λ v. ground (arith, drop_turn-Inv a v);
    conserves = omega arith;
  }

  idle_tick-Safe :
      (a : SessionActor) (now : ℕ) (l : Option RalphLoopState) → Safe r a (idle_tick a now l)
  unfolding idle_tick
  idle_tick-Safe a now none = Safe-refl r a
  idle_tick-Safe a now (some l) = record { inv = λ v. ground arith; conserves = ground arith }

  turn_tick-Safe :
      (a : SessionActor) (now : ℕ) (t : ActiveTurn)
      → a.active_turn ≡ some t
      → Safe r a (turn_tick a now t)
  unfolding turn_tick
  turn_tick-Safe a now t e = record {
    inv = λ v. ground (arith, (enter_quarantine-Safe a false).inv v);
    conserves = ground (
      arith,
      (enter_quarantine-Safe a false).conserves,
      (enter_quarantine-Safe (record a { active_extractor = none }) true).conserves,
    );
  }

  active_tick-Safe :
      (a : SessionActor) (now : ℕ) (o : Option ActiveTurn)
      → a.active_turn ≡ o
      → Safe r a (elim o [ none ↦ idle_tick a now a.ralph_loop | some t ↦ turn_tick a now t ])
  active_tick-Safe a now none e = idle_tick-Safe a now a.ralph_loop
  active_tick-Safe a now (some t) e = turn_tick-Safe a now t e

  pub on_tick_timeout-Safe :
      (w : Wire) (a : SessionActor) (now : ℕ) (id : String) → Safe r a (on_tick_timeout w a now id)
  unfolding on_tick_timeout
  on_tick_timeout-Safe w a now id =
      let frozen = quarantine_tick-Safe w a now id in
      let ticked = active_tick-Safe a now a.active_turn refl in
      record {
        inv = λ v. ground (arith, frozen.inv v, ticked.inv v);
        conserves = ground (arith, frozen.conserves, ticked.conserves);
      }
