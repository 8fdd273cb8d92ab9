-- ===== src/Session/Finish/Keeps.antt =====
-- The end of a turn keeps the invariant, and what a Ralph loop does then is one of five actions.
use open_covibe_web.Common.{
  subst, ℕ, ◌<◌, Bool, true, false, Option, none, some, ◌≡◌, refl, arith, ◌⊎◌,
}
use open_covibe_web.Session.Turn.{TurnOrigin, user, internal, ralph, normal, slash}
use open_covibe_web.Session.Ralph.{
  RalphLoopState, waiting_retry, RalphAction, complete, emit_iteration, set_waiting_retry,
  resume_from, noop, natural_reason, turn_end, count_iteration,
}
use open_covibe_web.Session.Actor.{SessionActor, Wire, set_pending_slash_command}
use open_covibe_web.Session.Invariant.{Inv, LoopOk, LoopsOk}
use open_covibe_web.Session.Ledger.{Conserves}
use open_covibe_web.Session.Safe.{Safe, Safe-trans, Safe-refl, drop_turn-Inv, try_dispatch-Safe}
use open_covibe_web.Session.Dispatch.{emit_ralph_complete}
use open_covibe_web.Session.Finish.{
  end_turn_and_dispatch, on_user_turn_finished, run_action, loop_turn_end, ralph_on_turn_end,
}

-- The loop that an action leaves behind is sound.
abbrev pub ActionOk : RalphLoopState → RalphAction → Type 0
ActionOk r (complete reason) = Unit {0}
ActionOk r (emit_iteration i max) = LoopOk r
ActionOk r (set_waiting_retry backoff) =
    LoopOk (record r { phase = waiting_retry; retry_after = some backoff })
ActionOk r (resume_from phase) = LoopOk (record r { phase = phase })
ActionOk r noop = LoopOk r

natural_reason-bound :
    (r : RalphLoopState)
    → natural_reason r ≡ none
    → (r.max_iterations ≡ 0) ⊎ (r.iteration < r.max_iterations)
unfolding natural_reason
natural_reason-bound r h = ground arith

pub turn_end-ActionOk :
    (r : RalphLoopState) (origin : TurnOrigin) (failed : Bool)
    → LoopOk r
    → ActionOk (turn_end r origin failed).0 (turn_end r origin failed).1
unfolding turn_end
turn_end-ActionOk r ralph true h = ground arith
turn_end-ActionOk r ralph false h = ground (arith, natural_reason-bound (count_iteration r))
turn_end-ActionOk r (user k) failed h = ground arith
turn_end-ActionOk r (internal k) failed h = h

run_action-Inv :
    (a : SessionActor) (now : ℕ) (r : RalphLoopState) (act : RalphAction)
    → Inv a
    → ActionOk r act
    → Inv (run_action a now (r, act))
unfolding run_action emit_ralph_complete
run_action-Inv a now r (complete reason) v h = ground arith
run_action-Inv a now r (emit_iteration i max) v h = ground arith
run_action-Inv a now r (set_waiting_retry backoff) v h = ground arith
run_action-Inv a now r (resume_from phase) v h = ground arith
run_action-Inv a now r noop v h = ground arith

run_action-Conserves :
    (n : ℕ) (a : SessionActor) (now : ℕ) (r old : RalphLoopState) (act : RalphAction)
    → a.ralph_loop ≡ some old
    → Conserves n a (run_action a now (r, act))
unfolding run_action emit_ralph_complete
run_action-Conserves n a now r old (complete reason) e = ground arith
run_action-Conserves n a now r old (emit_iteration i max) e = ground arith
run_action-Conserves n a now r old (set_waiting_retry backoff) e = ground arith
run_action-Conserves n a now r old (resume_from phase) e = ground arith
run_action-Conserves n a now r old noop e = ground arith

loop_turn_end-Safe :
    (n : ℕ) (a : SessionActor) (now : ℕ) (origin : TurnOrigin) (failed : Bool)
    (l : Option RalphLoopState)
    → a.ralph_loop ≡ l
    → Safe n a (loop_turn_end a now origin failed l)
unfolding loop_turn_end
loop_turn_end-Safe n a now origin failed none e = Safe-refl n a
loop_turn_end-Safe n a now origin failed (some r) e =
    let (r', act) = turn_end r origin failed in
    record {
      inv = λ v.
          run_action-Inv a now r' act v
            (turn_end-ActionOk r origin failed (subst LoopsOk e v.loop));
      conserves = run_action-Conserves n a now r' r act e;
    }

pub ralph_on_turn_end-Safe :
    (n : ℕ) (a : SessionActor) (now : ℕ) (origin : TurnOrigin) (failed : Bool)
    → Safe n a (ralph_on_turn_end a now origin failed)
unfolding ralph_on_turn_end
ralph_on_turn_end-Safe n a now origin failed =
    loop_turn_end-Safe n a now origin failed a.ralph_loop refl

pub on_user_turn_finished-Safe :
    (n : ℕ) (a : SessionActor) (origin : TurnOrigin) → Safe n a (on_user_turn_finished a origin)
unfolding on_user_turn_finished
on_user_turn_finished-Safe n a (user (normal id)) = record {
  inv = λ v. ground arith;
  conserves = omega arith;
}
on_user_turn_finished-Safe n a (user (slash command)) = Safe-refl n a
on_user_turn_finished-Safe n a (internal k) = Safe-refl n a
on_user_turn_finished-Safe n a ralph = Safe-refl n a

pub release-Safe :
    (n : ℕ) (a : SessionActor)
    → Safe n a
        (set_pending_slash_command (record a { active_turn = none; active_extractor = none }) none)
release-Safe n a = record { inv = λ v. ground (arith, drop_turn-Inv a v); conserves = omega arith }

pub end_turn_and_dispatch-Safe :
    (n : ℕ) (w : Wire) (a : SessionActor) (now : ℕ) → Safe n a (end_turn_and_dispatch w a now)
unfolding end_turn_and_dispatch
end_turn_and_dispatch-Safe n w a now =
    Safe-trans n a _ _ (release-Safe n a) (try_dispatch-Safe n w _ now)
