-- ===== src/Session/Invariant.antt =====
-- The invariant of a session actor.
use open_covibe_web.Common.{
  ℕ, suc, ◌≤◌, ◌<◌, true, false, Option, none, some, List, [], ◌∷◌, ◌++◌, ◌≡◌, arith, ◌⊎◌, is_some,
  ◌+◌,
}
use open_covibe_web.Session.Turn.{ActiveTurn, UserTurnTicket, is_internal}
use open_covibe_web.Session.Ralph.{
  RalphLoopState, RalphPhase, running, waiting_retry, cancel_pending, paused_by_user,
}
use open_covibe_web.Session.Actor.{SessionActor}

-- The turn indices of the queue grow, from `lo` on and below `hi`.
abbrev pub Ascending : ℕ → ℕ → List UserTurnTicket → Type 0
Ascending lo hi [] = lo ≤ hi
Ascending lo hi (t ∷ ts) = (lo ≤ t.turn_index) × Ascending (suc t.turn_index) hi ts

-- The first index that may still wait: that after the active turn's.
abbrev pub floor : Option ActiveTurn → ℕ
floor none = 0
floor (some t) = suc t.turn_index

-- A loop that waits, or waited when it was paused, knows until when.
abbrev pub PhaseOk : RalphPhase → Option ℕ → Type 0
PhaseOk running retry = Unit
PhaseOk cancel_pending retry = Unit
PhaseOk waiting_retry retry = is_some retry ≡ true
PhaseOk (paused_by_user running) retry = Unit
PhaseOk (paused_by_user waiting_retry) retry = is_some retry ≡ true
PhaseOk (paused_by_user cancel_pending) retry = ⊥
PhaseOk (paused_by_user (paused_by_user was)) retry = ⊥

pub record LoopOk (r : RalphLoopState) : Type 0 where
  pub texts : r.turn_toplevel_texts ≡ []
  pub limit : r.max_consecutive_failures ≡ 3
  pub failures : r.consecutive_failures < r.max_consecutive_failures
  pub bound : (r.max_iterations ≡ 0) ⊎ (r.iteration < r.max_iterations)
  pub waits : PhaseOk r.phase r.retry_after

abbrev pub LoopsOk : Option RalphLoopState → Type 0
LoopsOk none = Unit
LoopsOk (some r) = LoopOk r

abbrev pub NotInternal : Option ActiveTurn → Type 0
NotInternal none = Unit
NotInternal (some t) = is_internal t.origin ≡ false

pub record Inv (a : SessionActor) : Type 0 where
  pub no_barrier : a.must_run_internal_for_turn ≡ none
  pub no_jobs : a.queued_internal ≡ []
  pub no_extractor : a.active_extractor ≡ none
  pub origin : NotInternal a.active_turn
  pub quiet : (a.quarantine_until_result ≡ false) ⊎ (a.active_turn ≡ none)
  pub ended : (a.terminated ≡ false) ⊎ (a.queued_user ≡ [])
  pub order : Ascending (floor a.active_turn) a.next_turn_index a.queued_user
  pub loop : LoopsOk a.ralph_loop

pub Ascending-mono :
    (lo lo' hi : ℕ) (ts : List UserTurnTicket) → lo ≤ lo' → Ascending lo' hi ts → Ascending lo hi ts
Ascending-mono lo lo' hi [] h a = omega arith
Ascending-mono lo lo' hi (t ∷ ts) h a = (omega arith, a.1)

pub Ascending-push :
    (lo hi : ℕ) (ts : List UserTurnTicket) (t : UserTurnTicket)
    → t.turn_index ≡ hi
    → Ascending lo hi ts
    → Ascending lo (hi + 1) (ts ++ t ∷ [])
Ascending-push lo hi [] t e a = (omega arith, omega arith)
Ascending-push lo hi (u ∷ ts) t e a = (a.0, Ascending-push (suc u.turn_index) hi ts t e a.1)

pub Ascending-le : (lo hi : ℕ) (ts : List UserTurnTicket) → Ascending lo hi ts → lo ≤ hi
Ascending-le lo hi [] a = a
Ascending-le lo hi (t ∷ ts) a = omega (arith, Ascending-le (suc t.turn_index) hi ts a.1)
