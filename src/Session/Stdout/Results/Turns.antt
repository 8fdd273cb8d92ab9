-- ===== src/Session/Stdout/Results/Turns.antt =====
-- src-tauri/src/agent/session_actor.rs: the end of a user's turn behind which nothing waits.
use open_covibe_web.Common.{
  ◌+◌, ℕ, String, Bool, true, false, Option, none, some, List, [], ◌∷◌, ◌++◌, ◌≡◌, refl, arith, ap,
  ◌∙◌, sym, subst, if◌then◌else◌, All, is_some, eq_iff,
}
use open_covibe_web.Models.{BusEvent, run_state}
use open_covibe_web.Claude.State.{ProtocolState}
use open_covibe_web.Session.Turn.{
  ralph, ActiveTurn, UserTurnKind, TurnOrigin, apply_activity_reset, user_hard_timeout, user,
  UserTurnKind, normal, slash, internal,
}
use open_covibe_web.Session.Actor.{
  Effect, SessionActor, Wire, emit_state, persist_idle_running, set_pending_slash_command,
}
use open_covibe_web.Session.Dispatch.{
  try_dispatch, dispatch_next, dispatch_user, dispatch_ralph, dispatch_internal, is_blocked,
}
use open_covibe_web.Session.Finish.{on_user_turn_finished, ralph_on_turn_end, loop_turn_end}
use open_covibe_web.Session.Stdout.{
  touch, handle_events, handle_event, user_event, user_run_state, report, finish_turn,
  is_valid_event, touch,
}
use open_covibe_web.Session.Stdout.Results.Relayed.{
  passes, handle_events-append, handle_events-passes,
}

-- A user's turn behind which nothing waits.
pub record InTurn (a : SessionActor) (turn : ActiveTurn) (kind : UserTurnKind) : Type 0 where
  pub free : a.quarantine_until_result ≡ false
  pub uninterrupted : a.pending_interrupt ≡ false
  pub active : a.active_turn ≡ some turn
  pub origin : turn.origin ≡ user kind
  pub queue : a.queued_user ≡ []
  pub jobs : a.queued_internal ≡ []
  pub barrier : a.must_run_internal_for_turn ≡ none
  pub alone : a.ralph_loop ≡ none

pub InTurn-with :
    (a : SessionActor) (turn : ActiveTurn) (kind : UserTurnKind) (p : ProtocolState)
    (log : List Effect)
    → InTurn a turn kind
    → InTurn (record a { protocol = p; log = log }) turn kind
InTurn-with a turn kind p log i = record {
  free = i.free;
  uninterrupted = i.uninterrupted;
  active = i.active;
  origin = i.origin;
  queue = i.queue;
  jobs = i.jobs;
  barrier = i.barrier;
  alone = i.alone;
}

report-InTurn :
    (a : SessionActor) (turn : ActiveTurn) (kind : UserTurnKind) (now : ℕ) (error : Option String)
    → InTurn a turn kind
    → let b = report a now "idle" none error in
      InTurn b turn kind × (b.state ≡ "idle") × (b.protocol ≡ a.protocol)
unfolding report emit_state persist_idle_running
report-InTurn a turn kind now error i = ground (arith, eq_iff a.state "idle")

-- With nothing that waits, no turn starts.
pub record Empty (a : SessionActor) : Type 0 where
  pub queue : a.queued_user ≡ []
  pub jobs : a.queued_internal ≡ []
  pub barrier : a.must_run_internal_for_turn ≡ none
  pub alone : a.ralph_loop ≡ none

pub either : (b : Bool) (a : SessionActor) → (if b then a else a) ≡ a
either true a = refl
either false a = refl

pub try_dispatch-Empty :
    (w : Wire) (a : SessionActor) (now : ℕ) → Empty a → try_dispatch w a now ≡ a
unfolding try_dispatch dispatch_next dispatch_user dispatch_ralph dispatch_internal
try_dispatch-Empty w a now e = rw (e.barrier, e.queue, e.alone, e.jobs) (either (is_blocked a) _)

-- The actor between two turns.
abbrev before_next : SessionActor → ℕ → TurnOrigin → Bool → SessionActor
before_next a now origin bad =
    let over = on_user_turn_finished (record a { active_turn = none }) origin in
    ralph_on_turn_end (set_pending_slash_command (record over { active_extractor = none }) none) now
      origin bad

before_next-kept :
    (a : SessionActor) (now : ℕ) (origin : TurnOrigin) (bad : Bool)
    → a.ralph_loop ≡ none
    → let b = before_next a now origin bad in
      (b.active_turn ≡ none)
      × (b.state ≡ a.state)
      × (b.protocol.result_subtype ≡ a.protocol.result_subtype)
      × (b.queued_user ≡ a.queued_user)
      × (b.queued_internal ≡ a.queued_internal)
      × (b.must_run_internal_for_turn ≡ a.must_run_internal_for_turn)
      × (b.ralph_loop ≡ none)
unfolding on_user_turn_finished ralph_on_turn_end loop_turn_end
before_next-kept a now (user (normal n)) bad h = rw h (refl, refl, refl, refl, refl, refl, refl)
before_next-kept a now (user (slash c)) bad h = rw h (refl, refl, refl, refl, refl, refl, refl)
before_next-kept a now (internal k) bad h = rw h (refl, refl, refl, refl, refl, refl, refl)
before_next-kept a now ralph bad h = rw h (refl, refl, refl, refl, refl, refl, refl)

finish_turn-ends :
    (w : Wire) (a : SessionActor) (turn : ActiveTurn) (kind : UserTurnKind) (now : ℕ) (bad : Bool)
    → InTurn a turn kind
    → let b = finish_turn w a now turn bad in
      (b.active_turn ≡ none)
      × (b.state ≡ a.state)
      × (b.protocol.result_subtype ≡ a.protocol.result_subtype)
unfolding finish_turn
finish_turn-ends w a turn kind now bad i =
    let k = before_next-kept a now turn.origin bad i.alone in
    ground (
      arith,
      k,
      try_dispatch-Empty w (before_next a now turn.origin bad) now (record {
        queue = k.3 ∙ i.queue;
        jobs = k.4 ∙ i.jobs;
        barrier = k.5 ∙ i.barrier;
        alone = k.6;
      }),
    )

user_run_state-ends :
    (w : Wire) (a : SessionActor) (turn : ActiveTurn) (kind : UserTurnKind) (now : ℕ)
    (error : Option String)
    → InTurn a turn kind
    → let b = user_run_state w a now "idle" none error in
      (b.active_turn ≡ none)
      × (b.state ≡ "idle")
      × (b.protocol.result_subtype ≡ a.protocol.result_subtype)
unfolding user_run_state
user_run_state-ends w a turn kind now error i =
    let r = report-InTurn a turn kind now error i in
    let b = report a now "idle" none error in
    ground (arith, r, finish_turn-ends w b turn kind now (is_some error) r.0)

-- The turn is over, and the protocol has this subtype of a result.
pub record TurnOver (result : Option String) (b : SessionActor) : Type 0 where
  pub over : b.active_turn ≡ none
  pub idle : b.state ≡ "idle"
  pub subtype : b.protocol.result_subtype ≡ result

one_event-ends :
    (w : Wire) (a : SessionActor) (turn : ActiveTurn) (kind : UserTurnKind) (now : ℕ)
    (error : Option String)
    → InTurn a turn kind
    → TurnOver a.protocol.result_subtype (handle_events w a now (run_state "idle" none error ∷ []))
unfolding handle_events handle_event user_event is_valid_event
one_event-ends w a turn kind now error i =
    ground (arith, user_run_state-ends w a turn kind now error i)

pub events-end :
    (w : Wire) (a : SessionActor) (turn : ActiveTurn) (kind : UserTurnKind) (now : ℕ)
    (es : List BusEvent) (error : Option String)
    → InTurn a turn kind
    → All (λ e. passes e ≡ true) es
    → TurnOver a.protocol.result_subtype
        (handle_events w a now (es ++ run_state "idle" none error ∷ []))
events-end w a turn kind now es error i h =
    let b = record a { log = (handle_events w a now es).log } in
    subst (TurnOver a.protocol.result_subtype)
      (sym (
        handle_events-append w a now es (run_state "idle" none error ∷ [])
        ∙ ap (λ c. handle_events w c now (run_state "idle" none error ∷ []))
            (handle_events-passes w a now es (ground (arith, i)) h)))
      (one_event-ends w b turn kind now error
        (InTurn-with a turn kind a.protocol (handle_events w a now es).log i))

pub touch-InTurn :
    (a : SessionActor) (turn : ActiveTurn) (kind : UserTurnKind) (now : ℕ)
    → InTurn a turn kind
    → InTurn (touch a now) (record turn { hard_deadline = now + user_hard_timeout }) kind
unfolding apply_activity_reset
touch-InTurn a turn kind now i = ground (arith, i)
