-- ===== src/Session/Dispatch/Order.antt =====
-- src-tauri/src/agent/session_actor.rs: messages leave the queue in the order in which they came.
use open_covibe_web.Common.{ℕ, String, List, [], ◌∷◌, Bool, ◌||◌, is_some, some, ◌≡◌, ◌⊎◌}
use open_covibe_web.Session.Dispatch.Sends.{newest}
use open_covibe_web.Session.Turn.{user, user_soft_timeout, user_hard_timeout, UserTurnTicket}
use open_covibe_web.Session.Actor.{replied, ok, err, SessionActor}
use open_covibe_web.Session.Dispatch.{begin, is_blocked}

-- What became of a ticket: its turn is active and its caller knows of the success, or no turn was
-- started for it and its caller knows the error.
abbrev pub Answered : SessionActor → SessionActor → ℕ → UserTurnTicket → Type 0
Answered a b now t =
    ((b.active_turn
        ≡ some
            (begin (user t.kind) t.ticket_seq t.turn_index now user_soft_timeout user_hard_timeout))
      × (newest b.log ≡ some (replied t.reply ok)))
    ⊎ ((m : String) × (b.active_turn ≡ a.active_turn)
        × (newest b.log ≡ some (replied t.reply (err m))))

-- The first ticket is answered, and the others wait.
abbrev pub Taken : SessionActor → SessionActor → ℕ → List UserTurnTicket → Type 0
Taken a b now [] = b.queued_user ≡ []
Taken a b now (t ∷ ts) = (b.queued_user ≡ ts) × Answered a b now t

-- Whether no user turn may start.
abbrev pub is_held : SessionActor → Bool
is_held a = is_blocked a || is_some a.must_run_internal_for_turn
