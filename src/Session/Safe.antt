-- ===== src/Session/Safe.antt =====
-- A change of the actor that keeps the invariant and loses no reply.
use open_covibe_web.Common.{
  Bool, true, false, if◌then◌else◌, ℕ, String, none, List, [], ◌∷◌, ◌≡◌, refl, arith, ◌+◌,
}
use open_covibe_web.Session.Turn.{UserTurnTicket}
use open_covibe_web.Session.Actor.{Effect, SessionActor, Wire, err, replied}
use open_covibe_web.Session.Frame.{Frame, ledger}
use open_covibe_web.Session.Invariant.{Inv, Ascending-mono, Ascending-le, floor}
use open_covibe_web.Session.Ledger.{
  Conserves, Conserves-refl, Conserves-trans, Frame-Conserves, answers, queued, starts, completes,
}
use open_covibe_web.Session.Dispatch.{try_dispatch}
use open_covibe_web.Session.Dispatch.Keeps.{try_dispatch-Inv}
use open_covibe_web.Session.Dispatch.Conserve.{try_dispatch-Conserves}
use open_covibe_web.Session.Timeout.{fail_tickets, fail_all_pending_replies}

pub record Safe (r : ℕ) (a b : SessionActor) : Type 0 where
  pub inv : Inv a → Inv b
  pub conserves : Conserves r a b

pub Frame-Inv : (a b : SessionActor) → Frame a b → Inv a → Inv b
Frame-Inv a b f v = ground arith

-- An active turn that ends frees its index.
pub drop_turn-Inv : (a : SessionActor) → Inv a → Inv (record a { active_turn = none })
drop_turn-Inv a v =
    let order = Ascending-mono 0 (floor a.active_turn) a.next_turn_index a.queued_user in
    ground (arith, order (omega arith) v.order)

fail_all-Inv :
    (a : SessionActor) (reason : String) → Inv a → Inv (fail_all_pending_replies a reason)
unfolding fail_all_pending_replies
fail_all-Inv a reason v =
    ground (arith, Ascending-le (floor a.active_turn) a.next_turn_index a.queued_user v.order)

module _ (r : ℕ) where
  pub Safe-refl : (a : SessionActor) → Safe r a a
  Safe-refl a = record { inv = λ v. v; conserves = Conserves-refl r a }

  pub Safe-trans : (a b c : SessionActor) → Safe r a b → Safe r b c → Safe r a c
  Safe-trans a b c s t = record {
    inv = λ v. t.inv (s.inv v);
    conserves = Conserves-trans r a b c s.conserves t.conserves;
  }

  pub if-Safe :
      (c : Bool) (a x y : SessionActor) → Safe r a x → Safe r a y → Safe r a (if c then x else y)
  if-Safe true a x y s t = s
  if-Safe false a x y s t = t

  pub Frame-Safe : (a b : SessionActor) → Frame a b → Safe r a b
  Frame-Safe a b f = record { inv = Frame-Inv a b f; conserves = Frame-Conserves r a b f }

  pub try_dispatch-Safe : (w : Wire) (a : SessionActor) (now : ℕ) → Safe r a (try_dispatch w a now)
  try_dispatch-Safe w a now = record {
    inv = try_dispatch-Inv w a now;
    conserves = try_dispatch-Conserves r w a now;
  }

  fail_tickets-answers :
      (reason : String) (ts : List UserTurnTicket) (log : List Effect)
      → answers r (ledger (fail_tickets reason ts log)) ≡ answers r (ledger log) + queued r ts
  fail_tickets-answers reason [] log = omega arith
  fail_tickets-answers reason (t ∷ ts) log =
      omega (arith, fail_tickets-answers reason ts (replied t.reply (err reason) ∷ log))

  fail_tickets-loops :
      (reason : String) (ts : List UserTurnTicket) (log : List Effect)
      → (starts (ledger (fail_tickets reason ts log)) ≡ starts (ledger log))
        × (completes (ledger (fail_tickets reason ts log)) ≡ completes (ledger log))
  fail_tickets-loops reason [] log = (refl, refl)
  fail_tickets-loops reason (t ∷ ts) log =
      fail_tickets-loops reason ts (replied t.reply (err reason) ∷ log)

  pub fail_all-Safe :
      (a : SessionActor) (reason : String) → Safe r a (fail_all_pending_replies a reason)
  unfolding fail_all_pending_replies
  fail_all-Safe a reason = record {
    inv = fail_all-Inv a reason;
    conserves = ground (
      arith,
      fail_tickets-answers reason a.queued_user a.log,
      fail_tickets-loops reason a.queued_user a.log,
    );
  }
