-- ===== src/Session/Loop/Keeps.antt =====
-- Every round of the loop keeps the invariant, and owes a reply to the caller whose command it took.
use open_covibe_web.Common.{
  ℕ, ◌+◌, String, Bool, true, false, none, List, ◌≡◌, refl, arith, if◌then◌else◌,
}
use open_covibe_web.Codex.Protocol.{CodexSkillRef}
use open_covibe_web.Session.Turn.{AttachmentData}
use open_covibe_web.Session.Actor.{Reply, err, SessionActor, Wire, send_reply}
use open_covibe_web.Session.Frame.{ledger}
use open_covibe_web.Session.Invariant.{Inv, Ascending-push, floor}
use open_covibe_web.Session.Ledger.{answers, queued, hit, starts, completes, alive, queued-append}
use open_covibe_web.Session.Safe.{Safe, Safe-trans, Frame-Safe, try_dispatch-Safe}
use open_covibe_web.Session.Dispatch.{enqueue, ticket_of, handle_send_message, try_dispatch}
use open_covibe_web.Session.Timeout.Keeps.{kill_child-Safe}
use open_covibe_web.Session.Loop.{handle_stop, clear_pending_interactive_request}

-- The step from `a` to `b` keeps the invariant and owes `k` more replies to the channel `r`.
pub record Serves (r k : ℕ) (a b : SessionActor) : Type 0 where
  pub inv : Inv a → Inv b
  pub owed :
      answers r (ledger b.log) + queued r b.queued_user
      ≡ answers r (ledger a.log) + queued r a.queued_user + k
  pub loops :
      starts (ledger b.log) + completes (ledger a.log) + alive a.ralph_loop
      ≡ starts (ledger a.log) + completes (ledger b.log) + alive b.ralph_loop

module _ (r : ℕ) where
  pub Safe-Serves : (a b : SessionActor) → Safe r a b → Serves r 0 a b
  Safe-Serves a b s = record {
    inv = s.inv;
    owed = omega (arith, s.conserves.owed);
    loops = s.conserves.loops;
  }

  pub Serves-after : (k : ℕ) (a b c : SessionActor) → Serves r k a b → Safe r b c → Serves r k a c
  Serves-after k a b c s t = record {
    inv = λ v. t.inv (s.inv v);
    owed = omega (arith, s.owed, t.conserves.owed);
    loops = omega (arith, s.loops, t.conserves.loops);
  }

  pub Serves-trans :
      (k m : ℕ) (a b c : SessionActor) → Serves r k a b → Serves r m b c → Serves r (k + m) a c
  Serves-trans k m a b c s t = record {
    inv = λ v. t.inv (s.inv v);
    owed = omega (arith, s.owed, t.owed);
    loops = omega (arith, s.loops, t.loops);
  }

  pub Safe-before : (k : ℕ) (a b c : SessionActor) → Safe r a b → Serves r k b c → Serves r k a c
  Safe-before k a b c s t = record {
    inv = λ v. t.inv (s.inv v);
    owed = omega (arith, t.owed, s.conserves.owed);
    loops = omega (arith, t.loops, s.conserves.loops);
  }

  pub replied-Serves :
      (a : SessionActor) (channel : ℕ) (x : Reply)
      → Serves r (hit r channel) a (send_reply a channel x)
  replied-Serves a channel x = record {
    inv = λ v. ground arith;
    owed = omega arith;
    loops = omega arith;
  }

  enqueue-Serves :
      (a : SessionActor) (text : String) (atts : List AttachmentData) (skills : List CodexSkillRef)
      (reply : ℕ)
      → a.terminated ≡ false
      → Serves r (hit r reply) a (enqueue a text atts skills reply)
  unfolding enqueue
  enqueue-Serves a text atts skills reply e =
      let t = ticket_of a text atts skills reply in
      record {
        inv = λ v. ground (
          arith,
          Ascending-push (floor a.active_turn) a.next_turn_index a.queued_user t refl v.order,
        );
        owed = omega (arith, queued-append r a.queued_user t);
        loops = omega arith;
      }

  send_message-Serves :
      (w : Wire) (a : SessionActor) (now : ℕ) (text : String) (atts : List AttachmentData)
      (skills : List CodexSkillRef) (reply : ℕ) (over : Bool)
      → a.terminated ≡ over
      → Serves r (hit r reply) a (
          if over
          then send_reply a reply (err "Session terminated")
          else try_dispatch w (enqueue a text atts skills reply) now)
  send_message-Serves w a now text atts skills reply true e =
      replied-Serves a reply (err "Session terminated")
  send_message-Serves w a now text atts skills reply false e =
      let b = enqueue a text atts skills reply in
      Serves-after (hit r reply) a b _ (enqueue-Serves a text atts skills reply e)
        (try_dispatch-Safe r w b now)

  pub handle_send_message-Serves :
      (w : Wire) (a : SessionActor) (now : ℕ) (text : String) (atts : List AttachmentData)
      (skills : List CodexSkillRef) (reply : ℕ)
      → Serves r (hit r reply) a (handle_send_message w a now text atts skills reply)
  unfolding handle_send_message
  handle_send_message-Serves w a now text atts skills reply =
      send_message-Serves w a now text atts skills reply a.terminated refl

  pub handle_stop-Safe : (a : SessionActor) → Safe r a (handle_stop a)
  unfolding handle_stop
  handle_stop-Safe a =
      Safe-trans r a _ _ (Frame-Safe r a _ (ground arith))
        (kill_child-Safe r (record a { stdin = none }))

  pub clear-Safe :
      (a : SessionActor) (id : String) → Safe r a (clear_pending_interactive_request a id)
  unfolding clear_pending_interactive_request
  clear-Safe a id = Frame-Safe r a _ (ground arith)
