-- ===== src/Session/Dispatch/Sends.antt =====
-- src-tauri/src/agent/session_actor.rs: a user message to an idle Claude session.
use Prim.Native.String
use open_covibe_web.Common.{Option, ◌∷◌, ℕ, String, false, some, none, List, [], ◌≡◌, arith}
use open_covibe_web.Codex.Protocol.{CodexSkillRef}
use open_covibe_web.Session.Turn.{
  UserTurnTicket, AttachmentData, user, user_soft_timeout, user_hard_timeout,
}
use open_covibe_web.Session.Actor.{
  Effect, ok, replied, err, set_pending_slash_command, SessionActor, Wire, Pipe, write_line,
  write_user_to_stdin, write_user_via,
}
use open_covibe_web.Session.Dispatch.Keeps.{announce-Frame}
use open_covibe_web.Session.Dispatch.{
  pause_loop, pending_slash, begin, ticket_of, enqueue, start_user_turn, try_dispatch,
  dispatch_next, dispatch_user, handle_send_message,
}

-- Nothing runs or waits.
pub record Idle (a : SessionActor) (p : Pipe) : Type 0 where
  pub active_turn : a.active_turn ≡ none
  pub quarantine : a.quarantine_until_result ≡ false
  pub terminated : a.terminated ≡ false
  pub codex : a.codex ≡ none
  pub barrier : a.must_run_internal_for_turn ≡ none
  pub queue : a.queued_user ≡ []
  pub stdin : a.stdin ≡ some p

-- The last effect so far.
abbrev pub newest : List Effect → Option Effect
newest [] = none
newest (e ∷ log) = some e

started :
    (w : Wire) (a : SessionActor) (p : Pipe) (now : ℕ) (t : UserTurnTicket)
    → a.codex ≡ none
    → a.stdin ≡ some p
    → p.write_error p.writes ≡ none
    → p.flush_error p.writes ≡ none
    → ((start_user_turn w a now t).active_turn
        ≡ some
            (begin (user t.kind) t.ticket_seq t.turn_index now user_soft_timeout user_hard_timeout))
      × ((start_user_turn w a now t).queued_user ≡ a.queued_user)
      × (newest (start_user_turn w a now t).log ≡ some (replied t.reply ok))
unfolding start_user_turn write_user_to_stdin write_user_via write_line
started w a p now t c i e f =
    let b = set_pending_slash_command a (pending_slash t.kind) in
    let written = write_user_to_stdin w b t.text t.attachments t.skills in
    ground (arith, announce-Frame (written.0) now t.text)

-- To an idle Claude session whose pipe takes the write and the flush, a message is a turn at once:
-- that of its own ticket, with the user's deadlines. Nothing waits, and the last that happens is
-- that the caller learns of the success.
pub handle_send_message-starts :
    (w : Wire) (a : SessionActor) (p : Pipe) (now : ℕ) (text : String) (atts : List AttachmentData)
    (skills : List CodexSkillRef) (reply : ℕ)
    → Idle a p
    → p.write_error p.writes ≡ none
    → p.flush_error p.writes ≡ none
    → let b = handle_send_message w a now text atts skills reply in
      let t = ticket_of a text atts skills reply in
      (b.active_turn
        ≡ some
            (begin (user t.kind) t.ticket_seq t.turn_index now user_soft_timeout user_hard_timeout))
      × (b.queued_user ≡ [])
      × (newest b.log ≡ some (replied reply ok))
unfolding handle_send_message enqueue try_dispatch dispatch_next dispatch_user
handle_send_message-starts w a p now text atts skills reply i e f =
    let t = ticket_of a text atts skills reply in
    let b = record (enqueue a text atts skills reply) {
      queued_user = [];
      ralph_loop = pause_loop a.ralph_loop;
    } in
    ground (arith, started w b p now t)

-- To an idle Claude session whose pipe fails the write, a message starts no turn and does not wait:
-- all that happens is that its caller learns the error.
pub handle_send_message-fails :
    (w : Wire) (a : SessionActor) (p : Pipe) (now : ℕ) (text problem : String)
    (atts : List AttachmentData) (skills : List CodexSkillRef) (reply : ℕ)
    → Idle a p
    → p.write_error p.writes ≡ some problem
    → let b = handle_send_message w a now text atts skills reply in
      (b.active_turn ≡ none)
      × (b.queued_user ≡ [])
      × (b.log
          ≡ replied reply (err (String.◌++◌ "stdin" (String.◌++◌ " write failed: " problem)))
            ∷ a.log)
unfolding handle_send_message enqueue try_dispatch dispatch_next dispatch_user start_user_turn
    write_user_to_stdin write_user_via write_line
handle_send_message-fails w a p now text problem atts skills reply i e = ground arith
