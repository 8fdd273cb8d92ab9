-- ===== src/Session/Frame.antt =====
-- What the primitives of the actor leave alone: the turn engine, the Ralph loop, the waiters, and
-- the entries of the log that later modules count.
use open_covibe_web.Common.{
  ℕ, String, Bool, true, false, Option, none, some, List, [], ◌∷◌, ◌≡◌, refl, arith, ◌⊎◌, inl, inr,
}
use open_covibe_web.Models.{ℤ, BusEvent, ralph_started, ralph_iteration, ralph_complete, RunStatus}
use open_covibe_web.Models.Json.{Json}
use open_covibe_web.Codex.Protocol.{CodexSkillRef}
use open_covibe_web.Codex.Server.{CodexAppServer}
use open_covibe_web.Session.Turn.{AttachmentData}
use open_covibe_web.Session.Actor.{
  Reply, ok, err, Line, user_payload, json, interrupt_request, Effect, emitted, replied,
  cancel_replied, SessionActor, Wire, emit_state, persist_idle_running, write_line, write_frames,
  write_user_via, write_user_to_stdin, send_interrupt_to_cli,
}

-- Replies to callers and the milestones of a Ralph loop that the actor makes itself.
abbrev pub is_milestone : BusEvent → Bool
is_milestone (ralph_started p n c s) = true
is_milestone (ralph_complete r i) = true
is_milestone (ralph_iteration i n) = true
is_milestone _ = false

abbrev counts : Effect → Bool
counts (replied r x) = true
counts (cancel_replied r i b) = true
counts (emitted ev) = is_milestone ev
counts _ = false

abbrev pub ledger : List Effect → List Effect
ledger [] = []
ledger (e ∷ log) = elim (counts e) [ true ↦ e ∷ ledger log | false ↦ ledger log ]

pub record Frame (a b : SessionActor) : Type 0 where
  pub codex_ready : b.codex_ready ≡ a.codex_ready
  pub is_cancelled : b.is_cancelled ≡ a.is_cancelled
  pub active_turn : b.active_turn ≡ a.active_turn
  pub active_extractor : b.active_extractor ≡ a.active_extractor
  pub queued_user : b.queued_user ≡ a.queued_user
  pub queued_internal : b.queued_internal ≡ a.queued_internal
  pub next_turn_index : b.next_turn_index ≡ a.next_turn_index
  pub next_auto_ctx_id : b.next_auto_ctx_id ≡ a.next_auto_ctx_id
  pub next_turn_seq : b.next_turn_seq ≡ a.next_turn_seq
  pub last_auto_context_for : b.last_auto_context_for ≡ a.last_auto_context_for
  pub must_run_internal_for_turn : b.must_run_internal_for_turn ≡ a.must_run_internal_for_turn
  pub quarantine_until_result : b.quarantine_until_result ≡ a.quarantine_until_result
  pub quarantine_deadline : b.quarantine_deadline ≡ a.quarantine_deadline
  pub interrupt_sent : b.interrupt_sent_for_quarantine ≡ a.interrupt_sent_for_quarantine
  pub terminated : b.terminated ≡ a.terminated
  pub ralph_loop : b.ralph_loop ≡ a.ralph_loop
  pub ralph_needs_dispatch : b.ralph_needs_dispatch ≡ a.ralph_needs_dispatch
  pub control_waiters : b.control_waiters ≡ a.control_waiters
  pub ledger : ledger b.log ≡ ledger a.log

pub Frame-refl : (a : SessionActor) → Frame a a
Frame-refl a = ground arith

pub Frame-trans : (a b c : SessionActor) → Frame a b → Frame b c → Frame a c
Frame-trans a b c f g = ground arith

pub emit_state-Frame :
    (a : SessionActor) (now : ℕ) (s : String) (code : Option ℤ) (error : Option String) (upd : Bool)
    → Frame a (emit_state a now s code error upd)
unfolding emit_state
emit_state-Frame a now s code error upd = ground arith

pub persist_idle_running-Frame :
    (a : SessionActor) (now : ℕ) (target : RunStatus) → Frame a (persist_idle_running a now target)
unfolding persist_idle_running
persist_idle_running-Frame a now target = ground arith

pub Reply-cases : (r : Reply) → (r ≡ ok) ⊎ ((e : String) × (r ≡ err e))
Reply-cases ok = inl refl
Reply-cases (err e) = inr (e, refl)

pub write_line-Frame :
    (a : SessionActor) (label : String) (strict : Bool) (line : Line)
    → Frame a (write_line a label strict line).0
unfolding write_line
write_line-Frame a label strict line = ground arith

pub write_frames-Frame :
    (a : SessionActor) (context : String) (ls : List Json) → Frame a (write_frames a context ls).0
unfolding write_frames
write_frames-Frame a context [] = Frame-refl a
write_frames-Frame a context (l ∷ ls) =
    let next = write_line a context false (json l) in
    let first = write_line-Frame a context false (json l) in
    elim (Reply-cases (next.1)) [
      | inl e ↦
          rw (e, write_frames) (Frame-trans a _ _ first (write_frames-Frame (next.0) context ls))
      | inr (m, e) ↦ rw (e, write_frames) first
    ]

write_user_via-Frame :
    (w : Wire) (a : SessionActor) (text : String) (atts : List AttachmentData)
    (skills : List CodexSkillRef) (driver : Option CodexAppServer)
    → Frame a (write_user_via w a text atts skills driver).0
unfolding write_user_via
write_user_via-Frame w a text atts skills none =
    write_line-Frame a "stdin" true (user_payload text atts)
write_user_via-Frame w a text atts skills (some server) =
    Frame-trans a _ _ (ground arith) (write_frames-Frame _ "codex turn/start" _)

pub write_user_to_stdin-Frame :
    (w : Wire) (a : SessionActor) (text : String) (atts : List AttachmentData)
    (skills : List CodexSkillRef)
    → Frame a (write_user_to_stdin w a text atts skills).0
unfolding write_user_to_stdin
write_user_to_stdin-Frame w a text atts skills = write_user_via-Frame w a text atts skills a.codex

pub send_interrupt_to_cli-Frame :
    (a : SessionActor) (id : String) → Frame a (send_interrupt_to_cli a id)
unfolding send_interrupt_to_cli
send_interrupt_to_cli-Frame a id =
    write_line-Frame a "quarantine interrupt" false (json (interrupt_request id))
