-- ===== src/Session/Stdout/Frozen.antt =====
-- src-tauri/src/agent/session_actor.rs: a Codex session in quarantine.
use open_covibe_web.Common.{
  ℕ, String, true, false, Option, none, some, List, [], ◌∷◌, ◌≡◌, arith, if◌then◌else◌,
}
use open_covibe_web.Models.{ℤ, pos, BusEvent, RunStatus}
use open_covibe_web.Models.Json.{Json}
use open_covibe_web.Codex.Protocol.{
  ParsedLine, PendingInteractive, LifecycleSignal, turn_started, turn_completed, turn_failed,
}
use open_covibe_web.Codex.Parse.{parse_line}
use open_covibe_web.Codex.Server.{CodexAppServer}
use open_covibe_web.Session.Actor.{SessionActor, Wire, emit_state, relay}
use open_covibe_web.Session.Frame.{emit_state-Frame, persist_idle_running-Frame}
use open_covibe_web.Session.Dispatch.{try_dispatch}
use open_covibe_web.Session.Finish.{end_turn_and_dispatch}
use open_covibe_web.Session.Stdout.{
  touch, is_valid_event, answer_waiter, keep_thread, open_gate, emit_valid, track, follow, idle_now,
  codex_step, handle_codex_line,
}

-- The quarantine and its clock are left alone.
pub record Frozen (a b : SessionActor) : Type 0 where
  pub quarantine : b.quarantine_until_result ≡ true
  pub deadline : b.quarantine_deadline ≡ a.quarantine_deadline
  pub queue : b.queued_user ≡ a.queued_user

Frozen-trans : (a b c : SessionActor) → Frozen a b → Frozen b c → Frozen a c
Frozen-trans a b c h k = ground arith

dispatch-Frozen :
    (w : Wire) (a : SessionActor) (now : ℕ)
    → a.quarantine_until_result ≡ true
    → Frozen a (try_dispatch w a now)
unfolding try_dispatch
dispatch-Frozen w a now q = ground arith

open_gate-Frozen :
    (w : Wire) (a : SessionActor) (now : ℕ)
    → a.quarantine_until_result ≡ true
    → Frozen a (open_gate w a now)
unfolding open_gate
open_gate-Frozen w a now q = ground (arith, dispatch-Frozen w (record a { codex_ready = true }) now)

emit_valid-Frozen :
    (a : SessionActor) (evs : List BusEvent)
    → a.quarantine_until_result ≡ true
    → Frozen a (emit_valid a evs)
emit_valid-Frozen a [] q = ground arith
emit_valid-Frozen a (ev ∷ evs) q =
    let b = if is_valid_event ev then relay a ev else a in
    Frozen-trans a b _ (ground arith) (emit_valid-Frozen b evs (ground arith))

idle_now-Frozen :
    (a : SessionActor) (now : ℕ) (code : Option ℤ) (error : Option String)
    → a.quarantine_until_result ≡ true
    → Frozen a (idle_now a now code error)
idle_now-Frozen a now code error q =
    let b = emit_state a now "idle" code error true in
    ground (
      arith,
      emit_state-Frame a now "idle" code error true,
      persist_idle_running-Frame b now RunStatus.idle,
    )

end_turn-Frozen :
    (w : Wire) (a : SessionActor) (now : ℕ)
    → a.quarantine_until_result ≡ true
    → Frozen a (end_turn_and_dispatch w a now)
unfolding end_turn_and_dispatch try_dispatch
end_turn-Frozen w a now q = ground arith

follow-Frozen :
    (w : Wire) (a : SessionActor) (now : ℕ) (o : Option LifecycleSignal)
    → a.quarantine_until_result ≡ true
    → Frozen a (follow w a now o)
unfolding follow
follow-Frozen w a now none q = ground arith
follow-Frozen w a now (some turn_started) q =
    ground (arith, emit_state-Frame a now "running" none none false)
follow-Frozen w a now (some turn_completed) q =
    let b = idle_now a now (some (pos 0)) none in
    let s = idle_now-Frozen a now (some (pos 0)) none q in
    Frozen-trans a b _ s (end_turn-Frozen w b now s.quarantine)
follow-Frozen w a now (some (turn_failed error)) q =
    let b = idle_now a now none error in
    let s = idle_now-Frozen a now none error q in
    Frozen-trans a b _ s (end_turn-Frozen w b now s.quarantine)

prepare-Frozen :
    (a : SessionActor) (server : CodexAppServer) (o : Option (String × Json)) (t : Option String)
    → a.quarantine_until_result ≡ true
    → Frozen a (keep_thread (answer_waiter (record a { codex = some server }) o) t)
prepare-Frozen a server none none q = ground arith
prepare-Frozen a server none (some t) q = ground arith
prepare-Frozen a server (some x) none q = ground arith
prepare-Frozen a server (some x) (some t) q = ground arith

track-Frozen :
    (a : SessionActor) (now : ℕ) (o : Option PendingInteractive)
    → a.quarantine_until_result ≡ true
    → Frozen a (track a now o)
track-Frozen a now none q = ground arith
track-Frozen a now (some p) q = ground arith

step-Frozen :
    (w : Wire) (a : SessionActor) (now : ℕ) (server : CodexAppServer) (p : ParsedLine)
    → a.quarantine_until_result ≡ true
    → Frozen a (codex_step w a now (server, p))
step-Frozen w a now server p q =
    let b =
      keep_thread (answer_waiter (record a { codex = some server }) p.control_response)
        p.thread_id in
    let c = open_gate w b now in
    let d = emit_valid c p.events in
    let e = track d now p.interactive in
    let sb = prepare-Frozen a server p.control_response p.thread_id q in
    let sc = open_gate-Frozen w b now sb.quarantine in
    let sd = emit_valid-Frozen c p.events sc.quarantine in
    let se = track-Frozen d now p.interactive sd.quarantine in
    Frozen-trans a b _ sb (
      Frozen-trans b c _ sc (
        Frozen-trans c d _ sd
          (Frozen-trans d e _ se (follow-Frozen w e now p.lifecycle se.quarantine))))

-- No line of a Codex session in quarantine ends the quarantine, puts off its deadline or lets a
-- queued message go, not even the one that says that the turn is over.
pub handle_codex_line-Frozen :
    (w : Wire) (a : SessionActor) (now : ℕ) (server : CodexAppServer) (text : String)
    → a.quarantine_until_result ≡ true
    → Frozen a (handle_codex_line w a now server text)
unfolding handle_codex_line
handle_codex_line-Frozen w a now server text q =
    let out = parse_line w.to_string server (w.from_str text) in
    let s = step-Frozen w (touch a now) now (out.0) (out.1) q in
    Frozen-trans a (touch a now) _ (ground arith) s
