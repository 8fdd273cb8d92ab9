-- ===== src/Session/Stdout/Lines.antt =====
-- A whole line of the child's stdout keeps the invariant, whatever events it stands for.
use open_covibe_web.Common.{
  trim, unwrap_or, ℕ, String, str_eq, Bool, true, false, Option, none, some, List, [], ◌∷◌, ◌≡◌,
  refl, arith, if◌then◌else◌, ◌&&◌, not,
}
use open_covibe_web.Models.{
  BusEvent, run_state, command_output, message_complete, ℤ, pos, RunStatus,
}
use open_covibe_web.Models.Json.{get_str, Json}
use open_covibe_web.Codex.Protocol.{
  ParsedLine, PendingInteractive, LifecycleSignal, turn_started, turn_completed, turn_failed,
}
use open_covibe_web.Codex.Parse.{parse_line}
use open_covibe_web.Codex.Server.{CodexAppServer}
use open_covibe_web.Session.Actor.{SessionActor, Wire, emit_state, relay}
use open_covibe_web.Session.Frame.{emit_state-Frame, persist_idle_running-Frame}
use open_covibe_web.Session.Invariant.{Inv}
use open_covibe_web.Session.Ledger.{Conserves, Conserves-trans, Conserves-refl}
use open_covibe_web.Session.Safe.{
  Safe, Safe-trans, Safe-refl, if-Safe, Frame-Safe, try_dispatch-Safe,
}
use open_covibe_web.Session.Finish.Keeps.{end_turn_and_dispatch-Safe}
use open_covibe_web.Session.Control.Keeps.{
  handle_control_event-Safe, handle_control_event_internal-Safe,
}
use open_covibe_web.Session.Stdout.Keeps.{
  user_event-Safe, quarantine_events-Safe, touch-Safe, shown-Safe, count_invalid-Safe,
}
use open_covibe_web.Session.Stdout.{
  codex_opened, codex_step, handle_parsed, extract, accumulate, internal_event, handle_event,
  handle_events, route, unparsed, is_internal_turn, is_valid_event, mapped, is_control,
  answer_waiter, keep_thread, open_gate, emit_valid, track, follow, idle_now, handle_codex_line,
  handle_stdout_line, user_event, touch,
}

module _ (r : ℕ) where
  extract-Conserves : (a : SessionActor) (ev : BusEvent) → Conserves r a (extract a ev)
  unfolding extract
  extract-Conserves a ev = ground arith

  accumulate-Conserves :
      (a : SessionActor) (text : String) (parent : Option String)
      → Conserves r a (accumulate a text parent)
  accumulate-Conserves a text parent = ground arith

  internal_event-Conserves :
      (w : Wire) (a : SessionActor) (now : ℕ) (ev : BusEvent)
      → Conserves r a (internal_event w a now ev)
  unfolding internal_event
  internal_event-Conserves w a now (command_output content p) =
      extract-Conserves a (command_output content p)
  internal_event-Conserves w a now (message_complete text parent p) =
      Conserves-trans r a _ _ (extract-Conserves a (message_complete text parent p))
        (accumulate-Conserves (extract a (message_complete text parent p)) text parent)
  internal_event-Conserves w a now (run_state s code error) =
      (end_turn_and_dispatch-Safe r w a now).conserves
  internal_event-Conserves w a now ev = Conserves-refl r a

  no_internal : (a : SessionActor) → Inv a → is_internal_turn a ≡ false
  no_internal a v = ground (arith, v.origin)

  hidden-Safe :
      (w : Wire) (a : SessionActor) (now : ℕ) (ev : BusEvent) (hidden : Bool)
      → is_internal_turn a ≡ hidden
      → Safe r a (user_event w a now ev)
      → Safe r a (if hidden then internal_event w a now ev else user_event w a now ev)
  hidden-Safe w a now ev true e s = record {
    inv = λ v. ground (arith, no_internal a v);
    conserves = internal_event-Conserves w a now ev;
  }
  hidden-Safe w a now ev false e s = s

  handle_events-Safe :
      (w : Wire) (a : SessionActor) (now : ℕ) (evs : List BusEvent)
      → Safe r a (handle_events w a now evs)
  unfolding handle_events handle_event
  handle_events-Safe w a now [] = Safe-refl r a
  handle_events-Safe w a now (ev ∷ evs) =
      Safe-trans r a (handle_event w a now ev) _
        (if-Safe r (is_valid_event ev) a _ _
          (hidden-Safe w a now ev (is_internal_turn a) refl (user_event-Safe r w a now ev))
          (count_invalid-Safe r a))
        (handle_events-Safe w (handle_event w a now ev) now evs)

  mapped-Safe : (w : Wire) (a : SessionActor) (j : Json) → Safe r a (mapped w a j).0
  mapped-Safe w a j = Frame-Safe r a _ (ground arith)

  route-Safe :
      (w : Wire)
      → (a : SessionActor) (now : ℕ) (parsed : Json) (t : String)
      → Safe r a (route w a now parsed t)
  unfolding route
  route-Safe w a now parsed t =
      let b = (mapped w a parsed).0 in
      let evs = (mapped w a parsed).1 in
      let inside = handle_control_event_internal-Safe r a parsed t in
      if-Safe r a.quarantine_until_result a _ _
        (if-Safe r (is_control t) a _ _ inside
          (Safe-trans r a b _ (mapped-Safe w a parsed) (quarantine_events-Safe r w b now evs)))
        (if-Safe r (is_control t) a _ _
          (if-Safe r (is_internal_turn a) a _ _ inside (handle_control_event-Safe r a now parsed t))
          (Safe-trans r a b _ (mapped-Safe w a parsed) (handle_events-Safe w b now evs)))

  unparsed-Safe : (a : SessionActor) (text : String) → Safe r a (unparsed a text)
  unfolding unparsed
  unparsed-Safe a text = record { inv = λ v. ground arith; conserves = ground arith }

  answer_waiter-Safe :
      (a : SessionActor) (o : Option (String × Json)) → Safe r a (answer_waiter a o)
  answer_waiter-Safe a none = Safe-refl r a
  answer_waiter-Safe a (some (id, value)) = record {
    inv = λ v. ground arith;
    conserves = ground arith;
  }

  keep_thread-Safe : (a : SessionActor) (o : Option String) → Safe r a (keep_thread a o)
  keep_thread-Safe a none = Safe-refl r a
  keep_thread-Safe a (some tid) = Frame-Safe r a _ (ground arith)

  open_gate-Safe : (w : Wire) (a : SessionActor) (now : ℕ) → Safe r a (open_gate w a now)
  unfolding open_gate
  open_gate-Safe w a now =
      let b = record a { codex_ready = true } in
      if-Safe r (not a.codex_ready && codex_opened a) a _ _
        (Safe-trans r a b _ (record { inv = λ v. ground arith; conserves = omega arith })
          (try_dispatch-Safe r w b now))
        (Safe-refl r a)

  emit_valid-Safe : (a : SessionActor) (evs : List BusEvent) → Safe r a (emit_valid a evs)
  emit_valid-Safe a [] = Safe-refl r a
  emit_valid-Safe a (ev ∷ evs) =
      Safe-trans r a _ _ (if-Safe r (is_valid_event ev) a _ _ (shown-Safe r a ev) (Safe-refl r a))
        (emit_valid-Safe (if is_valid_event ev then relay a ev else a) evs)

  track-Safe :
      (a : SessionActor) (now : ℕ) (o : Option PendingInteractive) → Safe r a (track a now o)
  track-Safe a now none = Safe-refl r a
  track-Safe a now (some p) = Frame-Safe r a _ (ground arith)

  idle_now-Safe :
      (a : SessionActor) (now : ℕ) (code : Option ℤ) (error : Option String)
      → Safe r a (idle_now a now code error)
  idle_now-Safe a now code error =
      let b = emit_state a now "idle" code error true in
      Safe-trans r a b _ (Frame-Safe r a b (emit_state-Frame a now "idle" code error true))
        (Frame-Safe r b _ (persist_idle_running-Frame b now RunStatus.idle))

  follow-Safe :
      (w : Wire) (a : SessionActor) (now : ℕ) (o : Option LifecycleSignal)
      → Safe r a (follow w a now o)
  unfolding follow
  follow-Safe w a now none = Safe-refl r a
  follow-Safe w a now (some turn_started) =
      Frame-Safe r a _ (emit_state-Frame a now "running" none none false)
  follow-Safe w a now (some turn_completed) =
      Safe-trans r a _ _ (idle_now-Safe a now (some (pos 0)) none)
        (end_turn_and_dispatch-Safe r w (idle_now a now (some (pos 0)) none) now)
  follow-Safe w a now (some (turn_failed error)) =
      Safe-trans r a _ _ (idle_now-Safe a now none error)
        (end_turn_and_dispatch-Safe r w (idle_now a now none error) now)

  codex_step-Safe :
      (w : Wire) (a : SessionActor) (now : ℕ) (server : CodexAppServer) (p : ParsedLine)
      → Safe r a (codex_step w a now (server, p))
  codex_step-Safe w a now server p =
      let a1 = record a { codex = some server } in
      let a2 = answer_waiter a1 p.control_response in
      let a3 = keep_thread a2 p.thread_id in
      let a4 = open_gate w a3 now in
      let a5 = emit_valid a4 p.events in
      Safe-trans r a a1 _ (Frame-Safe r a a1 (ground arith)) (
        Safe-trans r a1 a2 _ (answer_waiter-Safe a1 p.control_response) (
          Safe-trans r a2 a3 _ (keep_thread-Safe a2 p.thread_id) (
            Safe-trans r a3 a4 _ (open_gate-Safe w a3 now) (
              Safe-trans r a4 a5 _ (emit_valid-Safe a4 p.events) (
                Safe-trans r a5 _ _ (track-Safe a5 now p.interactive)
                  (follow-Safe w (track a5 now p.interactive) now p.lifecycle))))))

  codex_line-Safe :
      (w : Wire)
      → (a : SessionActor) (now : ℕ) (server : CodexAppServer) (text : String)
      → Safe r a (handle_codex_line w a now server text)
  unfolding handle_codex_line
  codex_line-Safe w a now server text =
      let out = parse_line w.to_string server (w.from_str text) in
      Safe-trans r a _ _ (touch-Safe r a now) (codex_step-Safe w (touch a now) now (out.0) (out.1))

  claude_line-Safe :
      (w : Wire)
      → (a : SessionActor) (now : ℕ) (text : String) (o : Option Json)
      → Safe r a (elim o [ none ↦ unparsed a text | some parsed ↦ handle_parsed w a now parsed ])
  claude_line-Safe w a now text none = unparsed-Safe a text
  claude_line-Safe w a now text (some parsed) =
      Safe-trans r a _ _ (touch-Safe r a now)
        (route-Safe w (touch a now) now parsed (unwrap_or "" (get_str "type" parsed)))

  line-Safe :
      (w : Wire)
      → (a : SessionActor) (now : ℕ) (text : String) (o : Option CodexAppServer)
      → Safe r a (elim o [
        | some server ↦ handle_codex_line w a now server text
        | none ↦ elim (w.from_str text) [
          | none ↦ unparsed a text
          | some parsed ↦ handle_parsed w a now parsed
        ]
      ])
  line-Safe w a now text (some server) = codex_line-Safe w a now server text
  line-Safe w a now text none = claude_line-Safe w a now text (w.from_str text)

  pub handle_stdout_line-Safe :
      (w : Wire)
      → (a : SessionActor) (now : ℕ) (line : String) → Safe r a (handle_stdout_line w a now line)
  unfolding handle_stdout_line
  handle_stdout_line-Safe w a now line =
      if-Safe r (str_eq (trim line) "") a _ _ (Safe-refl r a)
        (line-Safe w a now (trim line) a.codex)
