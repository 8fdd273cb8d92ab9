-- ===== src/Session/Tests/Steps.antt =====
-- Single steps of a session.
use open_covibe_web.Common.{trim, str_eq, ◌∷◌, none, some, [], ◌≡◌, refl, true, false, arith}
use open_covibe_web.Session.Turn.{ralph}
use open_covibe_web.Session.Ralph.{RalphLoopState, running}
use open_covibe_web.Session.Actor.{wrote, json, interrupt_request, SessionActor}
use open_covibe_web.Session.Stdout.{handle_parsed, handle_stdout_line}
use open_covibe_web.Session.Stdout.Deadline.{Runs, handle_stdout_line-on_tick_timeout}
use open_covibe_web.Session.Stdout.Results.Loops.{handle_cancel_ralph-handle_parsed}
use open_covibe_web.Session.Stdout.Results.Retries.{InLoop, failed_once, handle_parsed-failed}
use open_covibe_web.Models.Json.{Json, str, object}
use open_covibe_web.Claude.{map_event}
use open_covibe_web.Session.Timeout.{on_tick_timeout}
use open_covibe_web.Session.Timeout.Quarantine.{on_tick_timeout-waits, on_tick_timeout-kills}
use open_covibe_web.Session.Stderr.{strip_ansi}
use open_covibe_web.Session.Stderr.Plain.{Plain, strip_ansi-Plain}
use open_covibe_web.Session.Loop.{handle_cancel_ralph}
use open_covibe_web.Session.Tests.{a_pipe, an_actor, a_wire, a_turn}

abbrev busy : SessionActor
busy = record an_actor { active_turn = some a_turn }

on_tick_timeout-waits_example :
    let b = on_tick_timeout a_wire (on_tick_timeout a_wire busy 1800000 "i") 1805000 "j" in
    (b.active_turn ≡ none)
    × (b.quarantine_until_result ≡ true)
    × (b.log ≡ wrote (json (interrupt_request "j")) ∷ [])
    × (on_tick_timeout a_wire b 1810000 "k" ≡ b)
unfolding an_actor
on_tick_timeout-waits_example =
    on_tick_timeout-waits a_wire busy a_turn a_pipe 1800000 1805000 1810000 "i" "j" "k" refl refl
      refl refl refl (omega arith) (omega arith)

on_tick_timeout-kills_example :
    let b =
      on_tick_timeout a_wire
        (on_tick_timeout a_wire (on_tick_timeout a_wire busy 1800000 "i") 1805000 "j")
        1815000
        "k" in
    (b.terminated ≡ true) × (b.queued_user ≡ []) × (b.active_turn ≡ none)
unfolding an_actor
on_tick_timeout-kills_example =
    on_tick_timeout-kills a_wire busy a_turn 1800000 1805000 1815000 "i" "j" "k" refl refl refl
      (omega arith) (omega arith)

strip_ansi-Plain_example :
    Plain (strip_ansi "\u{1b}[1mbold\u{1b}[0m")
    × (strip_ansi (strip_ansi "\u{1b}[1mbold\u{1b}[0m") ≡ strip_ansi "\u{1b}[1mbold\u{1b}[0m")
strip_ansi-Plain_example = strip_ansi-Plain "\u{1b}[1mbold\u{1b}[0m"

abbrev a_loop : RalphLoopState
a_loop = record {
  prompt = "go on";
  phase = running;
  iteration = 1;
  max_iterations = 4;
  completion_promise = some "DONE";
  started_at = 0;
  consecutive_failures = 0;
  max_consecutive_failures = 3;
  retry_after = none;
  turn_toplevel_texts = [];
}

abbrev looping : SessionActor
looping = record an_actor {
  active_turn = some (record a_turn { origin = ralph });
  ralph_loop = some a_loop;
}

abbrev a_failure : Json
a_failure = object (("type", str "result") ∷ ("subtype", str "error_during_execution") ∷ [])

handle_cancel_ralph-handle_parsed_example :
    (handle_parsed a_wire (handle_cancel_ralph looping 9) 20 a_failure).ralph_loop ≡ none
unfolding an_actor
handle_cancel_ralph-handle_parsed_example =
    handle_cancel_ralph-handle_parsed a_wire looping a_loop (record a_turn { origin = ralph }) 9 20
      a_failure refl refl refl refl refl

looping-InLoop : InLoop looping a_loop (record a_turn { origin = ralph })
unfolding an_actor
looping-InLoop = ground arith

handle_parsed-failed_example :
    let b = handle_parsed a_wire looping 20 a_failure in
    (b.active_turn ≡ none) × (b.ralph_loop ≡ failed_once a_loop 20)
unfolding an_actor
handle_parsed-failed_example =
    handle_parsed-failed a_wire looping a_loop (record a_turn { origin = ralph }) 20 a_failure refl
      refl looping-InLoop refl refl

busy-Runs : Runs busy a_turn
unfolding an_actor
busy-Runs = ground arith

noise : a_wire.from_str (trim "noise") ≡ some (str "noise")
unfolding trim
noise = refl

loud : str_eq (trim "noise") "" ≡ false
unfolding trim
loud = refl

handle_stdout_line-on_tick_timeout_example :
    let b = handle_stdout_line a_wire busy 1700000 "noise" in
    Runs b (record a_turn { hard_deadline = 3500000 }) × (on_tick_timeout a_wire b 3400000 "i" ≡ b)
unfolding an_actor map_event
handle_stdout_line-on_tick_timeout_example =
    handle_stdout_line-on_tick_timeout a_wire busy a_turn 1700000 3400000 "noise" "i" (str "noise")
      refl busy-Runs loud noise tt (omega arith)
