-- ===== src/Session/Ralph.antt =====
-- src-tauri/src/agent/session_actor.rs: the state of a Ralph loop, and what the end of a turn does
-- to it. The loop sends one prompt again and again, until it is done, cancelled or failing.
use Prim.Native.String.{slice}
use text.Mathlib.Text.{find?}
use open_covibe_web.Common.{
  ℕ, ◌+◌, ◌*◌, String, str_eq, Bool, true, false, ◌&&◌, Option, none, some, List, [], ltb, leb, any,
  if◌then◌else◌, trim,
}
use open_covibe_web.Models.{RalphCompleteReason, cancelled, fail_stopped}
use open_covibe_web.Session.Turn.{TurnOrigin, user, internal, ralph}

-- The content of `<promise>…</promise>`, trimmed. Offsets count bytes.
unfoldable pub extract_promise_tag : String → Option String
unfolding trim
extract_promise_tag text = elim (find? text "<promise>") [
  | none ↦ none
  | some start ↦ elim (find? text "</promise>") [
    | none ↦ none
    | some end ↦ if leb end (start + 9) then none else some (trim (slice text (start + 9) end))
  ]
]

pub data RalphPhase : Type 0 where
  running waiting_retry cancel_pending : RalphPhase
  paused_by_user : (was : RalphPhase) → RalphPhase

abbrev pub is_cancel_pending : RalphPhase → Bool
is_cancel_pending cancel_pending = true
is_cancel_pending running = false
is_cancel_pending waiting_retry = false
is_cancel_pending (paused_by_user was) = false

pub record RalphLoopState : Type 0 where
  pub prompt : String
  pub phase : RalphPhase
  pub iteration : ℕ
  pub max_iterations : ℕ
  pub completion_promise : Option String
  pub started_at : ℕ
  pub consecutive_failures : ℕ
  pub max_consecutive_failures : ℕ
  pub retry_after : Option ℕ
  pub turn_toplevel_texts : List String

-- The loop that `StartRalphLoop` sets up.
unfoldable pub start : String → ℕ → Option String → ℕ → RalphLoopState
start prompt max promise now = record {
  prompt = prompt;
  phase = running;
  iteration = 0;
  max_iterations = max;
  completion_promise = promise;
  started_at = now;
  consecutive_failures = 0;
  max_consecutive_failures = 3;
  retry_after = none;
  turn_toplevel_texts = [];
}

pub data RalphAction : Type 0 where
  complete : RalphCompleteReason → RalphAction
  emit_iteration : (iteration : ℕ) → (max_iterations : ℕ) → RalphAction
  -- The backoff is in milliseconds.
  set_waiting_retry : (backoff : ℕ) → RalphAction
  resume_from : RalphPhase → RalphAction
  noop : RalphAction

-- Whether a text of the turn holds the promised tag.
abbrev promised : String → String → Bool
promised promise text = elim (extract_promise_tag text) [
  | none ↦ false
  | some found ↦ str_eq found promise
]

-- The natural end of a loop whose turn went well.
unfoldable pub natural_reason : RalphLoopState → Option RalphCompleteReason
natural_reason r =
    if ltb 0 r.max_iterations && leb r.max_iterations r.iteration
    then some RalphCompleteReason.max_iterations
    else elim r.completion_promise [
      | none ↦ none
      | some promise ↦
          if any (promised promise) r.turn_toplevel_texts
          then some RalphCompleteReason.completion_promise
          else none
    ]

abbrev pub fail_count : RalphLoopState → RalphLoopState
fail_count r = record r { consecutive_failures = r.consecutive_failures + 1 }

abbrev pub failure_action : RalphLoopState → RalphAction
failure_action r =
    if leb r.max_consecutive_failures r.consecutive_failures
    then complete fail_stopped
    else set_waiting_retry (2000 * r.consecutive_failures)

abbrev pub success_action : Bool → Option RalphCompleteReason → RalphLoopState → RalphAction
success_action cancel (some reason) r = complete reason
success_action cancel none r =
    if cancel then complete cancelled else emit_iteration r.iteration r.max_iterations

abbrev pub count_iteration : RalphLoopState → RalphLoopState
count_iteration r = record r { consecutive_failures = 0; iteration = r.iteration + 1 }

abbrev pub resume_action : RalphPhase → RalphAction
resume_action (paused_by_user was) = resume_from was
resume_action running = noop
resume_action waiting_retry = noop
resume_action cancel_pending = noop

-- Step 1 of `ralph_on_turn_end`: the counted loop and the action to take.
unfoldable pub turn_end : RalphLoopState → TurnOrigin → Bool → RalphLoopState × RalphAction
turn_end r ralph true =
    if is_cancel_pending r.phase
    then (r, complete cancelled)
    else (fail_count r, failure_action (fail_count r))
turn_end r ralph false =
    let done = count_iteration r in
    (done, success_action (is_cancel_pending r.phase) (natural_reason done) done)
turn_end r (user k) failed = (r, resume_action r.phase)
turn_end r (internal k) failed = (r, noop)
