-- ===== src/Session/Tests/Codex.antt =====
-- Examples of a Codex session.
use open_covibe_web.Common.{◌+◌, some, [], ◌∷◌, ◌≡◌, refl, false, arith}
use open_covibe_web.Models.Json.{Json, num, str, object}
use open_covibe_web.Codex.Server.{frame_tracked, CodexAppServer, new}
use open_covibe_web.Session.Actor.{SessionActor, Wire, write_frames, write_line}
use open_covibe_web.Session.CodexControl.{handle_codex_control, ask_for_data}
use open_covibe_web.Session.CodexControl.Once.{handled, handle_codex_control-once}
use open_covibe_web.Session.Stdout.{handle_codex_line}
use open_covibe_web.Session.Stdout.Opening.{handle_codex_line-refused}
use open_covibe_web.Session.Tests.{an_actor, a_wire}

abbrev opened : CodexAppServer
opened = record new { thread_id = some "t" }

handle_codex_control-once_example :
    handled "r" (handle_codex_control an_actor opened "r" "skills_list" (object [])).0
    ≡ handled "r" an_actor + 1
unfolding an_actor handle_codex_control ask_for_data write_frames write_line frame_tracked
handle_codex_control-once_example =
    handle_codex_control-once an_actor opened "r" "skills_list" (object []) refl

abbrev refusal : Json
refusal = object (("id", num 2) ∷ ("error", str "no such thread") ∷ [])

abbrev refusing : Wire
refusing = record a_wire { from_str = λ s. some refusal }

abbrev shut : SessionActor
shut = record an_actor { codex_ready = false }

handle_codex_line-refused_example :
    let b = handle_codex_line refusing shut 10 new "line" in
    (b.queued_user ≡ shut.queued_user) × (b.codex_ready ≡ false) × (b.log ≡ shut.log)
handle_codex_line-refused_example =
    handle_codex_line-refused refusing shut 10 new "line" refusal (str "no such thread")
      (ground arith) refl refl refl refl refl refl
