-- ===== src/Codex/Tests/Lines.antt =====
-- Lines of the Codex server.
use open_covibe_web.Common.{String, none, some, [], ◌∷◌, ◌≡◌, refl, arith}
use open_covibe_web.Models.Json.{Json, num, str, object}
use open_covibe_web.Codex.Protocol.{StartupCtx}
use open_covibe_web.Codex.Server.{frame_tracked, new, startup_messages}
use open_covibe_web.Codex.Parse.{parse_line, reply_value}
use open_covibe_web.Codex.Parse.Driver.{DriverOk}
use open_covibe_web.Codex.Parse.Replies.{
  tracked, interrupt, line, calls, calls-DriverOk, frame_tracked-reply,
}
use open_covibe_web.Codex.Tests.{a_server}

abbrev print : Json → String
print v = "v"

abbrev a_start : StartupCtx
a_start = record {
  cwd = "/";
  resume_thread_id = some "t";
  approval_policy = none;
  sandbox = none;
  model = none;
  model_provider = none;
  effort = none;
  add_dirs = [];
}

abbrev a_reply : Json
a_reply = object (("id", num 3) ∷ ("result", str "done") ∷ [])

calls-DriverOk_example : DriverOk (
    calls print
      (startup_messages "1" new a_start).0
      (tracked "r" "thread/fork" [] ∷ interrupt ∷ line (some a_reply) ∷ []))
calls-DriverOk_example =
    calls-DriverOk print "1" a_start
      (tracked "r" "thread/fork" [] ∷ interrupt ∷ line (some a_reply) ∷ [])

frame_tracked-reply_example :
    let later =
      calls print
        (frame_tracked a_server "r" "thread/fork" []).0
        (tracked "q" "skills/list" [] ∷ line none ∷ []) in
    let replied = parse_line print later (some a_reply) in
    ((replied.1).control_response ≡ some ("r", reply_value a_reply))
    × (((parse_line print (replied.0) (some a_reply)).1).control_response ≡ none)
frame_tracked-reply_example =
    frame_tracked-reply print a_server "t" "r" "thread/fork" []
      (tracked "q" "skills/list" [] ∷ line none ∷ []) a_reply (ground arith) refl (refl, tt) refl
      refl

abbrev an_approval : Json
an_approval = object (("id", num 9) ∷ ("method", str "execCommandApproval") ∷ [])
