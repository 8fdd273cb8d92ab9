-- ===== src/Session/CodexControl/Once.antt =====
-- A control request of a Codex session is answered once: at once, or by the server.
use open_covibe_web.Common.{
  ℕ, ◌+◌, String, str_eq, Bool, true, false, Option, none, some, List, [], ◌∷◌, ◌≡◌, refl, arith,
  if◌then◌else◌, inl, inr, eq_refl, ◌∙◌,
}
use open_covibe_web.Models.Json.{Json, get_str, get_u64}
use open_covibe_web.Codex.Protocol.{CodexTurnOverrides}
use open_covibe_web.Codex.Server.{CodexAppServer, frame_interrupt}
use open_covibe_web.Codex.Requests.{frame_compact, frame_goal_set, frame_goal_clear, frame_steer}
use open_covibe_web.Session.Actor.{
  Reply, ok, err, Effect, resolved, Line, json, SessionActor, write_line, write_frames,
}
use open_covibe_web.Session.Frame.{Reply-cases}
use open_covibe_web.Session.CodexControl.{
  data_frames, ask_for_data, acked, send_frames, set_override, set_mode, steer, handle_local,
  handle_framed, handle_codex_control,
}

-- How often the id was answered.
abbrev pub resolutions : String → List Effect → ℕ
resolutions id [] = 0
resolutions id (resolved other v ∷ log) = (if str_eq other id then 1 else 0) + resolutions id log
resolutions id (e ∷ log) = resolutions id log

-- How many waiters it has.
abbrev pub waiters : String → List String → ℕ
waiters id [] = 0
waiters id (w ∷ ws) = (if str_eq w id then 1 else 0) + waiters id ws

abbrev pub handled : String → SessionActor → ℕ
handled id a = resolutions id a.log + waiters id a.control_waiters

write_line-handled :
    (id : String) (a : SessionActor) (label : String) (strict : Bool) (l : Line)
    → handled id (write_line a label strict l).0 ≡ handled id a
unfolding write_line
write_line-handled id a label strict l = ground arith

write_frames-handled :
    (id : String) (a : SessionActor) (context : String) (ls : List Json)
    → handled id (write_frames a context ls).0 ≡ handled id a
unfolding write_frames
write_frames-handled id a context [] = refl
write_frames-handled id a context (l ∷ ls) =
    let next = write_line a context false (json l) in
    let first = write_line-handled id a context false (json l) in
    elim (Reply-cases (next.1)) [
      | inl e ↦ rw (e, write_frames) (write_frames-handled id (next.0) context ls ∙ first)
      | inr (m, e) ↦ rw (e, write_frames) first
    ]

-- One more, if the call succeeds.
record Handles (id : String) (a : SessionActor) (out : SessionActor × Reply) : Type 0 where
  once : out.1 ≡ ok → handled id (out.0) ≡ handled id a + 1

Handles-if :
    (c : Bool) (id : String) (a : SessionActor) (x y : SessionActor × Reply)
    → Handles id a x
    → Handles id a y
    → Handles id a (if c then x else y)
Handles-if true id a x y s t = s
Handles-if false id a x y s t = t

acked-Handles :
    (id : String) (a : SessionActor) (out : SessionActor × Reply)
    → handled id (out.0) ≡ handled id a
    → Handles id a (acked id out)
acked-Handles id a (b, ok) e = record { once = λ o. ground (arith, eq_refl id) }
acked-Handles id a (b, err m) e = record { once = λ o. ground arith }

send_frames-Handles :
    (a : SessionActor) (id context : String) (framed : CodexAppServer × List Json)
    → Handles id a (send_frames a id context framed)
send_frames-Handles a id context (s, ls) =
    let b = record a { codex = some s } in
    acked-Handles id a (write_frames b context ls) (write_frames-handled id b context ls)

written-Handles :
    (id : String) (a : SessionActor) (out : SessionActor × Reply)
    → handled id (out.0) ≡ handled id a + 1
    → Handles id a out
written-Handles id a (b, ok) e = record { once = λ o. e }
written-Handles id a (b, err m) e = record { once = λ o. ground arith }

ask_for_data-Handles :
    (a : SessionActor) (id : String) (framed : (CodexAppServer × List Json) × String)
    → Handles id a (ask_for_data a id framed)
unfolding ask_for_data
ask_for_data-Handles a id ((s, []), context) = record { once = λ o. ground (arith, eq_refl id) }
ask_for_data-Handles a id ((s, l ∷ ls), context) =
    let b = record a { codex = some s; control_waiters = id ∷ a.control_waiters } in
    written-Handles id a (write_frames b context (l ∷ ls))
      (ground (arith, write_frames-handled id b context (l ∷ ls), eq_refl id))

set_override-Handles :
    (a : SessionActor) (id : String) (change : String → CodexTurnOverrides) (o : Option String)
    → Handles id a (set_override a id change o)
set_override-Handles a id change none = acked-Handles id a (a, ok) refl
set_override-Handles a id change (some v) =
    acked-Handles id a (record a { codex_overrides = change v }, ok) refl

steer-Handles :
    (a : SessionActor) (s : CodexAppServer) (id : String) (o : Option String)
    → Handles id a (steer a s id o)
steer-Handles a s id none = acked-Handles id a (a, ok) refl
steer-Handles a s id (some text) = send_frames-Handles a id "codex turn/steer" (frame_steer s text)

local-Handles :
    (a : SessionActor) (s : CodexAppServer) (id subtype : String) (request : Json)
    → Handles id a (handle_local a s id subtype request)
unfolding handle_local
local-Handles a s id subtype request =
    let o = a.codex_overrides in
    Handles-if _ id a _ _ (send_frames-Handles a id "codex turn/interrupt" (frame_interrupt s)) (
      Handles-if _ id a _ _ (set_override-Handles a id (set_mode o) (get_str "mode" request)) (
        Handles-if _ id a _ _
          (set_override-Handles a id (λ v. record o { model = some v }) (get_str "model" request))
          (Handles-if _ id a _ _
            (set_override-Handles a id (λ v. record o { effort = some v })
              (get_str "effort" request))
            (Handles-if _ id a _ _ (steer-Handles a s id (get_str "text" request)) (
              Handles-if _ id a _ _
                (send_frames-Handles a id "codex thread/compact/start" (frame_compact s id))
                (Handles-if _ id a _ _
                  (send_frames-Handles a id "codex thread/goal/set" (
                    frame_goal_set s id (get_str "objective" request) (get_str "status" request)
                      (get_u64 "token_budget" request)))
                  (Handles-if _ id a _ _
                    (send_frames-Handles a id "codex thread/goal/clear" (frame_goal_clear s id))
                    (acked-Handles id a (a, ok) refl))))))))

framed-Handles :
    (a : SessionActor) (s : CodexAppServer) (id subtype : String) (request : Json)
    (o : Option ((CodexAppServer × List Json) × String))
    → Handles id a (handle_framed a s id subtype request o)
framed-Handles a s id subtype request (some framed) = ask_for_data-Handles a id framed
framed-Handles a s id subtype request none = local-Handles a s id subtype request

-- A control request of a Codex session that succeeds is either answered by then or has a waiter, and
-- not both: answers and waiters of its id together are one more than before.
pub handle_codex_control-once :
    (a : SessionActor) (s : CodexAppServer) (id subtype : String) (request : Json)
    → (handle_codex_control a s id subtype request).1 ≡ ok
    → handled id (handle_codex_control a s id subtype request).0 ≡ handled id a + 1
unfolding handle_codex_control
handle_codex_control-once a s id subtype request e =
    (framed-Handles a s id subtype request (data_frames s id subtype request)).once e
