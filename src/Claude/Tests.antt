-- ===== src/Claude/Tests.antt =====
-- A short session: its start, a call of a tool, the answer to it, a line that nobody knows, and the
-- result.
use open_covibe_web.Common.{
  any, ◌+◌, String, false, some, List, [], ◌∷◌, ◌≡◌, refl, if◌then◌else◌, lookup,
}
use open_covibe_web.Models.Json.{Json, str, num, array, object}
use open_covibe_web.Claude.{Outside}
use open_covibe_web.Claude.State.{ProtocolState, new}
use open_covibe_web.Claude.Lines.{map_events, tally, says, starts, misnames, flag, knows}
use open_covibe_web.Claude.Lines.Ledger.{is_init, lines_of, map_events-states}
use open_covibe_web.Claude.Lines.Starts.{map_events-once, map_events-named}

abbrev an_outside : Outside
an_outside = record { fresh_id = λ v. "id"; dollars = λ n. num n }

abbrev message : String → Json → Json
message t block =
    object (("type", str t) ∷ ("message", object (("content", array (block ∷ [])) ∷ [])) ∷ [])

abbrev called : Json
called = object (("type", str "tool_use") ∷ ("id", str "t1") ∷ ("name", str "Bash") ∷ [])

abbrev answered : Json
answered = object (("type", str "tool_result") ∷ ("tool_use_id", str "t1") ∷ [])

abbrev a_session : List Json
a_session =
    object (("type", str "system") ∷ ("subtype", str "init") ∷ [])
    ∷ message "assistant" called
    ∷ message "assistant" called
    ∷ message "user" answered
    ∷ object (("type", str "surprise") ∷ [])
    ∷ object (("type", str "result") ∷ ("subtype", str "success") ∷ [])
    ∷ []

map_events-states_example :
    let out = map_events an_outside (new false) a_session in
    (tally (says "running") (out.1) ≡ (if false then 0 else flag (any is_init a_session)))
    × (tally (says "idle") (out.1) ≡ lines_of "result" a_session)
map_events-states_example = map_events-states an_outside false a_session

map_events-once_example :
    let out = map_events an_outside (new false) a_session in
    tally (starts "t1") (out.1) + flag (knows "t1" (new false)) ≡ flag (knows "t1" (out.0))
map_events-once_example =
    map_events-once an_outside (new false) "t1" a_session
      (refl, (refl, (refl, (refl, (refl, (refl, tt))))))

abbrev in_call : ProtocolState
in_call = record (new false) { emitted_tool_ids = ("t1", "Bash") ∷ [] }

in_call_name : lookup "t1" in_call.emitted_tool_ids ≡ some "Bash"
unfolding lookup
in_call_name = refl

map_events-named_example :
    let out = map_events an_outside in_call a_session in
    (lookup "t1" (out.0).emitted_tool_ids ≡ some "Bash")
    × (tally (misnames "t1" "Bash") (out.1) ≡ 0)
map_events-named_example =
    map_events-named an_outside in_call "t1" "Bash" a_session in_call_name
      (refl, (refl, (refl, (refl, (refl, (refl, tt))))))
