-- ===== src/Codex/Pipe/Tests.antt =====
-- Examples of lines of `codex exec`.
use open_covibe_web.Common.{ℕ, String, none, [], ◌∷◌, refl, Option}
use open_covibe_web.Models.Json.{Json, str, object}
use open_covibe_web.Codex.Items.{command}
use open_covibe_web.Codex.Pipe.{CodexStdoutParser, parse_stdout}
use open_covibe_web.Codex.Pipe.Cards.{SameCard, parse_stdout-card}

abbrev show : ℕ → String
show n = "1"

abbrev read : String → Option Json
read s = none

abbrev a_parser : CodexStdoutParser
a_parser = record { process_seq = 1; turn_counter = 1 }

abbrev a_command : Json
a_command =
    object (("type", str "command_execution") ∷ ("id", str "i") ∷ ("command", str "ls") ∷ [])

abbrev a_start : Json
a_start = object (("type", str "item.started") ∷ ("item", a_command) ∷ [])

abbrev an_end : Json
an_end = object (("type", str "item.completed") ∷ ("item", a_command) ∷ [])

parse_stdout-card_example :
    let started = parse_stdout show read a_parser a_start in
    let completed = parse_stdout show read (started.0) an_end in SameCard (started.1) (completed.1)
parse_stdout-card_example =
    parse_stdout-card show read a_parser a_start an_end a_command a_command command refl refl refl
      refl refl refl refl refl refl
