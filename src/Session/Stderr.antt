-- ===== src/Session/Stderr.antt =====
-- src-tauri/src/agent/session_actor.rs: a line of the child's stderr, shown without its colours.
pub mod Plain
use Prim.Native.Char.{code}
use open_covibe_web.Common.{
  ℕ, String, str_eq, Bool, true, false, ◌&&◌, none, some, leb, ◌==◌, if◌then◌else◌, trim,
}
use open_covibe_web.Models.{raw}
use open_covibe_web.Models.Json.{str}
use open_covibe_web.Session.Actor.{SessionActor, persist_and_emit}

-- Where the loop of `strip_ansi` stands: outside, after ESC, or inside a CSI sequence.
pub data Mode : Type 0 where
  plain escaped csi : Mode

abbrev pub is_escape : ℕ → Bool
is_escape c = c == 0x1b

unfoldable pub strip : Mode → String → String
strip plain String.[] = ""
strip plain (String.◌∷◌ c s) = elim (is_escape (code c)) [
  | true ↦ strip escaped s
  | false ↦ String.◌∷◌ c (strip plain s)
]
strip escaped String.[] = ""
strip escaped (String.◌∷◌ c s) = elim (code c == b'[') [
  | true ↦ strip csi s
  | false ↦ elim (is_escape (code c)) [
    | true ↦ strip escaped s
    | false ↦ String.◌∷◌ c (strip plain s)
  ]
]
strip csi String.[] = ""
strip csi (String.◌∷◌ c s) = elim (leb b'@' (code c) && leb (code c) b'~') [
  | true ↦ strip plain s
  | false ↦ strip csi s
]

unfoldable pub strip_ansi : String → String
unfolding strip
strip_ansi s = strip plain s

unfoldable pub handle_stderr_line : SessionActor → String → SessionActor
unfolding strip_ansi trim
handle_stderr_line a line =
    let text = trim line in
    if a.is_cancelled then a else if str_eq text "" then a else elim a.codex [
      | some server ↦ a
      | none ↦ persist_and_emit a (raw "claude_stderr" (str (strip_ansi text)))
    ]
