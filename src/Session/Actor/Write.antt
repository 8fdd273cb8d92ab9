-- ===== src/Session/Actor/Write.antt =====
-- What the actor writes to the child's stdin.
use Prim.Native.String
use text.Mathlib.Text.{starts_with}
use open_covibe_web.Common.{
  ◌+◌, String, Bool, true, false, none, some, List, [], ◌∷◌, if◌then◌else◌, Option,
}
use open_covibe_web.Models.Json.{num, Json, str, object}
use open_covibe_web.Codex.Protocol.{CodexSkillRef}
use open_covibe_web.Codex.Server.{frame_user_turn, CodexAppServer}
use open_covibe_web.Session.Turn.{AttachmentData}
use open_covibe_web.Session.Actor.State.{
  Reply, ok, err, Line, user_payload, json, wrote, SessionActor, Wire, note,
}

abbrev cat : String → String → String
cat s t = String.◌++◌ s t

-- Write a line and flush. A failed flush is an error only where the caller says so.
unfoldable pub write_line : SessionActor → String → Bool → Line → SessionActor × Reply
write_line a label strict line = elim a.stdin [
  | none ↦ (a, err "stdin closed")
  | some p ↦
      let b = record a { stdin = some (record p { writes = p.writes + 1 }) } in
      elim (p.write_error p.writes) [
        | some e ↦ (b, err (cat label (cat " write failed: " e)))
        | none ↦ (
          note b (wrote line),
          elim (p.flush_error p.writes) [
            | none ↦ ok
            | some e ↦ if strict then err (cat label (cat " flush failed: " e)) else ok
          ],
        )
      ]
]

abbrev pub write_json_line : SessionActor → String → Json → SessionActor × Reply
write_json_line a context payload = write_line a context false (json payload)

-- `for line in &lines { self.write_json_line(line, context).await?; }`
unfoldable pub write_frames : SessionActor → String → List Json → SessionActor × Reply
write_frames a context [] = (a, ok)
write_frames a context (l ∷ ls) =
    let next = write_json_line a context l in
    elim (next.1) [ ok ↦ write_frames (next.0) context ls | err e ↦ (next.0, err e) ]

-- The loop over the attachments of a Codex turn: image paths and breadcrumbs.
abbrev collect : Wire → List AttachmentData → List String × List String
collect w [] = ([], [])
collect w (att ∷ rest) =
    let later = collect w rest in
    elim (w.save_attachment att) [
      | none ↦ later
      | some f ↦ (
        (if starts_with att.media_type "image/" then f.path ∷ later.0 else later.0),
        cat "- " (
              cat att.filename (
                cat " (" (
                  cat att.media_type
                    (cat ", " (cat (w.to_string (num f.size)) (cat " bytes) => " f.path))))))
            ∷ later.1,
      )
    ]

abbrev join_lines : List String → String
join_lines [] = ""
join_lines (s ∷ rest) = elim rest [ [] ↦ s | _ ↦ cat s (cat "\n" (join_lines rest)) ]

abbrev augmented : String → List String → String
augmented text [] = text
augmented text (f ∷ files) = cat text (
    cat "\n\nAttached files:\n"
      (cat (join_lines (f ∷ files)) "\nUse these local file paths directly when needed."))

unfoldable pub write_user_via :
    Wire
    → SessionActor
    → String
    → List AttachmentData
    → List CodexSkillRef
    → Option CodexAppServer
    → SessionActor × Reply
write_user_via w a text attachments skills none =
    write_line a "stdin" true (user_payload text attachments)
write_user_via w a text attachments skills (some server) =
    let files = collect w attachments in
    let framed =
      frame_user_turn server (augmented text (files.1)) (files.0) skills a.codex_overrides in
    write_frames (record a { codex = some (framed.0) }) "codex turn/start" (framed.1)

-- The driver, if there is one, frames the message.
unfoldable pub write_user_to_stdin :
    Wire → SessionActor → String → List AttachmentData → List CodexSkillRef → SessionActor × Reply
write_user_to_stdin w a text attachments skills = write_user_via w a text attachments skills a.codex

-- The request that asks the CLI to stop; `id` is a fresh one.
abbrev pub interrupt_request : String → Json
interrupt_request id = object (
    ("type", str "control_request")
    ∷ ("request_id", str id)
    ∷ ("request", object (("subtype", str "interrupt") ∷ []))
    ∷ [])

unfoldable pub send_interrupt_to_cli : SessionActor → String → SessionActor
send_interrupt_to_cli a id = (write_json_line a "quarantine interrupt" (interrupt_request id)).0
