-- ===== src/Session/Attachments.antt =====
-- src-tauri/src/agent/session_actor.rs: what goes to the CLI for a user's message with attachments,
-- and the names under which these are saved. A slice of a text at a place inside a character is a
-- panic, here `none`.
pub mod Names
use Prim.Native.Char.{Char, code}
use Prim.Native.String
use Prim.Native.String.{len}
use text.Mathlib.Text.{starts_with}
use open_covibe_web.Common.{
  ℕ, ◌+◌, ◌-◌, ◌*◌, ◌/◌, ◌^◌, String, str_eq, Bool, true, false, ◌||◌, Option, none, some, List, [],
  ◌∷◌, ◌++◌, ◌==◌, if◌then◌else◌, leb, ltb, any, map, concat, bytes_of, byte_len,
}
use open_covibe_web.Models.Json.{Json, str, array, object}
use open_covibe_web.Session.Turn.{AttachmentData}

-- `char::is_alphanumeric`.
abbrev pub Alphanumeric : Type 0
Alphanumeric = ℕ → Bool

abbrev pub is_safe : Alphanumeric → ℕ → Bool
is_safe alnum c = alnum c || c == 46 || c == 95 || c == 45

abbrev pub cleaned : Alphanumeric → String → String
cleaned alnum String.[] = String.[]
cleaned alnum (String.◌∷◌ c s) =
    let rest = cleaned alnum s in
    if is_safe alnum (code c) then String.◌∷◌ c rest else String.◌∷◌ "_" rest

abbrev pub with_char : Char → Option String → Option String
with_char c none = none
with_char c (some t) = some (String.◌∷◌ c t)

-- `&s[..n]`.
abbrev pub prefix_of : ℕ → String → Option String
prefix_of n String.[] = if n == 0 then some String.[] else none
prefix_of n (String.◌∷◌ c s) =
    let k = bytes_of (code c) in
    let rest = prefix_of (n - k) s in
    if n == 0 then some String.[] else if leb k n then with_char c rest else none

abbrev pub truncated : String → Option String
truncated s = if ltb 120 (byte_len s) then prefix_of 120 s else some s

abbrev pub or_named : Option String → Option String
or_named none = none
or_named (some s) = if str_eq s "" then some "attachment.bin" else some s

unfoldable pub att_safe_filename : Alphanumeric → String → Option String
att_safe_filename alnum name = or_named (truncated (cleaned alnum name))

abbrev pub att_extension : String → String
att_extension mime =
    if starts_with mime "image/png"
    then ".png"
    else if starts_with mime "image/jpeg"
    then ".jpg"
    else if starts_with mime "image/webp"
    then ".webp"
    else if starts_with mime "image/gif"
    then ".gif"
    else if starts_with mime "application/pdf"
    then ".pdf"
    else ""

abbrev pub allowed_image_types : List String
allowed_image_types = "image/png" ∷ "image/jpeg" ∷ "image/webp" ∷ "image/gif" ∷ []

abbrev pub allowed_doc_types : List String
allowed_doc_types = "application/pdf" ∷ []

abbrev pub max_attachment_size : String → ℕ
max_attachment_size mime =
    if any (starts_with mime) allowed_image_types
    then 2 ^ 64 - 1
    else if any (str_eq mime) allowed_doc_types
    then 20971520
    else 10485760

abbrev pub raw_size : AttachmentData → ℕ
raw_size att = byte_len att.content_base64 * 3 / 4

abbrev pub is_oversized : AttachmentData → Bool
is_oversized att = ltb (max_attachment_size att.media_type) (raw_size att)

abbrev pub part : String → AttachmentData → Json
part kind att = object (
    ("type", str kind)
    ∷ (
      "source",
      object (
          ("type", str "base64")
          ∷ ("media_type", str att.media_type)
          ∷ ("data", str att.content_base64)
          ∷ []),
    )
    ∷ [])

-- An attachment as a part of the message, if its type is allowed.
abbrev pub part_of : AttachmentData → List Json
part_of att =
    if any (str_eq att.media_type) allowed_doc_types
    then part "document" att ∷ []
    else if any (str_eq att.media_type) allowed_image_types
    then part "image" att ∷ []
    else []

abbrev pub path_list : Option String → List String
path_list none = []
path_list (some path) = path ∷ []

-- The parts of the attachments that are not too large, and where those were saved, by
-- `save_attachment_to_disk`.
abbrev pub parts_of :
    (AttachmentData → Option String) → List AttachmentData → List Json × List String
parts_of save [] = ([], [])
parts_of save (att ∷ atts) =
    let later = parts_of save atts in
    if is_oversized att then later else (part_of att ++ later.0, path_list (save att) ++ later.1)

abbrev pub listing : List String → String
listing [] = ""
listing (path ∷ []) = concat ("- " ∷ path ∷ [])
listing (path ∷ next ∷ paths) = concat ("- " ∷ path ∷ "\n" ∷ listing (next ∷ paths) ∷ [])

abbrev pub augmented : String → List String → String
augmented text [] = text
augmented text (path ∷ paths) = concat (
    text
    ∷ "\n\n[Attached files saved at:\n"
    ∷ listing (path ∷ paths)
    ∷ "\nUse these file paths with the Read tool if you need to access them later.]"
    ∷ [])

abbrev pub content_of : (AttachmentData → Option String) → String → List AttachmentData → Json
content_of save text [] = str text
content_of save text (att ∷ atts) =
    let out = parts_of save (att ∷ atts) in
    array (object (("type", str "text") ∷ ("text", str (augmented text (out.1))) ∷ []) ∷ out.0)

-- The payload under a new id.
unfoldable pub build_user_payload :
    (AttachmentData → Option String)
    → (uuid : String) → String
    → List AttachmentData
    → Json × String
build_user_payload save uuid text atts = (
  object (
      ("type", str "user")
      ∷ ("uuid", str uuid)
      ∷ ("message", object (("role", str "user") ∷ ("content", content_of save text atts) ∷ []))
      ∷ []),
  uuid,
)
