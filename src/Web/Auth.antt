-- ===== src/Web/Auth.antt =====
-- src-tauri/src/web_server/auth.rs and state.rs: the cookie sessions of the web server, and
-- src-tauri/src/commands/web_server.rs: the rotation of its token. Times are in seconds; each handler
-- is one step, as it holds the lock of the sessions.
pub mod Laws
pub mod Tests
use Prim.Native.Char.{code}
use Prim.Native.String
use open_covibe_web.Common.{
  ℕ, ◌+◌, ◌%◌, ◌^◌, String, str_eq, Bool, true, false, ◌&&◌, Option, none, some, List, [], ◌∷◌, ltb,
  leb, ◌==◌, if◌then◌else◌, is_some, trim, lookup, remove,
}

abbrev pub session_ttl : ℕ
session_ttl = 86400

pub record SessionEntry : Type 0 where
  pub issued_at : ℕ
  pub expires_at : ℕ
  pub token_version : ℕ

-- The part of `AppState` that concerns access.
pub record Access : Type 0 where
  pub token : String
  pub token_version : ℕ
  pub http_sessions : List (String × SessionEntry)

pub data WsAuthSubject : Type 0 where
  session : String → WsAuthSubject
  query_token : WsAuthSubject

-- The part before the first semicolon, and the parts after it.
abbrev pub split : String → String × List String
split String.[] = ("", [])
split (String.◌∷◌ c s) =
    let later = split s in
    if code c == 59 then ("", later.0 ∷ later.1) else (String.◌∷◌ c (later.0), later.1)

abbrev pub parts : String → List String
parts s = let found = split s in found.0 ∷ found.1

abbrev pub strip_prefix : String → String → Option String
strip_prefix String.[] s = some s
strip_prefix (String.◌∷◌ c p) String.[] = none
strip_prefix (String.◌∷◌ c p) (String.◌∷◌ d s) =
    let rest = strip_prefix p s in if code c == code d then rest else none

abbrev pub first_value : String → List String → Option String
first_value prefix [] = none
first_value prefix (part ∷ more) = elim (strip_prefix prefix (trim part)) [
  | some value ↦ some value
  | none ↦ first_value prefix more
]

-- `header` is the cookie header, if it is there and is text.
unfoldable pub extract_cookie : String → Option String → Option String
extract_cookie name none = none
extract_cookie name (some header) = first_value (String.◌++◌ name "=") (parts header)

abbrev pub is_valid : Access → ℕ → SessionEntry → Bool
is_valid s now e = ltb now e.expires_at && e.token_version == s.token_version

abbrev pub live : Access → ℕ → String → Bool
live s now id = elim (lookup id s.http_sessions) [ none ↦ false | some e ↦ is_valid s now e ]

-- The first part that names a live session.
abbrev pub live_part : Access → ℕ → List String → Option String
live_part s now [] = none
live_part s now (part ∷ more) =
    let rest = live_part s now more in
    elim (strip_prefix "session=" (trim part)) [
      | none ↦ rest
      | some id ↦ if live s now id then some id else rest
    ]

abbrev pub cookie_parts : Option String → List String
cookie_parts none = []
cookie_parts (some header) = parts header

abbrev pub token_matches : Access → Option String → Bool
token_matches s none = false
token_matches s (some given) = str_eq given s.token

unfoldable pub authenticate_ws : Access → ℕ → Option String → Option String → Option WsAuthSubject
authenticate_ws s now cookies query = elim (live_part s now (cookie_parts cookies)) [
  | some id ↦ some (session id)
  | none ↦ if token_matches s query then some query_token else none
]

-- The loop over the parts, with its early return.
abbrev pub any_live : Access → ℕ → List String → Bool
any_live s now [] = false
any_live s now (part ∷ more) =
    let rest = any_live s now more in
    elim (strip_prefix "session=" (trim part)) [
      | none ↦ rest
      | some id ↦ if live s now id then true else rest
    ]

unfoldable pub validate_ws_auth_extracted : Access → ℕ → Option String → Option String → Bool
validate_ws_auth_extracted s now cookies query =
    if any_live s now (cookie_parts cookies) then true else token_matches s query

-- `id` is the fresh id of the session.
unfoldable pub create_session_cookie : Access → ℕ → String → Access × String
create_session_cookie s now id = (
  record s {
    http_sessions =
        (
          id,
          record {
            issued_at = now;
            expires_at = now + session_ttl;
            token_version = s.token_version;
          },
        )
        ∷ remove id s.http_sessions;
  },
  String.◌++◌ "session=" (String.◌++◌ id "; HttpOnly; SameSite=Lax; Path=/; Max-Age=86400"),
)

pub data Answer : Type 0 where
  forbidden login_form proceed redirect_to_login : Answer
  -- The cookie that is set.
  authorized auto_login : String → Answer

unfoldable pub auth_handler : Access → ℕ → String → String → Access × Answer
auth_handler s now id token =
    if str_eq token s.token
    then (let made = create_session_cookie s now id in (made.0, authorized (made.1)))
    else (s, forbidden)

unfoldable pub login_page : Access → ℕ → String → Option String → Access × Answer
login_page s now id query =
    if token_matches s query
    then (let made = create_session_cookie s now id in (made.0, auto_login (made.1)))
    else (s, login_form)

abbrev pub forget : Access → String → Access
forget s id = record s { http_sessions = remove id s.http_sessions }

unfoldable pub session_cookie_middleware : Access → ℕ → Option String → Access × Answer
session_cookie_middleware s now header = elim (extract_cookie "session" header) [
  | none ↦ (s, redirect_to_login)
  | some id ↦ elim (lookup id s.http_sessions) [
    | none ↦ (s, redirect_to_login)
    | some e ↦
        if leb e.expires_at now
        then (forget s id, redirect_to_login)
        else if e.token_version == s.token_version
        then (s, proceed)
        else (forget s id, redirect_to_login)
  ]
]

-- `token` is the new one; the version is a 64-bit counter.
unfoldable pub regenerate_web_server_token : Access → String → Access
regenerate_web_server_token s token = record s {
  token = token;
  token_version = (s.token_version + 1) % 2 ^ 64;
}
