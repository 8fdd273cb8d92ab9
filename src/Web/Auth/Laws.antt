-- ===== src/Web/Auth/Laws.antt =====
-- What a login is good for, and what ends it.
use open_covibe_web.Common.{
  ◌%◌, ◌==◌, ℕ, ◌+◌, ◌<◌, ◌^◌, String, eq_refl, false, Option, none, some, List, [], ◌∷◌, ◌≡◌, refl,
  arith, is_some, lookup, lookup-remove,
}
use open_covibe_web.Web.Auth.{
  Access, SessionEntry, proceed, redirect_to_login, live_part, any_live, cookie_parts,
  extract_cookie, authenticate_ws, validate_ws_auth_extracted, create_session_cookie, auth_handler,
  session_cookie_middleware, regenerate_web_server_token,
}

parts-agree :
    (s : Access) (now : ℕ) (ps : List String) → is_some (live_part s now ps) ≡ any_live s now ps
parts-agree s now [] = refl
parts-agree s now (p ∷ ps) = ground (arith, parts-agree s now ps)

-- The two checks of a WebSocket agree: one finds a subject exactly if the other says yes.
pub authenticate_ws-validate :
    (s : Access) (now : ℕ) (cookies query : Option String)
    → is_some (authenticate_ws s now cookies query) ≡ validate_ws_auth_extracted s now cookies query
unfolding authenticate_ws validate_ws_auth_extracted
authenticate_ws-validate s now cookies query =
    ground (arith, parts-agree s now (cookie_parts cookies))

-- After a login with the right token, a request whose session cookie is that of the login and that
-- comes less than a day after it passes, and changes nothing.
pub auth_handler-proceeds :
    (s : Access) (now later : ℕ) (id : String) (header : Option String)
    → extract_cookie "session" header ≡ some id
    → later < now + 86400
    → let after = (auth_handler s now id s.token).0 in
      session_cookie_middleware after later header ≡ (after, proceed)
unfolding auth_handler create_session_cookie session_cookie_middleware lookup
auth_handler-proceeds s now later id header e h = ground (arith, eq_refl id, eq_refl s.token)

bump : (v : ℕ) → v < 2 ^ 64 → ((v + 1) % 2 ^ 64 == v) ≡ false
bump v h = ground arith

-- A new token ends every session of the current version, a number below 2 ^ 64: the next request
-- with its cookie is sent to the login, and the session is forgotten.
pub regenerate-ends :
    (s : Access) (now : ℕ) (token id : String) (header : Option String) (entry : SessionEntry)
    → extract_cookie "session" header ≡ some id
    → lookup id s.http_sessions ≡ some entry
    → entry.token_version ≡ s.token_version
    → s.token_version < 2 ^ 64
    → let answered = session_cookie_middleware (regenerate_web_server_token s token) now header in
      (answered.1 ≡ redirect_to_login) × (lookup id (answered.0).http_sessions ≡ none)
unfolding session_cookie_middleware regenerate_web_server_token
regenerate-ends s now token id header entry e l v b =
    ground (arith, lookup-remove id id s.http_sessions, eq_refl id, bump s.token_version b)
