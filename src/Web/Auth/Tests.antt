-- ===== src/Web/Auth/Tests.antt =====
-- A server with one session.
use open_covibe_web.Common.{some, none, [], ◌∷◌, ◌≡◌, refl, arith, is_some, lookup, trim}
use open_covibe_web.Web.Auth.{
  Access, SessionEntry, proceed, redirect_to_login, extract_cookie, authenticate_ws,
  validate_ws_auth_extracted, auth_handler, session_cookie_middleware, regenerate_web_server_token,
}
use open_covibe_web.Web.Auth.Laws.{authenticate_ws-validate, auth_handler-proceeds, regenerate-ends}

abbrev an_entry : SessionEntry
an_entry = record { issued_at = 100; expires_at = 86500; token_version = 2 }

abbrev a_server : Access
a_server = record { token = "secret"; token_version = 2; http_sessions = ("s1", an_entry) ∷ [] }

authenticate_ws-validate_example :
    is_some (authenticate_ws a_server 200 (some "theme=dark; session=s1") none)
    ≡ validate_ws_auth_extracted a_server 200 (some "theme=dark; session=s1") none
authenticate_ws-validate_example =
    authenticate_ws-validate a_server 200 (some "theme=dark; session=s1") none

second_cookie : extract_cookie "session" (some "theme=dark; session=s2") ≡ some "s2"
unfolding extract_cookie trim
second_cookie = refl

first_cookie : extract_cookie "session" (some "session=s1") ≡ some "s1"
unfolding extract_cookie trim
first_cookie = refl

auth_handler-proceeds_example :
    let after = (auth_handler a_server 300 "s2" a_server.token).0 in
    session_cookie_middleware after 86000 (some "theme=dark; session=s2") ≡ (after, proceed)
auth_handler-proceeds_example =
    auth_handler-proceeds a_server 300 86000 "s2" (some "theme=dark; session=s2") second_cookie
      (omega arith)

regenerate-ends_example :
    let answered =
      session_cookie_middleware
        (regenerate_web_server_token a_server "other")
        400
        (some "session=s1") in
    (answered.1 ≡ redirect_to_login) × (lookup "s1" (answered.0).http_sessions ≡ none)
unfolding lookup
regenerate-ends_example =
    regenerate-ends a_server 400 "other" "s1" (some "session=s1") an_entry first_cookie refl refl
      (omega arith)
