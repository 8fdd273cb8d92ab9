-- ===== src/Session/Control/Waiters.antt =====
-- src-tauri/src/agent/session_actor.rs: a response finds its waiter.
use open_covibe_web.Common.{String, true, some, ◌≡◌, arith}
use open_covibe_web.Models.Json.{Json}
use open_covibe_web.Session.Actor.{SessionActor, note, resolved}
use open_covibe_web.Session.Control.{
  build_control_response, resolve_waiter, response_id, waits, remove_waiter, value_of,
}

-- A successful response built for a request id carries that id where a reader looks for it, so
-- that the waiter of the id, if there is one, gets the response and waits no longer.
pub build_control_response-resolve_waiter :
    (a : SessionActor) (id : String) (body : Json)
    → waits id a.control_waiters ≡ true
    → let sent = build_control_response id ("success", body) in
      (response_id sent ≡ some id)
      × (resolve_waiter a sent
          ≡ note
              (record a { control_waiters = remove_waiter id a.control_waiters })
              (resolved id (value_of "response" sent)))
unfolding build_control_response resolve_waiter
build_control_response-resolve_waiter a id body h = ground arith
