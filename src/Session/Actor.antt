-- ===== src/Session/Actor.antt =====
-- src-tauri/src/agent/session_actor.rs: the state of a session actor, and the primitives by which
-- its handlers change the state and the world. What a handler does to the outside is an effect,
-- put on `log`, the newest first. `Wire` is what the actor calls of the transports and the system.
pub mod State
pub mod Write
pub mod Status
pub use State.*
unfoldable pub use State.{spawn, map_state_to_run_status, emit_state, persist_idle_running}
unfoldable pub use Write.{
  write_line, write_json_line, interrupt_request, write_user_via, write_user_to_stdin,
  send_interrupt_to_cli, write_frames,
}
