-- ===== src/Codex.antt =====
-- The Codex `app-server` transport: src-tauri/src/agent/session_protocol.rs and codex_appserver.rs.
pub mod Protocol
pub mod Server
pub mod Response
pub mod Tests
pub mod Items
pub mod Events
pub mod Parse
pub mod Requests
pub mod Pipe
