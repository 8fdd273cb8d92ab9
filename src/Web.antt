-- ===== src/Web.antt =====
-- src-tauri/src/web_server: the access of browsers.
pub mod Auth
pub mod Live
pub mod Emitter
