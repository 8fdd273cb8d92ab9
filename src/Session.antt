-- ===== src/Session.antt =====
-- src-tauri/src/agent: the session actor and its turn engine.
pub mod Turn
pub mod Ralph
pub mod Actor
pub mod Dispatch
pub mod Finish
pub mod Timeout
pub mod Control
pub mod CodexControl
pub mod Stdout
pub mod Stderr
pub mod Loop
pub mod Frame
pub mod Invariant
pub mod Ledger
pub mod Safe
pub mod Attachments
pub mod SpawnLocks
pub mod Tests
