-- ===== src/Storage.antt =====
-- src-tauri/src/storage: the files of a run.
pub mod Runs
pub mod Index
pub mod Events
pub mod Writer
pub mod Tests
