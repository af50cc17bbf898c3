-- ===== src/Monitor.antt =====
-- The watcher, monitor/src.
pub mod Checks
pub mod Watch
pub mod Reading
