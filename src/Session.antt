-- ===== src/Session.antt =====
-- src/session.rs: the session journal.
pub mod Recovery
pub mod Scan
pub mod Journal
pub mod Append
pub mod Rescan
pub mod Stamped
pub mod Calls
pub mod Markers
pub mod Changes
pub mod Unresolved
pub mod Store
