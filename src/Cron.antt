-- ===== src/Cron.antt =====
-- src/cron: schedules and their occurrences.
pub mod Time
pub mod Fields
pub mod Expand
pub mod Expansion
pub mod Steps
pub mod Skip
pub mod Zone
pub mod Scan
pub mod Schedule
pub mod Occurrences
pub mod Upcoming
pub mod Window
pub mod Next
pub mod Retry
pub mod Backoff
pub mod Commit
pub mod History
pub mod Runs
pub mod Locks
pub mod Quarantine
pub mod Exclusion
pub mod Examples
pub mod RunExamples
