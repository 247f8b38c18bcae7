-- ===== src/Runtime.antt =====
-- src/runtime.rs: the agent loop's turns, its tool batches and its long-task provider gate.
pub mod Action
pub mod Tools
pub mod Answers
pub mod Journaled
pub mod NewCalls
pub mod Streams
pub mod Turns
pub mod Gate
pub mod GateSteps
pub mod Counted
pub mod Gated
pub mod Pauses
pub mod Deltas
pub mod Kept
pub mod Crashes
pub mod Examples
pub mod GateExamples
