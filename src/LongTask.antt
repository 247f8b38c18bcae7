-- ===== src/LongTask.antt =====
-- src/long_task.rs: the durable ledger of an opt-in long task. `Ledger` has the state and its
-- limits, `Apply` the replay of the journal, `Ops` the operations that write it.
pub mod Ledger
pub mod Apply
pub mod Ops
pub mod Cases
pub mod Replay
pub mod Recovery
pub mod Budget
pub mod Bindings
pub mod Resume
pub mod Creation
pub mod Invariant
mod Examples
