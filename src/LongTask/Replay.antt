-- ===== src/LongTask/Replay.antt =====
-- src/long_task.rs: what an operation appends, and what the replay makes of it.
pub mod Requests
pub mod Batches
pub mod Endings
use danso.Prelude.{none}
use danso.LongTask.Ledger.{Ledger}

-- The part of a ledger that the journal holds: a response that waits for its append is not in it.
abbrev pub durable : Ledger → Ledger
durable l = record l { pending_response = none }
