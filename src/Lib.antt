-- ===== src/Lib.antt =====
-- danso: a coding agent that runs model requests and tools over an append-only session journal,
-- with an opt-in long-task mode that survives cancellation and restarts.
--
-- LongTask (src/long_task.rs). The ledger of a long task is a fold over body-free journal records.
-- `LongTask/Ledger` has the limits, the states, the ledger and the readers of a record;
-- `LongTask/Apply` is `Ledger::apply`, one function for each event of its match, and
-- `Ledger::from_records`; `LongTask/Ops` has the operations that write the journal. Each operation
-- of the source checks, appends one record and then updates the ledger: it is a plan (`plan_begin`
-- for `begin_request` and so on) that `commit` carries out on a `SessionStore`, so that the order of
-- append and update, which is the same in all nine, is written once and not proved; a store is the
-- part of the trait of src/contracts.rs that the ledger uses, with the law that a successful append adds its
-- record at the end. Machine integers are natural numbers with `checked_add`, `saturating_mul` and
-- wrap-around where the source has them. An `anyhow` failure is its message. The proofs about the
-- ledger stand in `LongTask/Invariant`, `LongTask/Replay`, `LongTask/Recovery`, `LongTask/Budget`,
-- `LongTask/Resume` and `LongTask/Creation`.
--
-- Cron (src/cron). `Cron/Time` has instants and wall-clock times, both as natural numbers of
-- nanoseconds; `Cron/Expand`, `Cron/Fields`, `Cron/Zone` and `Cron/Schedule` are schedule.rs from
-- `expand_field` up to `schedule_occurrences` and `next_after`. chrono's calendar and the
-- time-zone database are parameters. What is relied on of the database is that two instants of one
-- day with the same offset have that offset in between, as the comment on `first_match_zone` says.
-- The scan and the loops run on fuel, one round for each minute or step left, and each round moves
-- on by one at least. An integer that can be negative in the store is an ℤ. `Cron/Retry` is
-- retry.rs, `Cron/Commit` the part of commit.rs that changes a task, and `Cron/Locks` the run lock
-- of locks.rs with `lock_status` of due.rs: a task's lock file is a value, the file system's
-- answers, failing reads among them, are arguments, and `Cron/Quarantine` and `Cron/Exclusion`
-- follow the file over sequences of operations. Reading and printing a stamp is the interface
-- `Stamps`; nothing is assumed of it, and the theorems hold of whatever a stamp is read back as.
--
-- Supervise (crates/danso-ops/src/supervise.rs). The test of an operator's stop and the window of
-- rapid crashes.
--
-- Session (src/session.rs). `Session/Journal` is the journal in memory with every operation that
-- appends to it; what an append takes from outside (the ids that are drawn, the clock, the file's
-- length and the result of writing) is its `Input`, one for each append. `Session/Recovery` is the
-- state of the tool calls, `Session/Scan` the reading of a whole journal. `fresh_id` is given the ids
-- that are drawn, and has no id where all of them are taken, when the code draws on. `Session/Append`,
-- `Session/Stamped` and `Session/Rescan` are about a journal that is read again after an append,
-- `Session/Calls`, `Session/Markers`, `Session/Changes` and `Session/Unresolved` about its markers, and `Session/Store`
-- makes the journal the store of the long-task ledger. `LongTask/Bindings` is `validate_bindings` of
-- src/long_task.rs.
--
-- Compaction (src/compaction.rs). The checkpoint of a compacted context, its receipts and the
-- validation of a summary, and in `Compaction/Elision` the elision of old tool results; serde_json's
-- text of a document is an argument, the `Printer`.
--
-- Runtime (src/runtime.rs, with src/contracts.rs in `Contracts`). `Runtime/Tools` is a turn of the
-- loop: the checks on the provider's message, the append, the interim stream and the tool batch, as
-- actions on the session store, the outside world and the usage receipt (`Runtime/Action`); the
-- provider, the executor and the sink are the interface `Host`. A failure's category is left out.
-- `Runtime/Answers`, `Runtime/NewCalls`, `Runtime/Journaled`, `Runtime/Streams` and `Runtime/Turns`
-- put the loop on the session journal, `Runtime/Kept` and `Runtime/Crashes` follow a call that stops on
-- the way. `Runtime/Gate` is the gate of a long task around a provider request with its settlement,
-- failure and pause; the proofs about it are in `Runtime/GateSteps`, `Runtime/Gated`,
-- `Runtime/Counted`, `Runtime/Pauses` and `Runtime/Deltas`.
--
-- Usage (src/usage.rs). The counters of a run, with saturation and overflow as in the source.
--
-- Json is the part of serde_json's documents that the code reads: a value is a tree, an object the
-- list of its fields, which have distinct names.
--
-- Not modelled: the rest of `parse_schedule`, the stamps of time.rs, the due row and the store's
-- validation; files, processes, HTTP and the model providers; opening and locking the session file;
-- of `run`, the loop itself with its compaction and repeat guards; the requests of `summarize`;
-- `inspect_entries` and the status of a ledger, which only report; the digest of a tool batch, which
-- is an argument of the operations that record it; memory, the channels, the wiki, the tools and the
-- deployment commands.
pub mod Compaction
pub mod Contracts
pub mod Cron
pub mod Json
pub mod LongTask
pub mod Prelude
pub mod Runtime
pub mod Session
pub mod Supervise
pub mod Usage
