-- ===== src/Lib.antt =====
-- A model of brgr, which delegates tasks to coding harnesses and keeps their durable record.
--
-- The parts of the program and how they interact: crates/brgr-protocol has the types that all parts
-- share and the admission test of a task; crates/brgr-core/src/state.rs is the state machine of one
-- attempt in memory; crates/brgr-store is the database that every command and supervisor writes to,
-- one transaction at a time. A task belongs to an owner; a session is bound to the owner at an epoch
-- and must prove it for owner-side writes; a supervisor claims an attempt of a task revision, moves
-- it through its states and commits one terminal result; the owner acknowledges or decides it; a
-- handoff moves the owner to another session; a workflow run launches tasks as its steps. While a
-- task runs, its owner and its worker talk in messages, workers talk in debates, and notices of
-- results and runs are claimed and delivered. crates/brgr-core/src/lib.rs and execution.rs supervise:
-- they run the attempts of a task over the store and settle what a restart finds unfinished.
--
-- The files, with the code that each models:
--   Base          Boolean tests, tables as lists of rows, results, texts; no code of its own.
--   Protocol      crates/brgr-protocol/src/lib.rs: types; Validate is `TaskSpec::validate` and
--                 `validate_stored`, Paths is the test on evidence files; Admission and Confined
--                 are proofs.
--   Core          crates/brgr-core/src/state.rs: `TaskRevision`, `Attempt`, `transition`,
--                 `record_terminal`; Lifecycle, Trace and Revisions are proofs.
--   Store         crates/brgr-store/src/schema.rs and error.rs: rows, errors and the store.
--   Store/Owner   owner.rs. Binding and Epoch are its proofs.
--   Store/Takeovers, Handoff, Takeover   takeover.rs: the graph of states and the derived resume;
--                 the checks of a manifest, with a proof in Owned; the operations, the last ones
--                 in Closing, and Claim the claim of an abandoned head. Below Takeover, Moves
--                 describes every operation but that claim as one step, and
--                 OneOpen, Trail and Commit are proofs.
--   Store/Settle  `revision_settlement_on` of result.rs.
--   Store/Attempts   attempt.rs and its helpers in lib.rs; Writes and Terminal are the commit of a
--                 result; Rows describes every operation as one step, with the proofs below it;
--                 Agreement compares two tables of transitions.
--   Store/Inbox   result.rs and `record_decision_in_transaction` of lib.rs; Sole is its proof.
--   Store/Delegation, Tasks   delegation.rs, tree.rs and task.rs; Depth and Replay are proofs.
--   Store/Subtree tree.rs: `subtree`, `record_cancellation_intents`; `is_task_owner_ancestor` of
--                 delegation.rs. Covered is its proof.
--   Store/StepKey, Workflow   workflow.rs; Retry and Frozen are proofs.
--   Rows          crates/brgr-store/src/schema.rs, message.rs and debate.rs: the rows of messages,
--                 debates, surfaces and events.
--   Store/Contention   contention.rs: the retry on a busy database; Bounded is its proof.
--   Store/Messages     message.rs. Threads and Questions are proofs.
--   Store/Debates      debate.rs; Calls lists its operations; Stopped, Seated and Native are proofs.
--   Store/Notifications   notification.rs. Leases and Once are proofs.
--   Supervise     crates/brgr-core/src/lib.rs: `reconcile_after_restart`; Stale and Restart are
--                 proofs. Run is execution.rs from the end of a process to its result, with a proof
--                 in Recorded; Single is `run_single_attempt` and `run_fresh_controlled`, with proofs
--                 in Results, Committed and Bounded; Recover is `recover_external_report`.
--   Store/Names   the texts of the state columns.
--   Scenarios     runs on concrete rows, at which the theorems are applied.
--
-- Conventions: a UUID and a machine integer are numbers, with the checks of range that the code
-- makes; a table is a list, the newest row first, so `ORDER BY rowid DESC LIMIT 1` is `find?`; a
-- write transaction is a function from the store to a result with the new store, and an error
-- carries none, since the transaction is rolled back; keys and unique indices are tests at the
-- insert; a JSON column holds the value. Fresh ids are arguments. The retry on a busy
-- database takes fuel: 47 calls are enough for its budget, since its first 46 delays add up to it.
-- The attempts of a fresh run count down from the budget of its task. All other recursion is on
-- lists. `Platform` holds what the store takes from elsewhere: digests, texts of values and
-- the check of a sealed artifact on disk.
--
-- In Supervise a process is a function that may change the store and ends with an output or an
-- error, and so are the writes of others between the turns of a reconciliation; the ids of results
-- and events are functions; an error ends a run with what was written before it, and only the error
-- is modelled. An exit code is a natural number. The read, the check of open work and the write
-- transaction of `resume_idle_takeover` are one step, and so are the two halves of a commit.
--
-- Not modelled: SQLite's locking, so that concurrent writers are the order of their transactions;
-- attempt clocks; artifacts on disk; readers that only list rows, with the board;
-- the processes themselves, git and sealed evidence, which are parameters
-- of Supervise; the registry, the rest of the runner and the command line.
pub mod Base
pub mod Protocol
pub mod Rows
pub mod Core
pub mod Store
pub mod Supervise
pub mod Scenarios
