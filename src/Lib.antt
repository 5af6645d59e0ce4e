-- ===== src/Lib.antt =====
-- The kernel of the agent runtime in agent-os: a daemon that runs agents, keeps all of their
-- state in one SQLite store, and reaches the outside world only through effects. Commands run in
-- store transactions; every service reads and writes its tables through compare-and-set
-- statements and stages its events in the same transaction.
--
-- Base holds shared tests, lists, keyed tables and the monad `Txn` of a service function: a
-- state in, a result and a state out, where the state keeps what was written also when the
-- function fails (the command coordinator then drops it). Domain holds the enums of
-- agent-os/crates/domain/src. Store holds the tables: Store/Models the rows of
-- agent-os/crates/kernel-store/src/models.rs, Store/Kernel the transaction, Store/Outbox the
-- staging of agent-os/crates/events/src/outbox.rs and the positions of streams.rs, and
-- Store/Runs, Store/Graph, Store/Effects, Store/Timers, Store/Leases and Store/Reservations the
-- statements of runs.rs, graph.rs, effects.rs, effect_claims.rs, timers.rs, workspace_leases.rs
-- and resources.rs in agent-os/crates/kernel-store-sqlite/src/repos, with the keys and checks of
-- the tables of leases and reservations in agent-os/schema/kernel_store.sql.
--
-- RunGraph is agent-os/crates/run-graph/src: Repository and Readiness are the files of those
-- names, AddDependency is `add_dependency` of graph.rs, Descendants is `descendants` of
-- repository.rs and Cancellation is cancellation.rs. Runtime is agent-os/crates/runtime/src:
-- State is `allows`, Transition is `transition` of run.rs, Claim is `claim_with_ids` of
-- claim.rs, Cancel is `cancel` of cancel.rs. Effects is agent-os/crates/effects/src: Record,
-- Contract, Executor, Reconcile and Policy are the files of those names; their `async` functions
-- are `Txn` functions with the clock's reading as an argument. Scheduler is
-- agent-os/crates/scheduler/src/lib.rs, Workspace/Leases is the lease half of
-- agent-os/crates/workspace/src/coordinator.rs, Resources is
-- agent-os/crates/resources/src/lib.rs (Kinds is `ResourceUnit`, Reservations the services), and
-- Queue/State is agent-os/crates/message-queue/src/in_memory.rs. Identity is
-- agent-os/crates/identity/src/delegation.rs: Capabilities the pairs of the contract, Chains the
-- hops, their validation and the derivation of a child; a `BTreeSet` is the ascending list of
-- its elements. Permissions/Catalogue is the table of
-- agent-os/crates/permissions/src/capabilities.rs. Workspace/Lock is an abstract lock of one
-- workspace. The other modules of each tree hold proofs; a `History` is any sequence of the
-- operations of its component. Examples holds tests and witnesses.
--
-- Bounds: identifiers, times and counters are natural numbers. A value that is bound to a column
-- is refused above 2^63-1, as `encode_u64` does; the statements' own `+ 1` on a stored column is
-- not bounded. The reachability query runs on fuel, one round for each edge and each queued run,
-- which is enough since expanding a run uses its edges up. The walk over the descendants of a
-- run has no bound in the source, and takes its fuel as an argument: it ends where parents are
-- well-founded, after one round for the root and one for each run that it answers. The loop of
-- the queue's eviction runs one round for each key of the insertion order, which its own counter
-- bounds. A reservation's amount is positive, so it is a natural number, and sums above 2^63-1
-- are refused as `checked_add` does.
--
-- Not modelled: forks and merges of workspaces, which copy files and run git; the parsing of a
-- queue consumer's options; the evaluation of permission requests; the stored rows of delegation
-- hops and the texts of capabilities and their scopes; the decoding of command payloads; event
-- identifiers, times, correlation and classification; the formatted parts of messages; foreign
-- keys; failures of the database itself. Identifiers and tokens that the code draws from a
-- provider, and the clock's reading, are arguments.
pub mod Base
pub mod Domain
pub mod Store
pub mod Workspace
pub mod Resources
pub mod Queue
pub mod Identity
pub mod Permissions
pub mod RunGraph
pub mod Runtime
pub mod Effects
pub mod Scheduler
pub mod Examples
