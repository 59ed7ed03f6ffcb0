-- ===== src/Lib.antt =====
-- A verification library for openclaw-rs: the orchestrator, crates/openclaw-orchestrator, which takes
-- a prompt through a plan, tasks, and runs of workers.
--
-- Every change is an event (`EventEnvelope` of domain/events.rs) in the table `orch_events`. Projectors
-- (app/*_projector.rs) keep one table each up to date with the events, and a row of such a table
-- stands for a state of one of the machines of domain/states.rs.
--
-- The files, with paths in crates/openclaw-orchestrator/src:
--   * Errors: domain/errors.rs, infra/errors.rs, app/errors.rs, and the `?` operator as `>>=`.
--   * States: domain/states.rs. States/Instance, Cycle, Task, Run and Merge have a state, a trigger,
--     `transition` and `is_terminal` each; States/Laws has the theorems on the machines alone.
--   * Payload: `EventEnvelope`, and how a handler reads a payload.
--   * Sql: a table is a list of rows; `update_where` is UPDATE … WHERE, `insert_new` is INSERT … ON
--     CONFLICT (id) DO NOTHING. Sql/Rows, Sql/Handlers and Sql/Targets carry the proofs.
--   * Projection/Instance, Cycle, Task, Run and Budget: app/instance_projector.rs and so on. Each has a
--     definition for each event that `handle` matches on, `arms` for the match, and `handle`. Laws
--     relate what a projector does to any row with the machine; Follows says which row it is.
--     Task/Rebuild is about the rebuild of app/maintenance_service.rs.
--   * Store: infra/event_store.rs. `emit` reads the next number (`read_seq`) and then inserts (`write`);
--     Store/Interleaving lets other emitters come between the two.
--   * Schedule: app/scheduler.rs. `tick` is one transaction: `run_tick` has the steps, and `settle_tick` the
--     commit or the rollback. Schedule/Rows and Schedule/Queries have the rows and the statements.
--   * Act, Wire, Port: what the services share. `Act` is a state and a result with the error of the
--     service; Wire makes events; Port is the trait `EventStore` of domain/ports.rs as an interface, its
--     operations with the law that the services rely on, over the events that Port/Log describes.
--     Port/Postgres fills it with the store above.
--   * Workers: domain/worker.rs and app/worker_service.rs; Workers/Reconcile is app/reconciler.rs, and
--     Workers/Ticks app/tick_coordinator.rs. Dead, Once, Reported, Counted, Live and Over have
--     the theorems; Over takes the reports of the reconciler through the run projector.
--   * Merging: domain/git.rs; Merging/Attempts and Merging/Cycle are app/merge_service.rs. Flight
--     says by the events which merges are in flight; Retry, Guards and Cycle have the theorems.
--   * Planning: domain/planner.rs; Planning/Service is app/planner.rs, and Requested has the theorem.
--   * Maintenance: app/maintenance_service.rs, over the trait of app/projector.rs; Maintenance/Projectors
--     has the five projectors with their lists of event types. Rebuild and Guard have the theorems.
--   * Verifying: domain/verification.rs and app/verifier.rs; Verdict has the theorem.
--   * Examples: the theorems at concrete inputs.
--
-- What is not source is a parameter. `Serde` stands for serde_json and uuid. `Debug` stands for the
-- texts of `#[derive(Debug)]`. `Fault` is the answer of PostgreSQL to a statement: it does the
-- statement, or refuses it with a message and does nothing. What the scheduler takes from outside, ids
-- and the clock among it, is `Outside`. A UUID is a natural number, and a time its microseconds. The
-- sums of `i32` and `i64` in Rust wrap around, as in a release build. The services take the tables as
-- each of their queries finds them, with the answers of git, of the planner and of the worker manager.
-- The one function on fuel is the loop of `attempt_merge_with_retry`; max_retries + 1 rounds are enough.
--
-- Not modelled: the janitor of the orchestrator, the commands that the verifier runs, and the crates for
-- agents, bots and the web, which are mostly I/O. The tables have the keys that are named in their
-- modules; foreign keys, other unique keys and the checks of columns beyond the states are not part of
-- them, but a database that refuses a statement for one of these is covered by `Fault`.
pub mod Base
pub mod Errors
pub mod States
pub mod Sql
pub mod Payload
pub mod Projection
pub mod Store
pub mod Act
pub mod Wire
pub mod Port
pub mod Schedule
pub mod Workers
pub mod Merging
pub mod Planning
pub mod Maintenance
pub mod Verifying
pub mod Examples
