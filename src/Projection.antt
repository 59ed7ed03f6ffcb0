-- ===== src/Projection.antt =====
-- The projectors of crates/openclaw-orchestrator/src/app: each keeps a table of the current state up
-- to date with the events.
pub mod Instance
pub mod Cycle
pub mod Task
pub mod Run
pub mod Budget
pub mod Together
