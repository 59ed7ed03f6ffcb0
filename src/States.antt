-- ===== src/States.antt =====
-- The five state machines of crates/openclaw-orchestrator/src/domain/states.rs.
pub mod Debug
pub mod Instance
pub mod Cycle
pub mod Task
pub mod Run
pub mod Merge
pub mod Laws
