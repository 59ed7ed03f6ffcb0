-- ===== src/States/Laws.antt =====
-- What holds of the state machines over whole sequences of triggers.
pub mod Terminal
pub mod Histories
pub mod Completion
