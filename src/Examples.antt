-- ===== src/Examples.antt =====
-- The theorems at concrete inputs.
pub mod Fixtures
pub mod Services
pub mod Machines
pub mod Projectors
pub mod Ledger
pub mod Events
pub mod Ticks
pub mod Workers
pub mod Merges
pub mod Plans
pub mod Checks
pub mod Rebuilds
