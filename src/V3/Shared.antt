-- ===== src/V3/Shared.antt =====
-- What a connection shares between its dispatcher and its sinks (src/v3/shared.rs).
pub mod State
pub mod Operations
pub mod Ids
pub mod Wakes
pub mod Order
pub mod Runs
pub mod Acks
pub mod NextId
mod Tests
